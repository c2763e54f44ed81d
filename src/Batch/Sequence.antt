-- ===== src/Batch/Sequence.antt =====
-- A batch of writes with one flush, against `RingBuf::TryWrite` called for each of them.
use shm_cpp.Common.{
  ℕ, suc, ◌+◌, ◌≡◌, refl, sym, ap, ◌∙◌, arith, true, Option, none, some, List, [], ◌∷◌,
}
use shm_cpp.Ring
use shm_cpp.Ring.{Shm, Code, ok, err, max_write_size, ring_copy_in, ring_phys}
use shm_cpp.Batch.{Batch, start, try_write, flush}

-- A call's data pointer and length.
abbrev pub Piece : Type 0
Piece = Option (List ℕ) × ℕ

unfoldable pub stage_all : ℕ → Shm → Batch → List Piece → List Code × Shm × Batch
stage_all cap m b [] = ([], m, b)
stage_all cap m b ((src, len) ∷ ws) =
    let (c, m', b') = try_write cap m b src len in
    let (cs, m'', b'') = stage_all cap m' b' ws in (c ∷ cs, m'', b'')

unfoldable pub write_all : ℕ → Shm → List Piece → List Code × Shm
write_all cap m [] = ([], m)
write_all cap m ((src, len) ∷ ws) =
    let (c, m') = Ring.try_write cap m src len in
    let (cs, m'') = write_all cap m' ws in (c ∷ cs, m'')

abbrev pub successes : List Code → ℕ
successes [] = 0
successes (ok ∷ cs) = suc (successes cs)
successes (err ∷ cs) = successes cs

-- What the writer publishes if it is flushed at this point.
abbrev flushed : Shm → Batch → Shm
flushed m b = record m { write_pos = b.w }

-- The writer and the memory fit together: nothing but the writer has moved `write_pos`.
record IsOpen (m : Shm) (b : Batch) : Type 0 where
  live : b.live ≡ true
  reads : b.r ≡ m.read_pos
  begun : b.w_start ≡ m.write_pos

module _ (cap : ℕ) {m : Shm} {b : Batch} (g : IsOpen m b) where
  stage-IsOpen :
      (src : Option (List ℕ)) (len : ℕ)
      → let (c, m', b') = try_write cap m b src len in IsOpen m' b'
  unfolding try_write
  stage-IsOpen none len = g
  stage-IsOpen (some src) len = ground (arith, g.live, g.reads, g.begun)

  stage-write :
      (src : Option (List ℕ)) (len : ℕ)
      → let (c, m', b') = try_write cap m b src len in
        Ring.try_write cap (flushed m b) src len ≡ (c, flushed m' b')
  unfolding try_write Ring.try_write
  stage-write none len = refl
  stage-write (some src) len = rw g.reads (ground arith)

  stage-count :
      (src : Option (List ℕ)) (len : ℕ)
      → let (c, m', b') = try_write cap m b src len in b'.count ≡ successes (c ∷ []) + b.count
  unfolding try_write
  stage-count none len = omega arith
  stage-count (some src) len = ground arith

flush-flushed : {m : Shm} {b : Batch} → IsOpen m b → (flush m b).1 ≡ flushed m b
unfolding flush
flush-flushed {m} {b} g = rw g.live (ground (arith, g.begun))

stage_all-write_all :
    (cap : ℕ) (ws : List Piece) {m : Shm} {b : Batch}
    → IsOpen m b
    → let (cs, m', b') = stage_all cap m b ws in
      IsOpen m' b'
      × (write_all cap (flushed m b) ws ≡ (cs, flushed m' b'))
      × (b'.count ≡ successes cs + b.count)
unfolding stage_all write_all
stage_all-write_all cap [] g = (g, refl, omega arith)
stage_all-write_all cap ((src, len) ∷ ws) g =
    let (o, e, n) = stage_all-write_all cap ws (stage-IsOpen cap g src len) in
    (o, rw (stage-write cap g src len, e), ground (arith, n, stage-count cap g src len))

-- Staging any writes and flushing once answers each of them as `TryWrite` would have, leaves the same
-- memory, and the flush answers the number that succeeded.
pub flush-write_all :
    (cap : ℕ) (m : Shm) (ws : List Piece)
    → let (cs, m', b') = stage_all cap m (start m) ws in
      let (n, m'', b'') = flush m' b' in (write_all cap m ws ≡ (cs, m'')) × (n ≡ successes cs)
unfolding start
flush-write_all cap m ws =
    let (o, e, n) = stage_all-write_all cap ws fresh in
    (e ∙ ap (λ t. ((stage_all cap m (start m) ws).0, t)) (sym (flush-flushed o)), counted o n)
  where
    fresh : IsOpen m (start m)
    fresh = record { live = refl; reads = refl; begun = refl }

    counted :
        {m' : Shm} {b' : Batch} {k : ℕ} → IsOpen m' b' → b'.count ≡ k + 0 → (flush m' b').0 ≡ k
    counted o e = unfold flush in rw o.live (ground arith)
