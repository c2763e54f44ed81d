-- ===== src/Connection/Chunks.antt =====
-- `WriteRaw` of include/shm_ipc/shm_connection.hpp writes all bytes or none.
use shm_cpp.Common.{
  ℕ, zero, suc, ◌+◌, ◌-◌, ◌≤◌, ◌<◌, ◌≡◌, refl, sym, ap, ◌∙◌, true, false, some, List, ◌++◌,
  append_assoc, append-nil, min, length, take, drop, ltb, ◌==◌, if◌then◌else◌, u32, arith,
  Bool-cases, inl, inr, ◌||◌, not, take-append_more, take-append-drop, length-append, length-take,
  length-drop,
}
use shm_cpp.Ring.{ok, IsCapacity, max_write_size}
use shm_cpp.Ring.Queue
use shm_cpp.Ring.Window.{Holds}
use shm_cpp.Ring.Write.{try_write-push}
use shm_cpp.Ring.Read.{free_space-length}
use shm_cpp.Channel.{Channel, try_write, writable_bytes, notify_peer}
use shm_cpp.Connection.{after_chunk, write_chunks, wake, write_raw}

-- What `n` chunks hold at most.
turns : ℕ → ℕ → ℕ
turns zero h = 0
turns (suc n) h = h + turns n h

take-append-take :
    (k m : ℕ) (xs : List ℕ)
    → k ≤ m
    → k ≤ length xs
    → take k xs ++ take (m - k) (drop k xs) ≡ take m xs
take-append-take k m xs h few =
    sym (take-append_more (take k xs) (drop k xs) m (m - k) (omega (arith, length-take k xs)))
    ∙ ap (take m) (take-append-drop k xs)

-- The channel after `x` was written behind the unread bytes `q`.
pub record Wrote (cap : ℕ) (ch ch' : Channel) (r : ℕ) (q x : List ℕ) : Type 0 where
  pub holds : Holds cap ch'.write_ring r (q ++ x)
  pub same_notified : ch'.notified ≡ ch.notified
  pub same_read : ch'.read_ring ≡ ch.read_ring

module _ {cap : ℕ} (c : IsCapacity cap) where
  chunk-Wrote :
      (ch : Channel) (p : List ℕ) (len : ℕ) {r : ℕ} {q : List ℕ}
      → Holds cap ch.write_ring r q
      → len ≤ length p
      → 0 < len
      → len ≤ max_write_size cap
      → length q + len ≤ cap
      → ((try_write cap ch (some p) len).0 ≡ ok)
        × Wrote cap ch (try_write cap ch (some p) len).1 r q (take len p)
  unfolding try_write Queue.push
  chunk-Wrote ch p len {q} h given pos short room =
      let (code, holds) = try_write-push c h (some p) len (given, omega (arith, c.fits)) in
      (
        code ∙ ground arith,
        record { holds = rw accepted at holds; same_notified = refl; same_read = refl },
      )
    where
      accepted : (len == 0 || ltb (max_write_size cap) len || ltb cap (length q + len)) ≡ false
      accepted = ground arith

  -- The first chunk and then what is left.
  Wrote-then :
      {ch ch1 ch2 : Channel} {r : ℕ} {q x y : List ℕ}
      → Wrote cap ch ch1 r q x
      → Wrote cap ch1 ch2 r (q ++ x) y
      → Wrote cap ch ch2 r q (x ++ y)
  Wrote-then {q} {x} {y} v w = record {
    holds = rw (← append_assoc q x y) w.holds;
    same_notified = w.same_notified ∙ v.same_notified;
    same_read = w.same_read ∙ v.same_read;
  }

  -- Enough turns write all that fits.
  write_chunks-Wrote :
      (n : ℕ) (ch : Channel) (p : List ℕ) (left : ℕ) {r : ℕ} {q : List ℕ}
      → Holds cap ch.write_ring r q
      → left ≤ length p
      → length q + left ≤ cap
      → left ≤ turns n (max_write_size cap)
      → (ch' : Channel) × (write_chunks (suc n) cap p left ch ≡ some (true, ch'))
        × Wrote cap ch ch' r q (take left p)
  unfolding turns write_chunks after_chunk
  write_chunks-Wrote n ch p zero {q} h given room few =
      (ch, refl, record { holds = rw (append-nil q) h; same_notified = refl; same_read = refl })
  write_chunks-Wrote zero ch p (suc left) h given room few = absurd (omega arith)
  write_chunks-Wrote (suc n) ch p (suc left) {r} {q} h given room few =
      let k : ℕ = min (suc left) (u32 (max_write_size cap)) in
      let ch1 : Channel = (try_write cap ch (some p) k).1 in
      let (code, first) =
        chunk-Wrote ch p k h (omega arith) (omega (arith, c.fits, c.at_least))
          (omega (arith, c.fits)) (omega arith) in
      let (ch2, e, later) =
        write_chunks-Wrote n ch1 (drop k p) (suc left - k) first.holds
          (omega (arith, length-drop k p))
          (omega (arith, length-append q (take k p), length-take k p)) (omega (arith, c.fits)) in
      (
        ch2,
        ap (λ t. after_chunk t (write_chunks (suc n) cap (drop k p) (suc left - k)) ch1) code ∙ e,
        rw (take-append-take k (suc left) p (omega arith) (omega arith)) at
            (Wrote-then first later),
      )

  full :
      (ch : Channel) {r : ℕ} {q : List ℕ}
      → Holds cap ch.write_ring r q
      → writable_bytes cap ch ≡ cap - length q
  unfolding writable_bytes
  full ch h = free_space-length c h

  turns-enough : (n : ℕ) → n ≤ cap → n ≤ turns 3 (max_write_size cap)
  unfolding turns
  turns-enough n few = omega (arith, c.at_least)

  -- `WriteRaw` comes back: with `true` and all bytes in the ring behind the unread ones and one wake-up,
  -- if there is room for all of them; with `false` and nothing written, if there is not. An empty
  -- message succeeds without a wake-up.
  pub write_raw_lem :
      (ch : Channel) (src : List ℕ) (len : ℕ) {r : ℕ} {q : List ℕ}
      → Holds cap ch.write_ring r q
      → len ≤ length src
      → let no_room = ltb cap (length q + len) in
        (ch' : Channel) × (write_raw cap ch src len ≡ some (not no_room, ch'))
        × Holds cap ch'.write_ring r (if no_room then q else q ++ take len src)
        × (ch'.notified ≡ (if no_room || len == 0 then ch.notified else ch.notified + 1))
        × (ch'.read_ring ≡ ch.read_ring)
  unfolding write_raw notify_peer
  write_raw_lem ch src zero {r} {q} h given =
      let fits : ltb cap (length q + 0) ≡ false = ground (arith, h.window.size) in
      rw fits (ch, refl, rw (append-nil q) h, refl, refl)
  write_raw_lem ch src (suc l) {r} {q} h given =
      let filled : (suc l == 0) ≡ false = ground arith in
      rw (full ch h, filled)
        (elim (Bool-cases (ltb cap (length q + suc l))) [
          | inl over ↦
              let short : ltb (cap - length q) (suc l) ≡ true = ground arith in
              rw (short, over) (ch, refl, h, refl, refl)
          | inr fits ↦
              let (ch', e, w) =
                write_chunks-Wrote 3 ch src (suc l) h given (ground arith)
                  (turns-enough (suc l) (ground arith)) in
              let short : ltb (cap - length q) (suc l) ≡ false = ground arith in
              rw (short, fits)
                (notify_peer ch', ap wake e, w.holds, ap (λ n. n + 1) w.same_notified, w.same_read)
        ])
