-- ===== src/Spsc/Safety.antt =====
-- What the lock-free ring guarantees between one writer and one reader.
use shm_cpp.Common.{
  ℕ, ◌+◌, ◌≤◌, ◌<◌, ◌≡◌, ◌∙◌, sym, ap, arith, List, ◌++◌, length, take, drop, drop-length_append,
  true, ltb, sub64, add64, length-append,
}
use shm_cpp.Ring.{IsCapacity, ring_phys, ring_copy_out}
use shm_cpp.Spsc.{Writer, Reader, System, Reach}
use shm_cpp.Spsc.Invariant.{Inv, writer_at}
use shm_cpp.Spsc.Reading.{copy_out-Inv}
use shm_cpp.Spsc.Reachable.{Reach-Inv}

module _ {cap : ℕ} (c : IsCapacity cap) where
  sizes : {s : System} {q : List ℕ} → Inv cap s q → length s.sent ≡ length s.got + length q
  sizes {s} {q} v = ap length v.split ∙ length-append s.got q

  unread_drop : {s : System} {q : List ℕ} → Inv cap s q → drop (length s.got) s.sent ≡ q
  unread_drop {s} {q} v = rw v.split (drop-length_append s.got q)

  refused_write :
      {s : System} {q src : List ℕ} {len w : ℕ}
      → Inv cap s q
      → s.writer ≡ Writer.loaded src len w
      → ltb cap (sub64 (add64 w len) s.mem.read_pos) ≡ true
      → length s.got + cap < length s.sent + len
  refused_write v e f =
      let (at_end, given, small) = writer_at c v e in
      ground (arith, sizes v, v.holds.writes, v.holds.reads, v.holds.window.size, c.fits)

  -- In every reachable state the reader has returned a prefix of what the writer has published, in
  -- order and unchanged, and the rest is at most `cap` bytes.
  pub got-prefix :
      {s : System} → Reach cap s → (q : List ℕ) × (s.sent ≡ s.got ++ q) × (length q ≤ cap)
  got-prefix r = let (q, v) = Reach-Inv c r in (q, v.split, v.holds.window.size)

  -- Whatever steps the writer makes while the reader copies, what it copies are the next `n` bytes
  -- that were published: no step overwrites them.
  pub reading_stable :
      {s : System} (p n : ℕ)
      → Reach cap s
      → s.reader ≡ Reader.reading p n
      → ring_copy_out cap s.mem.bytes (ring_phys cap p) n ≡ take n (drop (length s.got) s.sent)
  reading_stable {s} p n r e =
      let (q, v) = Reach-Inv c r in
      (copy_out-Inv c v e).reader_ok.2 ∙ sym (ap (take n) (unread_drop v))

  -- `TryWrite` gives up only where the bytes would not have fit beside the bytes that are unread then.
  pub full_honest :
      {s : System} {src : List ℕ} {len w : ℕ}
      → Reach cap s
      → s.writer ≡ Writer.loaded src len w
      → ltb cap (sub64 (add64 w len) s.mem.read_pos) ≡ true
      → length s.got + cap < length s.sent + len
  full_honest r e f = let (q, v) = Reach-Inv c r in refused_write v e f
