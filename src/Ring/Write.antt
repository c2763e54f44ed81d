-- ===== src/Ring/Write.antt =====
-- `Init` and `TryWrite` of include/shm_ipc/ringbuf.hpp against the queue of unread bytes.
use shm_cpp.Common.{
  ℕ, ◌+◌, ◌%◌, ◌≤◌, ◌≡◌, refl, arith, Option, none, some, List, [], ◌++◌, length, take, u64_mod,
  add64, sub64, length-append, length-take, length-replicate,
}
use shm_cpp.Ring.{Shm, IsCapacity, ring_phys, ring_copy_in, init, try_write}
use shm_cpp.Ring.Window.{Holds, Window-copy_in}
use shm_cpp.Ring.Queue

-- The memory that `Init` has zeroed holds no byte.
pub init-Holds : (cap : ℕ) → Holds cap (init cap) 0 []
unfolding init
init-Holds cap = record {
  window = record {
    area = length-replicate cap 0;
    size = omega arith;
    at = λ i h. absurd (omega arith);
  };
  reads = refl;
  writes = refl;
}

module _ {cap : ℕ} {m : Shm} {r : ℕ} {q : List ℕ} (c : IsCapacity cap) (h : Holds cap m r q) where
  -- The memory after a write that fits.
  pub write-Holds :
      (src : List ℕ) (len : ℕ)
      → len ≤ length src
      → length q + len ≤ cap
      → Holds cap
          (record m {
            bytes = ring_copy_in cap m.bytes (ring_phys cap m.write_pos) src len;
            write_pos = (m.write_pos + len) % u64_mod;
          })
          r
          (q ++ take len src)
  write-Holds src len given room = record {
    window = rw h.writes (Window-copy_in c h.window src len given room);
    reads = h.reads;
    writes = omega (arith, h.writes, length-append q (take len src), length-take len src);
  }

  -- `TryWrite`, with a length that the data has, answers what a push to the queue answers, and leaves
  -- the ring holding the queue after it.
  pub try_write-push :
      (src : Option (List ℕ)) (len : ℕ)
      → Queue.Allowed q (Queue.write src len)
      → ((try_write cap m src len).0 ≡ (Queue.push cap q src len).0)
        × Holds cap (try_write cap m src len).1 r (Queue.push cap q src len).1
  unfolding try_write Queue.push
  try_write-push none len given = (refl, h)
  try_write-push (some src) len given = rw used (ground (arith, write-Holds src len given.0))
    where
      used : sub64 (add64 m.write_pos len) m.read_pos ≡ length q + len
      used = omega (arith, h.writes, h.reads, h.window.size, c.fits)
