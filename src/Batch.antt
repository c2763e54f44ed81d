-- ===== src/Batch.antt =====
-- `detail::BatchWriter` of include/shm_ipc/ringbuf.hpp: writes that are staged behind the published
-- ones and are published by one store. The shared memory is passed beside the writer.
pub mod Staged
pub mod Sequence
use shm_cpp.Common.{
  ℕ, ◌+◌, ◌-◌, Bool, true, false, Option, none, some, List, ◌||◌, ltb, ◌==◌, if◌then◌else◌, add64,
  sub64,
}
use shm_cpp.Ring.{Shm, Code, ok, err, max_write_size, memcpy, ring_phys, ring_copy_in}

-- `live` is `hdr_ != nullptr`. The counter is an `int`, far from its bound while each write takes a
-- byte of the ring.
pub record Batch : Type 0 where
  pub live : Bool
  pub w : ℕ
  pub r : ℕ
  pub w_start : ℕ
  pub count : ℕ

unfoldable pub start : Shm → Batch
start m = record { live = true; w = m.write_pos; r = m.read_pos; w_start = m.write_pos; count = 0 }

-- The move constructor: the new writer, and what is left of the old one.
unfoldable pub move : Batch → Batch × Batch
move b = (b, record b { live = false })

unfoldable pub try_write : ℕ → Shm → Batch → Option (List ℕ) → ℕ → Code × Shm × Batch
try_write cap m b none len = (err, m, b)
try_write cap m b (some src) len =
    if len == 0 || ltb (max_write_size cap) len
    then (err, m, b)
    else if ltb cap (sub64 (add64 b.w len) b.r)
    then (err, m, b)
    else (
      ok,
      record m { bytes = ring_copy_in cap m.bytes (ring_phys cap b.w) src len },
      record b { w = add64 b.w len; count = b.count + 1 },
    )

-- The count of writes that is returned, the memory, and the writer.
unfoldable pub flush : Shm → Batch → ℕ × Shm × Batch
flush m b =
    if b.live
    then if b.w == b.w_start
      then (b.count, m, record b { count = 0 })
      else (b.count, record m { write_pos = b.w }, record b { w_start = b.w; count = 0 })
    else (0, m, b)

unfoldable pub pending_bytes : Batch → ℕ
pending_bytes b = sub64 b.w b.w_start

unfoldable pub cancel : Batch → Batch
cancel b = record b { w = b.w_start; count = 0 }

unfoldable pub rewind_to : Batch → ℕ → ℕ → Batch
rewind_to b pending count = record b { w = add64 b.w_start pending; count = count }

unfoldable pub free_bytes : ℕ → Batch → ℕ
free_bytes cap b = sub64 cap (sub64 b.w b.r)

-- The offset of the reserved bytes in the data area; `none` is `nullptr`.
unfoldable pub reserve : ℕ → Batch → ℕ → Option ℕ
reserve cap b len =
    let phys_w = ring_phys cap b.w in
    if len == 0 || ltb (max_write_size cap) len
    then none
    else if ltb cap (sub64 (add64 b.w len) b.r)
    then none
    else if ltb (cap - phys_w) len
    then none
    else some phys_w

unfoldable pub commit_reserve : Batch → ℕ → Batch
commit_reserve b len = record b { w = add64 b.w len; count = b.count + 1 }

-- What a caller does between the two: it fills the reserved bytes.
unfoldable pub fill : Shm → ℕ → List ℕ → ℕ → Shm
fill m off src len = record m { bytes = memcpy m.bytes off src len }
