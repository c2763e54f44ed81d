-- ===== src/Ring.antt =====
-- The byte ring of include/shm_ipc/ringbuf.hpp: shared memory with one write and one read position,
-- and the static methods of `RingBuf<Capacity>`. A method that changes the memory returns the new
-- memory beside its result. A pointer argument that may be null is an `Option`.
pub mod Capacity
pub mod Window
pub mod Copy
pub mod Write
pub mod Read
pub mod Queue
pub mod Refine
use shm_cpp.Common.{
  ℕ, ◌+◌, ◌-◌, ◌*◌, ◌/◌, ◌≡◌, ◌≤◌, Option, none, some, List, [], ◌∷◌, ◌++◌, ◌||◌, bit_and, ltb, leb,
  ◌==◌, if◌then◌else◌, take, drop, replicate, u32, u32_mod, add64, sub64,
}

-- The shared region: `RingHeader` and the data area behind it.
pub record Shm : Type 0 where
  pub write_pos : ℕ
  pub read_pos : ℕ
  pub bytes : List ℕ

-- The integer results 0 and -1.
pub data Code : Type 0 where
  ok err : Code

-- The `static_assert`s of `RingBuf`.
pub record IsCapacity (cap : ℕ) : Type 0 where
  pub power : bit_and cap (cap - 1) ≡ 0
  pub at_least : 1024 ≤ cap
  pub fits : cap ≤ u32_mod - 1

abbrev pub max_write_size : ℕ → ℕ
max_write_size cap = cap / 2

-- `memcpy(dst + off, src, len)`
abbrev pub memcpy : List ℕ → ℕ → List ℕ → ℕ → List ℕ
memcpy dst off src len = take off dst ++ (take len src ++ drop (off + len) dst)

-- The `len` bytes from `base + off` on.
abbrev pub load : List ℕ → ℕ → ℕ → List ℕ
load base off len = take len (drop off base)

unfoldable pub ring_phys : ℕ → ℕ → ℕ
ring_phys cap pos = bit_and pos (cap - 1)

-- The bytes that `RingCopyOut` stores at its destination.
unfoldable pub ring_copy_out : ℕ → List ℕ → ℕ → ℕ → List ℕ
ring_copy_out cap base phys_r len =
    let contig = cap - phys_r in
    if leb len contig
    then load base phys_r len
    else load base phys_r contig ++ load base 0 (len - contig)

-- The one or two `memcpy` of a write.
unfoldable pub ring_copy_in : ℕ → List ℕ → ℕ → List ℕ → ℕ → List ℕ
ring_copy_in cap base phys_w src len =
    let tail = cap - phys_w in
    if leb len tail
    then memcpy base phys_w src len
    else memcpy (memcpy base phys_w src tail) 0 (drop tail src) (len - tail)

unfoldable pub init : ℕ → Shm
init cap = record { write_pos = 0; read_pos = 0; bytes = replicate cap 0 }

unfoldable pub try_write : ℕ → Shm → Option (List ℕ) → ℕ → Code × Shm
try_write cap m none len = (err, m)
try_write cap m (some src) len =
    if len == 0 || ltb (max_write_size cap) len
    then (err, m)
    else if ltb cap (sub64 (add64 m.write_pos len) m.read_pos)
    then (err, m)
    else (
      ok,
      record m {
        bytes = ring_copy_in cap m.bytes (ring_phys cap m.write_pos) src len;
        write_pos = add64 m.write_pos len;
      },
    )

unfoldable pub available : Shm → ℕ
available m = sub64 m.write_pos m.read_pos

unfoldable pub free_space : ℕ → Shm → ℕ
unfolding available
free_space cap m = sub64 cap (available m)

-- The count that is returned, the bytes stored at `data`, and the memory.
unfoldable pub try_read : ℕ → Shm → ℕ → ℕ × List ℕ × Shm
try_read cap m max_len =
    let avail = sub64 m.write_pos m.read_pos in
    let to_read = if ltb avail max_len then u32 avail else max_len in
    if avail == 0 then (0, [], m) else if to_read == 0 then (0, [], m) else (
      to_read,
      ring_copy_out cap m.bytes (ring_phys cap m.read_pos) to_read,
      record m { read_pos = add64 m.read_pos to_read },
    )

unfoldable pub read_exact : ℕ → Shm → ℕ → Code × List ℕ × Shm
read_exact cap m len =
    let avail = sub64 m.write_pos m.read_pos in
    if len == 0 then (ok, [], m) else if ltb avail len then (err, [], m) else (
      ok,
      ring_copy_out cap m.bytes (ring_phys cap m.read_pos) len,
      record m { read_pos = add64 m.read_pos len },
    )

-- A pointer into the data area, with the length that goes with it.
pub record Segment : Type 0 where
  pub off : ℕ
  pub len : ℕ

-- The bytes that a segment points at.
abbrev pub view : Shm → Segment → List ℕ
view m s = load m.bytes s.off s.len

-- `seg2 = nullptr` is the segment at 0 of length 0: no byte is read through it.
pub record Segments : Type 0 where
  pub seg1 : Segment
  pub seg2 : Segment

-- `none` is the result -1.
unfoldable pub peek : ℕ → Shm → Option Segments
peek cap m =
    let avail = sub64 m.write_pos m.read_pos in
    let phys_r = ring_phys cap m.read_pos in
    let contig = cap - phys_r in
    if avail == 0
    then none
    else if leb avail contig
    then some (record {
      seg1 = record { off = phys_r; len = u32 avail };
      seg2 = record { off = 0; len = 0 };
    })
    else some (record {
      seg1 = record { off = phys_r; len = u32 contig };
      seg2 = record { off = 0; len = u32 (avail - contig) };
    })

-- The assertion of a debug build is the caller's duty: no more than what is available.
unfoldable pub commit_read : Shm → ℕ → Shm
commit_read m len = record m { read_pos = add64 m.read_pos len }
