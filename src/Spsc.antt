-- ===== src/Spsc.antt =====
-- One writer and one reader on the ring of include/shm_ipc/ringbuf.hpp, interleaved at each access to
-- the shared memory. The steps are those of `RingBuf::TryWrite` and `RingBuf::TryRead` between their
-- atomic loads and stores; the sequence of steps stands for the order that acquire and release give.
pub mod Invariant
pub mod Writing
pub mod Reading
pub mod Reachable
pub mod Safety
pub mod Solo
use shm_cpp.Common.{
  ℕ, ◌+◌, ◌-◌, ◌%◌, ◌≤◌, ◌<◌, ◌≡◌, ◌≢◌, true, false, List, [], ◌++◌, length, take, get_or, u32,
  u32_mod, add64, sub64, ltb, if◌then◌else◌,
}
use shm_cpp.Ring.{Shm, max_write_size, init, ring_phys, ring_copy_in, ring_copy_out}
use shm_cpp.Ring.Copy.{Goes}

-- Where `TryWrite` stands, with the local variables that are live there.
pub data Writer : Type 0 where
  idle : Writer
  loaded : (src : List ℕ) (len w : ℕ) → Writer  -- after the load of `write_pos`
  copying : (src : List ℕ) (len w : ℕ) → Writer  -- the space check has passed
  copied : (src : List ℕ) (len w : ℕ) → Writer  -- before the store of `write_pos`

-- Where `TryRead` stands.
pub data Reader : Type 0 where
  idle : Reader
  loaded : (max_len r : ℕ) → Reader  -- after the load of `read_pos`
  reading : (r n : ℕ) → Reader  -- before `RingCopyOut`
  copied : (r n : ℕ) (out : List ℕ) → Reader  -- before the store of `read_pos`

-- The shared memory and both sides. `sent` collects what the writer has published, and `got` what the
-- reader has returned.
pub record System : Type 0 where
  pub mem : Shm
  pub writer : Writer
  pub reader : Reader
  pub sent : List ℕ
  pub got : List ℕ

-- In the middle of a copy of `len` bytes to position `w` the data area may hold anything there, in
-- whatever order `memcpy` stores its bytes, and is unchanged elsewhere.
pub record Scribbled (cap w len : ℕ) (b b' : List ℕ) : Type 0 where
  pub same_length : length b' ≡ length b
  pub same_outside :
      (j : ℕ)
      → j < cap
      → ((i : ℕ) → i < len → ¬ (Goes cap (ring_phys cap w) i j))
      → get_or b' j 0 ≡ get_or b j 0

pub data Step (cap : ℕ) (s : System) : System → Type 0 where
  begin_write :
      (src : List ℕ) (len : ℕ)
      → s.writer ≡ Writer.idle
      → len ≢ 0
      → len ≤ max_write_size cap
      → len ≤ length src
      → len < u32_mod
      → Step cap s (record s { writer = Writer.loaded src len s.mem.write_pos })
  full :
      {src : List ℕ} {len w : ℕ}
      → s.writer ≡ Writer.loaded src len w
      → ltb cap (sub64 (add64 w len) s.mem.read_pos) ≡ true
      → Step cap s (record s { writer = Writer.idle })
  has_room :
      {src : List ℕ} {len w : ℕ}
      → s.writer ≡ Writer.loaded src len w
      → ltb cap (sub64 (add64 w len) s.mem.read_pos) ≡ false
      → Step cap s (record s { writer = Writer.copying src len w })
  scribble :
      {src : List ℕ} {len w : ℕ} (b : List ℕ)
      → s.writer ≡ Writer.copying src len w
      → Scribbled cap w len s.mem.bytes b
      → Step cap s (record s { mem = record (s.mem) { bytes = b } })
  copy_in :
      {src : List ℕ} {len w : ℕ}
      → s.writer ≡ Writer.copying src len w
      → Step cap s (record s {
        mem = record (s.mem) { bytes = ring_copy_in cap s.mem.bytes (ring_phys cap w) src len };
        writer = Writer.copied src len w;
      })
  publish :
      {src : List ℕ} {len w : ℕ}
      → s.writer ≡ Writer.copied src len w
      → Step cap s (record s {
        mem = record (s.mem) { write_pos = add64 w len };
        writer = Writer.idle;
        sent = s.sent ++ take len src;
      })
  begin_read :
      (max_len : ℕ)
      → s.reader ≡ Reader.idle
      → max_len < u32_mod
      → Step cap s (record s { reader = Reader.loaded max_len s.mem.read_pos })
  nothing :
      {max_len r : ℕ}
      → s.reader ≡ Reader.loaded max_len r
      → (if ltb (sub64 s.mem.write_pos r) max_len then u32 (sub64 s.mem.write_pos r) else max_len)
        ≡ 0
      → Step cap s (record s { reader = Reader.idle })
  some_bytes :
      {max_len r : ℕ} (n : ℕ)
      → s.reader ≡ Reader.loaded max_len r
      → (if ltb (sub64 s.mem.write_pos r) max_len then u32 (sub64 s.mem.write_pos r) else max_len)
        ≡ n
      → n ≢ 0
      → Step cap s (record s { reader = Reader.reading r n })
  copy_out :
      {r n : ℕ}
      → s.reader ≡ Reader.reading r n
      → Step cap s (record s {
        reader = Reader.copied r n (ring_copy_out cap s.mem.bytes (ring_phys cap r) n);
      })
  release :
      {r n : ℕ} {out : List ℕ}
      → s.reader ≡ Reader.copied r n out
      → Step cap s (record s {
        mem = record (s.mem) { read_pos = add64 r n };
        reader = Reader.idle;
        got = s.got ++ out;
      })

unfoldable pub begin : ℕ → System
begin cap = record {
  mem = init cap;
  writer = Writer.idle;
  reader = Reader.idle;
  sent = [];
  got = [];
}

pub data Reach (cap : ℕ) : System → Type 0 where
  start : Reach cap (begin cap)
  later : {s t : System} → Reach cap s → Step cap s t → Reach cap t
