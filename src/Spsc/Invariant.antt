-- ===== src/Spsc/Invariant.antt =====
-- What holds between any two steps of the writer and the reader.
use shm_cpp.Common.{
  ℕ, ◌+◌, ◌%◌, ◌≤◌, ◌<◌, ◌≡◌, refl, sym, ◌∙◌, arith, List, [], ◌++◌, length, take, drop, u32_mod,
  u64_mod, sub64, subst, length-append, length-drop, take-append_le, drop-append_le,
}
use shm_cpp.Ring.{IsCapacity, ring_phys}
use shm_cpp.Ring.Capacity.{ring_phys-mod}
use shm_cpp.Ring.Copy.{Goes}
use shm_cpp.Ring.Window.{Window, Holds, Window-drop, phys-lt, not-Goes_old}
use shm_cpp.Ring.Write.{init-Holds}
use shm_cpp.Spsc.{Writer, Reader, System, Scribbled, begin}

-- What the locals of `TryWrite` say, while `write_pos` is `wp` and the bytes `q` from position `r` on
-- are unread.
abbrev pub WriterOk : ℕ → ℕ → List ℕ → ℕ → List ℕ → Writer → Type 0
WriterOk cap wp b r q Writer.idle = Unit
WriterOk cap wp b r q (Writer.loaded src len w) = (w ≡ wp) × (len ≤ length src) × (len < u32_mod)
WriterOk cap wp b r q (Writer.copying src len w) =
    (w ≡ wp) × (len ≤ length src) × (length q + len ≤ cap)
WriterOk cap wp b r q (Writer.copied src len w) =
    (w ≡ wp) × (len ≤ length src) × Window cap b r (q ++ take len src)

-- What the locals of `TryRead` say, while `read_pos` is `rp`.
abbrev pub ReaderOk : ℕ → List ℕ → Reader → Type 0
ReaderOk rp q Reader.idle = Unit
ReaderOk rp q (Reader.loaded max_len r) = (r ≡ rp) × (max_len < u32_mod)
ReaderOk rp q (Reader.reading r n) = (r ≡ rp) × (n ≤ length q)
ReaderOk rp q (Reader.copied r n out) = (r ≡ rp) × (n ≤ length q) × (out ≡ take n q)

-- The unread bytes `q` are what was sent and not yet returned, and stand in the memory.
pub record Inv (cap : ℕ) (s : System) (q : List ℕ) : Type 0 where
  pub holds : Holds cap s.mem (length s.got) q
  pub split : s.sent ≡ s.got ++ q
  pub writer_ok : WriterOk cap s.mem.write_pos s.mem.bytes (length s.got) q s.writer
  pub reader_ok : ReaderOk s.mem.read_pos q s.reader

pub begin-Inv : (cap : ℕ) → Inv cap (begin cap) []
unfolding begin
begin-Inv cap = record { holds = init-Holds cap; split = refl; writer_ok = tt; reader_ok = tt }

module _ {cap : ℕ} (c : IsCapacity cap) where
  -- A copy that is under way leaves the unread bytes alone.
  pub Scribbled-Window :
      {b b' : List ℕ} {r w len : ℕ} {q : List ℕ}
      → Window cap b r q
      → w ≡ (r + length q) % u64_mod
      → length q + len ≤ cap
      → Scribbled cap w len b b'
      → Window cap b' r q
  Scribbled-Window {r} {w} {len} {q} v e room sc = record {
    area = sc.same_length ∙ v.area;
    size = v.size;
    at = λ i h. sc.same_outside ((r + i) % cap) (phys-lt c (r + i)) (away i h) ∙ v.at i h;
  }
    where
      away :
          (i : ℕ)
          → i < length q
          → (k : ℕ) → k < len
          → ¬ (Goes cap (ring_phys cap w) k ((r + i) % cap))
      away i h k hk =
          rw (e, ring_phys-mod c (r + length q)) (not-Goes_old c r (length q) i k len h hk room)

  -- The reader's invariant when bytes are published.
  pub ReaderOk-append :
      (rp : ℕ) (q x : List ℕ) (p : Reader) → ReaderOk rp q p → ReaderOk rp (q ++ x) p
  ReaderOk-append rp q x Reader.idle v = tt
  ReaderOk-append rp q x (Reader.loaded n r) v = v
  ReaderOk-append rp q x (Reader.reading r n) (e, h) = (e, omega (arith, length-append q x))
  ReaderOk-append rp q x (Reader.copied r n out) (e, h, f) =
      (e, omega (arith, length-append q x), f ∙ sym (take-append_le q x n h))

  -- The writer's invariant when the reader takes bytes.
  pub WriterOk-drop :
      (wp : ℕ) (b : List ℕ) (r n : ℕ) (q : List ℕ) (p : Writer)
      → n ≤ length q
      → WriterOk cap wp b r q p
      → WriterOk cap wp b (r + n) (drop n q) p
  WriterOk-drop wp b r n q Writer.idle h v = tt
  WriterOk-drop wp b r n q (Writer.loaded src len w) h v = v
  WriterOk-drop wp b r n q (Writer.copying src len w) h (e, g, room) =
      (e, g, omega (arith, length-drop n q))
  WriterOk-drop wp b r n q (Writer.copied src len w) h (e, g, x) = (
    e,
    g,
    rw (drop-append_le q (take len src) n h) at
        (Window-drop c x n (omega (arith, length-append q (take len src)))),
  )

  module _ {s : System} {q : List ℕ} (v : Inv cap s q) where
    open v use {holds, split, writer_ok, reader_ok}

    pub writer_at :
        {p : Writer} → s.writer ≡ p → WriterOk cap s.mem.write_pos s.mem.bytes (length s.got) q p
    writer_at e = subst (WriterOk cap s.mem.write_pos s.mem.bytes (length s.got) q) e writer_ok

    pub reader_at : {p : Reader} → s.reader ≡ p → ReaderOk s.mem.read_pos q p
    reader_at e = subst (ReaderOk s.mem.read_pos q) e reader_ok

    pub available : sub64 s.mem.write_pos s.mem.read_pos ≡ length q
    available = omega (arith, holds.writes, holds.reads, holds.window.size, c.fits)
