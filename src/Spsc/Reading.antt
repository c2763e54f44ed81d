-- ===== src/Spsc/Reading.antt =====
-- The reader's steps keep the invariant.
use shm_cpp.Common.{
  ℕ, ◌+◌, ◌≡◌, sym, ap, ◌∙◌, arith, List, ◌++◌, append_assoc, length, take, drop, add64, sub64, ltb,
  u32, if◌then◌else◌, length-append, length-take, length-drop, take-append-drop,
}
use shm_cpp.Ring.{IsCapacity, ring_phys, ring_copy_out}
use shm_cpp.Ring.Window.{Window-copy_out, Window-drop}
use shm_cpp.Spsc.{Reader, System}
use shm_cpp.Spsc.Invariant.{Inv, WriterOk-drop, reader_at, available}

module _ {cap : ℕ} (c : IsCapacity cap) {s : System} {q : List ℕ} (v : Inv cap s q) where
  open v use {holds, split, writer_ok, reader_ok}

  pub some_bytes-Inv :
      {max_len r : ℕ} (n : ℕ)
      → s.reader ≡ Reader.loaded max_len r
      → (if ltb (sub64 s.mem.write_pos r) max_len then u32 (sub64 s.mem.write_pos r) else max_len)
        ≡ n
      → Inv cap (record s { reader = Reader.reading r n }) q
  some_bytes-Inv n e f =
      let (at_start, small) = reader_at c v e in
      record {
        holds = holds;
        split = split;
        writer_ok = writer_ok;
        reader_ok = (at_start, ground (arith, available c v, holds.window.size, c.fits));
      }

  pub copy_out-Inv :
      {r n : ℕ}
      → s.reader ≡ Reader.reading r n
      → Inv cap
          (record s {
            reader = Reader.copied r n (ring_copy_out cap s.mem.bytes (ring_phys cap r) n);
          })
          q
  copy_out-Inv {n} e =
      let (at_start, few) = reader_at c v e in
      record {
        holds = holds;
        split = split;
        writer_ok = writer_ok;
        reader_ok =
            (at_start, few, rw (at_start ∙ holds.reads) (Window-copy_out c holds.window n few));
      }

  pub release-Inv :
      {r n : ℕ} {out : List ℕ}
      → s.reader ≡ Reader.copied r n out
      → Inv cap
          (record s {
            mem = record (s.mem) { read_pos = add64 r n };
            reader = Reader.idle;
            got = s.got ++ out;
          })
          (drop n q)
  release-Inv {r} {n} {out} e =
      let (at_start, few, copy) = reader_at c v e in
      let taken : length (s.got ++ out) ≡ length s.got + n =
        omega (arith, length-append s.got out, ap length copy, length-take n q) in
      record {
        holds = record {
          window = rw taken (Window-drop c holds.window n few);
          reads = omega (arith, taken, at_start, holds.reads);
          writes = omega (arith, taken, holds.writes, length-drop n q);
        };
        split =
            split
            ∙ ap (λ t. s.got ++ t) (sym (take-append-drop n q))
            ∙ sym (append_assoc s.got (take n q) (drop n q))
            ∙ ap (λ t. (s.got ++ t) ++ drop n q) (sym copy);
        writer_ok =
            rw taken (
              WriterOk-drop c s.mem.write_pos s.mem.bytes (length s.got) n q s.writer few
                writer_ok);
        reader_ok = tt;
      }
