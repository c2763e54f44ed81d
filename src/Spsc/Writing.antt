-- ===== src/Spsc/Writing.antt =====
-- The writer's steps keep the invariant.
use shm_cpp.Common.{
  ℕ, ◌≡◌, sym, ◌∙◌, arith, List, ◌++◌, append_assoc, length, take, add64, sub64, ltb, false, subst,
  length-append, length-take, take-length_append,
}
use shm_cpp.Ring.{IsCapacity, ring_phys, ring_copy_in}
use shm_cpp.Ring.Window.{Window, Window-copy_in, Window-take}
use shm_cpp.Spsc.{Writer, System, Scribbled}
use shm_cpp.Spsc.Invariant.{WriterOk, Inv, Scribbled-Window, ReaderOk-append, writer_at}

module _ {cap : ℕ} (c : IsCapacity cap) {s : System} {q : List ℕ} (v : Inv cap s q) where
  open v use {holds, split, writer_ok, reader_ok}

  pub full-Inv : Inv cap (record s { writer = Writer.idle }) q
  full-Inv = record { holds = holds; split = split; writer_ok = tt; reader_ok = reader_ok }

  pub has_room-Inv :
      {src : List ℕ} {len w : ℕ}
      → s.writer ≡ Writer.loaded src len w
      → ltb cap (sub64 (add64 w len) s.mem.read_pos) ≡ false
      → Inv cap (record s { writer = Writer.copying src len w }) q
  has_room-Inv {len} e f =
      let (at_end, given, small) = writer_at c v e in
      record {
        holds = holds;
        split = split;
        writer_ok =
            (at_end, given, ground (arith, holds.writes, holds.reads, holds.window.size, c.fits));
        reader_ok = reader_ok;
      }

  pub scribble-Inv :
      {src b : List ℕ} {len w : ℕ}
      → s.writer ≡ Writer.copying src len w
      → Scribbled cap w len s.mem.bytes b
      → Inv cap (record s { mem = record (s.mem) { bytes = b } }) q
  scribble-Inv {b} {len} e sc =
      let (at_end, given, room) = writer_at c v e in
      record {
        holds = record {
          window = Scribbled-Window c holds.window (at_end ∙ holds.writes) room sc;
          reads = holds.reads;
          writes = holds.writes;
        };
        split = split;
        writer_ok =
            subst (WriterOk cap s.mem.write_pos b (length s.got) q) (sym e) (at_end, given, room);
        reader_ok = reader_ok;
      }

  pub copy_in-Inv :
      {src : List ℕ} {len w : ℕ}
      → s.writer ≡ Writer.copying src len w
      → Inv cap
          (record s {
            mem = record (s.mem) { bytes = ring_copy_in cap s.mem.bytes (ring_phys cap w) src len };
            writer = Writer.copied src len w;
          })
          q
  copy_in-Inv {src} {len} {w} e =
      let (at_end, given, room) = writer_at c v e in
      let grown : Window cap (ring_copy_in cap s.mem.bytes (ring_phys cap w) src len) (length s.got)
          (q ++ take len src) =
        rw (at_end ∙ holds.writes) (Window-copy_in c holds.window src len given room) in
      record {
        holds = record {
          window =
              rw (take-length_append q (take len src)) at
                (Window-take c grown (length q) (omega (arith, length-append q (take len src))));
          reads = holds.reads;
          writes = holds.writes;
        };
        split = split;
        writer_ok = (at_end, given, grown);
        reader_ok = reader_ok;
      }

  pub publish-Inv :
      {src : List ℕ} {len w : ℕ}
      → s.writer ≡ Writer.copied src len w
      → Inv cap
          (record s {
            mem = record (s.mem) { write_pos = add64 w len };
            writer = Writer.idle;
            sent = s.sent ++ take len src;
          })
          (q ++ take len src)
  publish-Inv {src} {len} {w} e =
      let (at_end, given, grown) = writer_at c v e in
      record {
        holds = record {
          window = grown;
          reads = holds.reads;
          writes =
              omega
                (arith, at_end, holds.writes, length-append q (take len src), length-take len src);
        };
        split = rw (split, append_assoc s.got q (take len src));
        writer_ok = tt;
        reader_ok = ReaderOk-append c s.mem.read_pos q (take len src) s.reader reader_ok;
      }
