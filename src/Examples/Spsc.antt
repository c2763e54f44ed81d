-- ===== src/Examples/Spsc.antt =====
-- An interleaving of writes and a read.
use shm_cpp.Common.{
  ℕ, ◌≡◌, ◌≢◌, ◌≤◌, ◌<◌, u32_mod, subst, arith, some, List, ◌++◌, sub64, ltb, u32, if◌then◌else◌,
  refl, length, take, drop, replicate,
}
use shm_cpp.Ring.{Code, ok, init, ring_phys, ring_copy_out, try_write, try_read}
use shm_cpp.Spsc.{
  Writer, Reader, System, Reach, start, later, begin, begin_write, begin_read, some_bytes,
}
use shm_cpp.Spsc.Safety.{got-prefix, reading_stable}
use shm_cpp.Spsc.Solo.{Steps, added, try_write-Steps, Reach-Steps}
use shm_cpp.Examples.{cap_1024, ten}

abbrev half : List ℕ
half = replicate 512 7

-- The state after `TryWrite(src, len)`, and after `TryRead(max_len)`.
abbrev written : System → List ℕ → ℕ → System
written s src len = record s {
  mem = (try_write 1024 s.mem (some src) len).1;
  writer = Writer.idle;
  sent = s.sent ++ take len src;
}

abbrev taken : System → ℕ → System
taken s n = record s {
  mem = (try_read 1024 s.mem n).2;
  reader = Reader.idle;
  got = s.got ++ (try_read 1024 s.mem n).1;
}

abbrev first : System
first = written (begin 1024) ten 10

first_written : (try_write 1024 (begin 1024).mem (some ten) 10).0 ≡ ok
unfolding begin init try_write
first_written = refl

-- The bytes that a call has sent.
abbrev with_bytes : System → List ℕ → ℕ → Code → System
with_bytes s src len c = record (written s src len) { sent = s.sent ++ added c len src }

written-Steps :
    (s : System) (src : List ℕ) (len : ℕ)
    → s.writer ≡ Writer.idle
    → len ≤ length src
    → len < u32_mod
    → (try_write 1024 s.mem (some src) len).0 ≡ ok
    → Steps 1024 s (written s src len)
written-Steps s src len e given small done =
    subst (λ c. Steps 1024 s (with_bytes s src len c)) done
      (try_write-Steps s src len e given small)

first-Reach : Reach 1024 first
unfolding begin
first-Reach =
    Reach-Steps start
      (written-Steps (begin 1024) ten 10 refl (omega arith) (omega arith) first_written)

got-prefix_example : (q : List ℕ) × (first.sent ≡ first.got ++ q) × (length q ≤ 1024)
got-prefix_example = got-prefix cap_1024 first-Reach

first_read : (try_read 1024 first.mem 6).0 ≢ 0
unfolding begin init try_write try_read
first_read e = absurd (omega (arith, e))

-- The reader has loaded both positions and is about to copy six bytes.
abbrev reading : System
reading = record first { reader = Reader.reading first.mem.read_pos 6 }

reading-Reach : Reach 1024 reading
unfolding begin
reading-Reach =
    later (later first-Reach (begin_read 6 refl (omega arith)))
      (some_bytes 6 refl six (λ e. absurd (omega (arith, e))))
  where
    six :
        (if ltb (sub64 first.mem.write_pos first.mem.read_pos) 6
          then u32 (sub64 first.mem.write_pos first.mem.read_pos)
          else 6)
        ≡ 6
    six = unfold init try_write in refl

-- Meanwhile the writer has published once more.
abbrev overtaken : System
overtaken = written reading half 512

reading_written : (try_write 1024 reading.mem (some half) 512).0 ≡ ok
unfolding begin init try_write
reading_written = refl

overtaken-Reach : Reach 1024 overtaken
unfolding begin
overtaken-Reach =
    Reach-Steps reading-Reach
      (written-Steps reading half 512 refl (omega arith) (omega arith) reading_written)

reading_stable_example :
    ring_copy_out 1024 overtaken.mem.bytes (ring_phys 1024 reading.mem.read_pos) 6
    ≡ take 6 (drop 0 overtaken.sent)
unfolding begin
reading_stable_example = reading_stable cap_1024 reading.mem.read_pos 6 overtaken-Reach refl

-- A write of 500 bytes more, and then one that the ring has no room for: nothing is sent.
try_write-Steps_example :
    Steps 1024 (written overtaken half 500) (record (written overtaken half 500) {
      mem = (try_write 1024 (written overtaken half 500).mem (some half) 512).1;
      writer = Writer.idle;
      sent =
          (written overtaken half 500).sent
          ++ added (try_write 1024 (written overtaken half 500).mem (some half) 512).0 512 half;
    })
try_write-Steps_example =
    try_write-Steps (written overtaken half 500) half 512 refl (omega arith) (omega arith)

-- A third write that has loaded `write_pos`, and that does not fit.
abbrev crowded : System
crowded = record overtaken { writer = Writer.loaded half 512 overtaken.mem.write_pos }

crowded-Reach : Reach 1024 crowded
unfolding begin
crowded-Reach = later overtaken-Reach (
    begin_write half 512 refl (λ e. absurd (omega (arith, e))) (omega arith) (omega arith)
      (omega arith))

-- A reader on the empty ring.
abbrev hungry : System
hungry = record (begin 1024) { reader = Reader.loaded 6 (begin 1024).mem.read_pos }
