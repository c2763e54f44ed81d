-- ===== src/Spsc/Solo.antt =====
-- The steps of one side, made in a row, are the method of include/shm_ipc/ringbuf.hpp.
use shm_cpp.Common.{
  Bool-cases, inl, inr, subst, sym, append-nil, [], ◌||◌, ℕ, ◌≤◌, ◌<◌, ◌≡◌, ◌≢◌, refl, arith, some,
  false, List, ◌++◌, length, take, ltb, ◌==◌, sub64, add64, u32, u32_mod, if◌then◌else◌,
}
use shm_cpp.Ring.{Code, ok, err, max_write_size, try_write, try_read}
use shm_cpp.Spsc.{
  Reach, later, Writer, Reader, System, Step, begin_write, has_room, copy_in, publish, full,
  begin_read, some_bytes, copy_out, release,
}

pub data Steps (cap : ℕ) (s : System) : System → Type 0 where
  here : Steps cap s s
  next : {t u : System} → Steps cap s t → Step cap t u → Steps cap s u

-- What a call adds to the bytes that were sent.
abbrev pub added : Code → ℕ → List ℕ → List ℕ
added ok len src = take len src
added err len src = []

-- Any `TryWrite` of at most the bytes that a source has that is not null, and of less than 2 ^ 32, is
-- a run of steps: from an idle writer it leads to an idle writer, with the reader where it was, to the
-- memory that the call leaves, and to the bytes sent so far, with the bytes of the call behind them
-- if it answers ok, and nothing behind them if not.
pub try_write-Steps :
    {cap : ℕ} (s : System) (src : List ℕ) (len : ℕ)
    → s.writer ≡ Writer.idle
    → len ≤ length src
    → len < u32_mod
    → let (c, m) = try_write cap s.mem (some src) len in
      Steps cap s (record s { mem = m; writer = Writer.idle; sent = s.sent ++ added c len src })
unfolding try_write
try_write-Steps {cap = cap'} s src len e given small =
    elim (Bool-cases (len == 0 || ltb (max_write_size cap') len)) [
      | inl bad ↦ rw bad (
          subst (λ w. Steps cap' s (record s { writer = w; sent = s.sent ++ [] })) e
            (subst (λ l. Steps cap' s (record s { sent = l })) (sym (append-nil s.sent)) here))
      | inr good ↦ elim (Bool-cases (ltb cap' (sub64 (add64 s.mem.write_pos len) s.mem.read_pos))) [
        | inl over ↦
            rw (good, over)
              (subst (λ l. Steps cap' s (record s { writer = Writer.idle; sent = l }))
                (sym (append-nil s.sent))
                (next (next here (begin_write src len e (ground arith) (ground arith) given small))
                  (full refl over)))
        | inr room ↦
            rw (good, room)
              (next
                (next
                  (next
                    (next here (begin_write src len e (ground arith) (ground arith) given small))
                    (has_room refl room))
                  (copy_in refl))
                (publish refl))
      ]
    ]

-- A read that returns bytes, with no step of the writer in between, is the reader's steps in a row.
pub try_read-Steps :
    {cap : ℕ} (s : System) (max_len : ℕ)
    → s.reader ≡ Reader.idle
    → max_len < u32_mod
    → (try_read cap s.mem max_len).0 ≢ 0
    → Steps cap s (record s {
      mem = (try_read cap s.mem max_len).2;
      reader = Reader.idle;
      got = s.got ++ (try_read cap s.mem max_len).1;
    })
unfolding try_read
try_read-Steps {cap = cap'} s max_len e small some_read =
    rw (some_avail, some_asked)
      (next
        (next
          (next (next here (begin_read max_len e small)) (some_bytes _ refl refl (ground arith)))
          (copy_out refl))
        (release refl))
  where
    some_avail : (sub64 s.mem.write_pos s.mem.read_pos == 0) ≡ false
    some_avail = ground arith

    some_asked :
        ((if ltb (sub64 s.mem.write_pos s.mem.read_pos) max_len
            then u32 (sub64 s.mem.write_pos s.mem.read_pos)
            else max_len)
          == 0)
        ≡ false
    some_asked = ground arith

-- Steps from a reachable state lead to a reachable state.
pub Reach-Steps : {cap : ℕ} {s t : System} → Reach cap s → Steps cap s t → Reach cap t
Reach-Steps r here = r
Reach-Steps r (next ss st) = later (Reach-Steps r ss) st
