-- ===== src/Reader/Receive.antt =====
-- `TryRecv` of include/shm_ipc/frame_reader.hpp against the frames in the unread bytes.
use shm_cpp.Common.{
  ℕ, ◌+◌, ◌-◌, ◌≤◌, ◌≡◌, inl, inr, refl, subst, ◌∙◌, arith, none, some, List, length, drop, ltb,
  sub32, Bool-cases, true,
}
use shm_cpp.Ring.{IsCapacity, Segments}
use shm_cpp.Ring.Read.{Sees, peek-empty, peek-Sees}
use shm_cpp.Channel.{Channel, peek}
use shm_cpp.Codec.{msg_header_size, header_of}
use shm_cpp.Reader.{
  FrameReader, Code, no_data, too_large, bad_length, Received, without, receive, try_recv,
}
use shm_cpp.Reader.Frames.{Parsed, parse}
use native.Mathlib.Decide.{dec_lt}
use shm_cpp.Reader.Ready.{Ready, Answers, Took, commit-Ready}
use shm_cpp.Reader.Take.{total, head, take_frame-Takes}

module _ {cap buf_size : ℕ} {ch : Channel} {rd : FrameReader} {r : ℕ} {q : List ℕ}
    (c : IsCapacity cap) (v : Ready cap buf_size ch rd r q) (done : rd.pending_commit ≡ 0) where
  -- What is returned for the unread bytes `q`, and where the channel is left.
  abbrev pub Receives : Parsed → Received → Type 0
  Receives p x = Took cap buf_size ch r q x × Answers buf_size rd.hdr p x

  module _ {s : Segments} (seen : Sees c v.holds s) where
    receive-Receives : Receives (parse cap q) (receive cap buf_size ch rd s)
    unfolding receive parse
    receive-Receives =
        rw (total c v done seen) (elim (Bool-cases (ltb (length q) msg_header_size)) [
          | inl few ↦ rw few (nothing_taken no_data (λ t. cc), (refl, refl, done))
          | inr a_header ↦
              rw (a_header, head c v done seen (ground arith))
                (elim (Bool-cases (ltb (cap - msg_header_size) (header_of q).len)) [
                  | inl bad ↦ rw bad (nothing_taken bad_length (λ t. cc), (refl, refl, done))
                  | inr good ↦
                      rw (good, rest (ground arith))
                        (elim (Bool-cases (ltb (length q - msg_header_size) (header_of q).len)) [
                          | inl few ↦ rw few (nothing_taken no_data (λ t. cc), (refl, refl, done))
                          | inr whole ↦ rw whole (take_frame-Takes c v done seen (ground arith))
                        ])
                ])
        ])
      where
        rest :
            msg_header_size ≤ length q
            → sub32 (length q) msg_header_size ≡ length q - msg_header_size
        rest h = omega (arith, v.holds.window.size, c.fits)

        nothing_taken :
            (rc : Code) → ¬ (rc ≡ too_large) → Took cap buf_size ch r q (without rc ch rd)
        nothing_taken rc never = record {
          ready = v;
          same_write = refl;
          same_notified = refl;
          crosses = λ t. absurd (never t);
        }

  peek-Receives :
      Receives (parse cap q) (elim (peek cap ch) [
        | none ↦ without no_data ch rd
        | some s ↦ receive cap buf_size ch rd s
      ])
  unfolding parse peek
  peek-Receives = elim (dec_lt 0 (length q)) [
    | yes some_bytes ↦
        let (s, e, seen) = peek-Sees c v.holds some_bytes in rw e (receive-Receives seen)
    | no empty ↦
        rw (peek-empty c v.holds (omega arith), few (omega arith))
          (
            record { ready = v; same_write = refl; same_notified = refl; crosses = λ t. cc },
            (refl, refl, done),
          )
  ]
    where
      few : length q ≡ 0 → ltb (length q) msg_header_size ≡ true
      few e = rw e refl

-- `TryRecv` first drops the frame that it returned last. Then it answers for the frames in front: no
-- data if no whole frame is there, a protocol error if the header is malformed, and else the body of the
-- first frame, in place or in the buffer, or -2 without a body, only if the body is larger than the
-- buffer and the frame crosses the end of the data area.
pub try_recv-Receives :
    {cap buf_size : ℕ} {ch : Channel} {rd : FrameReader} {r : ℕ} {q : List ℕ}
    → IsCapacity cap
    → Ready cap buf_size ch rd r q
    → let rest = drop rd.pending_commit q in
      let x = try_recv cap buf_size ch rd in
      Took cap buf_size ch (r + rd.pending_commit) rest x
      × Answers buf_size rd.hdr (parse cap rest) x
unfolding try_recv
try_recv-Receives {cap} {buf_size} {ch} {rd} {r} {q} c v =
    let (ready, done, same_hdr, same_write, same_notified) = commit-Ready c v in
    let (taken, answers) = peek-Receives c ready done in
    (
      record {
        ready = taken.ready;
        same_write = taken.same_write ∙ same_write;
        same_notified = taken.same_notified ∙ same_notified;
        crosses = taken.crosses;
      },
      subst
          (λ h.
            Answers buf_size h (parse cap (drop rd.pending_commit q)) (try_recv cap buf_size ch rd))
          same_hdr answers,
    )
