-- ===== src/Reader/Ready.antt =====
-- The state of `FrameReader` of include/shm_ipc/frame_reader.hpp between two calls, and its `Commit`.
use shm_cpp.Common.{
  ℕ, ◌+◌, ◌%◌, ◌≤◌, ◌<◌, ◌≡◌, ◌⊎◌, inl, inr, refl, arith, List, length, drop, ltb, Bool-cases,
}
use shm_cpp.Ring.{IsCapacity}
use shm_cpp.Ring.Window.{Holds}
use shm_cpp.Ring.Read.{commit_read-Holds, stays-Holds}
use shm_cpp.Channel.{Channel, commit_read}
use shm_cpp.Codec.{MsgHeader, msg_header_size}
use shm_cpp.Reader.{
  FrameReader, success, no_data, too_large, bad_length, Received, commit, payload_bytes,
}
use shm_cpp.Reader.Frames.{Parsed, waiting, malformed, message}

-- The reader `rd` on a channel whose read ring holds `q` from position `r` on: the first
-- `pending_commit` bytes are the frame that was returned last.
pub record Ready (cap buf_size : ℕ) (ch : Channel) (rd : FrameReader) (r : ℕ) (q : List ℕ)
    : Type 0 where
  pub holds : Holds cap ch.read_ring r q
  pub pending : rd.pending_commit ≤ length q
  pub buffer : length rd.buf ≡ buf_size

-- What `TryRecv` answers for the frames in front, if the last header was `hdr`.
abbrev pub Answers : ℕ → MsgHeader → Parsed → Received → Type 0
Answers buf_size hdr waiting x =
    (x.rc ≡ no_data) × (x.reader.hdr ≡ hdr) × (x.reader.pending_commit ≡ 0)
Answers buf_size hdr malformed x =
    (x.rc ≡ bad_length) × (x.reader.hdr ≡ hdr) × (x.reader.pending_commit ≡ 0)
Answers buf_size hdr (message seq body) x =
    (x.reader.pending_commit ≡ msg_header_size + length body)
    × (((x.rc ≡ success)
          × (x.payload_len ≡ length body)
          × (payload_bytes x ≡ body)
          × (x.reader.hdr ≡ record { len = length body; seq = seq }))
        ⊎ ((x.rc ≡ too_large) × (buf_size < length body) × (x.reader.hdr ≡ hdr)))

-- The state after `TryRecv`: only the read position of the read ring has moved. A frame that is too large
-- crosses the end of the data area.
pub record Took (cap buf_size : ℕ) (ch : Channel) (r : ℕ) (q : List ℕ) (x : Received) : Type 0 where
  pub ready : Ready cap buf_size x.channel x.reader r q
  pub same_write : x.channel.write_ring ≡ ch.write_ring
  pub same_notified : x.channel.notified ≡ ch.notified
  pub crosses : x.rc ≡ too_large → cap < r % cap + x.reader.pending_commit

module _ {cap buf_size : ℕ} {ch : Channel} {rd : FrameReader} {r : ℕ} {q : List ℕ}
    (c : IsCapacity cap) where
  -- `Commit` drops the frame that was returned last.
  pub commit-Ready :
      Ready cap buf_size ch rd r q
      → let (ch', rd') = commit ch rd in
        Ready cap buf_size ch' rd' (r + rd.pending_commit) (drop rd.pending_commit q)
        × (rd'.pending_commit ≡ 0)
        × (rd'.hdr ≡ rd.hdr)
        × (ch'.write_ring ≡ ch.write_ring)
        × (ch'.notified ≡ ch.notified)
  unfolding commit commit_read
  commit-Ready v = elim (Bool-cases (ltb 0 rd.pending_commit)) [
    | inl some_pending ↦ rw some_pending (
      record {
        holds = commit_read-Holds c v.holds rd.pending_commit v.pending;
        pending = omega arith;
        buffer = v.buffer;
      },
      refl,
      refl,
      refl,
      refl,
    )
    | inr none_pending ↦
        let nothing : rd.pending_commit ≡ 0 = ground arith in
        rw none_pending (
          record {
            holds = stays-Holds c v.holds rd.pending_commit nothing;
            pending = omega arith;
            buffer = v.buffer;
          },
          nothing,
          refl,
          refl,
          refl,
        )
  ]
