-- ===== src/Reader.antt =====
-- `FrameReader<BufSize>` of include/shm_ipc/frame_reader.hpp: it takes whole frames out of the read ring
-- of a channel, and points at the payload in place where it can.
pub mod Parts
pub mod Frames
pub mod Ready
pub mod Take
pub mod Receive
pub mod Mailbox
pub mod Link
pub mod Delivery
use shm_cpp.Common.{
  ℕ, ◌+◌, ◌-◌, Option, none, some, List, [], ◌++◌, take, ltb, leb, ◌==◌, if◌then◌else◌, add32,
  sub32,
}
use shm_cpp.Ring.{Shm, Segments, memcpy, load}
use shm_cpp.Channel.{Channel, peek, commit_read}
use shm_cpp.Codec.{MsgHeader, msg_header_size, header_of}

-- `buf` is the fallback buffer of `BufSize` bytes.
pub record FrameReader : Type 0 where
  pub hdr : MsgHeader
  pub pending_commit : ℕ
  pub buf : List ℕ

-- The results 0, -1, -2 and -3.
pub data Code : Type 0 where
  success no_data too_large bad_length : Code

-- Where the payload pointer points: nowhere, at an offset of the ring's data area, or at `buf`.
pub data Pointer : Type 0 where
  null : Pointer
  in_ring : ℕ → Pointer
  in_buf : Pointer

pub record Received : Type 0 where
  pub rc : Code
  pub payload : Pointer
  pub payload_len : ℕ
  pub channel : Channel
  pub reader : FrameReader

unfoldable pub last_seq : FrameReader → ℕ
last_seq rd = rd.hdr.seq

unfoldable pub commit : Channel → FrameReader → Channel × FrameReader
commit ch rd =
    if ltb 0 rd.pending_commit
    then (commit_read ch rd.pending_commit, record rd { pending_commit = 0 })
    else (ch, rd)

-- `CopyFromSegments`: the bytes that are stored at `dst`.
unfoldable pub copy_from_segments : Shm → Segments → ℕ → ℕ → List ℕ
copy_from_segments m s offset len =
    let avail = sub32 s.seg1.len offset in
    let n = if ltb avail len then avail else len in
    let first = if ltb offset s.seg1.len then load m.bytes (s.seg1.off + offset) n else [] in
    let copied = if ltb offset s.seg1.len then n else 0 in
    let s2_offset = if ltb s.seg1.len offset then sub32 offset s.seg1.len else 0 in
    first
    ++ (if ltb copied len then load m.bytes (s.seg2.off + s2_offset) (sub32 len copied) else [])

-- The eight bytes that are copied into `hdr`.
unfoldable pub header_view : Shm → Segments → List ℕ
header_view m s =
    if leb msg_header_size s.seg1.len
    then load m.bytes s.seg1.off msg_header_size
    else load m.bytes s.seg1.off s.seg1.len
      ++ load m.bytes s.seg2.off (sub32 msg_header_size s.seg1.len)

-- A complete frame with header `hdr`.
unfoldable pub take_frame : ℕ → Channel → FrameReader → Segments → MsgHeader → Received
unfolding copy_from_segments
take_frame buf_size ch rd s hdr =
    let frame_size = add32 msg_header_size hdr.len in
    if hdr.len == 0
    then record {
      rc = success;
      payload = null;
      payload_len = 0;
      channel = ch;
      reader = record rd { hdr = hdr; pending_commit = frame_size };
    }
    else if leb (add32 msg_header_size hdr.len) s.seg1.len
    then record {
      rc = success;
      payload = in_ring (s.seg1.off + msg_header_size);
      payload_len = hdr.len;
      channel = ch;
      reader = record rd { hdr = hdr; pending_commit = frame_size };
    }
    else if ltb buf_size hdr.len
    then record {
      rc = too_large;
      payload = null;
      payload_len = 0;
      channel = ch;
      reader = record rd { pending_commit = frame_size };
    }
    else record {
      rc = success;
      payload = in_buf;
      payload_len = hdr.len;
      channel = ch;
      reader = record {
        hdr = hdr;
        pending_commit = frame_size;
        buf = memcpy rd.buf 0 (copy_from_segments ch.read_ring s msg_header_size hdr.len) hdr.len;
      };
    }

-- A return without a frame: the out parameters stay as the caller set them, null and 0.
abbrev pub without : Code → Channel → FrameReader → Received
without rc ch rd = record { rc = rc; payload = null; payload_len = 0; channel = ch; reader = rd }

unfoldable pub receive : ℕ → ℕ → Channel → FrameReader → Segments → Received
unfolding take_frame header_view
receive cap buf_size ch rd s =
    let total_avail = add32 s.seg1.len s.seg2.len in
    let hdr = header_of (header_view ch.read_ring s) in
    if ltb total_avail msg_header_size
    then without no_data ch rd
    else if ltb (cap - msg_header_size) hdr.len
    then without bad_length ch rd
    else if ltb (sub32 total_avail msg_header_size) hdr.len
    then without no_data ch rd
    else take_frame buf_size ch rd s hdr

unfoldable pub try_recv : ℕ → ℕ → Channel → FrameReader → Received
unfolding commit receive
try_recv cap buf_size ch rd =
    let (ch', rd') = commit ch rd in
    elim (peek cap ch') [ none ↦ without no_data ch' rd' | some s ↦ receive cap buf_size ch' rd' s ]

-- The bytes that the caller reads through the payload pointer.
abbrev pub payload_bytes : Received → List ℕ
payload_bytes x = elim (x.payload) [
  | null ↦ []
  | in_ring off ↦ load x.channel.read_ring.bytes off x.payload_len
  | in_buf ↦ load x.reader.buf 0 x.payload_len
]
