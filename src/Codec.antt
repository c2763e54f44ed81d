-- ===== src/Codec.antt =====
-- The frames of include/shm_ipc/codec.hpp: [MsgHeader][payload], written to a buffer, to a channel and
-- to a batch, and decoded from a buffer. The two words of `MsgHeader` are little-endian, as on the
-- machines that the library is built for.
pub mod Wire
pub mod Finish
pub mod Send
pub mod Message
pub mod Batched
use shm_cpp.Common.{
  ℕ, ◌+◌, ◌-◌, ◌*◌, ◌/◌, ◌%◌, ◌^◌, ◌≤◌, Bool, true, false, Option, none, some, List, [], ◌∷◌, ◌++◌,
  length, take, drop, get_or, ltb, ◌==◌, if◌then◌else◌, add32, sub32, sub64,
}
use shm_cpp.Ring.{Code, ok, err, memcpy, load, max_write_size}
use shm_cpp.Batch
use shm_cpp.Channel.Writer
use shm_cpp.Channel.{Channel, ChannelBatch, writable_bytes, start_batch}

pub record MsgHeader : Type 0 where
  pub len : ℕ
  pub seq : ℕ

abbrev pub msg_header_size : ℕ
msg_header_size = 8

-- The object representation of a `uint32_t`.
unfoldable pub le32 : ℕ → List ℕ
le32 n = (n % 256) ∷ (n / 256 % 256) ∷ (n / 65536 % 256) ∷ (n / 16777216 % 256) ∷ []

-- The `uint32_t` whose first byte is at an offset.
unfoldable pub from_le32 : List ℕ → ℕ → ℕ
from_le32 b i =
    get_or b i 0
    + 256 * get_or b (i + 1) 0
    + 65536 * get_or b (i + 2) 0
    + 16777216 * get_or b (i + 3) 0

unfoldable pub header_bytes : MsgHeader → List ℕ
unfolding le32
header_bytes h = le32 h.len ++ le32 h.seq

-- `memcpy(&hdr, p, kMsgHeaderSize)`
unfoldable pub header_of : List ℕ → MsgHeader
unfolding from_le32
header_of b = record { len = from_le32 b 0; seq = from_le32 b 4 }

-- The buffer with the header in front; the payload starts at `msg_header_size`. `none` is `nullptr`.
unfoldable pub encode_frame : List ℕ → ℕ → ℕ → ℕ → Option (List ℕ)
unfolding header_bytes
encode_frame buf buf_size payload_len seq =
    let frame_size = add32 msg_header_size payload_len in
    if ltb buf_size frame_size
    then none
    else some
        (memcpy buf 0 (header_bytes (record { len = payload_len; seq = seq })) msg_header_size)

-- The number of bytes written, and the buffer.
unfoldable pub encode : List ℕ → ℕ → List ℕ → ℕ → ℕ → ℕ × List ℕ
encode payload payload_len buf buf_size seq = elim (encode_frame buf buf_size payload_len seq) [
  | none ↦ (0, buf)
  | some b ↦ (
    add32 msg_header_size payload_len,
    if ltb 0 payload_len then memcpy b msg_header_size payload payload_len else b,
  )
]

-- A decoded frame: where its payload starts in the buffer, its length and its sequence number.
pub record Decoded : Type 0 where
  pub off : ℕ
  pub len : ℕ
  pub seq : ℕ

unfoldable pub decode : List ℕ → ℕ → Option Decoded
unfolding header_of
decode buf buf_len =
    let hdr = header_of buf in
    if ltb buf_len msg_header_size
    then none
    else if ltb (sub32 buf_len msg_header_size) hdr.len
    then none
    else some (record { off = msg_header_size; len = hdr.len; seq = hdr.seq })

-- How the payload callback comes back.
pub data Outcome : Type 0 where
  returned threw : Outcome

-- A callback that writes the payload into the batch.
abbrev pub WriteFn : Type 0
WriteFn = Channel → ChannelBatch → Outcome × Channel × ChannelBatch

-- The result of a send: an integer, or the exception of the callback passed on.
pub data Sent : Type 0 where
  code : Code → Sent
  rethrown : Sent

-- The channel when the batch goes out of scope.
abbrev pub destroy : Channel → ChannelBatch → Channel
destroy ch b = (Writer.flush ch b).1

abbrev pub cancel : ChannelBatch → ChannelBatch
cancel b = record b { batch = Batch.cancel b.batch }

unfoldable pub finish_frame : ℕ → Outcome → Channel → ChannelBatch → Sent × Channel
finish_frame frame_size threw ch b = (rethrown, destroy ch (cancel b))
finish_frame frame_size returned ch b =
    if Batch.pending_bytes b.batch == frame_size
    then (let (n, ch', b') = Writer.flush ch b in (code ok, destroy ch' b'))
    else (code err, destroy ch (cancel b))

unfoldable pub send_frame : ℕ → Channel → ℕ → ℕ → WriteFn → Sent × Channel
unfolding finish_frame header_bytes
send_frame cap ch payload_len seq write_payload =
    let frame_size = add32 msg_header_size payload_len in
    if ltb (writable_bytes cap ch) frame_size
    then (code err, ch)
    else let header = header_bytes (record { len = payload_len; seq = seq }) in
      let (c, ch1, b1) = Writer.try_write cap ch (start_batch ch) (some header) msg_header_size in
      let (o, ch2, b2) = write_payload ch1 b1 in finish_frame frame_size o ch2 b2

-- The batch rewound to where the frame began.
abbrev pub rewind : ChannelBatch → ChannelBatch → ChannelBatch
rewind before b = record b {
  batch = Batch.rewind_to b.batch (Batch.pending_bytes before.batch) before.batch.count;
}

unfoldable pub finish_frame_batch :
    ℕ → ChannelBatch → Outcome → Channel → ChannelBatch → Sent × Channel × ChannelBatch
finish_frame_batch frame_size before threw ch b = (rethrown, ch, rewind before b)
finish_frame_batch frame_size before returned ch b =
    if sub64 (Batch.pending_bytes b.batch) (Batch.pending_bytes before.batch) == frame_size
    then (code ok, ch, b)
    else (code err, ch, rewind before b)

unfoldable pub send_frame_batch :
    ℕ → Channel → ChannelBatch → ℕ → ℕ → WriteFn → Sent × Channel × ChannelBatch
unfolding finish_frame_batch header_bytes
send_frame_batch cap ch b payload_len seq write_payload =
    let frame_size = add32 msg_header_size payload_len in
    if ltb (Batch.free_bytes cap b.batch) frame_size
    then (code err, ch, b)
    else let header = header_bytes (record { len = payload_len; seq = seq }) in
      let (c, ch1, b1) = Writer.try_write cap ch b (some header) msg_header_size in
      let (o, ch2, b2) = write_payload ch1 b1 in finish_frame_batch frame_size b o ch2 b2

-- The callback of `Send`.
unfoldable pub write_once : ℕ → Option (List ℕ) → ℕ → WriteFn
write_once cap payload payload_len ch b =
    if ltb 0 payload_len
    then (let (c, ch', b') = Writer.try_write cap ch b payload payload_len in (returned, ch', b'))
    else (returned, ch, b)

unfoldable pub send : ℕ → Channel → Option (List ℕ) → ℕ → ℕ → Sent × Channel
unfolding send_frame write_once
send cap ch payload payload_len seq =
    if ltb (max_write_size cap) payload_len
    then (code err, ch)
    else send_frame cap ch payload_len seq (write_once cap payload payload_len)

unfoldable pub send_batch :
    ℕ → Channel → ChannelBatch → Option (List ℕ) → ℕ → ℕ → Sent × Channel × ChannelBatch
unfolding send_frame_batch write_once
send_batch cap ch b payload payload_len seq =
    if ltb (max_write_size cap) payload_len
    then (code err, ch, b)
    else send_frame_batch cap ch b payload_len seq (write_once cap payload payload_len)
