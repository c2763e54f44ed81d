-- ===== src/Pod.antt =====
-- `PodCodec<T>` of include/shm_ipc/pod_codec.hpp: objects travel as their bytes behind a tag of four
-- bytes. `sizeof(T)` and the registered tag are a record; an object is its bytes.
pub mod Payload
pub mod Buffer
pub mod Transfer
use shm_cpp.Common.{
  ℕ, ◌+◌, ◌-◌, Bool, false, Option, none, some, List, ◌++◌, length, drop, ltb, ◌==◌, if◌then◌else◌,
  add32, sub32,
}
use shm_cpp.Ring.{memcpy, load}
use shm_cpp.Channel.{Channel, ChannelBatch}
use shm_cpp.Channel.Writer
use shm_cpp.Codec
use shm_cpp.Codec.{
  msg_header_size, le32, from_le32, encode_frame, Decoded, returned, WriteFn, Sent, send_frame,
  send_frame_batch,
}
use shm_cpp.Reader.{FrameReader}
use shm_cpp.Typed.{Got, recv_loop}

pub record PodType : Type 0 where
  pub size : ℕ
  pub tag : ℕ

abbrev pub tag_size : ℕ
tag_size = 4

-- Tag and object behind the header, where `EncodeFrame` has returned a pointer.
unfoldable pub put : PodType → List ℕ → List ℕ → Option (List ℕ) → ℕ × List ℕ
put t obj buf none = (0, buf)
put t obj buf (some b) = (
  add32 msg_header_size (add32 tag_size t.size),
  memcpy (memcpy b msg_header_size (le32 t.tag) tag_size) (msg_header_size + tag_size) obj t.size,
)

-- The number of bytes that is returned, and the buffer.
unfoldable pub encode_to : PodType → List ℕ → List ℕ → ℕ → ℕ → ℕ × List ℕ
encode_to t obj buf buf_size seq =
    put t obj buf (encode_frame buf buf_size (add32 tag_size t.size) seq)

unfoldable pub check_tag : PodType → List ℕ → ℕ → Bool
unfolding from_le32
check_tag t payload payload_len =
    if ltb payload_len tag_size then false else from_le32 payload 0 == t.tag

-- Where the object starts behind the payload's start, and its length.
unfoldable pub decode_payload : PodType → List ℕ → ℕ → Option (ℕ × ℕ)
unfolding check_tag
decode_payload t payload payload_len =
    if check_tag t payload payload_len then some (tag_size, sub32 payload_len tag_size) else none

unfoldable pub decode : PodType → List ℕ → ℕ → Option Decoded
unfolding check_tag Codec.decode
decode t buf buf_len = elim (Codec.decode buf buf_len) [
  | none ↦ none
  | some d ↦
      if check_tag t (drop d.off buf) d.len
      then some (record { off = d.off + tag_size; len = sub32 d.len tag_size; seq = d.seq })
      else none
]

unfoldable pub decode_from : PodType → List ℕ → ℕ → Option (List ℕ)
decode_from t payload payload_len =
    if payload_len == t.size then some (load payload 0 t.size) else none

-- The callback of `Send` and `SendBatch`.
unfoldable pub write_pod : ℕ → PodType → List ℕ → WriteFn
unfolding le32
write_pod cap t obj ch b =
    let (c1, ch1, b1) = Writer.try_write cap ch b (some (le32 t.tag)) tag_size in
    let (c2, ch2, b2) = Writer.try_write cap ch1 b1 (some obj) t.size in (returned, ch2, b2)

unfoldable pub send : ℕ → PodType → Channel → List ℕ → ℕ → Sent × Channel
unfolding send_frame write_pod
send cap t ch obj seq = send_frame cap ch (add32 tag_size t.size) seq (write_pod cap t obj)

unfoldable pub send_batch :
    ℕ → PodType → Channel → ChannelBatch → List ℕ → ℕ → Sent × Channel × ChannelBatch
unfolding send_frame_batch write_pod
send_batch cap t ch b obj seq =
    send_frame_batch cap ch b (add32 tag_size t.size) seq (write_pod cap t obj)

-- The test of `Recv` on a frame's payload, and the object that is copied out.
unfoldable pub accept : PodType → List ℕ → Option (List ℕ)
unfolding decode_payload
accept t payload = elim (decode_payload t payload (length payload)) [
  | none ↦ none
  | some (off, len) ↦ if len == t.size then some (load payload off t.size) else none
]

unfoldable pub recv : ℕ → ℕ → ℕ → PodType → Channel → FrameReader → Option (Got (List ℕ))
unfolding accept recv_loop
recv n cap buf_size t ch rd = recv_loop n cap buf_size (accept t) ch rd
