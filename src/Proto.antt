-- ===== src/Proto.antt =====
-- `ProtoCodec<T>` of include/shm_ipc/proto_codec.hpp: protobuf messages travel behind the name of their type.
-- The name, the serialization and the parser belong to protobuf and are parameters.
pub mod Payload
pub mod Carrying
pub mod Transfer
use shm_cpp.Common.{
  ℕ, ◌+◌, ◌*◌, ◌/◌, ◌%◌, ◌^◌, Bool, true, false, Option, none, some, List, [], ◌∷◌, ◌++◌, length,
  drop, get_or, ltb, ◌==◌, ◌&&◌, if◌then◌else◌, add32, sub32, u32,
}
use shm_cpp.Ring.{memcpy, load, err, max_write_size}
use shm_cpp.Batch.{reserve, commit_reserve, fill}
use shm_cpp.Channel.{Channel, ChannelBatch}
use shm_cpp.Channel.Writer
use shm_cpp.Codec.{
  MsgHeader, msg_header_size, header_of, encode_frame, Outcome, returned, code, WriteFn, Sent,
  send_frame, send_frame_batch,
}
use shm_cpp.Reader.{FrameReader}
use shm_cpp.Typed.{Got, recv_loop}

-- `GetTypeName`, `SerializeToArray` with as many bytes as `ByteSizeLong` says, and `ParseFromArray`.
pub record ProtoType (M : Type 0) : Type 0 where
  pub name : List ℕ
  pub serialize : M → List ℕ
  pub parse : List ℕ → Option M

abbrev pub type_name_len_size : ℕ
type_name_len_size = 2

unfoldable pub le16 : ℕ → List ℕ
le16 n = (n % 256) ∷ (n / 256 % 256) ∷ []

-- The `uint16_t` whose first byte is at an offset.
unfoldable pub from_le16 : List ℕ → ℕ → ℕ
from_le16 b i = (get_or b i 0 + 256 * get_or b (i + 1) 0) % 2 ^ 16

-- `memcmp` of equal lengths.
abbrev pub equal : List ℕ → List ℕ → Bool
equal [] [] = true
equal [] (y ∷ ys) = false
equal (x ∷ xs) [] = false
equal (x ∷ xs) (y ∷ ys) = x == y && equal xs ys

-- What `DecodeHeader` stores; pointers are offsets in the buffer.
pub record Parts : Type 0 where
  pub type_name : ℕ
  pub type_name_len : ℕ
  pub payload : ℕ
  pub payload_len : ℕ
  pub seq : ℕ

unfoldable pub decode_header : List ℕ → ℕ → Option Parts
unfolding header_of from_le16
decode_header buf buf_len =
    if ltb buf_len (msg_header_size + type_name_len_size)
    then none
    else if ltb (header_of buf).len type_name_len_size
    then none
    else if ltb (sub32 buf_len msg_header_size) (header_of buf).len
    then none
    else if ltb (header_of buf).len (type_name_len_size + from_le16 buf msg_header_size)
    then none
    else some (record {
      type_name = msg_header_size + type_name_len_size;
      type_name_len = from_le16 buf msg_header_size;
      payload = msg_header_size + type_name_len_size + from_le16 buf msg_header_size;
      payload_len =
          sub32 (sub32 (header_of buf).len type_name_len_size) (from_le16 buf msg_header_size);
      seq = (header_of buf).seq;
    })

module _ {M : Type 0} where
  unfoldable pub type_name_matches : ProtoType M → List ℕ → ℕ → Bool
  type_name_matches t type_name type_name_len =
      type_name_len == length t.name && equal type_name t.name

  abbrev pub of_type : ProtoType M → List ℕ → Option Parts → Option Parts
  of_type t buf none = none
  of_type t buf (some h) =
      if type_name_matches t (load buf h.type_name h.type_name_len) h.type_name_len
      then some h
      else none

  unfoldable pub decode : ProtoType M → List ℕ → ℕ → Option Parts
  decode t buf buf_len = of_type t buf (decode_header buf buf_len)

  -- Where the data starts behind the payload's start, and its length.
  unfoldable pub decode_payload : ProtoType M → List ℕ → ℕ → Option (ℕ × ℕ)
  unfolding from_le16 type_name_matches
  decode_payload t payload payload_len =
      let name_len = from_le16 payload 0 in
      let prefix_len = add32 type_name_len_size name_len in
      if ltb payload_len type_name_len_size
      then none
      else if ltb payload_len prefix_len
      then none
      else if type_name_matches t (load payload type_name_len_size name_len) name_len
      then some (prefix_len, sub32 payload_len prefix_len)
      else none

  abbrev pub name_len : ProtoType M → ℕ
  name_len t = length t.name % 2 ^ 16

  abbrev pub pb_len : ProtoType M → M → ℕ
  pb_len t msg = u32 (length (t.serialize msg))

  abbrev pub payload_size : ProtoType M → M → ℕ
  payload_size t msg = add32 (add32 type_name_len_size (name_len t)) (pb_len t msg)

  -- Length, name and data behind the header, where `EncodeFrame` has returned a pointer.
  unfoldable pub put : ProtoType M → M → List ℕ → Option (List ℕ) → ℕ × List ℕ
  unfolding le16
  put t msg buf none = (0, buf)
  put t msg buf (some b) =
      let b1 = memcpy b msg_header_size (le16 (name_len t)) type_name_len_size in
      let b2 = memcpy b1 (msg_header_size + type_name_len_size) t.name (name_len t) in
      (
        add32 msg_header_size (payload_size t msg),
        memcpy b2 (msg_header_size + type_name_len_size + name_len t) (t.serialize msg)
            (pb_len t msg),
      )

  unfoldable pub encode_to : ProtoType M → M → List ℕ → ℕ → ℕ → ℕ × List ℕ
  encode_to t msg buf buf_size seq =
      put t msg buf (encode_frame buf buf_size (payload_size t msg) seq)

  unfoldable pub decode_from : ProtoType M → List ℕ → ℕ → Option M
  decode_from t payload payload_len = t.parse (load payload 0 payload_len)

-- Into the reserved bytes, or by way of a buffer of its own.
abbrev pub into : ℕ → List ℕ → ℕ → Channel → ChannelBatch → Option ℕ → Channel × ChannelBatch
into cap bytes len ch b (some off) = (
  record ch { write_ring = fill ch.write_ring off bytes len },
  record b { batch = commit_reserve b.batch len },
)
into cap bytes len ch b none =
    let (c, ch', b') = Writer.try_write cap ch b (some bytes) len in (ch', b')

unfoldable pub serialize_to_batch : ℕ → List ℕ → ℕ → Channel → ChannelBatch → Channel × ChannelBatch
serialize_to_batch cap bytes len ch b = into cap bytes len ch b (reserve cap b.batch len)

-- `if (pb_len > 0) SerializeToBatch(...)`, the end of the callback.
unfoldable pub serialize_some :
    ℕ → List ℕ → ℕ → Channel → ChannelBatch → Outcome × Channel × ChannelBatch
unfolding serialize_to_batch
serialize_some cap bytes len ch b =
    if ltb 0 len
    then (let (ch', b') = serialize_to_batch cap bytes len ch b in (returned, ch', b'))
    else (returned, ch, b)

module _ {M : Type 0} where
  -- The callback of `Send` and `SendBatch`.
  unfoldable pub write_proto : ℕ → ProtoType M → M → WriteFn
  unfolding le16 serialize_some
  write_proto cap t msg ch b =
      let (c1, ch1, b1) = Writer.try_write cap ch b (some (le16 (name_len t))) type_name_len_size in
      let (c2, ch2, b2) = Writer.try_write cap ch1 b1 (some t.name) (name_len t) in
      serialize_some cap (t.serialize msg) (pb_len t msg) ch2 b2

  unfoldable pub send : ℕ → ProtoType M → Channel → M → ℕ → Sent × Channel
  unfolding send_frame write_proto
  send cap t ch msg seq =
      if ltb (max_write_size cap) (pb_len t msg)
      then (code err, ch)
      else send_frame cap ch (payload_size t msg) seq (write_proto cap t msg)

  unfoldable pub send_batch :
      ℕ → ProtoType M → Channel → ChannelBatch → M → ℕ → Sent × Channel × ChannelBatch
  unfolding send_frame_batch write_proto
  send_batch cap t ch b msg seq =
      if ltb (max_write_size cap) (pb_len t msg)
      then (code err, ch, b)
      else send_frame_batch cap ch b (payload_size t msg) seq (write_proto cap t msg)

  abbrev pub parsed : ProtoType M → List ℕ → Option (ℕ × ℕ) → Option M
  parsed t payload none = none
  parsed t payload (some (off, len)) = t.parse (load payload off len)

  -- The test of `Recv` on a frame's payload, and the message that is parsed.
  unfoldable pub accept : ProtoType M → List ℕ → Option M
  accept t payload = parsed t payload (decode_payload t payload (length payload))

  unfoldable pub recv : ℕ → ℕ → ℕ → ProtoType M → Channel → FrameReader → Option (Got M)
  unfolding accept recv_loop
  recv n cap buf_size t ch rd = recv_loop n cap buf_size (accept t) ch rd
