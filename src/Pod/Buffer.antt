-- ===== src/Pod/Buffer.antt =====
-- `EncodeTo` and `Decode` of include/shm_ipc/pod_codec.hpp undo each other.
use shm_cpp.Common.{
  ℕ, ◌+◌, ◌≤◌, ◌<◌, ◌≡◌, refl, sym, ap, subst, ap₂, ◌∙◌, arith, none, some, true, List, length,
  drop, ltb, if◌then◌else◌, sub32, add32, u32_mod, length-drop, take_all,
}
use shm_cpp.Ring.{memcpy, load}
use shm_cpp.Ring.Copy.{memcpy_twice, load-second}
use shm_cpp.Codec.{
  MsgHeader, msg_header_size, le32, from_le32, header_bytes, header_of, encode_frame, encode,
  Decoded,
}
use shm_cpp.Codec
use shm_cpp.Codec.Wire.{decode-encode}
use shm_cpp.Pod.{PodType, tag_size, put, encode_to, check_tag, decode}
use shm_cpp.Pod.Payload.{tagged, length-tagged, tag-inside}

module _ (t : PodType) (obj buf : List ℕ) (size seq : ℕ) (whole : length obj ≡ t.size)
    (held : size ≤ length buf) (small : size < u32_mod) (seq_small : seq < u32_mod)
    (short : t.size + tag_size + msg_header_size < u32_mod) where
  payload_len : add32 tag_size t.size ≡ tag_size + t.size
  payload_len = omega arith

  frame_len : add32 msg_header_size (tag_size + t.size) ≡ msg_header_size + (tag_size + t.size)
  frame_len = omega arith

  -- The two copies of `EncodeTo` are one copy of the tagged bytes.
  put-tagged :
      (b : List ℕ)
      → length b ≡ length buf
      → msg_header_size + (tag_size + t.size) ≤ size
      → put t obj buf (some b) ≡ (
        msg_header_size + (tag_size + t.size),
        memcpy b msg_header_size (tagged t.tag obj) (tag_size + t.size),
      )
  unfolding put
  put-tagged b same room =
      ap₂ (λ n x. (n, x)) (ap (add32 msg_header_size) payload_len ∙ frame_len) (rw whole at copies)
    where
      copies :
          memcpy
            (memcpy b msg_header_size (le32 t.tag) tag_size)
            (msg_header_size + tag_size)
            obj
            (length obj)
          ≡ memcpy b msg_header_size (tagged t.tag obj) (tag_size + length obj)
      copies = unfold le32 in memcpy_twice b msg_header_size (le32 t.tag) obj (omega arith)

  headed : List ℕ
  headed =
      memcpy buf 0 (header_bytes (record { len = tag_size + t.size; seq = seq })) msg_header_size

  length-headed : msg_header_size ≤ size → length headed ≡ length buf
  unfolding headed header_bytes
  length-headed room = omega (arith, length-drop 8 buf)

  framed :
      encode_frame buf size (tag_size + t.size) seq
      ≡ (if ltb size (msg_header_size + (tag_size + t.size)) then none else some headed)
  unfolding encode_frame headed
  framed = rw frame_len refl

  -- A frame whose payload is a tagged object.
  untagged :
      (b : List ℕ) (w : ℕ)
      → t.tag < u32_mod
      → load b msg_header_size (tag_size + t.size) ≡ tagged t.tag obj
      → Codec.decode b w
        ≡ some (record { off = msg_header_size; len = tag_size + t.size; seq = seq })
      → decode t b w ≡ some (record { off = msg_header_size + tag_size; len = t.size; seq = seq })
  unfolding decode
  untagged b w tag_small e d = rw (decode, d, checked, object_len) refl
    where
      checked : check_tag t (drop msg_header_size b) (tag_size + t.size) ≡ true
      checked =
          unfold check_tag in
          ground (arith, tag-inside (drop msg_header_size b) t.size t.tag obj tag_small e)

      object_len : sub32 (tag_size + t.size) tag_size ≡ t.size
      object_len = omega arith

  object-inside :
      (b : List ℕ)
      → msg_header_size + (tag_size + t.size) ≤ length b
      → load b msg_header_size (tag_size + t.size) ≡ tagged t.tag obj
      → load b (msg_header_size + tag_size) t.size ≡ obj
  unfolding le32
  object-inside b room e =
      subst (λ n. load b (msg_header_size + tag_size) n ≡ obj) whole
        (load-second b msg_header_size (le32 t.tag) obj (omega (arith, whole))
          (subst (λ n. load b msg_header_size (tag_size + n) ≡ tagged t.tag obj) (sym whole) e))

  module _ (room : msg_header_size + (tag_size + t.size) ≤ size) where
    fits : encode_frame buf size (tag_size + t.size) seq ≡ some headed
    fits = framed ∙ ground arith

    -- `EncodeTo` writes what the plain `Encode` writes for the tagged bytes.
    encode_to-encode :
        encode_to t obj buf size seq ≡ encode (tagged t.tag obj) (tag_size + t.size) buf size seq
    unfolding encode_to encode
    encode_to-encode =
        ap (put t obj buf) (ap (λ n. encode_frame buf size n seq) payload_len ∙ fits)
        ∙ put-tagged headed (length-headed (omega arith)) room
        ∙ sym encoded
      where
        some_bytes : ltb 0 (tag_size + t.size) ≡ true
        some_bytes = ground arith

        encoded : encode (tagged t.tag obj) (tag_size + t.size) buf size seq ≡ (
          msg_header_size + (tag_size + t.size),
          memcpy headed msg_header_size (tagged t.tag obj) (tag_size + t.size),
        )
        encoded = rw (encode, fits, frame_len, some_bytes) refl

    -- What `EncodeTo` wrote for an object, `Decode` of the same type takes apart: the bytes that it
    -- points at are the object.
    pub decode-encode_to :
        t.tag < u32_mod
        → let (written, buf') = encode_to t obj buf size seq in
          (written ≡ msg_header_size + (tag_size + t.size))
          × (decode t buf' written
              ≡ some (record { off = msg_header_size + tag_size; len = t.size; seq = seq }))
          × (load buf' (msg_header_size + tag_size) t.size ≡ obj)
    decode-encode_to tag_small = rw encode_to-encode (
        let (written, same, decoded, body) =
          decode-encode (tagged t.tag obj) buf (tag_size + t.size) size seq
            (omega (arith, length-tagged t.tag obj, whole)) held small seq_small (omega arith)
            room in
        let whole_body : load (encode (tagged t.tag obj) (tag_size + t.size) buf size seq).1
              msg_header_size (tag_size + t.size)
            ≡ tagged t.tag obj =
          body
          ∙ take_all (tag_size + t.size) (tagged t.tag obj)
              (omega (arith, length-tagged t.tag obj, whole)) in
        (
          written,
          untagged _ _ tag_small whole_body decoded,
          object-inside (encode (tagged t.tag obj) (tag_size + t.size) buf size seq).1
              (omega (arith, same, held)) whole_body,
        ))
