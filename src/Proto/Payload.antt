-- ===== src/Proto/Payload.antt =====
-- Names and bounds in the frames of include/shm_ipc/proto_codec.hpp.
use shm_cpp.Common.{
  ℕ, ◌+◌, ◌≤◌, ◌<◌, ◌^◌, ◌≡◌, refl, sym, ap, ◌∙◌, arith, Bool-cases, inl, inr, false, none, some,
  List, ◌++◌, length, take, drop, take-length_append, drop-length_append, take_all, length-append,
  ltb, ◌==◌, ◌&&◌, if◌then◌else◌, add32, sub32, u32_mod,
}
use shm_cpp.Ring.{load}
use shm_cpp.Codec.{msg_header_size, header_of}
use shm_cpp.Proto.{
  ProtoType, type_name_len_size, le16, from_le16, equal, Parts, decode_header, type_name_matches,
  decode_payload, accept,
}

-- Whatever the bytes are, the name and the payload that `DecodeHeader` points at lie inside the buffer,
-- behind the header and one behind the other, and they end where the header says that the frame ends.
pub decode_header-inside :
    (buf : List ℕ) (buf_len : ℕ) {h : Parts}
    → buf_len < u32_mod
    → decode_header buf buf_len ≡ some h
    → (h.type_name ≡ msg_header_size + type_name_len_size)
      × (h.payload ≡ h.type_name + h.type_name_len)
      × (h.payload + h.payload_len ≡ msg_header_size + (header_of buf).len)
      × (h.payload + h.payload_len ≤ buf_len)
unfolding decode_header from_le16
decode_header-inside buf buf_len small e = ground arith

-- The payload of a message: its type's name and its bytes.
abbrev pub typed : List ℕ → List ℕ → List ℕ
typed name bytes = le16 (length name) ++ name ++ bytes

pub length-typed :
    (name bytes : List ℕ)
    → length (typed name bytes) ≡ type_name_len_size + length name + length bytes
unfolding le16
length-typed name bytes = omega (
  arith,
  length-append (le16 (length name) ++ name) bytes,
  length-append (le16 (length name)) name,
)

module _ (name bytes : List ℕ) (short : length name < 2 ^ 16) where
  name_len_read : from_le16 (typed name bytes) 0 ≡ length name
  unfolding le16 from_le16
  name_len_read = omega arith

  behind : drop type_name_len_size (typed name bytes) ≡ name ++ bytes
  unfolding le16
  behind = refl

  name_read : load (typed name bytes) type_name_len_size (length name) ≡ name
  name_read = ap (take (length name)) behind ∙ take-length_append name bytes

  before : length (le16 (length name) ++ name) ≡ type_name_len_size + length name
  unfolding le16
  before = omega (arith, length-append (le16 (length name)) name)

  rest_read :
      (len : ℕ)
      → length bytes ≤ len
      → load (typed name bytes) (type_name_len_size + length name) len ≡ bytes
  rest_read len h =
      ap (λ n. load (typed name bytes) n len) (sym before)
      ∙ ap (take len) (drop-length_append (le16 (length name) ++ name) bytes)
      ∙ take_all len bytes h

  -- `Recv` parses the bytes of a payload exactly if they stand behind the name of its own type.
  pub accept-typed :
      {M : Type 0} (t : ProtoType M)
      → type_name_len_size + length name + length bytes < u32_mod
      → accept t (typed name bytes)
        ≡ (if length name == length t.name && equal name t.name then t.parse bytes else none)
  unfolding accept decode_payload type_name_matches
  accept-typed t fits =
      let size = length-typed name bytes in
      let tag_there : ltb (length (typed name bytes)) type_name_len_size ≡ false =
        ground (arith, size) in
      let prefix : add32 type_name_len_size (length name) ≡ type_name_len_size + length name =
        omega (arith, short) in
      let name_there : ltb (length (typed name bytes)) (type_name_len_size + length name) ≡ false =
        ground (arith, size) in
      let rest : sub32 (length (typed name bytes)) (type_name_len_size + length name)
          ≡ length bytes =
        omega (arith, size, short) in
      rw (name_len_read, tag_there, prefix, name_there, name_read)
        (elim (Bool-cases (length name == length t.name && equal name t.name)) [
          | inl same ↦ rw (same, rest, rest_read (length bytes) (omega arith)) refl
          | inr other ↦ rw other refl
        ])
