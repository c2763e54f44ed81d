-- ===== src/Codec/Wire.antt =====
-- `Encode` and `Decode` of include/shm_ipc/codec.hpp undo each other, and `Decode` is safe on bytes
-- that nobody encoded.
use shm_cpp.Common.{
  ℕ, ◌+◌, ◌-◌, ◌≤◌, ◌<◌, ◌≡◌, refl, ◌∙◌, arith, none, some, List, ◌++◌, length, take, drop, get_or,
  u32_mod, length-append, length-take, drop-append_more, take-append_le, take_all, length-drop,
  sub32, ltb, if◌then◌else◌,
}
use shm_cpp.Ring.{memcpy, load}
use shm_cpp.Codec.{
  MsgHeader, msg_header_size, le32, from_le32, header_bytes, header_of, encode_frame, encode,
  Decoded, decode,
}

pub from_le32-le32 : (n : ℕ) → n < u32_mod → from_le32 (le32 n) 0 ≡ n
unfolding le32 from_le32
from_le32-le32 n h = omega arith

-- A header is read back from its bytes, whatever follows them.
pub header_of-header_bytes :
    (h : MsgHeader) (rest : List ℕ)
    → h.len < u32_mod
    → h.seq < u32_mod
    → header_of (header_bytes h ++ rest) ≡ h
unfolding header_bytes header_of
header_of-header_bytes h rest l s = ground arith

-- Only the first eight bytes count.
pub header_of-agree :
    (b b' : List ℕ)
    → ((i : ℕ) → i < msg_header_size → get_or b i 0 ≡ get_or b' i 0)
    → header_of b ≡ header_of b'
unfolding header_of
header_of-agree b b' h = ground (arith, h 0, h 1, h 2, h 3, h 4, h 5, h 6, h 7)

pub length-header_bytes : (h : MsgHeader) → length (header_bytes h) ≡ msg_header_size
unfolding header_bytes
length-header_bytes h = refl

decode_lem :
    (buf : List ℕ) (buf_len : ℕ)
    → decode buf buf_len ≡ (
        if ltb buf_len msg_header_size
        then none
        else if ltb (sub32 buf_len msg_header_size) (header_of buf).len
        then none
        else some (record {
          off = msg_header_size;
          len = (header_of buf).len;
          seq = (header_of buf).seq;
        }))
unfolding decode
decode_lem buf buf_len = refl

-- Whatever the bytes are, a payload that `Decode` accepts lies inside the buffer behind the header.
pub decode-inside :
    (buf : List ℕ) (buf_len : ℕ) {d : Decoded}
    → buf_len < u32_mod
    → decode buf buf_len ≡ some d
    → (d.off ≡ msg_header_size) × (d.off + d.len ≤ buf_len)
unfolding decode header_of
decode-inside buf buf_len small e = ground arith

module _ (payload buf : List ℕ) (n size seq : ℕ) (given : n ≤ length payload)
    (held : size ≤ length buf) (small : size < u32_mod) (seq_small : seq < u32_mod)
    (n_small : n + msg_header_size < u32_mod) where
  -- The buffer that `Encode` leaves.
  filled : List ℕ
  filled =
      header_bytes (record { len = n; seq = seq })
      ++ (take n payload ++ drop n (drop msg_header_size buf))

  length-filled : msg_header_size + n ≤ size → length filled ≡ length buf
  unfolding filled header_bytes
  length-filled h = omega (
    arith,
    length-append (take n payload) (drop n (drop 8 buf)),
    length-take n payload,
    length-drop n (drop 8 buf),
    length-drop 8 buf,
  )

  encode_fits :
      msg_header_size + n ≤ size → encode payload n buf size seq ≡ (msg_header_size + n, filled)
  unfolding encode encode_frame filled
  encode_fits h = ground (
    arith,
    drop-append_more (header_bytes (record { len = n; seq = seq })) (drop 8 buf) (8 + n) n refl,
  )

  -- `Encode` refuses a buffer that is too small and leaves it alone.
  pub encode_refuses : size < msg_header_size + n → encode payload n buf size seq ≡ (0, buf)
  unfolding encode encode_frame
  encode_refuses h = ground arith

  -- What `Encode` wrote, `Decode` takes apart: the payload stands where it says, and the buffer has
  -- kept its length.
  pub decode-encode :
      msg_header_size + n ≤ size
      → let (written, buf') = encode payload n buf size seq in
        (written ≡ msg_header_size + n)
        × (length buf' ≡ length buf)
        × (decode buf' written ≡ some (record { off = msg_header_size; len = n; seq = seq }))
        × (load buf' msg_header_size n ≡ take n payload)
  decode-encode h = rw (encode_fits h) (refl, length-filled h, decoded, body)
    where
      head : header_of filled ≡ record { len = n; seq = seq }
      head =
          unfold filled in
          header_of-header_bytes (record { len = n; seq = seq })
            (take n payload ++ drop n (drop msg_header_size buf)) (omega arith) seq_small

      decoded :
          decode filled (msg_header_size + n)
          ≡ some (record { off = msg_header_size; len = n; seq = seq })
      decoded = rw (decode_lem, head) (ground arith)

      body : load filled msg_header_size n ≡ take n payload
      body =
          unfold filled header_bytes in
          take-append_le (take n payload) (drop n (drop msg_header_size buf)) n
            (omega (arith, length-take n payload))
          ∙ take_all n (take n payload) (omega (arith, length-take n payload))

-- The size check of `EncodeFrame` adds in 32 bits. For a payload length within eight of 2 ^ 32 it lets
-- a buffer pass that cannot hold the header, and the header is written past the buffer's end.
pub encode_frame_overflow :
    (buf : List ℕ) (n seq : ℕ)
    → u32_mod ≤ n + msg_header_size
    → n < u32_mod
    → n + msg_header_size - u32_mod ≤ length buf
    → length buf < msg_header_size
    → (b : List ℕ) × (encode_frame buf (length buf) n seq ≡ some b) × (length b ≡ msg_header_size)
unfolding encode_frame
encode_frame_overflow buf n seq wraps small passes short = (
  memcpy buf 0 (header_bytes (record { len = n; seq = seq })) msg_header_size,
  ground arith,
  unfold header_bytes in omega (arith, length-drop 8 buf),
)
