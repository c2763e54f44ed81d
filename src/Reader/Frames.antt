-- ===== src/Reader/Frames.antt =====
-- What a reader of frames should see in the unread bytes, with no ring, segments or buffers.
use shm_cpp.Common.{
  ℕ, ◌+◌, ◌-◌, ◌≤◌, ◌<◌, ◌≡◌, sym, ap, ◌∙◌, arith, List, ◌++◌, length, take, drop, ltb,
  if◌then◌else◌, u32_mod, append_assoc, length-append, take-append_le, drop-append_le,
  get_or-append, take-length_append, drop-length_append, length-drop,
}
use shm_cpp.Codec.{msg_header_size, header_bytes, header_of}
use shm_cpp.Codec.Finish.{frame}
use shm_cpp.Codec.Wire.{header_of-agree, header_of-header_bytes, length-header_bytes}

pub data Parsed : Type 0 where
  waiting : Parsed
  malformed : Parsed
  message : (seq : ℕ) (body : List ℕ) → Parsed

-- Fewer bytes than a header, or than the header announces, have to wait; a header that announces more
-- than a ring of `cap` bytes can hold is malformed.
unfoldable pub parse : ℕ → List ℕ → Parsed
parse cap q =
    if ltb (length q) msg_header_size
    then waiting
    else if ltb (cap - msg_header_size) (header_of q).len
    then malformed
    else if ltb (length q - msg_header_size) (header_of q).len
    then waiting
    else message (header_of q).seq (take (header_of q).len (drop msg_header_size q))

-- A frame in front of other bytes is the next message.
pub parse-frame :
    (cap seq : ℕ) (body rest : List ℕ)
    → length body + msg_header_size ≤ cap
    → cap < u32_mod
    → seq < u32_mod
    → parse cap (frame seq body ++ rest) ≡ message seq body
unfolding parse
parse-frame cap seq body rest fits small seq_small =
    rw (append_assoc header body rest, head)
      (ground (
        arith,
        length-append header (body ++ rest),
        length-append body rest,
        length-header_bytes (record { len = length body; seq = seq }),
        content,
      ))
  where
    header : List ℕ
    header = header_bytes (record { len = length body; seq = seq })

    head : header_of (header ++ (body ++ rest)) ≡ record { len = length body; seq = seq }
    head =
        header_of-header_bytes (record { len = length body; seq = seq }) (body ++ rest)
          (omega arith) seq_small

    content : take (length body) (drop msg_header_size (header ++ (body ++ rest))) ≡ body
    content =
        ap (λ t. take (length body) (drop t (header ++ (body ++ rest))))
          (sym (length-header_bytes (record { len = length body; seq = seq })))
        ∙ ap (take (length body)) (drop-length_append header (body ++ rest))
        ∙ take-length_append body rest

header_of-append :
    (q more : List ℕ) → msg_header_size ≤ length q → header_of (q ++ more) ≡ header_of q
header_of-append q more h =
    header_of-agree (q ++ more) q (λ i k. get_or-append q more i 0 ∙ ground arith)

-- Bytes that arrive later do not change a message that is complete.
pub parse-append :
    (cap : ℕ) (q more : List ℕ) {seq : ℕ} {body : List ℕ}
    → parse cap q ≡ message seq body
    → parse cap (q ++ more) ≡ message seq body
unfolding parse
parse-append cap q more e = ground (
  arith,
  length-append q more,
  header_of-append q more,
  drop-append_le q more 8,
  length-drop 8 q,
  take-append_le (drop 8 q) more (header_of q).len,
)
