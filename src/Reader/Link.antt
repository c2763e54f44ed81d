-- ===== src/Reader/Link.antt =====
-- A sender with `Send` of include/shm_ipc/codec.hpp and a receiver with `TryRecv` of
-- include/shm_ipc/frame_reader.hpp at the two ends of one ring.
use shm_cpp.Common.{
  ℕ, ◌+◌, ◌≤◌, ◌<◌, ◌≡◌, sym, ap, ◌∙◌, some, List, [], ◌∷◌, ◌++◌, length, u32_mod, append_assoc,
  append-nil, length-append,
}
use shm_cpp.Channel.{Channel}
use shm_cpp.Codec.{msg_header_size, send, header_bytes}
use shm_cpp.Codec.Wire.{length-header_bytes}
use shm_cpp.Codec.Finish.{frame}
use shm_cpp.Reader.{
  FrameReader, Code, success, no_data, too_large, bad_length, Received, try_recv, last_seq,
  payload_bytes,
}
use shm_cpp.Reader.Ready.{Ready}
use shm_cpp.Reader.Mailbox.{
  Letter, Mailbox, Call, post, fetch, Reply, posted, handed, empty, broken, frames,
}

-- The two ends of one ring: what one of them does to it, the other sees.
pub record Pair : Type 0 where
  pub sender : Channel
  pub receiver : Channel
  pub reader : FrameReader

-- What the caller of `TryRecv` takes from it.
abbrev pub taken : Code → ℕ → List ℕ → Reply
taken success seq body = handed (record { seq = seq; body = body })
taken no_data seq body = empty
taken too_large seq body = broken
taken bad_length seq body = broken

-- The link after `TryRecv` returned `x`.
abbrev pub fetched : Pair → Received → Pair
fetched l x = record {
  sender = record (l.sender) { write_ring = x.channel.read_ring };
  receiver = x.channel;
  reader = x.reader;
}

unfoldable pub call : ℕ → ℕ → Pair → Call → Reply × Pair
call cap buf_size l (post payload len seq) =
    let (res, ch) = send cap l.sender (some payload) len seq in
    (
      posted res,
      record l { sender = ch; receiver = record (l.receiver) { read_ring = ch.write_ring } },
    )
call cap buf_size l fetch =
    let x = try_recv cap buf_size l.receiver l.reader in
    (taken x.rc (last_seq x.reader) (payload_bytes x), fetched l x)

unfoldable pub run : ℕ → ℕ → Pair → List Call → List Reply
run cap buf_size l [] = []
run cap buf_size l (k ∷ ks) = let (a, l') = call cap buf_size l k in a ∷ run cap buf_size l' ks

-- Letters that a `uint32_t` can number and that fit the reader's buffer.
abbrev pub Fit : ℕ → List Letter → Type 0
Fit buf_size [] = Unit
Fit buf_size (l ∷ ls) = (l.seq < u32_mod) × (length l.body ≤ buf_size) × Fit buf_size ls

-- The link holds the mailbox's letters behind the one that was handed out last.
pub record Carries (cap buf_size : ℕ) (l : Pair) (b : Mailbox) : Type 0 where
  pub at : ℕ
  pub last : List ℕ
  pub ready : Ready cap buf_size l.receiver l.reader at (last ++ frames b.letters)
  pub shared : l.sender.write_ring ≡ l.receiver.read_ring
  pub last_pending : length last ≡ l.reader.pending_commit
  pub last_held : l.reader.pending_commit ≡ b.held
  pub fit : Fit buf_size b.letters

pub length-frame :
    (seq : ℕ) (body : List ℕ) → length (frame seq body) ≡ msg_header_size + length body
length-frame seq body =
    length-append (header_bytes (record { len = length body; seq = seq })) body
    ∙ ap (λ (t : ℕ). t + length body)
        (length-header_bytes (record { len = length body; seq = seq }))

pub frames-append :
    (ls : List Letter) (l : Letter) → frames (ls ++ (l ∷ [])) ≡ frames ls ++ frame l.seq l.body
unfolding frames
frames-append [] l = append-nil (frame l.seq l.body)
frames-append (x ∷ ls) l =
    ap (λ t. frame x.seq x.body ++ t) (frames-append ls l)
    ∙ sym (append_assoc (frame x.seq x.body) (frames ls) (frame l.seq l.body))

pub Fit-append :
    {buf_size : ℕ} (ls : List Letter) (l : Letter)
    → Fit buf_size ls
    → l.seq < u32_mod
    → length l.body ≤ buf_size
    → Fit buf_size (ls ++ (l ∷ []))
Fit-append [] l f s n = (s, n, tt)
Fit-append (x ∷ ls) l (a, b, f) s n = (a, b, Fit-append ls l f s n)
