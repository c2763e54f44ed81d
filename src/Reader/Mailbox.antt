-- ===== src/Reader/Mailbox.antt =====
-- What a sender and a `FrameReader` on one ring promise together: a mailbox that hands out whole
-- letters in the order in which they were posted. A letter takes its room until the call after the one
-- that handed it out.
use shm_cpp.Common.{
  ℕ, ◌+◌, ◌≤◌, ◌<◌, List, [], ◌∷◌, ◌++◌, ◌||◌, length, take, ltb, if◌then◌else◌, u32_mod,
}
use shm_cpp.Ring.{ok, err, max_write_size}
use shm_cpp.Codec.{msg_header_size}
use shm_cpp.Codec
use shm_cpp.Codec.Finish.{frame}

pub record Letter : Type 0 where
  pub seq : ℕ
  pub body : List ℕ

-- `held` is the room of the letter that was handed out last.
pub record Mailbox : Type 0 where
  pub held : ℕ
  pub letters : List Letter

pub data Call : Type 0 where
  post : (payload : List ℕ) (len seq : ℕ) → Call
  fetch : Call

pub data Reply : Type 0 where
  posted : Codec.Sent → Reply
  handed : Letter → Reply
  empty : Reply
  broken : Reply

-- The bytes that letters take in the ring.
unfoldable pub frames : List Letter → List ℕ
frames [] = []
frames (l ∷ ls) = frame l.seq l.body ++ frames ls

unfoldable pub hand : List Letter → Reply × Mailbox
hand [] = (empty, record { held = 0; letters = [] })
hand (l ∷ ls) = (handed l, record { held = msg_header_size + length l.body; letters = ls })

unfoldable pub step : ℕ → Mailbox → Call → Reply × Mailbox
unfolding hand
step cap b (post payload len seq) =
    if ltb (max_write_size cap) len
      || ltb cap (b.held + length (frames b.letters) + msg_header_size + len)
    then (posted (Codec.code err), b)
    else (
      posted (Codec.code ok),
      record b { letters = b.letters ++ (record { seq = seq; body = take len payload } ∷ []) },
    )
step cap b fetch = hand b.letters

-- What the callers owe: a buffer as long as they say, a `uint32_t` number, and a letter that the
-- reader's buffer of `buf_size` bytes can take.
abbrev pub Allowed : ℕ → Call → Type 0
Allowed buf_size (post payload len seq) =
    (len ≤ length payload) × (len ≤ buf_size) × (seq < u32_mod)
Allowed buf_size fetch = Unit

unfoldable pub run : ℕ → Mailbox → List Call → List Reply
unfolding step
run cap b [] = []
run cap b (k ∷ ks) = let (a, b') = step cap b k in a ∷ run cap b' ks

abbrev pub AllAllowed : ℕ → List Call → Type 0
AllAllowed buf_size [] = Unit
AllAllowed buf_size (k ∷ ks) = Allowed buf_size k × AllAllowed buf_size ks
