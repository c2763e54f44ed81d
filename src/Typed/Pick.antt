-- ===== src/Typed/Pick.antt =====
-- What the `Recv` loop of the codecs delivers: the first letter that the codec accepts, with every
-- letter in front of it gone for good.
use shm_cpp.Common.{
  ℕ, zero, suc, ◌+◌, ◌≤◌, ◌<◌, ◌≡◌, subst, ◌⊎◌, inl, inr, refl, sym, ap, ap₂, ◌∙◌, arith, Option,
  none, some, List, [], ◌∷◌, ◌++◌, length, drop, u32_mod, length-append, drop-length_append,
  Option-cases,
}
use shm_cpp.Ring.{IsCapacity}
use shm_cpp.Channel.{Channel}
use shm_cpp.Codec.{MsgHeader, msg_header_size}
use shm_cpp.Codec.Finish.{frame}
use shm_cpp.Reader.{FrameReader, Code, success, no_data, Received, commit, try_recv, payload_bytes}
use shm_cpp.Reader.Ready.{Ready, Answers, Took, commit-Ready}
use shm_cpp.Reader.Frames.{message, parse, parse-frame}
use shm_cpp.Reader.Receive.{try_recv-Receives}
use shm_cpp.Reader.Mailbox.{Letter, frames}
use shm_cpp.Reader.Link.{length-frame}
use shm_cpp.Typed.{Got, turn, recv_loop}

pub found {ℓ} :
    {A : Type ℓ} → Option A → List Letter → Option A × List Letter → Option A × List Letter
found none ls later = later
found (some a) ls later = (some a, ls)

-- The first accepted letter, decoded, and the letters behind it.
unfoldable pub pick {ℓ} : {A : Type ℓ} → (List ℕ → Option A) → List Letter → Option A × List Letter
unfolding found
pick accept [] = (none, [])
pick accept (l ∷ ls) = found (accept l.body) ls (pick accept ls)

-- The first letter whose body carries something, and the letters behind it; what carries what is up to
-- `Carries`.
pub data First {ℓ} {A : Type ℓ} (Carries : List ℕ → A → Type ℓ)
    : List Letter → Option A → List Letter → Type ℓ where
  ended : First Carries [] none []
  passed :
      {l : Letter} {ls rest : List Letter} {o : Option A}
      → ((a : A) → ¬ Carries l.body a)
      → First Carries ls o rest
      → First Carries (l ∷ ls) o rest
  reached :
      {l : Letter} {ls : List Letter} {a : A}
      → Carries l.body a
      → First Carries (l ∷ ls) (some a) ls

-- Letters that a `uint32_t` can number and measure.
abbrev pub Numbered : List Letter → Type 0
Numbered [] = Unit {0}
Numbered (l ∷ ls) = (l.seq < u32_mod) × (length l.body < u32_mod) × Numbered ls

-- For a codec that accepts exactly the bodies that carry something, `pick` finds the first of them.
pub pick-First {ℓ} :
    {A : Type ℓ} {Carries : List ℕ → A → Type ℓ} (accept : List ℕ → Option A) {ls : List Letter}
    {o : Option A} {rest : List Letter}
    → ((l : Letter) (a : A) → length l.body < u32_mod → Carries l.body a → accept l.body ≡ some a)
    → ((l : Letter) (a : A) → length l.body < u32_mod → accept l.body ≡ some a → Carries l.body a)
    → First Carries ls o rest
    → Numbered ls
    → pick accept ls ≡ (o, rest)
unfolding pick found
pick-First accept to from ended sized = refl
pick-First accept to from (passed {l} never f) (number, short, sized) =
    elim (Option-cases (accept l.body)) [
      | inl refused ↦ rw refused (pick-First accept to from f sized)
      | inr (a, e) ↦ absurd (never a (from l a short e))
    ]
pick-First accept to from (reached {l} {a = a} carries) (number, short, sized) =
    rw (to l a short carries) refl

-- Every letter is numbered by a `uint32_t`, and fits the reader's buffer or is not accepted anyway.
abbrev pub Small {ℓ} : {A : Type ℓ} → (List ℕ → Option A) → ℕ → List Letter → Type ℓ
Small accept buf_size [] = Unit
Small accept buf_size (l ∷ ls) =
    (l.seq < u32_mod)
    × ((length l.body ≤ buf_size) ⊎ (accept l.body ≡ none))
    × Small accept buf_size ls

-- The reader has handed out the bytes `last`, and the letters `ls` lie behind them.
pub record Waits (cap buf_size : ℕ) (ch : Channel) (rd : FrameReader) (ls : List Letter)
    : Type 0 where
  pub at : ℕ
  pub last : List ℕ
  pub ready : Ready cap buf_size ch rd at (last ++ frames ls)
  pub last_pending : length last ≡ rd.pending_commit

-- 0 with an object, -1 without.
abbrev pub result {ℓ} : {A : Type ℓ} → Option A → Code
result none = no_data
result (some a) = success

-- The loop came back with the object and left the letters `rest`.
abbrev pub Delivers {ℓ} : {A : Type ℓ} → ℕ → ℕ → Option (Got A) → Option A × List Letter → Type ℓ
Delivers {A = A} cap buf_size o (out, rest) =
    (g : Got A) × (o ≡ some g)
    × (g.rc ≡ result out)
    × (g.out ≡ out)
    × Waits cap buf_size g.channel g.reader rest

module _ {ℓ} {A : Type ℓ} (cap buf_size : ℕ) (c : IsCapacity cap) (accept : List ℕ → Option A) where
  -- Committing the frame that was handed out leaves the letters behind it.
  commit-Waits :
      (ch : Channel) (rd : FrameReader) {r : ℕ} (l : Letter) (ls : List Letter)
      → Ready cap buf_size ch rd r (frames (l ∷ ls))
      → rd.pending_commit ≡ msg_header_size + length l.body
      → Waits cap buf_size (commit ch rd).0 (commit ch rd).1 ls
  unfolding frames
  commit-Waits ch rd {r} l ls ready pending =
      let (ready', done, _, _, _) = commit-Ready c ready in
      record {
        at = r + rd.pending_commit;
        last = [];
        ready = rw behind at ready';
        last_pending = sym done;
      }
    where
      behind : drop rd.pending_commit (frame l.seq l.body ++ frames ls) ≡ frames ls
      behind =
          rw (pending, ← length-frame l.seq l.body)
            (drop-length_append (frame l.seq l.body) (frames ls))

  -- One turn on the letters `l ∷ ls`.
  module _ (again : Channel → FrameReader → Option (Got A)) (hdr : MsgHeader) (x : Received) {r : ℕ}
      (l : Letter) (ls : List Letter)
      (ready : Ready cap buf_size x.channel x.reader r (frames (l ∷ ls)))
      (answers : Answers buf_size hdr (message l.seq l.body) x)
      (fits : (length l.body ≤ buf_size) ⊎ (accept l.body ≡ none)) where
    skipped :
        accept l.body ≡ none
        → turn x.rc (accept (payload_bytes x)) again x
          ≡ again (commit x.channel x.reader).0 (commit x.channel x.reader).1
    unfolding turn
    skipped e = elim (answers.1) [
      | inl (rc, _, bytes, _) ↦ ap₂ (λ t o. turn t o again x) rc (ap accept bytes ∙ e)
      | inr (rc, _, _) ↦ ap (λ t. turn t (accept (payload_bytes x)) again x) rc
    ]

    handed :
        (a : A)
        → accept l.body ≡ some a
        → turn x.rc (accept (payload_bytes x)) again x
          ≡ some (record { rc = success; out = some a; channel = x.channel; reader = x.reader })
    unfolding turn
    handed a e = elim (answers.1) [
      | inl (rc, _, bytes, _) ↦ ap₂ (λ t o. turn t o again x) rc (ap accept bytes ∙ e)
      | inr (rc, large, _) ↦ elim fits [
        | inl small ↦ absurd (omega arith)
        | inr refused ↦ absurd cc
      ]
    ]

  -- What `TryRecv` answers when the letters `l ∷ ls` wait.
  front :
      {rd : FrameReader} {r : ℕ} (l : Letter) (ls : List Letter) {ch : Channel}
      → Ready cap buf_size ch rd r (frames (l ∷ ls))
      → l.seq < u32_mod
      → parse cap (frames (l ∷ ls)) ≡ message l.seq l.body
  unfolding frames
  front l ls ready small =
      parse-frame cap l.seq l.body (frames ls)
        (omega (
          arith,
          length-append (frame l.seq l.body) (frames ls),
          length-frame l.seq l.body,
          ready.holds.window.size,
        ))
        (omega (arith, c.fits)) small

  again-Delivers :
      (o o' : Option (Got A)) (p : Option A × List Letter)
      → o ≡ o'
      → Delivers cap buf_size o' p
      → Delivers cap buf_size o p
  again-Delivers o o' p e (g, is, rc, out, rest) = (g, e ∙ is, rc, out, rest)

  -- `TryRecv` drops the bytes that were handed out and sees the letters.
  received :
      {ls : List Letter} (ch : Channel) (rd : FrameReader)
      → (w : Waits cap buf_size ch rd ls)
      → let x = try_recv cap buf_size ch rd in
        Took cap buf_size ch (w.at + rd.pending_commit) (frames ls) x
        × Answers buf_size rd.hdr (parse cap (frames ls)) x
  received {ls} ch rd w =
      let (took, answers) = try_recv-Receives c w.ready in (rw rest at took, rw rest at answers)
    where
      rest : drop rd.pending_commit (w.last ++ frames ls) ≡ frames ls
      rest = rw (← w.last_pending) (drop-length_append w.last (frames ls))

  -- With no letter the loop ends after one turn.
  pick-none :
      {ch : Channel} {rd : FrameReader} (n : ℕ)
      → Waits cap buf_size ch rd []
      → Delivers cap buf_size (recv_loop (suc n) cap buf_size accept ch rd) (none, [])
  unfolding recv_loop turn frames parse
  pick-none {ch} {rd} n w =
      let x : Received = try_recv cap buf_size ch rd in
      let (took, answers) = received ch rd w in
      let (rc, _, done) : (x.rc ≡ no_data)
          × (x.reader.hdr ≡ rd.hdr)
          × (x.reader.pending_commit ≡ 0) =
        answers in
      (
        record { rc = no_data; out = none; channel = x.channel; reader = x.reader },
        ap (λ t. turn t (accept (payload_bytes x)) (recv_loop n cap buf_size accept) x) rc,
        refl,
        refl,
        record {
          at = w.at + rd.pending_commit;
          last = [];
          ready = took.ready;
          last_pending = sym done;
        },
      )

  -- With more turns than letters, the loop stores the first accepted letter and answers 0, or answers
  -- -1 if there is none. The letters in front of it are gone, and those behind it wait.
  pub recv_loop-pick :
      (ls : List Letter) (n : ℕ) {ch : Channel} {rd : FrameReader}
      → Waits cap buf_size ch rd ls
      → Small accept buf_size ls
      → length ls < n
      → Delivers cap buf_size (recv_loop n cap buf_size accept ch rd) (pick accept ls)
  unfolding pick found recv_loop
  recv_loop-pick ls zero w small enough = absurd (omega arith)
  recv_loop-pick [] (suc n) w small enough = pick-none n w
  recv_loop-pick (l ∷ ls) (suc n) {ch} {rd} w (number, fits, small) enough =
      let x : Received = try_recv cap buf_size ch rd in
      let (took, seen) = received ch rd w in
      let answers : Answers buf_size rd.hdr (message l.seq l.body) x =
        rw (front l ls took.ready number) at seen in
      let turns : Option (Got A) = recv_loop (suc n) cap buf_size accept ch rd in
      let after : Waits cap buf_size (commit x.channel x.reader).0 (commit x.channel x.reader).1
          ls =
        commit-Waits x.channel x.reader l ls took.ready answers.0 in
      elim (Option-cases (accept l.body)) [
        | inl refused ↦
            subst (λ o. Delivers cap buf_size turns (found o ls (pick accept ls))) (sym refused)
              (again-Delivers turns _ (pick accept ls)
                (skipped (recv_loop n cap buf_size accept) rd.hdr x l ls took.ready answers fits
                  refused)
                (recv_loop-pick ls n after small (omega arith)))
        | inr (a, accepted) ↦
            subst (λ o. Delivers cap buf_size turns (found o ls (pick accept ls))) (sym accepted)
              (
                _,
                handed (recv_loop n cap buf_size accept) rd.hdr x l ls took.ready answers fits a
                    accepted,
                refl,
                refl,
                record {
                  at = w.at + rd.pending_commit;
                  last = frame l.seq l.body;
                  ready = unfold frames in took.ready;
                  last_pending = length-frame l.seq l.body ∙ sym (answers.0);
                },
              )
      ]
