-- ===== src/Reader/Delivery.antt =====
-- `Send` of include/shm_ipc/codec.hpp on one side of a ring and `TryRecv` of
-- include/shm_ipc/frame_reader.hpp on the other, against the mailbox.
use shm_cpp.Common.{
  ℕ, ◌+◌, ◌≡◌, inl, inr, refl, sym, ap, ap₂, ◌∙◌, arith, List, [], ◌∷◌, ◌++◌, length, take, drop,
  ltb, ◌||◌, append_assoc, length-append, length-take, drop-length_append, Bool-cases,
}
use shm_cpp.Ring.{IsCapacity, max_write_size}
use shm_cpp.Ring.Window.{Holds}
use shm_cpp.Channel.{Channel}
use shm_cpp.Codec.{MsgHeader, msg_header_size}
use shm_cpp.Codec.Finish.{frame}
use shm_cpp.Codec.Message.{send_lem}
use shm_cpp.Reader.{Received, try_recv, last_seq, payload_bytes}
use shm_cpp.Reader.Ready.{Answers, Took}
use shm_cpp.Reader.Frames.{message, parse, parse-frame}
use shm_cpp.Reader.Receive.{try_recv-Receives}
use shm_cpp.Reader.Mailbox
use shm_cpp.Reader.Mailbox.{
  Letter, Mailbox, Call, post, fetch, Reply, posted, handed, empty, broken, frames,
}
use shm_cpp.Reader.Link.{
  Pair, taken, fetched, call, run, Fit, Carries, length-frame, frames-append, Fit-append,
}

module _ {cap buf_size : ℕ} (c : IsCapacity cap) where
  module _ {l : Pair} {b : Mailbox} (v : Carries cap buf_size l b) where
    before : List ℕ
    before = v.last ++ frames b.letters

    size : length before ≡ b.held + length (frames b.letters)
    unfolding before
    size = omega (arith, length-append v.last (frames b.letters), v.last_pending, v.last_held)

    at_sender : Holds cap l.sender.write_ring v.at before
    unfolding before
    at_sender = rw v.shared v.ready.holds

    -- The link after a post that left the letters `ls` in the ring.
    carries :
        (ch : Channel) (ls : List Letter)
        → Holds cap ch.write_ring v.at (v.last ++ frames ls)
        → Fit buf_size ls
        → Carries cap buf_size
            (record l { sender = ch; receiver = record (l.receiver) { read_ring = ch.write_ring } })
            (record b { letters = ls })
    carries ch ls h f = record {
      at = v.at;
      last = v.last;
      ready = record {
        holds = h;
        pending = omega (arith, length-append v.last (frames ls), v.last_pending);
        buffer = v.ready.buffer;
      };
      shared = refl;
      last_pending = v.last_pending;
      last_held = v.last_held;
      fit = f;
    }

    post-step :
        (payload : List ℕ) (len seq : ℕ)
        → Mailbox.Allowed buf_size (post payload len seq)
        → let (a, l') = call cap buf_size l (post payload len seq) in
          let (a', b') = Mailbox.step cap b (post payload len seq) in
          (a ≡ a') × Carries cap buf_size l' b'
    unfolding call Mailbox.step before
    post-step payload len seq (given, short, small) =
        let (e, h, woken, same) = send_lem c payload len given l.sender seq at_sender in
        elim (Bool-cases
          (ltb (max_write_size cap) len || ltb cap (length before + msg_header_size + len))) [
            | inl no_room ↦
                rw (← size, no_room)
                  (ap posted (rw no_room at e), carries _ b.letters (rw no_room at h) v.fit)
            | inr room ↦
                rw (← size, room)
                  (
                    ap posted (rw room at e),
                    carries _ (b.letters ++ (letter ∷ []))
                        (rw
                          (
                            frames-append b.letters letter,
                            ← append_assoc v.last (frames b.letters) (frame seq (take len payload)),
                          )
                          (rw room at h))
                        (Fit-append b.letters letter v.fit small
                          (omega (arith, length-take len payload))),
                  )
          ]
      where
        letter : Letter
        letter = record { seq = seq; body = take len payload }

  hand-step :
      (l : Pair) (r : ℕ) (hdr : MsgHeader) (ls : List Letter) (x : Received)
      → Took cap buf_size l.receiver r (frames ls) x
      → Answers buf_size hdr (parse cap (frames ls)) x
      → Fit buf_size ls
      → let (a, b) = Mailbox.hand ls in
        (taken x.rc (last_seq x.reader) (payload_bytes x) ≡ a)
        × Carries cap buf_size (fetched l x) b
  unfolding frames Mailbox.hand parse last_seq
  hand-step l r hdr [] x took (rc, same, done) f = (
    rw rc refl,
    record {
      at = r;
      last = [];
      ready = took.ready;
      shared = refl;
      last_pending = sym done;
      last_held = done;
      fit = tt;
    },
  )
  hand-step l r hdr (y ∷ ls) x took answers (small, short, f) =
      let (pending, result) = rw parsed at answers in
      elim result [
        | inl (rc, len, bytes, head) ↦ (
          ap₂ (λ t u. taken t u (payload_bytes x)) rc (ap (λ t. t.seq) head)
              ∙ ap (λ t. handed (record { seq = y.seq; body = t })) bytes,
          record {
            at = r;
            last = frame y.seq y.body;
            ready = took.ready;
            shared = refl;
            last_pending = length-frame y.seq y.body ∙ sym pending;
            last_held = pending;
            fit = f;
          },
        )
        | inr (rc, large, head) ↦ absurd (omega arith)
      ]
    where
      parsed : parse cap (frame y.seq y.body ++ frames ls) ≡ message y.seq y.body
      parsed =
          parse-frame cap y.seq y.body (frames ls)
            (omega (
              arith,
              length-append (frame y.seq y.body) (frames ls),
              length-frame y.seq y.body,
              took.ready.holds.window.size,
            ))
            (omega (arith, c.fits)) small

  fetch-step :
      {l : Pair} {b : Mailbox}
      → Carries cap buf_size l b
      → let (a, l') = call cap buf_size l fetch in
        let (a', b') = Mailbox.step cap b fetch in (a ≡ a') × Carries cap buf_size l' b'
  unfolding call Mailbox.step
  fetch-step {l} {b} v =
      let (took, answers) = try_recv-Receives c v.ready in
      hand-step l _ l.reader.hdr b.letters (try_recv cap buf_size l.receiver l.reader)
        (rw rest at took) (rw rest at answers) v.fit
    where
      rest : drop l.reader.pending_commit (v.last ++ frames b.letters) ≡ frames b.letters
      rest = rw (← v.last_pending) (drop-length_append v.last (frames b.letters))

  -- From a link that carries a mailbox's letters, allowed calls get the mailbox's replies.
  run-Mailbox :
      (ks : List Call) {l : Pair} {b : Mailbox}
      → Carries cap buf_size l b
      → Mailbox.AllAllowed buf_size ks
      → run cap buf_size l ks ≡ Mailbox.run cap b ks
  unfolding run Mailbox.run
  run-Mailbox [] v a = refl
  run-Mailbox (post payload len seq ∷ ks) v a =
      let (e, v') = post-step v payload len seq a.0 in ap₂ ◌∷◌ e (run-Mailbox ks v' a.1)
  run-Mailbox (fetch ∷ ks) v a = let (e, v') = fetch-step v in ap₂ ◌∷◌ e (run-Mailbox ks v' a.1)

  -- On a ring that is empty, with a reader that has nothing pending, posts and fetches in any order
  -- behave as on the empty mailbox: every letter that `Send` accepts comes out once, whole, with its
  -- number, in the order of posting, and `Send` refuses exactly when the letter is larger than half
  -- the ring or finds no room.
  pub run-empty :
      (l : Pair) (r : ℕ) (ks : List Call)
      → Holds cap l.receiver.read_ring r []
      → l.sender.write_ring ≡ l.receiver.read_ring
      → l.reader.pending_commit ≡ 0
      → length l.reader.buf ≡ buf_size
      → Mailbox.AllAllowed buf_size ks
      → run cap buf_size l ks ≡ Mailbox.run cap (record { held = 0; letters = [] }) ks
  unfolding frames
  run-empty l r ks h shared idle size a = run-Mailbox ks carries_none a
    where
      carries_none : Carries cap buf_size l (record { held = 0; letters = [] })
      carries_none = record {
        at = r;
        last = [];
        ready = record { holds = h; pending = omega (arith, idle); buffer = size };
        shared = shared;
        last_pending = sym idle;
        last_held = idle;
        fit = tt;
      }
