-- ===== src/Typed/Ends.antt =====
-- The `Recv` loop of the codecs ends, whatever bytes a peer has written: each turn that skips a frame
-- takes at least a header's eight bytes out of the ring.
use shm_cpp.Common.{
  ℕ, zero, suc, ◌≤◌, ◌<◌, ◌≡◌, ◌⊎◌, inl, inr, refl, arith, Option, none, some, List, length, drop,
  length-drop,
}
use shm_cpp.Ring.{IsCapacity}
use shm_cpp.Channel.{Channel}
use shm_cpp.Codec.{MsgHeader}
use shm_cpp.Reader.{
  FrameReader, Code, success, no_data, too_large, bad_length, Received, commit, try_recv,
  payload_bytes,
}
use shm_cpp.Reader.Ready.{Ready, Answers, commit-Ready}
use shm_cpp.Reader.Frames.{Parsed, waiting, malformed, message, parse}
use shm_cpp.Reader.Receive.{try_recv-Receives}
use shm_cpp.Typed.{Got, turn, recv_loop}

-- What `TryRecv` answers other than "no data" and "malformed" leaves a frame to be committed.
answer-pending :
    (buf_size : ℕ) (hdr : MsgHeader) (p : Parsed) (x : Received)
    → Answers buf_size hdr p x
    → (x.rc ≡ success) ⊎ (x.rc ≡ too_large)
    → 0 < x.reader.pending_commit
answer-pending buf_size hdr waiting x (rc, _, _) (inl e) = absurd cc
answer-pending buf_size hdr waiting x (rc, _, _) (inr e) = absurd cc
answer-pending buf_size hdr malformed x (rc, _, _) (inl e) = absurd cc
answer-pending buf_size hdr malformed x (rc, _, _) (inr e) = absurd cc
answer-pending buf_size hdr (message seq body) x (pending, _) d = omega (arith, pending)

module _ {ℓ} {A : Type ℓ} (cap buf_size : ℕ) (c : IsCapacity cap) where
  Goes : (Channel → FrameReader → Option (Got A)) → ℕ → Type ℓ
  Goes again n =
      (ch : Channel) (rd : FrameReader) (r : ℕ) (q : List ℕ)
      → Ready cap buf_size ch rd r q
      → length q < n
      → (g : Got A) × (again ch rd ≡ some g)

  module _ (again : Channel → FrameReader → Option (Got A)) (x : Received) {r : ℕ} {q : List ℕ}
      (n : ℕ) (ready : Ready cap buf_size x.channel x.reader r q) (short : length q ≤ n)
      (go_on : Goes again n) where
    skips :
        0 < x.reader.pending_commit
        → (g : Got A) × (again (commit x.channel x.reader).0 (commit x.channel x.reader).1 ≡ some g)
    unfolding Goes
    skips taken =
        let (ready', done, _, _, _) = commit-Ready c ready in
        go_on _ _ _ _ ready' (omega (arith, length-drop x.reader.pending_commit q, ready.pending))

    -- A turn that skips a frame leaves fewer bytes.
    turn-Ends :
        (rc : Code) (o : Option A)
        → ((rc ≡ success) ⊎ (rc ≡ too_large) → 0 < x.reader.pending_commit)
        → (g : Got A) × (turn rc o again x ≡ some g)
    unfolding turn
    turn-Ends no_data o taken = (_, refl)
    turn-Ends bad_length o taken = (_, refl)
    turn-Ends too_large o taken = skips (taken (inr refl))
    turn-Ends success none taken = skips (taken (inl refl))
    turn-Ends success (some a) taken = (_, refl)

  recv_loop-Ends : (accept : List ℕ → Option A) (n : ℕ) → Goes (recv_loop n cap buf_size accept) n
  unfolding recv_loop Goes
  recv_loop-Ends accept zero ch rd r q ready few = absurd (omega arith)
  recv_loop-Ends accept (suc n) ch rd r q ready few =
      let (took, answers) = try_recv-Receives c ready in
      turn-Ends (recv_loop n cap buf_size accept) (try_recv cap buf_size ch rd) n took.ready
        (omega (arith, length-drop rd.pending_commit q)) (recv_loop-Ends accept n)
        (try_recv cap buf_size ch rd).rc (accept (payload_bytes (try_recv cap buf_size ch rd)))
        (answer-pending buf_size rd.hdr (parse cap (drop rd.pending_commit q)) _ answers)

  -- With more turns than bytes in the ring, the loop comes back, from any state between two calls.
  pub recv_loop-total :
      (accept : List ℕ → Option A) (n : ℕ) {ch : Channel} {rd : FrameReader} {r : ℕ} {q : List ℕ}
      → Ready cap buf_size ch rd r q
      → length q < n
      → (g : Got A) × (recv_loop n cap buf_size accept ch rd ≡ some g)
  recv_loop-total accept n ready few = unfold Goes in recv_loop-Ends accept n _ _ _ _ ready few
