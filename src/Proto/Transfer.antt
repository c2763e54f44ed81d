-- ===== src/Proto/Transfer.antt =====
-- `Send` and `Recv` of include/shm_ipc/proto_codec.hpp on a channel.
use shm_cpp.Common.{
  Option, ℕ, ◌+◌, ◌≤◌, ◌<◌, ◌^◌, ◌≡◌, inl, inr, refl, subst, arith, true, false, some, List, [],
  ◌∷◌, ◌++◌, length, take, ltb, if◌then◌else◌, u32_mod, length-append, take_all, Bool-cases,
  Option-cases,
}
use shm_cpp.Ring.{ok, err, IsCapacity, max_write_size}
use shm_cpp.Ring.Window.{Holds}
use shm_cpp.Batch.{reserve, commit_reserve, fill}
use shm_cpp.Batch.Staged
use shm_cpp.Batch.Staged.{Staged}
use shm_cpp.Channel.{Channel, ChannelBatch}
use shm_cpp.Channel.Writer
use shm_cpp.Channel.Staged as ChannelStaged
use shm_cpp.Channel.Staged.{Grows, Grows-then}
use shm_cpp.Codec.{msg_header_size, code, returned}
use shm_cpp.Codec.Finish.{frame, Appends}
use shm_cpp.Codec.Send.{send_frame_fits, send_frame_full}
use shm_cpp.Reader.{FrameReader}
use shm_cpp.Reader.Mailbox.{Letter}
use shm_cpp.Typed.{recv_loop}
use shm_cpp.Proto.Carrying.{Carries, accept-Carries, Carries-accept}
use shm_cpp.Typed.Pick.{Numbered, First, pick-First, Waits, Delivers, recv_loop-pick, Small}
use shm_cpp.Proto.{
  ProtoType, type_name_len_size, le16, name_len, pb_len, payload_size, serialize_to_batch,
  serialize_some, write_proto, send, accept, recv,
}
use shm_cpp.Proto.Payload.{typed, length-typed}

module _ {cap : ℕ} (c : IsCapacity cap) where
  -- Both ways of serializing stage the same bytes.
  serialize-Grows :
      (ch : Channel) (b : ChannelBatch) (s : ℕ) (sent p bytes : List ℕ)
      → Staged cap ch.write_ring b.batch s sent p
      → 0 < length bytes
      → length bytes ≤ max_write_size cap
      → length sent + length p + length bytes ≤ cap
      → let (ch', b') = serialize_to_batch cap bytes (length bytes) ch b in
        Grows cap ch b ch' b' s sent p bytes
  unfolding serialize_to_batch
  serialize-Grows ch b s sent p bytes g pos short room =
      let whole = take_all (length bytes) bytes (omega arith) in
      elim (Option-cases (reserve cap b.batch (length bytes))) [
        | inl e ↦ rw e (
            let (done, grows, more) =
              ChannelStaged.try_write-fits ch b c g bytes (length bytes) (omega arith) pos short
                room in
            rw whole at grows)
        | inr (off, e) ↦
            let filled : Staged cap (fill ch.write_ring off bytes (length bytes))
                (commit_reserve b.batch (length bytes)) s sent (p ++ take (length bytes) bytes) =
              Staged.reserve-Staged c g (length bytes) off bytes (omega arith)
                (omega (arith, c.fits)) e in
            rw e record {
              staged = rw whole at filled;
              same_read = refl;
              same_notified = refl;
              same_pos = unfold fill in refl;
              same_attached = refl;
              more = unfold commit_reserve in omega arith;
            }
      ]

  serialize_some-Grows :
      (ch : Channel) (b : ChannelBatch) (s : ℕ) (sent p bytes : List ℕ)
      → Staged cap ch.write_ring b.batch s sent p
      → length bytes ≤ max_write_size cap
      → length sent + length p + length bytes ≤ cap
      → let (o, ch', b') = serialize_some cap bytes (length bytes) ch b in
        (o ≡ returned) × Grows cap ch b ch' b' s sent p bytes
  unfolding serialize_some
  serialize_some-Grows ch b s sent p [] g short room = (refl, ChannelStaged.idle-Grows ch b c g)
  serialize_some-Grows ch b s sent p (x ∷ bytes) g short room =
      let more : ltb 0 (length (x ∷ bytes)) ≡ true = ground arith in
      rw more (refl, serialize-Grows ch b s sent p (x ∷ bytes) g (omega arith) short room)

  module _ {M : Type 0} (t : ProtoType M) (msg : M) (named : 0 < length t.name)
      (short_name : length t.name < 2 ^ 16) (name_fits : length t.name ≤ max_write_size cap)
      (short : length (t.serialize msg) ≤ max_write_size cap) where
    n : name_len t ≡ length t.name
    n = omega (arith, short_name)

    m : pb_len t msg ≡ length (t.serialize msg)
    m = omega (arith, short, c.fits)

    -- The callback stages the name and the message.
    write_proto-Appends : Appends cap (write_proto cap t msg) (typed t.name (t.serialize msg))
    unfolding write_proto le16
    write_proto-Appends ch b s sent p g room =
        let size = length-typed t.name (t.serialize msg) in
        let tag = le16 (length t.name) in
        let ch1 : Channel = (Writer.try_write cap ch b (some tag) type_name_len_size).1 in
        let b1 : ChannelBatch = (Writer.try_write cap ch b (some tag) type_name_len_size).2 in
        let (ok1, grows1, _) =
          ChannelStaged.try_write-fits ch b c g tag type_name_len_size (omega arith) (omega arith)
            (omega (arith, c.at_least)) (omega (arith, size)) in
        let ch2 : Channel = (Writer.try_write cap ch1 b1 (some t.name) (length t.name)).1 in
        let b2 : ChannelBatch = (Writer.try_write cap ch1 b1 (some t.name) (length t.name)).2 in
        let (ok2, grows2, _) =
          ChannelStaged.try_write-fits ch1 b1 c grows1.staged t.name (length t.name) (omega arith)
            named name_fits (omega (arith, length-append p tag, size)) in
        let both =
          Grows-then grows1 (rw (take_all (length t.name) t.name (omega arith)) at grows2) in
        let (o, grows3) =
          serialize_some-Grows ch2 b2 s sent (p ++ (tag ++ t.name)) (t.serialize msg) both.staged
            short
            (omega (arith, length-append p (tag ++ t.name), length-append tag t.name, size)) in
        rw (n, m) (o, Grows-then both grows3)

    size : payload_size t msg ≡ length (typed t.name (t.serialize msg))
    size =
        rw (n, m) (omega (arith, short_name, short, c.fits, length-typed t.name (t.serialize msg)))

    -- `Send` of a message of at most half the ring, whose type has a name that is not empty, that a
    -- `uint16_t` measures and that is at most half the ring, publishes name and message as one frame and wakes the peer exactly if the frame fits behind the
    -- unread bytes; else it changes nothing.
    pub proto_send_lem :
        (ch : Channel) (seq : ℕ) {r : ℕ} {q : List ℕ}
        → Holds cap ch.write_ring r q
        → let payload = typed t.name (t.serialize msg) in
          let (res, ch') = send cap t ch msg seq in
          let no_room = ltb cap (length q + msg_header_size + length payload) in
          (res ≡ code (if no_room then err else ok))
          × Holds cap ch'.write_ring r (if no_room then q else q ++ frame seq payload)
          × (ch'.notified ≡ (if no_room then ch.notified else ch.notified + 1))
          × (ch'.read_ring ≡ ch.read_ring)
    unfolding send
    proto_send_lem ch seq {r} {q} h =
        let payload : List ℕ = typed t.name (t.serialize msg) in
        let small : length payload < u32_mod =
          omega (arith, length-typed t.name (t.serialize msg), short_name, short, c.fits) in
        let allowed : ltb (max_write_size cap) (pb_len t msg) ≡ false = ground (arith, m) in
        rw (allowed, size)
          (elim (Bool-cases (ltb cap (length q + msg_header_size + length payload))) [
            | inl over ↦
                rw
                  (
                    over,
                    send_frame_full ch c h (length payload) seq
                        (omega
                          (arith, length-typed t.name (t.serialize msg), short_name, short, c.fits))
                        (write_proto cap t msg) (ground arith),
                  )
                  (refl, h, refl, refl)
            | inr fits ↦
                let (sent, out) =
                  send_frame_fits ch c h (length payload) seq
                    (omega
                      (arith, length-typed t.name (t.serialize msg), short_name, short, c.fits))
                    (write_proto cap t msg) payload write_proto-Appends refl (ground arith) in
                rw fits (sent, out.holds, out.woken, out.same_read)
          ])

-- Letters that fit the reader's buffer.
abbrev pub Fit : ℕ → List Letter → Type 0
Fit buf_size [] = Unit {0}
Fit buf_size (l ∷ ls) = (length l.body ≤ buf_size) × Fit buf_size ls

Fit-Small :
    {M : Type 0} (t : ProtoType M) (buf_size : ℕ) (ls : List Letter)
    → Numbered ls
    → Fit buf_size ls
    → Small (accept t) buf_size ls
Fit-Small t buf_size [] k f = tt
Fit-Small t buf_size (l ∷ ls) (number, short, k) (held, f) =
    (number, inl held, Fit-Small t buf_size ls k f)

-- Where letters wait that a `uint32_t` numbers and measures and that fit the reader's buffer: `Recv` drops
-- those in front that do not carry the name of its type and bytes that protobuf parses, stores what the
-- first other letter carries and answers 0, or answers -1 if there is none; the letters behind it wait. The
-- fuel is more than the number of letters.
pub proto_recv-First :
    {M : Type 0} (cap buf_size : ℕ)
    → IsCapacity cap
    → (t : ProtoType M) (ls : List Letter) (n : ℕ) (ch : Channel) (rd : FrameReader)
    → Waits cap buf_size ch rd ls
    → Numbered ls
    → Fit buf_size ls
    → length ls < n
    → {o : Option M} {rest : List Letter} → First (Carries t) ls o rest
    → Delivers cap buf_size (recv n cap buf_size t ch rd) (o, rest)
unfolding recv
proto_recv-First cap buf_size c t ls n ch rd w numbered fit enough {o} {rest} f =
    subst (Delivers cap buf_size (recv_loop n cap buf_size (accept t) ch rd))
      (pick-First (accept t) (λ l a short. accept-Carries t l.body a short)
        (λ l a short. Carries-accept t l.body a short) f numbered)
      (recv_loop-pick cap buf_size c (accept t) ls n w (Fit-Small t buf_size ls numbered fit)
        enough)
