-- ===== src/Pod/Transfer.antt =====
-- `Send` and `Recv` of include/shm_ipc/pod_codec.hpp on a channel.
use shm_cpp.Common.{
  ℕ, ◌+◌, ◌*◌, ◌≤◌, ◌<◌, ◌≡◌, inl, inr, refl, arith, some, Option, get_or, drop, List, [], ◌∷◌,
  ◌++◌, length, ltb, if◌then◌else◌, add32, u32_mod, length-append, length-drop, ap, subst, take,
  take_all, Bool-cases, Option-cases,
}
use shm_cpp.Ring.{ok, err, IsCapacity, max_write_size}
use shm_cpp.Ring.Window.{Holds}
use shm_cpp.Channel.{Channel, ChannelBatch}
use shm_cpp.Channel.Writer
use shm_cpp.Channel.Staged as ChannelStaged
use shm_cpp.Channel.Staged.{Grows-then}
use shm_cpp.Codec.{msg_header_size, le32, code}
use shm_cpp.Codec.Finish.{frame, Appends}
use shm_cpp.Codec.Send.{send_frame_fits, send_frame_full}
use shm_cpp.Reader.{FrameReader}
use shm_cpp.Reader.Mailbox.{Letter}
use shm_cpp.Typed.{recv_loop}
use shm_cpp.Typed.Pick.{Numbered, First, pick-First, Small, Waits, Delivers, recv_loop-pick}
use shm_cpp.Codec.{from_le32}
use shm_cpp.Pod.{PodType, tag_size, check_tag, decode_payload, write_pod, send, accept, recv}
use shm_cpp.Pod.Payload.{tagged, length-tagged, accept-size}

module _ {cap : ℕ} (c : IsCapacity cap) (t : PodType) (obj : List ℕ) (whole : length obj ≡ t.size)
    (pos : 0 < t.size) (short : t.size ≤ max_write_size cap) where
  -- The callback stages the tag and the object.
  write_pod-Appends : Appends cap (write_pod cap t obj) (tagged t.tag obj)
  unfolding write_pod le32
  write_pod-Appends ch b s sent p g room =
      let ch1 : Channel = (Writer.try_write cap ch b (some (le32 t.tag)) tag_size).1 in
      let b1 : ChannelBatch = (Writer.try_write cap ch b (some (le32 t.tag)) tag_size).2 in
      let (ok1, grows1, _) =
        ChannelStaged.try_write-fits ch b c g (le32 t.tag) tag_size (omega arith) (omega arith)
          (omega (arith, c.at_least)) (omega arith) in
      let (ok2, grows2, _) =
        ChannelStaged.try_write-fits ch1 b1 c grows1.staged obj t.size (omega (arith, whole)) pos
          short (omega (arith, length-append p (le32 t.tag), whole)) in
      (refl, Grows-then grows1 (rw (take_all t.size obj (omega (arith, whole))) at grows2))

  size : add32 tag_size t.size ≡ tag_size + t.size
  size = omega (arith, c.fits)

  -- `Send` of an object of at most half the ring publishes the tagged object as one frame and wakes the
  -- peer exactly if the frame fits behind the unread bytes; else it changes nothing.
  pub pod_send_lem :
      (ch : Channel) (seq : ℕ) {r : ℕ} {q : List ℕ}
      → Holds cap ch.write_ring r q
      → let (res, ch') = send cap t ch obj seq in
        let no_room = ltb cap (length q + msg_header_size + (tag_size + t.size)) in
        (res ≡ code (if no_room then err else ok))
        × Holds cap ch'.write_ring r (if no_room then q else q ++ frame seq (tagged t.tag obj))
        × (ch'.notified ≡ (if no_room then ch.notified else ch.notified + 1))
        × (ch'.read_ring ≡ ch.read_ring)
  unfolding send
  pod_send_lem ch seq {r} {q} h =
      rw size (elim (Bool-cases (ltb cap (length q + msg_header_size + (tag_size + t.size)))) [
        | inl over ↦
            rw
              (
                over,
                send_frame_full ch c h (tag_size + t.size) seq (omega (arith, c.fits))
                    (write_pod cap t obj) (ground arith),
              )
              (refl, h, refl, refl)
        | inr fits ↦
            let (sent, out) =
              send_frame_fits ch c h (tag_size + t.size) seq (omega (arith, c.fits))
                (write_pod cap t obj) (tagged t.tag obj) write_pod-Appends
                (omega (arith, length-tagged t.tag obj, whole)) (ground arith) in
            rw fits (sent, out.holds, out.woken, out.same_read)
      ])

Numbered-Small :
    (t : PodType) (buf_size : ℕ) (ls : List Letter)
    → tag_size + t.size ≤ buf_size
    → Numbered ls
    → Small (accept t) buf_size ls
Numbered-Small t buf_size [] held n = tt
Numbered-Small t buf_size (l ∷ ls) held (number, short, n) = (
  number,
  elim (Option-cases (accept t l.body)) [
    | inl refused ↦ inr refused
    | inr (obj, e) ↦ inl (omega (arith, accept-size t l.body obj short e))
  ],
  Numbered-Small t buf_size ls held n,
)

-- The body is the tag of the type, least byte first, and an object of its size.
pub record Carries (t : PodType) (body obj : List ℕ) : Type 0 where
  pub size : length body ≡ 4 + t.size
  pub tag :
      get_or body 0 0 + 256 * get_or body 1 0 + 65536 * get_or body 2 0 + 16777216 * get_or body 3 0
      ≡ t.tag
  pub rest : drop 4 body ≡ obj

module _ (t : PodType) (small : 4 + t.size < u32_mod) where
  accept-Carries : (body obj : List ℕ) → Carries t body obj → accept t body ≡ some obj
  unfolding accept decode_payload check_tag from_le32
  accept-Carries body obj k = ground (
    arith,
    k.size,
    k.tag,
    ap (take t.size) k.rest,
    take_all t.size obj,
    length-drop 4 body,
    ap length k.rest,
  )

  Carries-accept :
      (body obj : List ℕ) → length body < u32_mod → accept t body ≡ some obj → Carries t body obj
  unfolding accept decode_payload check_tag from_le32
  Carries-accept body obj short e = record {
    size = ground (arith, e);
    tag = ground (arith, e);
    rest = ground (arith, e, take_all t.size (drop 4 body), length-drop 4 body);
  }

-- Where letters wait that a `uint32_t` numbers and measures, and the reader's buffer has room for a tag
-- and an object, which together a `uint32_t` measures: `Recv` drops the letters in front that carry no
-- object of its type, stores the object of the first that does and answers 0, or answers -1 if there is
-- none; the letters behind it wait. The fuel is more than the number of letters.
pub recv-First :
    (cap buf_size : ℕ)
    → IsCapacity cap
    → (t : PodType) (ls : List Letter) (n : ℕ) (ch : Channel) (rd : FrameReader)
    → tag_size + t.size ≤ buf_size
    → tag_size + t.size < u32_mod
    → Waits cap buf_size ch rd ls
    → Numbered ls
    → length ls < n
    → {o : Option (List ℕ)} {rest : List Letter} → First (Carries t) ls o rest
    → Delivers cap buf_size (recv n cap buf_size t ch rd) (o, rest)
unfolding recv
recv-First cap buf_size c t ls n ch rd held small w numbered enough {o} {rest} f =
    subst (Delivers cap buf_size (recv_loop n cap buf_size (accept t) ch rd))
      (pick-First (accept t) (λ l a short. accept-Carries t small l.body a)
        (λ l a short. Carries-accept t small l.body a short) f numbered)
      (recv_loop-pick cap buf_size c (accept t) ls n w (Numbered-Small t buf_size ls held numbered)
        enough)
