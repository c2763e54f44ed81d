-- ===== src/Codec/Message.antt =====
-- The plain `Send` of include/shm_ipc/codec.hpp.
use shm_cpp.Common.{
  ℕ, ◌+◌, ◌≤◌, ◌≡◌, refl, arith, some, List, ◌++◌, length, take, ltb, ◌||◌, Bool-cases, inl, inr,
  lt→ltb, if◌then◌else◌, length-take,
}
use shm_cpp.Ring.{err, ok, IsCapacity, max_write_size}
use shm_cpp.Ring.Window.{Holds}
use shm_cpp.Channel.{Channel}
use shm_cpp.Channel.Staged as ChannelStaged
use shm_cpp.Codec.{WriteFn, msg_header_size, code, write_once, send}
use shm_cpp.Codec.Finish.{frame, Appends}
use native.Mathlib.Decide.{dec_lt}
use shm_cpp.Codec.Send.{send_frame_fits, send_frame_full}

module _ {cap : ℕ} (c : IsCapacity cap) (payload : List ℕ) (len : ℕ)
    (given : len ≤ length payload) where
  pub write_once-Appends :
      len ≤ max_write_size cap → Appends cap (write_once cap (some payload) len) (take len payload)
  unfolding write_once
  write_once-Appends short ch b s sent p g room = elim (dec_lt 0 len) [
    | yes some_bytes ↦
        let (o, grows, count) =
          ChannelStaged.try_write-fits ch b c g payload len given some_bytes short
            (omega (arith, length-take len payload)) in
        rw (lt→ltb 0 len some_bytes) (refl, grows)
    | no none_given ↦
        let nothing : len ≡ 0 = omega arith in rw nothing (refl, ChannelStaged.idle-Grows ch b c g)
  ]

  -- `Send` publishes the payload as one frame and wakes the peer exactly if the payload is at most
  -- half the ring and the frame fits behind the unread bytes; else it changes nothing.
  pub send_lem :
      (ch : Channel) (seq : ℕ) {r : ℕ} {q : List ℕ}
      → Holds cap ch.write_ring r q
      → let (res, ch') = send cap ch (some payload) len seq in
        let no_room = ltb (max_write_size cap) len || ltb cap (length q + msg_header_size + len) in
        (res ≡ code (if no_room then err else ok))
        × Holds cap ch'.write_ring r (if no_room then q else q ++ frame seq (take len payload))
        × (ch'.notified ≡ (if no_room then ch.notified else ch.notified + 1))
        × (ch'.read_ring ≡ ch.read_ring)
  unfolding send
  send_lem ch seq {r} {q} h = elim (Bool-cases (ltb (max_write_size cap) len)) [
    | inl large ↦ rw large (refl, h, refl, refl)
    | inr short ↦ rw short (elim (Bool-cases (ltb cap (length q + msg_header_size + len))) [
      | inl over ↦
          rw (over, send_frame_full ch c h len seq (ground arith) write (ground arith))
            (refl, h, refl, refl)
      | inr fits ↦
          let (sent, out) =
            send_frame_fits ch c h len seq (ground arith) write (take len payload)
              (write_once-Appends (ground arith)) (omega (arith, length-take len payload))
              (ground arith) in
          rw fits (sent, out.holds, out.woken, out.same_read)
    ])
  ]
    where
      write : WriteFn
      write = write_once cap (some payload) len
