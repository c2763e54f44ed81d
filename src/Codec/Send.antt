-- ===== src/Codec/Send.antt =====
-- `SendFrame`, `SendFrameBatch` and `Send` of include/shm_ipc/codec.hpp: a frame reaches the peer whole
-- or not at all, whatever the payload callback does.
use shm_cpp.Common.{
  ℕ, ◌+◌, ◌-◌, ◌%◌, ◌≤◌, ◌<◌, ◌≡◌, ◌≢◌, ◌⊎◌, inl, inr, refl, sym, ap, ◌∙◌, arith, false, some, List,
  [], ◌++◌, length, u32_mod, ltb, length-append, take_all,
}
use shm_cpp.Ring.{ok, err, IsCapacity}
use shm_cpp.Ring.Window.{Holds}
use shm_cpp.Ring.Read.{free_space-length}
use shm_cpp.Channel.{Channel, ChannelBatch, writable_bytes, start_batch}
use shm_cpp.Channel.Writer
use shm_cpp.Channel.Staged as ChannelStaged
use shm_cpp.Channel.Staged.{Grows}
use shm_cpp.Codec.{msg_header_size, header_bytes, returned, WriteFn, code, finish_frame, send_frame}
use shm_cpp.Codec.Wire.{length-header_bytes}
use shm_cpp.Codec.Finish.{frame, IsWriter, Appends, Published, Untouched, finish_frame-cases}
use native.Mathlib.Decide.{dec_lt}

module _ {cap : ℕ} (ch : Channel) {r : ℕ} {q : List ℕ} (c : IsCapacity cap)
    (h : Holds cap ch.write_ring r q) (len seq : ℕ) (small : len + msg_header_size < u32_mod) where
  header : List ℕ
  header = header_bytes (record { len = len; seq = seq })

  -- The channel and the batch once the header is staged.
  headed : Channel × ChannelBatch
  headed =
      let (o, ch1, b1) = Writer.try_write cap ch (start_batch ch) (some header) msg_header_size in
      (ch1, b1)

  headed-Grows :
      length q + msg_header_size ≤ cap
      → Grows cap ch (start_batch ch) headed.0 headed.1 r q [] header
        × (headed.1.batch.count ≡ (start_batch ch).batch.count + 1)
  unfolding headed header
  headed-Grows room =
      let (o, grows, count) =
        ChannelStaged.try_write-fits ch (start_batch ch) c (ChannelStaged.start_batch-Staged ch h)
          header msg_header_size (omega (arith, length-header_bytes _)) (omega arith)
          (omega (arith, c.at_least)) (omega arith) in
      (rw (take_all 8 header (omega (arith, length-header_bytes _))) at grows, count)

  -- Without room for the frame nothing is written.
  pub send_frame_full :
      (f : WriteFn)
      → cap < length q + msg_header_size + len
      → send_frame cap ch len seq f ≡ (code err, ch)
  unfolding send_frame writable_bytes
  send_frame_full f full = rw (free_space-length c h) (ground arith)

  send_frame_staged :
      (f : WriteFn)
      → length q + msg_header_size + len ≤ cap
      → send_frame cap ch len seq f
        ≡ finish_frame
            (msg_header_size + len)
            (f headed.0 headed.1).0
            (f headed.0 headed.1).1
            (f headed.0 headed.1).2
  unfolding send_frame writable_bytes headed header
  send_frame_staged f room = rw (free_space-length c h, size, fits)
    where
      size : (msg_header_size + len) % u32_mod ≡ msg_header_size + len
      size = omega arith

      fits : ltb (cap - length q) (msg_header_size + len) ≡ false
      fits = ground arith

  -- The header of the whole frame carries the payload's length.
  header-frame : (body : List ℕ) → length body ≡ len → header ++ body ≡ frame seq body
  unfolding header
  header-frame body e = ap (λ t. header_bytes (record { len = t; seq = seq }) ++ body) (sym e)

  finished :
      (f : WriteFn) (x : List ℕ)
      → length q + msg_header_size ≤ cap
      → Grows cap headed.0 headed.1 (f headed.0 headed.1).1 (f headed.0 headed.1).2 r q header x
      → let (o, ch2, b2) = f headed.0 headed.1 in
        let (res, ch') = finish_frame (msg_header_size + len) o ch2 b2 in
        ((res ≡ code ok)
          × (o ≡ returned)
          × (length x ≡ len)
          × Published cap ch ch' r q (frame seq x))
        ⊎ ((res ≢ code ok) × ¬ ((o ≡ returned) × (length x ≡ len)) × Untouched cap ch ch' r q)
  unfolding start_batch
  finished f x room grows =
      let (first, counted) = headed-Grows room in
      let len_total : length (header ++ x) ≡ msg_header_size + length x =
        omega (arith, length-append header x, length-header) in
      elim (finish_frame-cases (f headed.0 headed.1).1 (f headed.0 headed.1).2 c grows.staged
        (grows.same_pos ∙ first.same_pos ∙ h.reads) (msg_header_size + len) (f headed.0 headed.1).0
        (grows.same_attached ∙ first.same_attached) (omega (arith, grows.more, counted))) [
          | inl (e, o, n, pub') ↦ inl (
            e,
            o,
            omega arith,
            record {
              holds = rw (← header-frame x (omega arith)) pub'.holds;
              woken = omega (arith, pub'.woken, grows.same_notified, first.same_notified);
              same_read = pub'.same_read ∙ grows.same_read ∙ first.same_read;
            },
          )
          | inr (e, o, same) ↦ inr (
            e,
            λ d. o (d.0, omega (arith, d.1)),
            record {
              holds = same.holds;
              not_woken = omega (arith, same.not_woken, grows.same_notified, first.same_notified);
              same_read = same.same_read ∙ grows.same_read ∙ first.same_read;
            },
          )
        ]
    where
      length-header : length header ≡ msg_header_size
      length-header = unfold header in length-header_bytes _

  -- For a payload length below 2 ^ 32 - 8, whatever bytes the callback writes, and whether it returns
  -- or throws: either the result is 0 and
  -- one whole frame with a payload of `len` bytes was published and the peer woken, or it is not 0,
  -- the reader sees what it saw before and nobody is woken.
  pub send_frame_whole :
      (f : WriteFn)
      → IsWriter cap f
      → let (res, ch') = send_frame cap ch len seq f in
        ((res ≡ code ok)
          × ((body : List ℕ) × (length body ≡ len) × Published cap ch ch' r q (frame seq body)))
        ⊎ ((res ≢ code ok) × Untouched cap ch ch' r q)
  send_frame_whole f writer = elim (dec_lt cap (length q + msg_header_size + len)) [
    | yes over ↦
        rw (send_frame_full f over)
          (inr (λ e. cc, record { holds = h; not_woken = refl; same_read = refl }))
    | no fits ↦ rw (send_frame_staged f (omega arith)) (
        let (x, grows) =
          writer headed.0 headed.1 r q header (headed-Grows (omega arith)).0.staged in
        elim (finished f x (omega arith) grows) [
          | inl (e, o, n, out) ↦ inl (e, (x, n, out))
          | inr (e, o, out) ↦ inr (e, out)
        ])
  ]

  -- A callback that writes a payload of the announced length succeeds wherever the frame fits.
  pub send_frame_fits :
      (f : WriteFn) (body : List ℕ)
      → Appends cap f body
      → length body ≡ len
      → length q + msg_header_size + len ≤ cap
      → let (res, ch') = send_frame cap ch len seq f in
        (res ≡ code ok) × Published cap ch ch' r q (frame seq body)
  send_frame_fits f body appends e room = rw (send_frame_staged f room) (
      let (o, grows) =
        appends headed.0 headed.1 r q header (headed-Grows (omega arith)).0.staged
          (omega (arith, length-header)) in
      elim (finished f body (omega arith) grows) [
        | inl (ok', _, _, out) ↦ (ok', out)
        | inr (_, bad, _) ↦ absurd (bad (o, e))
      ])
    where
      length-header : length header ≡ msg_header_size
      length-header = unfold header in length-header_bytes _
