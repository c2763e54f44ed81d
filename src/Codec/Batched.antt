-- ===== src/Codec/Batched.antt =====
-- `SendFrameBatch` of include/shm_ipc/codec.hpp: a frame is staged whole behind what is staged, or the
-- batch is rewound to where the frame began.
use shm_cpp.Common.{
  ℕ, ◌+◌, ◌-◌, ◌≤◌, ◌<◌, ◌≡◌, ◌≢◌, ◌⊎◌, inl, inr, refl, sym, ap, subst, add32, ◌∙◌, arith, some,
  List, ◌++◌, length, u32_mod, sub64, ◌==◌, ltb, length-append, append_assoc, take_all,
  take-length_append, Bool-cases,
}
use shm_cpp.Ring.{ok, IsCapacity}
use shm_cpp.Batch
use shm_cpp.Batch.Staged
use shm_cpp.Batch.Staged.{Staged}
use shm_cpp.Channel.{Channel, ChannelBatch}
use shm_cpp.Channel.Writer
use shm_cpp.Channel.Staged as ChannelStaged
use shm_cpp.Channel.Staged.{Grows}
use shm_cpp.Codec.{
  msg_header_size, header_bytes, Outcome, returned, threw, Sent, WriteFn, code, rewind,
  finish_frame_batch, send_frame_batch,
}
use shm_cpp.Codec.Wire.{length-header_bytes}
use shm_cpp.Codec.Finish.{frame, IsWriter}

-- The channel and the batch after a call that left `p` staged and published nothing.
pub record Leaves (cap : ℕ) (ch ch' : Channel) (b' : ChannelBatch) (s : ℕ) (sent p : List ℕ)
    : Type 0 where
  pub staged : Staged cap ch'.write_ring b'.batch s sent p
  pub same_read : ch'.read_ring ≡ ch.read_ring
  pub not_woken : ch'.notified ≡ ch.notified
  pub same_pos : ch'.write_ring.read_pos ≡ ch.write_ring.read_pos

-- The frame of `SendFrameBatch`: staged, or gone without a trace in the bytes and the count.
abbrev pub Batches :
    ℕ
    → Channel
    → ChannelBatch
    → ℕ
    → List ℕ
    → List ℕ
    → ℕ
    → ℕ
    → Sent × Channel × ChannelBatch
    → Type 0
Batches cap ch b s sent p len seq (res, ch', b') =
    ((res ≡ code ok)
      × ((body : List ℕ) × (length body ≡ len) × Leaves cap ch ch' b' s sent (p ++ frame seq body))
      × (b.batch.count < b'.batch.count))
    ⊎ ((res ≢ code ok) × Leaves cap ch ch' b' s sent p × (b'.batch.count ≡ b.batch.count))

module _ {cap : ℕ} (ch : Channel) (b : ChannelBatch) {s : ℕ} {sent p : List ℕ} (c : IsCapacity cap)
    (g : Staged cap ch.write_ring b.batch s sent p) (len seq : ℕ)
    (small : len + msg_header_size < u32_mod) where
  header : List ℕ
  header = header_bytes (record { len = len; seq = seq })

  headed : Channel × ChannelBatch
  headed = let (o, ch1, b1) = Writer.try_write cap ch b (some header) msg_header_size in (ch1, b1)

  headed-Grows :
      length sent + length p + msg_header_size ≤ cap
      → Grows cap ch b headed.0 headed.1 s sent p header
        × (headed.1.batch.count ≡ b.batch.count + 1)
  unfolding headed header
  headed-Grows room =
      let (o, grows, count) =
        ChannelStaged.try_write-fits ch b c g header msg_header_size
          (omega (arith, length-header_bytes _)) (omega arith) (omega (arith, c.at_least))
          (omega arith) in
      (rw (take_all 8 header (omega (arith, length-header_bytes _))) at grows, count)

  pending : Batch.pending_bytes b.batch ≡ length p
  pending = Staged.pending_bytes-length c g

  module _ {ch2 : Channel} {b2 : ChannelBatch} {x : List ℕ}
      (first : Grows cap ch b headed.0 headed.1 s sent p header)
      (one : headed.1.batch.count ≡ b.batch.count + 1)
      (grows : Grows cap headed.0 headed.1 ch2 b2 s sent (p ++ header) x) where
    sizes : length ((p ++ header) ++ x) ≡ length p + (msg_header_size + length x)
    unfolding header
    sizes = omega (
      arith,
      length-append (p ++ header) x,
      length-append p header,
      length-header_bytes (record { len = len; seq = seq }),
    )

    back : Leaves cap ch ch2 (rewind b b2) s sent p
    back = record {
      staged =
          subst (λ n. Staged cap ch2.write_ring (Batch.rewind_to b2.batch n b.batch.count) s sent p)
            (sym pending)
            (rw (append_assoc p header x, take-length_append p (header ++ x)) at
              (Staged.rewind_to-Staged c grows.staged (length p) b.batch.count
                (omega (arith, sizes))));
      same_read = grows.same_read ∙ first.same_read;
      not_woken = grows.same_notified ∙ first.same_notified;
      same_pos = grows.same_pos ∙ first.same_pos;
    }

    finished :
        (o : Outcome)
        → Batches cap ch b s sent p len seq (finish_frame_batch (msg_header_size + len) b o ch2 b2)
    unfolding finish_frame_batch Batch.rewind_to
    finished threw = inr (λ e. cc, back, refl)
    finished returned =
        elim (Bool-cases (
          sub64 (Batch.pending_bytes b2.batch) (Batch.pending_bytes b.batch)
          == (msg_header_size + len))) [
            | inl whole ↦ rw whole (
                inl (
                  refl,
                  (x, long (ground arith), whole_frame (long (ground arith))),
                  omega (arith, grows.more, one),
                ))
            | inr other ↦ rw other (inr (λ e. cc, back, refl))
          ]
      where
        long :
            sub64 (Batch.pending_bytes b2.batch) (Batch.pending_bytes b.batch)
              ≡ msg_header_size + len
            → length x ≡ len
        long e = omega (
          arith,
          e,
          pending,
          sizes,
          Staged.pending_bytes-length c grows.staged,
          length-append sent ((p ++ header) ++ x),
          grows.staged.window.size,
          c.fits,
        )

        header-frame : length x ≡ len → header ++ x ≡ frame seq x
        header-frame e =
            unfold header in ap (λ t. header_bytes (record { len = t; seq = seq }) ++ x) (sym e)

        whole_frame : length x ≡ len → Leaves cap ch ch2 b2 s sent (p ++ frame seq x)
        whole_frame e = record {
          staged = rw (append_assoc p header x, header-frame e) at grows.staged;
          same_read = grows.same_read ∙ first.same_read;
          not_woken = grows.same_notified ∙ first.same_notified;
          same_pos = grows.same_pos ∙ first.same_pos;
        }

  -- For a payload length below 2 ^ 32 - 8, whatever bytes the callback writes, and whether it returns
  -- or throws: either the result is 0 and
  -- one whole frame with a payload of `len` bytes is staged behind what was staged before, or it is
  -- not 0, and the batch holds the bytes and the count it held before. Nothing is published and nobody
  -- is woken.
  pub send_frame_batch_whole :
      (f : WriteFn)
      → IsWriter cap f
      → Batches cap ch b s sent p len seq (send_frame_batch cap ch b len seq f)
  unfolding send_frame_batch headed header
  send_frame_batch_whole f writer =
      rw (Staged.free_bytes-length c g, size)
        (elim (Bool-cases (ltb (cap - (length sent + length p)) (msg_header_size + len))) [
          | inl full ↦ rw full (inr (λ e. cc, idle, refl))
          | inr room ↦
              let (first, one) = headed-Grows (ground arith) in
              let (x, grows) = writer headed.0 headed.1 s sent (p ++ header) first.staged in
              rw room (finished first one grows (f headed.0 headed.1).0)
        ])
    where
      size : add32 msg_header_size len ≡ msg_header_size + len
      size = omega arith

      idle : Leaves cap ch ch b s sent p
      idle = record { staged = g; same_read = refl; not_woken = refl; same_pos = refl }
