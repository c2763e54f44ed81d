-- ===== src/Codec/Finish.antt =====
-- How `SendFrame` of include/shm_ipc/codec.hpp ends: the staged frame is published, or cancelled.
use shm_cpp.Common.{
  ℕ, ◌+◌, ◌%◌, ◌≤◌, ◌<◌, ◌≡◌, ◌≢◌, ◌⊎◌, inl, inr, refl, ◌∙◌, arith, true, List, ◌++◌, append-nil,
  length, u64_mod, ◌==◌, Bool-cases,
}
use shm_cpp.Ring.{Shm, ok, IsCapacity}
use shm_cpp.Ring.Window.{Holds}
use shm_cpp.Batch
use shm_cpp.Batch.{Batch}
use shm_cpp.Batch.Staged
use shm_cpp.Batch.Staged.{Staged, accepts}
use shm_cpp.Channel.{Channel, ChannelBatch}
use shm_cpp.Channel.Writer
use shm_cpp.Channel.Staged as ChannelStaged
use shm_cpp.Channel.Staged.{Grows}
use shm_cpp.Codec.{
  header_bytes, Outcome, returned, threw, WriteFn, code, destroy, cancel, finish_frame,
}
use native.Mathlib.Nat.{add-zero}

-- What goes into the ring for one message.
abbrev pub frame : ℕ → List ℕ → List ℕ
frame seq body = header_bytes (record { len = length body; seq = seq }) ++ body

-- A callback that does nothing but write to the batch: any bytes, in any number of pieces, whether it
-- returns or throws.
abbrev pub IsWriter : ℕ → WriteFn → Type 0
IsWriter cap f =
    (ch : Channel) (b : ChannelBatch) (s : ℕ) (sent p : List ℕ)
    → Staged cap ch.write_ring b.batch s sent p
    → (x : List ℕ) × Grows cap ch b (f ch b).1 (f ch b).2 s sent p x

-- A callback that returns and has written `body`, where there is room for it.
abbrev pub Appends : ℕ → WriteFn → List ℕ → Type 0
Appends cap f body =
    (ch : Channel) (b : ChannelBatch) (s : ℕ) (sent p : List ℕ)
    → Staged cap ch.write_ring b.batch s sent p
    → length sent + length p + length body ≤ cap
    → ((f ch b).0 ≡ returned) × Grows cap ch b (f ch b).1 (f ch b).2 s sent p body

-- The channel after a send that went through, with `x` behind the unread bytes `q`; and after one that
-- did not.
pub record Published (cap : ℕ) (ch ch' : Channel) (r : ℕ) (q x : List ℕ) : Type 0 where
  pub holds : Holds cap ch'.write_ring r (q ++ x)
  pub woken : ch'.notified ≡ ch.notified + 1
  pub same_read : ch'.read_ring ≡ ch.read_ring

pub record Untouched (cap : ℕ) (ch ch' : Channel) (r : ℕ) (q : List ℕ) : Type 0 where
  pub holds : Holds cap ch'.write_ring r q
  pub not_woken : ch'.notified ≡ ch.notified
  pub same_read : ch'.read_ring ≡ ch.read_ring

destroy-cancel : (ch : Channel) (b : ChannelBatch) → destroy ch (cancel b) ≡ ch
unfolding Writer.flush Batch.flush Batch.cancel
destroy-cancel ch b = ground arith

-- What a reader that has taken nothing since the batch began sees: the published bytes.
pub reader_view :
    {cap : ℕ} {m : Shm} {b : Batch} {s : ℕ} {sent p : List ℕ}
    → IsCapacity cap
    → Staged cap m b s sent p
    → m.read_pos ≡ s % u64_mod
    → Holds cap m s sent
reader_view {sent} c g here =
    rw add-zero at (Staged.Staged-Holds c g 0 (omega arith) (rw add-zero here))

module _ {cap : ℕ} (ch : Channel) (b : ChannelBatch) {s : ℕ} {sent p : List ℕ} (c : IsCapacity cap)
    (g : Staged cap ch.write_ring b.batch s sent p)
    (here : ch.write_ring.read_pos ≡ s % u64_mod) where
  pub flush-Published :
      b.attached ≡ true
      → 0 < b.batch.count
      → let (n, ch1, b1) = Writer.flush ch b in Published cap ch (destroy ch1 b1) s sent p
  flush-Published att pos =
      let (n, staged, count, same_pos, same_read, woken) = ChannelStaged.flush-Staged ch b c g in
      let (n2, staged2, count2, same_pos2, same_read2, woken2) =
        ChannelStaged.flush-Staged (Writer.flush ch b).1 (Writer.flush ch b).2 c staged in
      record {
        holds =
            rw (append-nil (sent ++ p)) at (reader_view c staged2 (same_pos2 ∙ same_pos ∙ here));
        woken = ground (arith, count, woken, woken2);
        same_read = same_read2 ∙ same_read;
      }

  pub cancel-Untouched : Untouched cap ch (destroy ch (cancel b)) s sent
  cancel-Untouched =
      rw (destroy-cancel ch b)
        (record { holds = reader_view c g here; not_woken = refl; same_read = refl })

  -- Exactly if the callback returned and the frame is complete, it is published.
  pub finish_frame-cases :
      (size : ℕ) (o : Outcome)
      → b.attached ≡ true
      → 0 < b.batch.count
      → let (res, ch') = finish_frame size o ch b in
        ((res ≡ code ok) × (o ≡ returned) × (length p ≡ size) × Published cap ch ch' s sent p)
        ⊎ ((res ≢ code ok) × ¬ ((o ≡ returned) × (length p ≡ size)) × Untouched cap ch ch' s sent)
  unfolding finish_frame
  finish_frame-cases size threw att pos = inr (λ e. cc, λ e. cc, cancel-Untouched)
  finish_frame-cases size returned att pos =
      elim (Bool-cases (Batch.pending_bytes b.batch == size)) [
        | inl e ↦ rw e (
            inl (
              refl,
              refl,
              ground (arith, Staged.pending_bytes-length c g),
              flush-Published att pos,
            ))
        | inr e ↦
            rw e (
              inr (λ d. cc, λ d. ground (arith, Staged.pending_bytes-length c g), cancel-Untouched))
      ]
