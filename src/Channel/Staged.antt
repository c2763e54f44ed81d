-- ===== src/Channel/Staged.antt =====
-- The channel's batch writer of include/shm_ipc/ring_channel.hpp: what its calls stage and publish, and
-- when they wake the peer.
use shm_cpp.Common.{
  ℕ, ◌+◌, ◌≤◌, ◌<◌, ◌≡◌, refl, arith, true, some, List, [], ◌++◌, append_assoc, ◌∙◌, append-nil,
  length, take, u32_mod, ltb, ◌&&◌, if◌then◌else◌,
}
use shm_cpp.Ring.{ok, err, IsCapacity, max_write_size}
use shm_cpp.Ring.Window.{Holds}
use shm_cpp.Batch
use shm_cpp.Batch.Staged
use shm_cpp.Batch.Staged.{Staged, accepts}
use shm_cpp.Channel.{Channel, ChannelBatch, start_batch, notify_peer}
use shm_cpp.Channel.Writer

-- The channel and the writer after some staging: `x` came behind what was staged before, nothing was
-- published, and nothing else of the channel has changed.
pub record Grows (cap : ℕ) (ch : Channel) (b : ChannelBatch) (ch' : Channel) (b' : ChannelBatch)
    (s : ℕ) (sent p x : List ℕ) : Type 0 where
  pub staged : Staged cap ch'.write_ring b'.batch s sent (p ++ x)
  pub same_read : ch'.read_ring ≡ ch.read_ring
  pub same_notified : ch'.notified ≡ ch.notified
  pub same_pos : ch'.write_ring.read_pos ≡ ch.write_ring.read_pos
  pub same_attached : b'.attached ≡ b.attached
  pub more : b.batch.count ≤ b'.batch.count

-- One staging after the other.
pub Grows-then :
    {cap : ℕ} {ch ch1 ch2 : Channel} {b b1 b2 : ChannelBatch} {s : ℕ} {sent p x y : List ℕ}
    → Grows cap ch b ch1 b1 s sent p x
    → Grows cap ch1 b1 ch2 b2 s sent (p ++ x) y
    → Grows cap ch b ch2 b2 s sent p (x ++ y)
Grows-then {p} {x} {y} g h = record {
  staged = rw (← append_assoc p x y) h.staged;
  same_read = h.same_read ∙ g.same_read;
  same_notified = h.same_notified ∙ g.same_notified;
  same_pos = h.same_pos ∙ g.same_pos;
  same_attached = h.same_attached ∙ g.same_attached;
  more = omega (arith, g.more, h.more);
}

pub start_batch-Staged :
    {cap : ℕ} (ch : Channel) {r : ℕ} {q : List ℕ}
    → Holds cap ch.write_ring r q
    → Staged cap ch.write_ring (start_batch ch).batch r q []
unfolding start_batch
start_batch-Staged ch h = Staged.start-Staged h

module _ {cap : ℕ} (ch : Channel) (b : ChannelBatch) {s : ℕ} {sent p : List ℕ} (c : IsCapacity cap)
    (g : Staged cap ch.write_ring b.batch s sent p) where
  pub idle-Grows : Grows cap ch b ch b s sent p []
  idle-Grows = record {
    staged = rw (append-nil p) g;
    same_read = refl;
    same_notified = refl;
    same_pos = refl;
    same_attached = refl;
    more = omega arith;
  }

  pub try_write-Grows :
      (src : List ℕ) (len : ℕ)
      → len ≤ length src
      → len < u32_mod
      → let (code, ch', b') = Writer.try_write cap ch b (some src) len in
        let fits = accepts cap (length sent + length p) len in
        (code ≡ (if fits then ok else err))
        × Grows cap ch b ch' b' s sent p (if fits then take len src else [])
  unfolding Writer.try_write
  try_write-Grows src len given small =
      let (code, staged, count, pos) = Staged.try_write-Staged c g src len given small in
      (
        code,
        record {
          staged = ground (arith, staged, append-nil p);
          same_read = refl;
          same_notified = refl;
          same_pos = pos;
          same_attached = refl;
          more = ground (arith, count);
        },
      )

  -- A write for which there is room.
  pub try_write-fits :
      (src : List ℕ) (len : ℕ)
      → len ≤ length src
      → 0 < len
      → len ≤ max_write_size cap
      → length sent + length p + len ≤ cap
      → let (code, ch', b') = Writer.try_write cap ch b (some src) len in
        (code ≡ ok)
        × Grows cap ch b ch' b' s sent p (take len src)
        × (b'.batch.count ≡ b.batch.count + 1)
  unfolding Writer.try_write Batch.try_write
  try_write-fits src len given pos short room =
      let (code, grows) = try_write-Grows src len given (omega (arith, c.fits)) in
      (ground (arith, code), rw (accepted) at grows, ground (arith, Staged.used c g len))
    where
      accepted : accepts cap (length sent + length p) len ≡ true
      accepted = ground arith

  -- `Flush` publishes what is staged, and wakes the peer exactly if there was a write to publish.
  pub flush-Staged :
      let (n, ch', b') = Writer.flush ch b in
      (n ≡ b.batch.count)
      × Staged cap ch'.write_ring b'.batch s (sent ++ p) []
      × (b'.batch.count ≡ 0)
      × (ch'.write_ring.read_pos ≡ ch.write_ring.read_pos)
      × (ch'.read_ring ≡ ch.read_ring)
      × (ch'.notified
          ≡ (if ltb 0 b.batch.count && b.attached then ch.notified + 1 else ch.notified))
  unfolding Writer.flush notify_peer
  flush-Staged =
      let (n, staged, count, pos, same) = Staged.flush-Staged c g in
      (n, ground (arith, staged), count, ground (arith, pos), ground arith, ground (arith, n))
