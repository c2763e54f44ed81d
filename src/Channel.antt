-- ===== src/Channel.antt =====
-- `RingChannel` and `detail::ChannelBatchWriter` of include/shm_ipc/ring_channel.hpp: a ring for each
-- direction, and the wake-up of the peer. The eventfd is the kernel's; what is kept of it is the
-- number of times that `NotifyPeer` has written to it.
pub mod Writer
pub mod Staged
pub mod Assign
pub mod Handshake
pub mod Exchange
pub mod Ends
pub mod Side
pub mod Crossed
use shm_cpp.Common.{
  ℕ, ◌+◌, ◌<◌, Bool, true, false, Option, none, some, List, ◌&&◌, ltb, if◌then◌else◌,
}
use shm_cpp.Ring
use shm_cpp.Ring.{Shm, Code, ok, err, Segments}
use shm_cpp.Batch
use shm_cpp.Batch.{Batch}

pub record Channel : Type 0 where
  pub write_ring : Shm
  pub read_ring : Shm
  pub notified : ℕ

unfoldable pub notify_peer : Channel → Channel
notify_peer ch = record ch { notified = ch.notified + 1 }

unfoldable pub try_write : ℕ → Channel → Option (List ℕ) → ℕ → Code × Channel
try_write cap ch src len =
    let (c, m) = Ring.try_write cap ch.write_ring src len in (c, record ch { write_ring = m })

unfoldable pub try_read : ℕ → Channel → ℕ → ℕ × List ℕ × Channel
try_read cap ch max_len =
    let (n, out, m) = Ring.try_read cap ch.read_ring max_len in
    (n, out, record ch { read_ring = m })

unfoldable pub read_exact : ℕ → Channel → ℕ → Code × List ℕ × Channel
read_exact cap ch len =
    let (c, out, m) = Ring.read_exact cap ch.read_ring len in (c, out, record ch { read_ring = m })

unfoldable pub peek : ℕ → Channel → Option Segments
peek cap ch = Ring.peek cap ch.read_ring

unfoldable pub commit_read : Channel → ℕ → Channel
commit_read ch len = record ch { read_ring = Ring.commit_read ch.read_ring len }

unfoldable pub readable : Channel → ℕ
readable ch = Ring.available ch.read_ring

unfoldable pub writable_bytes : ℕ → Channel → ℕ
writable_bytes cap ch = Ring.free_space cap ch.write_ring

-- `attached` is `channel_ != nullptr`.
pub record ChannelBatch : Type 0 where
  pub batch : Batch
  pub attached : Bool

unfoldable pub start_batch : Channel → ChannelBatch
start_batch ch = record { batch = Batch.start ch.write_ring; attached = true }
