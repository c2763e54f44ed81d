-- ===== src/Channel/Writer.antt =====
-- The methods of `detail::ChannelBatchWriter` of include/shm_ipc/ring_channel.hpp.
use shm_cpp.Common.{ℕ, false, Option, List, ◌&&◌, ltb, if◌then◌else◌}
use shm_cpp.Ring.{Code}
use shm_cpp.Batch
use shm_cpp.Channel.{Channel, ChannelBatch, notify_peer}

-- The move constructor: the new writer, and what is left of the old one.
unfoldable pub move : ChannelBatch → ChannelBatch × ChannelBatch
move b =
    let (new, old) = Batch.move b.batch in
    (record b { batch = new }, record { batch = old; attached = false })

unfoldable pub try_write :
    ℕ → Channel → ChannelBatch → Option (List ℕ) → ℕ → Code × Channel × ChannelBatch
try_write cap ch b src len =
    let (c, m, b') = Batch.try_write cap ch.write_ring b.batch src len in
    (c, record ch { write_ring = m }, record b { batch = b' })

-- The destructor is another call of this.
unfoldable pub flush : Channel → ChannelBatch → ℕ × Channel × ChannelBatch
unfolding notify_peer
flush ch b =
    let (n, m, b') = Batch.flush ch.write_ring b.batch in
    let stored = record ch { write_ring = m } in
    (n, (if ltb 0 n && b.attached then notify_peer stored else stored), record b { batch = b' })
