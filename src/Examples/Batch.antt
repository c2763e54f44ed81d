-- ===== src/Examples/Batch.antt =====
-- A batch on the ring that holds ten bytes round its end.
use shm_cpp.Common.{
  ◌≡◌, arith, true, ◌&&◌, none, some, List, [], ◌∷◌, ◌++◌, take, ltb, if◌then◌else◌,
}
use shm_cpp.Ring.{Shm}
use shm_cpp.Batch.{Batch, start, try_write, flush}
use shm_cpp.Batch.Staged.{Staged, start-Staged, try_write-Staged}
use shm_cpp.Batch.Sequence.{Piece, stage_all, write_all, successes, flush-write_all}
use shm_cpp.Channel.{Channel, ChannelBatch}
use shm_cpp.Channel.Writer
use shm_cpp.Channel.Staged as ChannelStaged
use shm_cpp.Examples.{cap_1024, near_end, wrapped, wrapped-Holds, ten}

abbrev pieces : List Piece
pieces = (some ten, 10) ∷ (none, 3) ∷ (some ten, 4) ∷ (some ten, 0) ∷ []

flush-write_all_example :
    let (cs, m', b') = stage_all 1024 wrapped (start wrapped) pieces in
    let (n, m'', b'') = flush m' b' in
    (write_all 1024 wrapped pieces ≡ (cs, m'')) × (n ≡ successes cs)
flush-write_all_example = flush-write_all 1024 wrapped pieces

started : Staged 1024 wrapped (start wrapped) near_end ten []
started = start-Staged wrapped-Holds

-- After one staged write of four bytes.
abbrev staged_mem : Shm
staged_mem = (try_write 1024 wrapped (start wrapped) (some ten) 4).1

abbrev staged_batch : Batch
staged_batch = (try_write 1024 wrapped (start wrapped) (some ten) 4).2

four-Staged : Staged 1024 staged_mem staged_batch near_end ten (take 4 ten)
four-Staged = (try_write-Staged cap_1024 started ten 4 (omega arith) (omega arith)).1

-- The staged write in a channel's batch.
abbrev channel : Channel
channel = record { write_ring = staged_mem; read_ring = wrapped; notified = 3 }

abbrev channel_batch : ChannelBatch
channel_batch = record { batch = staged_batch; attached = true }

flush-Staged_example :
    let (n, ch', b') = Writer.flush channel channel_batch in
    (n ≡ staged_batch.count)
    × Staged 1024 ch'.write_ring b'.batch near_end (ten ++ take 4 ten) []
    × (b'.batch.count ≡ 0)
    × (ch'.write_ring.read_pos ≡ staged_mem.read_pos)
    × (ch'.read_ring ≡ wrapped)
    × (ch'.notified ≡ (if ltb 0 staged_batch.count && true then 4 else 3))
flush-Staged_example = ChannelStaged.flush-Staged channel channel_batch cap_1024 four-Staged
