-- ===== src/Examples/Codec.antt =====
-- Frames at concrete buffers and channels.
use shm_cpp.Common.{ℕ, ◌≡◌, ◌≢◌, ◌⊎◌, arith, some, List, [], ◌∷◌, ◌++◌, length, replicate}
use shm_cpp.Ring.{ok, load}
use shm_cpp.Ring.Window.{Holds}
use shm_cpp.Channel.{Channel, start_batch}
use shm_cpp.Channel.Writer
use shm_cpp.Channel.Staged as ChannelStaged
use shm_cpp.Codec.{
  encode_frame, encode, Decoded, decode, threw, WriteFn, code, send_frame, send_frame_batch, send,
}
use shm_cpp.Codec.Wire.{decode-encode, encode_frame_overflow}
use shm_cpp.Codec.Finish.{frame, IsWriter, Published, Untouched}
use shm_cpp.Codec.Send.{send_frame_whole}
use shm_cpp.Codec.Message.{send_lem}
use shm_cpp.Codec.Batched.{Batches, send_frame_batch_whole}
use shm_cpp.Examples.{cap_1024, near_end, drained, wrapped, wrapped-Holds, ten}

abbrev channel : Channel
channel = record { write_ring = wrapped; read_ring = drained; notified = 0 }

-- A callback that writes four bytes and throws.
torn : WriteFn
torn ch b = let (c, ch', b') = Writer.try_write 1024 ch b (some ten) 4 in (threw, ch', b')

torn-IsWriter : IsWriter 1024 torn
unfolding torn
torn-IsWriter ch b s sent p g =
    (_, (ChannelStaged.try_write-Grows ch b cap_1024 g ten 4 (omega arith) (omega arith)).1)

send_frame_whole_example :
    let (res, ch') = send_frame 1024 channel 10 7 torn in
    ((res ≡ code ok)
      × ((body : List ℕ) × (length body ≡ 10)
          × Published 1024 channel ch' near_end ten (frame 7 body)))
    ⊎ ((res ≢ code ok) × Untouched 1024 channel ch' near_end ten)
send_frame_whole_example =
    send_frame_whole channel cap_1024 wrapped-Holds 10 7 (omega arith) torn torn-IsWriter

send_lem_example :
    let (res, ch') = send 1024 channel (some ten) 10 7 in
    (res ≡ code ok)
    × Holds 1024 ch'.write_ring near_end (ten ++ frame 7 ten)
    × (ch'.notified ≡ 1)
    × (ch'.read_ring ≡ drained)
send_lem_example = send_lem cap_1024 ten 10 (omega arith) channel 7 wrapped-Holds

send_frame_batch_whole_example :
    Batches 1024 channel
      (start_batch channel)
      near_end
      ten
      []
      10
      7
      (send_frame_batch 1024 channel (start_batch channel) 10 7 torn)
send_frame_batch_whole_example =
    send_frame_batch_whole channel (start_batch channel) cap_1024
      (ChannelStaged.start_batch-Staged channel wrapped-Holds) 10 7 (omega arith) torn torn-IsWriter

abbrev blank : List ℕ
blank = replicate 20 0

decode-encode_example :
    let (written, buf') = encode ten 10 blank 20 7 in
    (written ≡ 18)
    × (length buf' ≡ 20)
    × (decode buf' written ≡ some (record { off = 8; len = 10; seq = 7 }))
    × (load buf' 8 10 ≡ ten)
decode-encode_example =
    decode-encode ten blank 10 20 7 (omega arith) (omega arith) (omega arith) (omega arith)
      (omega arith) (omega arith)

-- A frame with a payload of three bytes, and a byte behind it.
abbrev received : List ℕ
received = 3 ∷ 0 ∷ 0 ∷ 0 ∷ 7 ∷ 0 ∷ 0 ∷ 0 ∷ 1 ∷ 2 ∷ 3 ∷ 4 ∷ []

abbrev three : Decoded
three = record { off = 8; len = 3; seq = 7 }

encode_frame_overflow_example :
    (b : List ℕ) × (encode_frame (5 ∷ []) 1 4294967289 7 ≡ some b) × (length b ≡ 8)
encode_frame_overflow_example =
    encode_frame_overflow (5 ∷ []) 4294967289 7 (omega arith) (omega arith) (omega arith)
      (omega arith)
