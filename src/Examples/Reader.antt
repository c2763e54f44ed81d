-- ===== src/Examples/Reader.antt =====
-- A sender and a frame reader on one concrete ring.
use shm_cpp.Common.{ℕ, ◌≡◌, arith, some, List, [], ◌∷◌, refl, take, replicate, length-replicate}
use shm_cpp.Ring.{ok, err}
use shm_cpp.Channel.{Channel}
use shm_cpp.Codec.{header_bytes, send}
use shm_cpp.Codec
use shm_cpp.Codec.Finish.{frame}
use shm_cpp.Codec.Message.{send_lem}
use shm_cpp.Reader.{FrameReader, try_recv}
use shm_cpp.Reader.Ready.{Ready, Answers, Took}
use shm_cpp.Reader.Frames.{parse}
use shm_cpp.Reader.Receive.{try_recv-Receives}
use shm_cpp.Reader.Mailbox
use shm_cpp.Reader.Mailbox.{Call, post, fetch, Reply, posted, handed, empty}
use shm_cpp.Reader.Link.{run}
use shm_cpp.Reader.Delivery.{run-empty}
use shm_cpp.Examples.{cap_1024, near_end, drained, drained-Holds, wrapped, ten}

abbrev reader : FrameReader
reader = record { hdr = record { len = 0; seq = 0 }; pending_commit = 0; buf = replicate 600 0 }

abbrev sender : Channel
sender = record { write_ring = drained; read_ring = wrapped; notified = 0 }

abbrev receiver : Channel
receiver = record { write_ring = wrapped; read_ring = drained; notified = 0 }

abbrev calls : List Call
calls =
    fetch ∷ post ten 10 1 ∷ post ten 4 2 ∷ fetch ∷ post (replicate 600 1) 600 3 ∷ fetch ∷ fetch ∷ []

abbrev replies : List Reply
replies =
    empty
    ∷ posted (Codec.code ok)
    ∷ posted (Codec.code ok)
    ∷ handed (record { seq = 1; body = ten })
    ∷ posted (Codec.code err)
    ∷ handed (record { seq = 2; body = take 4 ten })
    ∷ empty
    ∷ []

calls-AllAllowed : Mailbox.AllAllowed 600 calls
calls-AllAllowed = (
  tt,
  (
    (omega arith, omega arith, omega arith),
    (
      (omega arith, omega arith, omega arith),
      (tt, ((omega arith, omega arith, omega arith), (tt, (tt, tt)))),
    ),
  ),
)

run-empty_example :
    run 1024 600 (record { sender = sender; receiver = receiver; reader = reader }) calls ≡ replies
unfolding Mailbox.run Mailbox.frames header_bytes
run-empty_example =
    run-empty cap_1024 (record { sender = sender; receiver = receiver; reader = reader }) near_end
      calls drained-Holds refl refl (length-replicate {A = ℕ} 600 0) calls-AllAllowed

-- The receiver's channel when one frame has been sent round the end of the ring.
abbrev one_frame : Channel
one_frame = record receiver { read_ring = (send 1024 sender (some ten) 10 7).1.write_ring }

one_frame-Ready : Ready 1024 600 one_frame reader near_end (frame 7 ten)
one_frame-Ready = record {
  holds = (send_lem cap_1024 ten 10 (omega arith) sender 7 drained-Holds).1;
  pending = omega arith;
  buffer = length-replicate {A = ℕ} 600 0;
}

try_recv-Receives_example :
    Took 1024 600 one_frame near_end (frame 7 ten) (try_recv 1024 600 one_frame reader)
    × Answers 600 reader.hdr (parse 1024 (frame 7 ten)) (try_recv 1024 600 one_frame reader)
try_recv-Receives_example = try_recv-Receives cap_1024 one_frame-Ready
