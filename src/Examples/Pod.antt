-- ===== src/Examples/Pod.antt =====
-- Objects of a registered type in a buffer and on the concrete ring.
use shm_cpp.Common.{ℕ, ◌≡◌, arith, some, List, [], ◌∷◌, refl, replicate, length-replicate}
use shm_cpp.Ring.{load}
use shm_cpp.Channel.{Channel}
use shm_cpp.Codec.{le32, header_bytes}
use shm_cpp.Reader.{FrameReader}
use shm_cpp.Reader.Ready.{Ready}
use shm_cpp.Reader.Mailbox.{Letter, frames}
use shm_cpp.Typed.{Got, recv_loop}
use shm_cpp.Typed.Ends.{recv_loop-total}
use shm_cpp.Typed.Pick.{Waits, Delivers, reached}
use shm_cpp.Pod.{PodType, encode_to, decode, send, accept, recv}
use shm_cpp.Pod.Payload.{tagged}
use shm_cpp.Pod.Buffer.{decode-encode_to}
use shm_cpp.Pod.Transfer.{pod_send_lem, Carries, recv-First}
use shm_cpp.Examples.{cap_1024, near_end, drained, drained-Holds, wrapped, wrapped-Holds, ten}

-- Ten bytes under the tag 0x00000101.
abbrev ten_bytes : PodType
ten_bytes = record { size = 10; tag = 257 }

abbrev blank : List ℕ
blank = replicate 30 0

decode-encode_to_example :
    let (written, buf') = encode_to ten_bytes ten blank 30 7 in
    (written ≡ 22)
    × (decode ten_bytes buf' written ≡ some (record { off = 12; len = 10; seq = 7 }))
    × (load buf' 12 10 ≡ ten)
decode-encode_to_example =
    decode-encode_to ten_bytes ten blank 30 7 refl (omega arith) (omega arith) (omega arith)
      (omega arith) (omega arith) (omega arith)

abbrev channel : Channel
channel = record { write_ring = wrapped; read_ring = drained; notified = 0 }

-- A receiver whose ring holds one object.
abbrev one_object : Channel
one_object = record {
  write_ring = drained;
  read_ring =
      (send 1024 ten_bytes (record { write_ring = drained; read_ring = drained; notified = 0 }) ten
        7).1.write_ring;
  notified = 0;
}

abbrev reader : FrameReader
reader = record { hdr = record { len = 0; seq = 0 }; pending_commit = 0; buf = replicate 600 0 }

abbrev letter : Letter
letter = record { seq = 7; body = tagged 257 ten }

one_object-Waits : Waits 1024 600 one_object reader (letter ∷ [])
unfolding frames le32 header_bytes
one_object-Waits = record {
  at = near_end;
  last = [];
  ready = record {
    holds =
        (pod_send_lem cap_1024 ten_bytes ten refl (omega arith) (omega arith)
          (record { write_ring = drained; read_ring = drained; notified = 0 }) 7 drained-Holds).1;
    pending = omega arith;
    buffer = length-replicate {A = ℕ} 600 0;
  };
  last_pending = refl;
}

letter-Carries : Carries ten_bytes letter.body ten
unfolding le32
letter-Carries = record { size = refl; tag = refl; rest = refl }

recv-First_example : Delivers 1024 600 (recv 2 1024 600 ten_bytes one_object reader) (some ten, [])
unfolding le32
recv-First_example =
    recv-First 1024 600 cap_1024 ten_bytes (letter ∷ []) 2 one_object reader (omega arith)
      (omega arith) one_object-Waits (omega arith, omega arith, tt) (omega arith)
      (reached letter-Carries)

-- A peer that has written ten bytes that are no frame.
noise-Ready :
    Ready 1024 600
      (record { write_ring = drained; read_ring = wrapped; notified = 0 })
      reader
      near_end
      ten
noise-Ready = record {
  holds = wrapped-Holds;
  pending = omega arith;
  buffer = length-replicate {A = ℕ} 600 0;
}

recv_loop-total_example :
    (g : Got (List ℕ)) × (recv_loop 11 1024 600
        (accept ten_bytes)
        (record { write_ring = drained; read_ring = wrapped; notified = 0 })
        reader
      ≡ some g)
recv_loop-total_example =
    recv_loop-total 1024 600 cap_1024 (accept ten_bytes) 11 noise-Ready (omega arith)
