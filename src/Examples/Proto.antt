-- ===== src/Examples/Proto.antt =====
-- A message type with a name of three letters, whose messages are one number, written twice.
use shm_cpp.Common.{
  ℕ, ◌+◌, ◌≤◌, ◌≡◌, refl, arith, Option, none, some, List, [], ◌∷◌, ◌++◌, ◌==◌, if◌then◌else◌,
  replicate, length-replicate,
}
use shm_cpp.Ring.{ok}
use shm_cpp.Ring.Window.{Holds}
use shm_cpp.Channel.{Channel}
use shm_cpp.Codec.{code, msg_header_size, le32, header_of, header_bytes}
use shm_cpp.Codec.Finish.{frame}
use shm_cpp.Reader.{FrameReader}
use shm_cpp.Reader.Mailbox.{Letter, frames}
use shm_cpp.Typed.Pick.{Waits, Delivers, reached}
use shm_cpp.Proto.Carrying.{Carries}
use shm_cpp.Proto.{ProtoType, le16, decode_header, accept, send, recv, type_name_len_size}
use shm_cpp.Proto.Payload.{typed, decode_header-inside, accept-typed}
use shm_cpp.Proto.Transfer.{proto_send_lem, proto_recv-First}
use shm_cpp.Examples.{cap_1024, near_end, drained, drained-Holds, wrapped, wrapped-Holds, ten}

parse : List ℕ → Option ℕ
parse [] = none
parse (a ∷ []) = none
parse (a ∷ (b ∷ [])) = if a == b then some a else none
parse (a ∷ (b ∷ (c ∷ rest))) = none

abbrev number : ProtoType ℕ
number = record { name = 78 ∷ 117 ∷ 109 ∷ []; serialize = λ n. n ∷ n ∷ []; parse = parse }

abbrev abc : List ℕ
abc = 65 ∷ 66 ∷ 67 ∷ []

accept-typed_example : accept number (typed number.name (5 ∷ 5 ∷ [])) ≡ some 5
unfolding parse
accept-typed_example = accept-typed number.name (5 ∷ 5 ∷ []) (omega arith) number (omega arith)

-- A frame of seven bytes: the length of the name, the name, and the message.
abbrev whole : List ℕ
whole = 7 ∷ 0 ∷ 0 ∷ 0 ∷ 9 ∷ 0 ∷ 0 ∷ 0 ∷ 3 ∷ 0 ∷ 78 ∷ 117 ∷ 109 ∷ 5 ∷ 5 ∷ []

decode_header-inside_example :
    (10 ≡ msg_header_size + type_name_len_size)
    × (13 ≡ 10 + 3)
    × (13 + 2 ≡ msg_header_size + (header_of whole).len)
    × (13 + 2 ≤ 15)
unfolding decode_header
decode_header-inside_example =
    decode_header-inside whole 15
      {h = record { type_name = 10; type_name_len = 3; payload = 13; payload_len = 2; seq = 9 }}
      (omega arith) refl

abbrev channel : Channel
channel = record { write_ring = wrapped; read_ring = drained; notified = 0 }

proto_send_lem_example :
    let (res, ch') = send 1024 number channel 5 7 in
    (res ≡ code ok)
    × Holds 1024 ch'.write_ring near_end (ten ++ frame 7 (typed number.name (5 ∷ 5 ∷ [])))
    × (ch'.notified ≡ 1)
    × (ch'.read_ring ≡ drained)
unfolding le16
proto_send_lem_example =
    proto_send_lem cap_1024 number 5 (omega arith) (omega arith) (omega arith) (omega arith) channel
      7 wrapped-Holds

-- A receiver whose ring holds the number 5.
abbrev empty : Channel
empty = record { write_ring = drained; read_ring = drained; notified = 0 }

abbrev one_number : Channel
one_number = record {
  write_ring = drained;
  read_ring = (send 1024 number empty 5 7).1.write_ring;
  notified = 0;
}

abbrev reader : FrameReader
reader = record { hdr = record { len = 0; seq = 0 }; pending_commit = 0; buf = replicate 600 0 }

abbrev letter : Letter
letter = record { seq = 7; body = typed number.name (5 ∷ 5 ∷ []) }

one_number-Waits : Waits 1024 600 one_number reader (letter ∷ [])
unfolding frames le32 header_bytes le16
one_number-Waits = record {
  at = near_end;
  last = [];
  ready = record {
    holds =
        (proto_send_lem cap_1024 number 5 (omega arith) (omega arith) (omega arith) (omega arith)
          empty 7 drained-Holds).1;
    pending = omega arith;
    buffer = length-replicate {A = ℕ} 600 0;
  };
  last_pending = refl;
}

letter-Carries : Carries number letter.body 5
unfolding le16 parse
letter-Carries = record {
  bytes = 5 ∷ 5 ∷ [];
  long = omega arith;
  named = refl;
  rest = refl;
  parses = refl;
}

proto_recv-First_example : Delivers 1024 600 (recv 2 1024 600 number one_number reader) (some 5, [])
unfolding le16
proto_recv-First_example =
    proto_recv-First 1024 600 cap_1024 number (letter ∷ []) 2 one_number reader one_number-Waits
      (omega arith, omega arith, tt) (omega arith, tt) (omega arith) (reached letter-Carries)
