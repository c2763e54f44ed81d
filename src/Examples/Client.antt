-- ===== src/Examples/Client.antt =====
-- A message in two chunks, and a read that waits for the peer.
use shm_cpp.Common.{ℕ, ◌≡◌, refl, arith, true, false, some, List, [], ◌∷◌, replicate}
use shm_cpp.Connection.{write_raw}
use shm_cpp.Client.{
  Client, send_message, with_channel, Turn, interrupted, woken, read_message, connected,
}
use shm_cpp.Client.Send.{sent_of, send_message-write_raw}
use shm_cpp.Client.Receive.{Reported, read_message-Reported}
use shm_cpp.Examples.{cap_1024, near_end, drained, drained-Holds, ten}

abbrev message : List ℕ
message = replicate 700 7

abbrev client : Client
client = record {
  socket_fd = some 5;
  channel = record { write_ring = drained; read_ring = drained; notified = 0 };
  closed = false;
  shut = false;
}

client-connected : connected client ≡ true
unfolding connected
client-connected = refl

send_message-write_raw_example :
    send_message 1024 client (some message) 700
    ≡ with_channel client (sent_of 700 (write_raw 1024 client.channel message 700))
send_message-write_raw_example =
    send_message-write_raw cap_1024 message 700 (omega arith) client client-connected (omega arith)

-- A signal, and then the peer writes ten bytes and wakes the reader.
abbrev turns : List Turn
turns =
    record { expired = false; arrives = []; closes = false; polled = interrupted }
    ∷ record { expired = false; arrives = ten; closes = false; polled = woken false false }
    ∷ []

read_message-Reported_example : Reported 1024 8 turns near_end [] (read_message 1024 8 turns client)
read_message-Reported_example =
    read_message-Reported cap_1024 (omega arith) (omega arith) turns client drained-Holds
