-- ===== src/Examples/Fds.antt =====
-- Two processes whose handshake succeeds or fails, and a message with more descriptors than fit.
use shm_cpp.Common.{
  ℕ, ◌+◌, ◌≡◌, refl, arith, inr, true, false, none, some, [], ◌∷◌, replicate, length-append,
}
use shm_cpp.Codec.{le32, from_le32}
use shm_cpp.Pod.Payload.{length-le32}
use shm_cpp.Channel.Assign
use shm_cpp.Fds.{
  Thrown, err, Process, Members, no_members, Message, tag_memfd, tag_eventfd, tag_data, made,
  recv_fd, ◌>>=◌, ◌>>◌, modify, pure, throw_if, given, map_region, one_fd, create_memfd,
  create_eventfd, send_fd, recv_fd_expect,
}
use shm_cpp.Fds.Passing.{Whole, recv_fd-lost}
use shm_cpp.Channel.Handshake.{
  client, server, Calls, create_write_ring, send_local_fds, recv_peer_fds, exchange,
  create_ring_channel,
}
use shm_cpp.Channel.Exchange.{Settled, create_ring_channel-Settled}
use shm_cpp.Channel.Side.{Ends, members, trace}
use shm_cpp.Channel.Crossed.{delivered, Meets, create_ring_channel_crossed}

abbrev process : Process
process = record { opened = []; closed = []; mapped = []; unmapped = []; log = []; ch = no_members }

abbrev message : ℕ → ℕ → Message
message tag fd = record { bytes = tag_data tag; truncated = false; rights = some (fd ∷ []) }

-- A side whose system calls succeed: its memfd, mapping and eventfd, and the descriptors that it receives.
abbrev calls : ℕ → ℕ → ℕ → ℕ → ℕ → ℕ → Calls
calls memfd map efd peer_memfd peer_map peer_efd = record {
  memfd = made memfd;
  memfd_plain = none;
  resized = true;
  write_map = some map;
  eventfd = some efd;
  memfd_sent = some 256;
  eventfd_sent = some 256;
  memfd_message = some (message tag_memfd peer_memfd);
  read_map = some peer_map;
  eventfd_message = some (message tag_eventfd peer_efd);
}

abbrev calls_end : ℕ → ℕ → ℕ → ℕ → ℕ → ℕ → Members
calls_end memfd map efd peer_memfd peer_map peer_efd = record {
  write_memfd = some memfd;
  write_region = some map;
  read_memfd = some peer_memfd;
  read_region = some peer_map;
  notify_write_efd = some peer_efd;
  notify_read_efd = some efd;
}

message-Whole : (tag fd : ℕ) → Whole (some (message tag fd))
message-Whole tag fd =
    inr (omega (arith, length-append (le32 tag) (replicate 252 0), length-le32 tag), refl)

-- The peer sends a memfd where the eventfd is waited for.
abbrev wrong : Calls
wrong = record (calls 3 100 4 5 200 6) { eventfd_message = some (message tag_memfd 6) }

create_ring_channel-Settled_example :
    Settled
      (create_ring_channel 4224 client wrong process).0
      (create_ring_channel 4224 client wrong process).1
create_ring_channel-Settled_example =
    create_ring_channel-Settled 4224 client wrong process (λ x. (refl, refl))
      (message-Whole tag_memfd 5) (message-Whole tag_memfd 6)

abbrev client_side : Calls
client_side = calls 3 100 4 9 200 10

abbrev server_side : Calls
server_side = calls 5 300 6 7 400 8

create_ring_channel_crossed_example :
    (c : Ends) × (s : Ends) × ((calls_end 3 100 4 9 200 10) ≡ members c)
    × ((calls_end 5 300 6 7 400 8) ≡ members s)
    × Meets (λ n. n + 4) c s
    × Meets (λ n. n + 4) s c
    × ((create_ring_channel 4224 client client_side process).1.log ≡ trace 4224 client c)
    × ((create_ring_channel 4224 server server_side process).1.log ≡ trace 4224 server s)
unfolding create_ring_channel exchange create_write_ring send_local_fds recv_peer_fds ◌>>=◌ ◌>>◌
    modify pure throw_if given map_region one_fd create_memfd create_eventfd send_fd recv_fd
    recv_fd_expect le32 from_le32 Assign.write_memfd Assign.read_memfd Assign.write_region
    Assign.read_region Assign.notify_write_efd Assign.notify_read_efd delivered
create_ring_channel_crossed_example =
    create_ring_channel_crossed 4224 (λ n. n + 4) (λ n. n + 4) client_side server_side process
      process (calls_end 3 100 4 9 200 10) (calls_end 5 300 6 7 400 8) refl refl refl refl refl refl

-- Three descriptors were sent, and two of them fit.
abbrev crowded : Message
crowded = record { bytes = tag_data tag_memfd; truncated = true; rights = some (5 ∷ 6 ∷ []) }

recv_fd-lost_example :
    ((e : Thrown) × ((recv_fd (some crowded) process).0 ≡ err e))
    × ((recv_fd (some crowded) process).1 ≡ record process { opened = 5 ∷ 6 ∷ [] })
recv_fd-lost_example = recv_fd-lost crowded process (inr refl)
