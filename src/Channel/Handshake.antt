-- ===== src/Channel/Handshake.antt =====
-- `CreateRingChannel` of include/shm_ipc/ring_channel.hpp: the exchange of descriptors that makes a channel.
use shm_cpp.Common.{ℕ, Bool, Option, none, some, ◌++◌}
use shm_cpp.Channel.Assign
use shm_cpp.Fds.{
  Result, ok, err, Members, Process, Action, ◌>>=◌, ◌>>◌, modify, tell, reset, map_region, Made,
  create_memfd, create_eventfd, send_fd, Message, recv_fd_expect, initialised, timeouts, tag_memfd,
  tag_eventfd, no_members,
}

pub data ChannelRole : Type 0 where
  client server : ChannelRole

-- What the system calls of one handshake answer.
pub record Calls : Type 0 where
  pub memfd : Made
  pub memfd_plain : Option ℕ
  pub resized : Bool
  pub write_map : Option ℕ
  pub eventfd : Option ℕ
  pub memfd_sent : Option ℕ
  pub eventfd_sent : Option ℕ
  pub memfd_message : Option Message
  pub read_map : Option ℕ
  pub eventfd_message : Option Message

-- `size` is `Ring::shm_size`. `Ring::Init` writes to the new mapping.
unfoldable pub create_write_ring : ℕ → Calls → Action (Unit {0})
create_write_ring size k = do
  fd ← create_memfd k.memfd k.memfd_plain k.resized size
  modify (Assign.write_memfd fd)
  addr ← map_region k.write_map fd size
  modify (Assign.write_region addr)
  modify (tell (initialised addr))

abbrev pub make_eventfd : Calls → Action (Unit {0})
make_eventfd k = do fd ← create_eventfd k.eventfd; modify (Assign.notify_read_efd fd)

-- `SendFd` of a member; an empty one has the number -1, which `sendmsg` refuses.
abbrev pub send_member : Option ℕ → Option ℕ → ℕ → Action (Unit {0})
send_member answer none tag = send_fd none 0 tag
send_member answer (some fd) tag = send_fd answer fd tag

unfoldable pub send_local_fds : Calls → Action (Unit {0})
send_local_fds k = do
  λ p. send_member k.memfd_sent p.ch.write_memfd tag_memfd p
  λ p. send_member k.eventfd_sent p.ch.notify_read_efd tag_eventfd p

unfoldable pub recv_peer_fds : ℕ → Calls → Action (Unit {0})
recv_peer_fds size k = do
  fd ← recv_fd_expect k.memfd_message tag_memfd
  modify (Assign.read_memfd fd)
  addr ← map_region k.read_map fd size
  modify (Assign.read_region addr)
  efd ← recv_fd_expect k.eventfd_message tag_eventfd
  modify (Assign.notify_write_efd efd)

unfoldable pub exchange : ℕ → ChannelRole → Calls → Action (Unit {0})
exchange size client k = do
  create_write_ring size k
  make_eventfd k
  send_local_fds k
  recv_peer_fds size k
exchange size server k = do
  recv_peer_fds size k
  create_write_ring size k
  make_eventfd k
  send_local_fds k

-- The destructor of `RingChannel`, in the reverse order of the members.
unfoldable pub destroy : Process → Process
destroy p = record p {
  closed =
      p.closed
      ++ reset p.ch.notify_read_efd
      ++ reset p.ch.notify_write_efd
      ++ reset p.ch.read_memfd
      ++ reset p.ch.write_memfd;
  unmapped = p.unmapped ++ reset p.ch.read_region ++ reset p.ch.write_region;
  ch = no_members;
}

-- The channel is given away, or destroyed if an exception leaves the function. Then the guard takes the
-- timeouts away.
abbrev pub finish : Result (Unit {0}) × Process → Result Members × Process
finish (ok _, p) = (ok p.ch, record (tell (timeouts 0) p) { ch = no_members })
finish (err e, p) = (err e, destroy (tell (timeouts 0) p))

unfoldable pub create_ring_channel : ℕ → ChannelRole → Calls → Process → Result Members × Process
create_ring_channel size role k p =
    finish (exchange size role k (tell (timeouts 5) (record p { ch = no_members })))
