-- ===== src/Channel/Exchange.antt =====
-- The handshake of include/shm_ipc/ring_channel.hpp leaves no descriptor and no mapping behind.
use shm_cpp.Common.{ℕ, ◌+◌, ◌≡◌, arith, Option, none, some, [], ◌∷◌, ◌++◌}
use shm_cpp.Common.{count, count-append}
use shm_cpp.Fds.{
  Result, ok, err, Members, no_members, Process, Action, modify, tell, timeouts, reset, send_fd,
  sendmsg_failed, tag_memfd, tag_eventfd, initialised, create_eventfd, eventfd_failed,
}
use shm_cpp.Fds.Kept.{
  fds_held, regions_held, Ledger, Post, Does, nothing, Does->>=, Does->>, Does-throw, Does-given,
  Does-map_region, Does-tell, Does-create_memfd, Does-send_fd,
}
use shm_cpp.Fds.Passing.{Whole, Does-recv_fd_expect}
use shm_cpp.Channel.Assign
use shm_cpp.Channel.Handshake.{
  ChannelRole, client, server, Calls, create_write_ring, make_eventfd, send_member, send_local_fds,
  recv_peer_fds, exchange, destroy, finish, create_ring_channel,
}

assign_write_memfd : (fd : ℕ) → Does (fd ∷ []) [] nothing nothing (modify (Assign.write_memfd fd))
unfolding modify Assign.write_memfd
assign_write_memfd fd = record {
  after = λ p l. record {
    descriptors =
        λ x. omega (arith, l.descriptors x, count-append x p.closed (reset p.ch.write_memfd));
    mappings = l.mappings;
  };
}

assign_read_memfd : (fd : ℕ) → Does (fd ∷ []) [] nothing nothing (modify (Assign.read_memfd fd))
unfolding modify Assign.read_memfd
assign_read_memfd fd = record {
  after = λ p l. record {
    descriptors =
        λ x. omega (arith, l.descriptors x, count-append x p.closed (reset p.ch.read_memfd));
    mappings = l.mappings;
  };
}

assign_notify_write_efd :
    (fd : ℕ) → Does (fd ∷ []) [] nothing nothing (modify (Assign.notify_write_efd fd))
unfolding modify Assign.notify_write_efd
assign_notify_write_efd fd = record {
  after = λ p l. record {
    descriptors =
        λ x. omega (arith, l.descriptors x, count-append x p.closed (reset p.ch.notify_write_efd));
    mappings = l.mappings;
  };
}

assign_notify_read_efd :
    (fd : ℕ) → Does (fd ∷ []) [] nothing nothing (modify (Assign.notify_read_efd fd))
unfolding modify Assign.notify_read_efd
assign_notify_read_efd fd = record {
  after = λ p l. record {
    descriptors =
        λ x. omega (arith, l.descriptors x, count-append x p.closed (reset p.ch.notify_read_efd));
    mappings = l.mappings;
  };
}

assign_write_region :
    (addr : ℕ) → Does [] (addr ∷ []) nothing nothing (modify (Assign.write_region addr))
unfolding modify Assign.write_region
assign_write_region addr = record {
  after = λ p l. record {
    descriptors = l.descriptors;
    mappings =
        λ x. omega (arith, l.mappings x, count-append x p.unmapped (reset p.ch.write_region));
  };
}

assign_read_region :
    (addr : ℕ) → Does [] (addr ∷ []) nothing nothing (modify (Assign.read_region addr))
unfolding modify Assign.read_region
assign_read_region addr = record {
  after = λ p l. record {
    descriptors = l.descriptors;
    mappings = λ x. omega (arith, l.mappings x, count-append x p.unmapped (reset p.ch.read_region));
  };
}

Does-create_write_ring :
    (size : ℕ) (k : Calls) → Does [] [] nothing nothing (create_write_ring size k)
unfolding create_write_ring
Does-create_write_ring size k =
    Does->>= (Does-create_memfd k.memfd k.memfd_plain k.resized size) (λ fd.
      Does->> (assign_write_memfd fd) (
        Does->>= (Does-map_region k.write_map fd size)
          (λ addr. Does->> (assign_write_region addr) (Does-tell (initialised addr) []))))

Does-make_eventfd : (k : Calls) → Does [] [] nothing nothing (make_eventfd k)
unfolding create_eventfd
Does-make_eventfd k =
    Does->>= (Does-given eventfd_failed k.eventfd) (λ fd. assign_notify_read_efd fd)

Does-send_member :
    (answer fd : Option ℕ) (tag : ℕ) → Does [] [] nothing nothing (send_member answer fd tag)
unfolding send_fd
Does-send_member answer none tag = Does-throw sendmsg_failed
Does-send_member answer (some fd) tag = Does-send_fd answer fd tag

-- A step that reads the members first.
reading :
    {m : Process → Action (Unit {0})}
    → ((p : Process) → Does [] [] nothing nothing (m p))
    → Does [] [] nothing nothing (λ p. m p p)
reading all = record { after = λ p l. (all p).after p l }

Does-send_local_fds : (k : Calls) → Does [] [] nothing nothing (send_local_fds k)
unfolding send_local_fds
Does-send_local_fds k =
    Does->>
      (reading {m = λ p. send_member k.memfd_sent p.ch.write_memfd tag_memfd}
        (λ p. Does-send_member k.memfd_sent p.ch.write_memfd tag_memfd))
      (reading {m = λ p. send_member k.eventfd_sent p.ch.notify_read_efd tag_eventfd}
        (λ p. Does-send_member k.eventfd_sent p.ch.notify_read_efd tag_eventfd))

Does-recv_peer_fds :
    (size : ℕ) (k : Calls)
    → Whole k.memfd_message
    → Whole k.eventfd_message
    → Does [] [] nothing nothing (recv_peer_fds size k)
unfolding recv_peer_fds
Does-recv_peer_fds size k w w' = Does->>= (Does-recv_fd_expect k.memfd_message tag_memfd w) (λ fd.
    Does->> (assign_read_memfd fd) (
      Does->>= (Does-map_region k.read_map fd size) (λ addr. Does->> (assign_read_region addr) (
        Does->>= (Does-recv_fd_expect k.eventfd_message tag_eventfd w')
          (λ efd. assign_notify_write_efd efd)))))

Does-exchange :
    (size : ℕ) (role : ChannelRole) (k : Calls)
    → Whole k.memfd_message
    → Whole k.eventfd_message
    → Does [] [] nothing nothing (exchange size role k)
unfolding exchange
Does-exchange size client k w w' = Does->> (Does-create_write_ring size k) (
    Does->> (Does-make_eventfd k)
      (Does->> (Does-send_local_fds k) (Does-recv_peer_fds size k w w')))
Does-exchange size server k w w' = Does->> (Does-recv_peer_fds size k w w') (
    Does->> (Does-create_write_ring size k) (Does->> (Does-make_eventfd k) (Does-send_local_fds k)))

-- Everything that the process was given is closed or unmapped, once, but what the channel that is
-- returned holds.
abbrev pub Settled : Result Members → Process → Type 0
Settled (ok ch) p =
    (x : ℕ)
    → (count x p.opened ≡ count x p.closed + fds_held x ch)
      × (count x p.mapped ≡ count x p.unmapped + regions_held x ch)
Settled (err e) p =
    (x : ℕ) → (count x p.opened ≡ count x p.closed) × (count x p.mapped ≡ count x p.unmapped)

destroyed :
    (p : Process)
    → Ledger [] [] p
    → (x : ℕ)
    → (count x p.opened ≡ count x (destroy p).closed)
      × (count x p.mapped ≡ count x (destroy p).unmapped)
unfolding destroy
destroyed p l x =
    let a = reset p.ch.notify_read_efd in
    let b = reset p.ch.notify_write_efd in
    let c = reset p.ch.read_memfd in
    let d = reset p.ch.write_memfd in
    (
      omega (
        arith,
        l.descriptors x,
        count-append x p.closed a,
        count-append x (p.closed ++ a) b,
        count-append x (p.closed ++ a ++ b) c,
        count-append x (p.closed ++ a ++ b ++ c) d,
      ),
      omega (
        arith,
        l.mappings x,
        count-append x p.unmapped (reset p.ch.read_region),
        count-append x (p.unmapped ++ reset p.ch.read_region) (reset p.ch.write_region),
      ),
    )

finish-Settled :
    (r : Result (Unit {0})) (p : Process)
    → Post nothing nothing r p
    → Settled (finish (r, p)).0 (finish (r, p)).1
unfolding destroy
finish-Settled (ok u) p l = λ x. (omega (arith, l.descriptors x), omega (arith, l.mappings x))
finish-Settled (err e) p l =
    destroyed (tell (timeouts 0) p) record { descriptors = l.descriptors; mappings = l.mappings }

-- In a process that has closed and unmapped all it was given, whatever the system calls of a handshake
-- answer and whichever step fails: each descriptor and each mapping that it obtained belongs to the
-- channel if `CreateRingChannel` returns, and has been closed once if it throws. It is assumed that a
-- message with descriptors has a whole tag and room for them.
pub create_ring_channel-Settled :
    (size : ℕ) (role : ChannelRole) (k : Calls) (p : Process)
    → Settled (ok no_members) p
    → Whole k.memfd_message
    → Whole k.eventfd_message
    → Settled (create_ring_channel size role k p).0 (create_ring_channel size role k p).1
unfolding create_ring_channel
create_ring_channel-Settled size role k p s w w' = finish-Settled _ _ (
    (Does-exchange size role k w w').after (tell (timeouts 5) (record p { ch = no_members }))
      record { descriptors = λ x. omega (arith, s x); mappings = λ x. omega (arith, s x) })
