-- ===== src/Channel/Ends.antt =====
-- What the steps of a handshake of include/shm_ipc/ring_channel.hpp have done where none throws.
use shm_cpp.Common.{
  ℕ, ◌≡◌, refl, ap, ◌∙◌, sym, append_assoc, append-nil, Option, none, some, List, [], ◌∷◌, ◌++◌,
}
use shm_cpp.Fds.{
  Members, Process, Action, Event, sent, sized, mapping, initialised, tell, create_eventfd,
  eventfd_failed, send_fd, sendmsg_failed, tag_data, tag_memfd, tag_eventfd,
}
use shm_cpp.Fds.Effects.{
  Makes, Makes->>=, Makes->>, Makes-weaken, Adds, Makes-modify, Makes-throw, Makes-given,
  Makes-map_region, Makes-create_memfd, Makes-send_fd, Makes-recv_fd_expect, Brings,
}
use shm_cpp.Channel.Assign
use shm_cpp.Channel.Handshake.{
  Calls, create_write_ring, make_eventfd, send_member, send_local_fds, recv_peer_fds,
}

-- The members change by `f`, and the events `es` happen.
pub record Turns (p q : Process) (f : Members → Members) (es : List Event) : Type 0 where
  pub channel : q.ch ≡ f p.ch
  pub logged : q.log ≡ p.log ++ es

still : {p q : Process} {es : List Event} → Adds p q p.ch es → Turns p q (λ c. c) es
still x = record { channel = x.channel; logged = x.logged }

pub Turns-then :
    {p q r : Process} {f g : Members → Members} {es fs : List Event}
    → Turns p q f es
    → Turns q r g fs
    → Turns p r (λ c. g (f c)) (es ++ fs)
Turns-then {p} {g} {es} {fs} x y = record {
  channel = y.channel ∙ ap g x.channel;
  logged = y.logged ∙ ap (λ l. l ++ fs) x.logged ∙ append_assoc p.log es fs;
}

-- A change of the members that the others do not see.
quiet : (p q : Process) {f : Members → Members} → q.ch ≡ f p.ch → q.log ≡ p.log → Turns p q f []
quiet p q e l = record { channel = e; logged = l ∙ sym (append-nil p.log) }

abbrev pub written : ℕ → ℕ → Members → Members
written fd addr c = record c { write_memfd = some fd; write_region = some addr }

abbrev pub waiting : ℕ → Members → Members
waiting efd c = record c { notify_read_efd = some efd }

abbrev pub reading : ℕ → ℕ → ℕ → Members → Members
reading fd addr efd c = record c {
  read_memfd = some fd;
  read_region = some addr;
  notify_write_efd = some efd;
}

abbrev pub NewRing : ℕ → Process → Process → Type 0
NewRing size p q =
    (fd : ℕ) × (addr : ℕ) × Turns p q (written fd addr)
      (sized fd size ∷ mapping addr fd size ∷ initialised addr ∷ [])

pub Makes-create_write_ring :
    (size : ℕ) (k : Calls) → Makes (create_write_ring size k) (λ p a q. NewRing size p q)
unfolding create_write_ring Assign.write_memfd Assign.write_region
Makes-create_write_ring size k =
    Makes-weaken
      (λ p a q x.
        let (fd, p1, y, (_, p2, e2, (addr, p3, z, (_, p4, e4, e5)))) = x in
        (
          fd,
          addr,
          Turns-then {g = λ c. c} {fs = initialised addr ∷ []}
              (Turns-then {g = λ c. record c { write_region = some addr }}
                (Turns-then
                  (Turns-then {g = λ c. record c { write_memfd = some fd }} (still y)
                    (quiet p1 p2 (ap (λ t. t.ch) e2) (ap (λ t. t.log) e2)))
                  (still z))
                (quiet p3 p4 (ap (λ t. t.ch) e4) (ap (λ t. t.log) e4)))
              record { channel = ap (λ t. t.ch) e5; logged = ap (λ t. t.log) e5 },
        ))
      (Makes->>= (Makes-create_memfd k.memfd k.memfd_plain k.resized size) (λ fd.
        Makes->> (Makes-modify (Assign.write_memfd fd)) (
          Makes->>= (Makes-map_region k.write_map fd size) (λ addr.
            Makes->> (Makes-modify (Assign.write_region addr))
              (Makes-modify (tell (initialised addr)))))))

pub Makes-make_eventfd :
    (k : Calls) → Makes (make_eventfd k) (λ p a q. (efd : ℕ) × Turns p q (waiting efd) [])
unfolding create_eventfd Assign.notify_read_efd
Makes-make_eventfd k =
    Makes-weaken
      (λ p a q x.
        let (efd, p1, y, e) = x in
        (
          efd,
          Turns-then {g = waiting efd} (still y)
              (quiet p1 q (ap (λ t. t.ch) e) (ap (λ t. t.log) e)),
        ))
      (Makes->>= (Makes-given eventfd_failed k.eventfd)
        (λ fd. Makes-modify (Assign.notify_read_efd fd)))

-- The descriptor of a member is sent.
abbrev pub Sends : Option ℕ → ℕ → Process → Process → Type 0
Sends o tag p q = (fd : ℕ) × (o ≡ some fd) × Turns p q (λ c. c) (sent (tag_data tag) fd ∷ [])

Makes-send_member :
    (answer o : Option ℕ) (tag : ℕ) → Makes (send_member answer o tag) (λ p a q. Sends o tag p q)
unfolding send_fd
Makes-send_member answer none tag = Makes-throw sendmsg_failed _
Makes-send_member answer (some fd) tag =
    Makes-weaken (λ p a q x. (fd, refl, still x)) (Makes-send_fd answer fd tag)

-- A step that reads the members first.
member :
    {m : Process → Action (Unit {0})} {Q : Process → Process → Process → Type 0}
    → ((r : Process) → Makes (m r) (λ p a q. Q r p q))
    → Makes (λ p. m p p) (λ p a q. Q p p q)
member all = record { after = λ p. (all p).after p }

pub Makes-send_local_fds :
    (k : Calls)
    → Makes (send_local_fds k) (λ p a q.
      (r : Process) × Sends p.ch.write_memfd tag_memfd p r
      × Sends r.ch.notify_read_efd tag_eventfd r q)
unfolding send_local_fds
Makes-send_local_fds k =
    Makes-weaken (λ p a q x. let (_, r, y, z) = x in (r, y, z))
      (Makes->>
        (member {m = λ p. send_member k.memfd_sent p.ch.write_memfd tag_memfd}
          {Q = λ r p q. Sends r.ch.write_memfd tag_memfd p q}
          (λ r. Makes-send_member k.memfd_sent r.ch.write_memfd tag_memfd))
        (member {m = λ p. send_member k.eventfd_sent p.ch.notify_read_efd tag_eventfd}
          {Q = λ r p q. Sends r.ch.notify_read_efd tag_eventfd p q}
          (λ r. Makes-send_member k.eventfd_sent r.ch.notify_read_efd tag_eventfd)))

-- What the peer's two messages bring, and the ring that is mapped.
abbrev pub PeerRing : ℕ → Calls → Process → Process → Type 0
PeerRing size k p q =
    (fd : ℕ) × (addr : ℕ) × (efd : ℕ) × Brings k.memfd_message fd
    × Brings k.eventfd_message efd
    × Turns p q (reading fd addr efd) (mapping addr fd size ∷ [])

pub Makes-recv_peer_fds :
    (size : ℕ) (k : Calls) → Makes (recv_peer_fds size k) (λ p a q. PeerRing size k p q)
unfolding recv_peer_fds Assign.read_memfd Assign.read_region Assign.notify_write_efd
Makes-recv_peer_fds size k =
    Makes-weaken
      (λ p a q x.
        let (fd, p1, (y, b), (_, p2, e2, (addr, p3, z, (_, p4, e4, (efd, p5, (w, b'), e6))))) = x in
        (
          fd,
          addr,
          efd,
          b,
          b',
          Turns-then {g = λ c. record c { notify_write_efd = some efd }}
              (Turns-then
                (Turns-then {g = λ c. record c { read_region = some addr }}
                  (Turns-then
                    (Turns-then {g = λ c. record c { read_memfd = some fd }} (still y)
                      (quiet p1 p2 (ap (λ t. t.ch) e2) (ap (λ t. t.log) e2)))
                    (still z))
                  (quiet p3 p4 (ap (λ t. t.ch) e4) (ap (λ t. t.log) e4)))
                (still w))
              (quiet p5 q (ap (λ t. t.ch) e6) (ap (λ t. t.log) e6)),
        ))
      (Makes->>= (Makes-recv_fd_expect k.memfd_message tag_memfd) (λ fd.
        Makes->> (Makes-modify (Assign.read_memfd fd)) (
          Makes->>= (Makes-map_region k.read_map fd size) (λ addr.
            Makes->> (Makes-modify (Assign.read_region addr)) (
              Makes->>= (Makes-recv_fd_expect k.eventfd_message tag_eventfd)
                (λ efd. Makes-modify (Assign.notify_write_efd efd)))))))
