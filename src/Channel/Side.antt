-- ===== src/Channel/Side.antt =====
-- One side of a handshake of include/shm_ipc/ring_channel.hpp that has returned a channel.
use shm_cpp.Common.{
  ℕ, ◌≡◌, refl, sym, ap, subst, ◌∙◌, Option, none, some, List, [], ◌∷◌, ◌++◌, append_assoc,
}
use shm_cpp.Fds.{
  Result, ok, err, Members, no_members, Process, Action, tell, Event, sized, mapping, sent,
  initialised, timeouts, tag_data, tag_memfd, tag_eventfd,
}
use shm_cpp.Fds.Effects.{Makes, Makes->>, Makes-weaken, Good, Brings}
use shm_cpp.Channel.Ends.{
  Turns, Turns-then, Sends, Makes-create_write_ring, Makes-make_eventfd, Makes-send_local_fds,
  Makes-recv_peer_fds,
}
use shm_cpp.Channel.Handshake.{
  client, server, ChannelRole, Calls, exchange, finish, create_ring_channel,
}

-- What one side has: its memfd, mapping and eventfd, and those of the peer's.
pub record Ends : Type 0 where
  pub memfd : ℕ
  pub map : ℕ
  pub efd : ℕ
  pub peer_memfd : ℕ
  pub peer_map : ℕ
  pub peer_efd : ℕ

abbrev pub members : Ends → Members
members e = record {
  write_memfd = some e.memfd;
  write_region = some e.map;
  read_memfd = some e.peer_memfd;
  read_region = some e.peer_map;
  notify_write_efd = some e.peer_efd;
  notify_read_efd = some e.efd;
}

-- What others see of it: its own ring, the two messages, and the mapping of the peer's ring.
abbrev pub own_ring : ℕ → Ends → List Event
own_ring size e = sized e.memfd size ∷ mapping e.map e.memfd size ∷ initialised e.map ∷ []

abbrev pub messages : Ends → List Event
messages e = sent (tag_data tag_memfd) e.memfd ∷ sent (tag_data tag_eventfd) e.efd ∷ []

abbrev pub peer_ring : ℕ → Ends → List Event
peer_ring size e = mapping e.peer_map e.peer_memfd size ∷ []

abbrev pub turns : ℕ → ChannelRole → Ends → List Event
turns size client e = own_ring size e ++ messages e ++ peer_ring size e
turns size server e = peer_ring size e ++ own_ring size e ++ messages e

abbrev pub trace : ℕ → ChannelRole → Ends → List Event
trace size role e = (timeouts 5 ∷ turns size role e) ++ (timeouts 0 ∷ [])

-- One side without the timeouts.
abbrev Exchanged : ℕ → ChannelRole → Calls → Process → Process → Type 0
Exchanged size role k p q =
    (e : Ends) × Brings k.memfd_message e.peer_memfd
    × Brings k.eventfd_message e.peer_efd
    × Turns p q (λ c. members e) (turns size role e)

some-inj : {a b : ℕ} → some a ≡ some b → a ≡ b
some-inj e = ap value e
  where
    value : Option ℕ → ℕ
    value none = 0
    value (some x) = x

-- A member that was set before is the one that is sent.
resend :
    (tag : ℕ) {p q : Process} {o : Option ℕ} {fd : ℕ}
    → Sends o tag p q
    → o ≡ some fd
    → Turns p q (λ c. c) (sent (tag_data tag) fd ∷ [])
resend tag {p} {q} (fd', e, t) e' =
    subst (λ n. Turns p q (λ c. c) (sent (tag_data tag) n ∷ [])) (some-inj (sym e ∙ e')) t

exchange-client :
    (size : ℕ) (k : Calls) → Makes (exchange size client k) (λ p a q. Exchanged size client k p q)
unfolding exchange
exchange-client size k =
    Makes-weaken
      (λ p a q x.
        let (
          _,
          p1,
          (fd, addr, t1),
          (_, p2, (efd, t2), (_, p3, (r, s1, s2), (fd', addr', efd', b, b', t3))),
        ) =
          x in
        let o = Turns-then t1 t2 in
        let m = resend tag_memfd s1 (ap (λ c. c.write_memfd) o.channel) in
        let o' = Turns-then o m in
        (
          record {
            memfd = fd;
            map = addr;
            efd = efd;
            peer_memfd = fd';
            peer_map = addr';
            peer_efd = efd';
          },
          b,
          b',
          Turns-then
              (Turns-then o' (resend tag_eventfd s2 (ap (λ c. c.notify_read_efd) o'.channel))) t3,
        ))
      (Makes->> (Makes-create_write_ring size k) (
        Makes->> (Makes-make_eventfd k)
          (Makes->> (Makes-send_local_fds k) (Makes-recv_peer_fds size k))))

exchange-server :
    (size : ℕ) (k : Calls) → Makes (exchange size server k) (λ p a q. Exchanged size server k p q)
unfolding exchange
exchange-server size k =
    Makes-weaken
      (λ p a q x.
        let (
          _,
          p1,
          (fd', addr', efd', b, b', t3),
          (_, p2, (fd, addr, t1), (_, p3, (efd, t2), (r, s1, s2))),
        ) =
          x in
        let o = Turns-then (Turns-then t3 t1) t2 in
        let m = resend tag_memfd s1 (ap (λ c. c.write_memfd) o.channel) in
        let o' = Turns-then o m in
        (
          record {
            memfd = fd;
            map = addr;
            efd = efd;
            peer_memfd = fd';
            peer_map = addr';
            peer_efd = efd';
          },
          b,
          b',
          Turns-then o' (resend tag_eventfd s2 (ap (λ c. c.notify_read_efd) o'.channel)),
        ))
      (Makes->> (Makes-recv_peer_fds size k) (
        Makes->> (Makes-create_write_ring size k)
          (Makes->> (Makes-make_eventfd k) (Makes-send_local_fds k))))

exchange-Exchanged :
    (size : ℕ) (role : ChannelRole) (k : Calls)
    → Makes (exchange size role k) (λ p a q. Exchanged size role k p q)
exchange-Exchanged size client k = exchange-client size k
exchange-Exchanged size server k = exchange-server size k

-- One side that has returned a channel.
abbrev Returned : ℕ → ChannelRole → Calls → Process → Members → Process → Type 0
Returned size role k p ch q =
    (e : Ends) × Brings k.memfd_message e.peer_memfd
    × Brings k.eventfd_message e.peer_efd
    × (ch ≡ members e)
    × (q.log ≡ p.log ++ trace size role e)

start : Process → Process
start p = tell (timeouts 5) (record p { ch = no_members })

Makes-finish :
    {m : Action (Unit {0})} {Q : Process → Process → Type 0}
    → Makes m (λ p a q. Q p q)
    → Makes
        (λ p. finish (m (start p)))
        (λ p ch q.
          (q' : Process) × Q (start p) q' × (ch ≡ q'.ch) × (q.log ≡ q'.log ++ (timeouts 0 ∷ [])))
Makes-finish {m} {Q} d = record {
  after = λ p. go p (m (start p)).0 (m (start p)).1 (d.after (start p));
}
  where
    go :
        (p : Process) (r : Result (Unit {0})) (q' : Process)
        → Good (λ a q''. Q (start p) q'') r q'
        → Good
            (λ ch q.
              (q'' : Process) × Q (start p) q''
              × (ch ≡ q''.ch)
              × (q.log ≡ q''.log ++ (timeouts 0 ∷ [])))
            (finish (r, q')).0
            (finish (r, q')).1
    go p (ok a) q' x = (q', x, refl, refl)
    go p (err e) q' x = tt

create_ring_channel-Returned :
    (size : ℕ) (role : ChannelRole) (k : Calls)
    → Makes (create_ring_channel size role k) (λ p ch q. Returned size role k p ch q)
unfolding create_ring_channel start
create_ring_channel-Returned size role k =
    Makes-weaken
      (λ p ch q x.
        let (q', (e, b, b', t), c, l) = x in
        (
          e,
          b,
          b',
          c ∙ t.channel,
          rw (l, t.logged)
              (ap (λ es. es ++ (timeouts 0 ∷ []))
                  (append_assoc p.log (timeouts 5 ∷ []) (turns size role e))
                ∙ append_assoc p.log (timeouts 5 ∷ turns size role e) (timeouts 0 ∷ [])),
        ))
      (Makes-finish (exchange-Exchanged size role k))

pub returned :
    (size : ℕ) (role : ChannelRole) (k : Calls) (p : Process) (ch : Members)
    → (create_ring_channel size role k p).0 ≡ ok ch
    → Returned size role k p ch (create_ring_channel size role k p).1
returned size role k p ch e =
    subst (λ r. Good (Returned size role k p) r (create_ring_channel size role k p).1) e
      ((create_ring_channel-Returned size role k).after p)
