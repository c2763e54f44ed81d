-- ===== src/Channel/Crossed.antt =====
-- The two sides of a handshake of include/shm_ipc/ring_channel.hpp that goes well.
use shm_cpp.Common.{ℕ, ◌≡◌, refl, sym, ap, ◌∙◌, false, Option, none, some, List, [], ◌∷◌, ◌++◌}
use shm_cpp.Fds.{
  ok, Members, Process, Message, Event, sized, mapping, sent, initialised, unlinked, timeouts,
}
use shm_cpp.Fds.Effects.{Brings}
use shm_cpp.Channel.Handshake.{client, server, ChannelRole, Calls, create_ring_channel}
use shm_cpp.Channel.Side.{Ends, members, trace, returned}

-- The messages that were sent, where the kernel gives the receiver the descriptor `g fd` for `fd`.
unfoldable pub delivered : (ℕ → ℕ) → List Event → List (Option Message)
delivered g [] = []
delivered g (sent bytes fd ∷ es) =
    some (record { bytes = bytes; truncated = false; rights = some (g fd ∷ []) }) ∷ delivered g es
delivered g (sized fd size ∷ es) = delivered g es
delivered g (mapping addr fd size ∷ es) = delivered g es
delivered g (initialised addr ∷ es) = delivered g es
delivered g (timeouts s ∷ es) = delivered g es
delivered g (unlinked path ∷ es) = delivered g es

-- The descriptor of a message.
brought : Option Message → ℕ
brought none = 0
brought (some m) = first m.rights
  where
    first : Option (List ℕ) → ℕ
    first none = 0
    first (some []) = 0
    first (some (fd ∷ fds)) = fd

front : List (Option Message) → Option Message
front [] = none
front (o ∷ os) = o

second : List (Option Message) → Option Message
unfolding front
second [] = none
second (o ∷ os) = front os

Brings-brought : (o : Option Message) (fd : ℕ) → Brings o fd → brought o ≡ fd
unfolding brought
Brings-brought o fd (m, e, r) = rw (e, r) refl

-- What two messages bring, where they are the ones of a side.
received :
    {o o' : Option Message} {fd fd' : ℕ} (g : ℕ → ℕ) (size : ℕ) (role : ChannelRole) (e : Ends)
    → Brings o fd
    → Brings o' fd'
    → (o ∷ o' ∷ []) ≡ delivered g (trace size role e)
    → (fd ≡ g e.memfd) × (fd' ≡ g e.efd)
unfolding delivered brought front second
received {o} {o'} {fd} {fd'} g size client e b b' d = (
  sym (Brings-brought o fd b) ∙ ap (λ l. brought (front l)) d,
  sym (Brings-brought o' fd' b') ∙ ap (λ l. brought (second l)) d,
)
received {o} {o'} {fd} {fd'} g size server e b b' d = (
  sym (Brings-brought o fd b) ∙ ap (λ l. brought (front l)) d,
  sym (Brings-brought o' fd' b') ∙ ap (λ l. brought (second l)) d,
)

-- The side `e` of a handshake, and the side `e'` of its peer, whose descriptors `g` gives it.
pub record Meets (g : ℕ → ℕ) (e e' : Ends) : Type 0 where
  pub reads : e.peer_memfd ≡ g e'.memfd
  pub wakes : e.peer_efd ≡ g e'.efd

-- If both sides return a channel, and the two messages that each receives are the ones that the other has
-- sent, with the descriptors that `g` and `h` give for them, then the client reads from the memfd that the
-- server writes to, and the server from the client's; each wakes the other through the eventfd that
-- the other waits on; the regions of the channel are mappings of these memfds, with the size of a ring; and
-- each has sized, mapped and initialised its own ring before it sent it, sent the memfd before the
-- eventfd, and taken the timeouts of the handshake away. Nothing was seen of the processes before.
pub create_ring_channel_crossed :
    (size : ℕ) (g h : ℕ → ℕ) (kc ks : Calls) (p q : Process) (mc ms : Members)
    → p.log ≡ []
    → q.log ≡ []
    → (create_ring_channel size client kc p).0 ≡ ok mc
    → (create_ring_channel size server ks q).0 ≡ ok ms
    → (kc.memfd_message ∷ kc.eventfd_message ∷ [])
      ≡ delivered h (create_ring_channel size server ks q).1.log
    → (ks.memfd_message ∷ ks.eventfd_message ∷ [])
      ≡ delivered g (create_ring_channel size client kc p).1.log
    → (c : Ends) × (s : Ends) × (mc ≡ members c)
      × (ms ≡ members s)
      × Meets h c s
      × Meets g s c
      × ((create_ring_channel size client kc p).1.log ≡ trace size client c)
      × ((create_ring_channel size server ks q).1.log ≡ trace size server s)
create_ring_channel_crossed size g h kc ks p q mc ms np nq rc rs dc ds =
    let (c, bc, bc', ec, lc) = returned size client kc p mc rc in
    let (s, bs, bs', es, ls) = returned size server ks q ms rs in
    let tc = lc ∙ ap (λ l. l ++ trace size client c) np in
    let ts = ls ∙ ap (λ l. l ++ trace size server s) nq in
    let (r, w) = received h size server s bc bc' (dc ∙ ap (delivered h) ts) in
    let (r', w') = received g size client c bs bs' (ds ∙ ap (delivered g) tc) in
    (c, s, ec, es, record { reads = r; wakes = w }, record { reads = r'; wakes = w' }, tc, ts)
