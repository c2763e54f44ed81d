-- ===== src/Server/Stop.antt =====
-- `Start` and `Stop` of include/shm_ipc/shm_server.hpp: they keep the invariant, and `Stop` leaves no
-- client behind.
use shm_cpp.Common.{
  ℕ, ◌+◌, ◌≡◌, refl, ap, nil_of_length, sym, ◌∙◌, subst, arith, Bool-cases, true, false, Option,
  none, some, inl, inr, List, [], ◌∷◌, ◌++◌, length, ◌==◌, if◌then◌else◌,
}
use shm_cpp.Server.{
  Server, Member, HandshakeDone, Callbacks, Worker, gone, waiting, handshaking, notifying, Listened,
  no_listen, no_eventfd, no_thread, listening, start, listen_with, request_stop, join,
  drop_handshakes, remove_each, remove_conn, stop, held, fds, sockfds, on_close, is_closeed,
  find_conn, erase,
}
use shm_cpp.Server.Ledger.{sockets, count, count-append}
use shm_cpp.Server.Inv.{Inv, Keeps, branch-Inv, is_gone, busy}
use shm_cpp.Server.Close.{remove_each-Inv}

-- What `Stop` does before it ends the connections.
abbrev pub closed_down : Server → Server
closed_down s = drop_handshakes (join (request_stop s))

module _ {lim : ℕ} {ready : List HandshakeDone} where
  closed_down-Inv : (s : Server) → Inv lim ready s → Inv lim ready (closed_down s)
  unfolding request_stop join drop_handshakes
  closed_down-Inv s v = record {
    limit = v.limit;
    bound = omega (arith, v.bound);
    ledger = λ x. omega (
      arith,
      v.ledger x,
      count-append x s.released (fds s.hs_current ++ s.hs_pending),
      count-append x (fds s.hs_current) s.hs_pending,
      count-append x (s.released ++ (fds s.hs_current ++ s.hs_pending))
          ([] ++ (sockfds s.hs_done ++ [])),
      count-append x (sockfds s.hs_done) [],
    );
    woken = ground arith;
    working = refl;
    running = refl;
    asked = refl;
    quiet = refl;
    calls = v.calls;
    once = v.once;
  }

  pub stop-Inv :
      {cb : Callbacks} → Keeps lim cb → (s : Server) → Inv lim ready s → Inv lim ready (stop cb s)
  unfolding stop
  stop-Inv {cb} k s v =
      branch-Inv s.started
        (remove_each-Inv k (closed_down s).conns ready (closed_down s) (closed_down-Inv s v)) v

  listen_with-Inv :
      (l : Listened) (s : Server)
      → s.started ≡ false
      → Inv lim ready s
      → Inv lim ready (listen_with l s).1
  unfolding listen_with
  listen_with-Inv no_listen s e v = record {
    limit = v.limit;
    bound = v.bound;
    ledger = v.ledger;
    woken = v.woken;
    working = v.working;
    running = v.running;
    asked = v.asked;
    quiet = v.quiet;
    calls = v.calls;
    once = v.once;
  }
  listen_with-Inv no_eventfd s e v = record {
    limit = v.limit;
    bound = v.bound;
    ledger = v.ledger;
    woken = v.woken;
    working = v.working;
    running = v.running;
    asked = ground arith;
    quiet = v.quiet;
    calls = v.calls;
    once = v.once;
  }
  listen_with-Inv (no_thread efd) s e v = record {
    limit = v.limit;
    bound = v.bound;
    ledger = v.ledger;
    woken = ground (arith, v.quiet, e);
    working = v.working;
    running = v.running;
    asked = ground arith;
    quiet = v.quiet;
    calls = v.calls;
    once = v.once;
  }
  listen_with-Inv (listening lfd efd) s e v = record {
    limit = v.limit;
    bound = v.bound;
    ledger = v.ledger;
    woken = ground (arith, v.quiet, e);
    working = ground (arith, v.working, v.running, e);
    running = refl;
    asked = refl;
    quiet = refl;
    calls = v.calls;
    once = v.once;
  }

  pub start-Inv : (l : Listened) (s : Server) → Inv lim ready s → Inv lim ready (start l s).1
  unfolding start
  start-Inv l s v = elim (Bool-cases s.started) [
    | inl e ↦ subst (λ b. Inv lim ready (if b then (true, s) else listen_with l s).1) (sym e) v
    | inr e ↦
        subst (λ b. Inv lim ready (if b then (true, s) else listen_with l s).1) (sym e)
          (listen_with-Inv l s e v)
  ]

-- The close callback neither starts the server again nor makes connections.
pub record IsCalm (cb : Callbacks) : Type 0 where
  pub stays : (id : ℕ) (s : Server) → s.started ≡ false → (cb.close id s).started ≡ false
  pub shrinks :
      (id i : ℕ) (s : Server)
      → find_conn i s.conns ≡ none
      → find_conn i (cb.close id s).conns ≡ none

find_conn-erase :
    (i id : ℕ) (ms : List Member)
    → find_conn i (erase id ms) ≡ (if i == id then none else find_conn i ms)
unfolding find_conn erase
find_conn-erase i id [] = ground arith
find_conn-erase i id (m ∷ ms) = ground (arith, find_conn-erase i id ms)

nil_of_find_conn : (ms : List Member) → ((i : ℕ) → find_conn i ms ≡ none) → ms ≡ []
unfolding find_conn
nil_of_find_conn [] h = refl
nil_of_find_conn (m ∷ ms) h = absurd (ground (arith, h m.id))

down : (s : Server) → (closed_down s).started ≡ false
unfolding request_stop join drop_handshakes
down s = refl

module _ {cb : Callbacks} (calm : IsCalm cb) where
  remove_conn-calm :
      (m : Member) (s : Server)
      → s.started ≡ false
      → ((remove_conn cb m s).started ≡ false)
        × ((i : ℕ)
            → (if i == m.id then none else find_conn i s.conns) ≡ none
            → find_conn i (remove_conn cb m s).conns ≡ none)
  unfolding remove_conn on_close
  remove_conn-calm m s e = elim (Bool-cases (is_closeed (s.states m.id))) [
    | inl c ↦ rw c (e, λ i h. find_conn-erase i m.id s.conns ∙ h)
    | inr c ↦
        rw c
          (calm.stays m.id _ e, λ i h. calm.shrinks m.id i _ (find_conn-erase i m.id s.conns ∙ h))
  ]

  remove_each-calm :
      (ms : List Member) (s : Server)
      → s.started ≡ false
      → ((i : ℕ) → find_conn i ms ≡ none → find_conn i s.conns ≡ none)
      → ((remove_each cb ms s).started ≡ false)
        × ((i : ℕ) → find_conn i (remove_each cb ms s).conns ≡ none)
  unfolding remove_each find_conn
  remove_each-calm [] s e h = (e, λ i. h i refl)
  remove_each-calm (m ∷ ms) s e h =
      let (e', less) = remove_conn-calm m s e in
      remove_each-calm ms (remove_conn cb m s) e' (λ i g. less i (ground (arith, h i, g)))

stop-calm :
    {cb : Callbacks}
    → IsCalm cb
    → (s : Server) → s.started ≡ true
    → ((stop cb s).started ≡ false) × ((i : ℕ) → find_conn i (stop cb s).conns ≡ none)
unfolding stop
stop-calm {cb} calm s up =
    subst
      (λ b.
        ((if b then remove_each cb t.conns t else s).started ≡ false)
        × ((i : ℕ) → find_conn i (if b then remove_each cb t.conns t else s).conns ≡ none))
      (sym up) (remove_each-calm calm t.conns t (down s) (λ i h. h))
  where
    t : Server
    t = closed_down s

gone_of : (w : Worker) → is_gone w ≡ true → w ≡ gone
gone_of gone e = refl
gone_of waiting e = cc
gone_of handshaking e = cc
gone_of notifying e = cc

held_none : (o : Option ℕ) → held o ≡ 0 → o ≡ none
held_none none e = refl
held_none (some fd) e = absurd (omega arith)

-- A server that is not started and has no connections holds no socket.
at_rest :
    {lim : ℕ} (t : Server)
    → Inv lim [] t
    → t.started ≡ false
    → t.conns ≡ []
    → (t.worker ≡ gone) × ((fd : ℕ) → count fd t.released ≡ count fd t.accepted)
at_rest t v down none_left = (
  no_thread,
  λ fd. omega (
    arith,
    v.ledger fd,
    ap (count fd) no_pending,
    ap (λ c. count fd (fds c)) no_current,
    ap (λ d. count fd (sockfds d)) no_done,
    ap (λ c. count fd (sockets c)) none_left,
  ),
)
  where
    no_thread : t.worker ≡ gone
    no_thread = gone_of t.worker (ground (arith, v.running))

    no_current : t.hs_current ≡ none
    no_current = held_none t.hs_current (v.working ∙ ap busy no_thread)

    quiet : length t.hs_done + length t.hs_pending ≡ 0
    quiet = ground (arith, v.quiet)

    no_pending : t.hs_pending ≡ []
    no_pending = nil_of_length t.hs_pending (omega (arith, quiet))

    no_done : t.hs_done ≡ []
    no_done = nil_of_length t.hs_done (omega (arith, quiet))

-- Where the server is started, in a state that satisfies the server's invariant, and the callbacks keep the
-- invariant and the close callback neither starts the server again nor makes connections: `Stop` leaves no connection and no thread behind, and
-- every socket that was ever accepted has been let go of, each once, whatever clients were connected or
-- on the way.
pub stop-releases :
    {lim : ℕ} {cb : Callbacks}
    → Keeps lim cb
    → IsCalm cb
    → (s : Server) → Inv lim [] s
    → s.started ≡ true
    → ((stop cb s).conns ≡ [])
      × ((stop cb s).worker ≡ gone)
      × ((fd : ℕ) → count fd (stop cb s).released ≡ count fd (stop cb s).accepted)
stop-releases k calm s v up =
    let (down, absent) = stop-calm calm s up in
    let none_left = nil_of_find_conn (stop _ s).conns absent in
    let (thread, all) = at_rest (stop _ s) (stop-Inv k s v) down none_left in
    (none_left, thread, all)
