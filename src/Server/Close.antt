-- ===== src/Server/Close.antt =====
-- Ending connections in include/shm_ipc/shm_server.hpp keeps the invariant.
use shm_cpp.Common.{
  ℕ, ◌≡◌, refl, arith, Bool-cases, Option-cases, Bool, true, false, inl, inr, List, [], ◌∷◌, ◌&&◌,
  ◌||◌,
}
use shm_cpp.Connection.{State, verifing, established, closeing, closeed, is_open}
use shm_cpp.Server.{
  Server, Member, HandshakeDone, Callbacks, closed, is_closeed, is_closeing, find_conn, erased,
  on_close, remove_conn, remove_each, close_state, close_conn, on_conn_notify, on_conn_socket,
  after_drain,
}
use shm_cpp.Server.Ledger.{
  count-append, count-erase, length-erase, openings-append, closings-append,
}
use shm_cpp.Server.Inv.{Inv, Keeps}

open_not_closeed : (st : State) → is_open st ≡ true → is_closeed st ≡ false
unfolding is_open
open_not_closeed verifing h = refl
open_not_closeed established h = refl
open_not_closeed closeing h = refl
open_not_closeed closeed h = cc

module _ {lim : ℕ} {cb : Callbacks} (k : Keeps lim cb) where
  pub on_close-Inv :
      (id : ℕ) (ready : List HandshakeDone) (s : Server)
      → Inv lim ready s
      → Inv lim ready (on_close cb id s)
  unfolding on_close
  on_close-Inv id ready s v = elim (Bool-cases (is_closeed (s.states id))) [
    | inl e ↦ rw e v
    | inr e ↦ rw e (
        k.close id ready _ record {
          limit = v.limit;
          bound = v.bound;
          ledger = v.ledger;
          woken = v.woken;
          working = v.working;
          running = v.running;
          asked = v.asked;
          quiet = v.quiet;
          calls = λ i. ground (
            arith,
            v.calls i,
            e,
            closings-append i s.log (closed id ∷ []),
            openings-append i s.log (closed id ∷ []),
          );
          once = λ i. ground (arith, v.once i, openings-append i s.log (closed id ∷ []));
        })
  ]

  pub remove_conn-Inv :
      (m : Member) (ready : List HandshakeDone) (s : Server)
      → Inv lim ready s
      → Inv lim ready (remove_conn cb m s)
  unfolding remove_conn
  remove_conn-Inv m ready s v = on_close-Inv m.id ready _ record {
    limit = v.limit;
    bound = omega (arith, v.bound, length-erase m.id s.conns);
    ledger = λ fd. omega (
      arith,
      v.ledger fd,
      count-erase fd m.id s.conns,
      count-append fd s.released (erased m.id s.conns),
    );
    woken = v.woken;
    working = v.working;
    running = v.running;
    asked = v.asked;
    quiet = v.quiet;
    calls = v.calls;
    once = v.once;
  }

  pub remove_each-Inv :
      (ms : List Member) (ready : List HandshakeDone) (s : Server)
      → Inv lim ready s
      → Inv lim ready (remove_each cb ms s)
  unfolding remove_each
  remove_each-Inv [] ready s v = v
  remove_each-Inv (m ∷ ms) ready s v = remove_each-Inv ms ready _ (remove_conn-Inv m ready s v)

  close_state-Inv :
      (id : ℕ) (ready : List HandshakeDone) (s : Server)
      → Inv lim ready s
      → Inv lim ready (close_state id s)
  unfolding close_state
  close_state-Inv id ready s v = elim (Bool-cases (is_open (s.states id))) [
    | inr e ↦ rw e v
    | inl e ↦ rw e record {
      limit = v.limit;
      bound = v.bound;
      ledger = v.ledger;
      woken = v.woken;
      working = v.working;
      running = v.running;
      asked = v.asked;
      quiet = v.quiet;
      calls = λ i. ground (arith, v.calls i, open_not_closeed (s.states id) e);
      once = v.once;
    }
  ]

  pub close_conn-Inv :
      (id : ℕ) (ready : List HandshakeDone) (s : Server)
      → Inv lim ready s
      → Inv lim ready (close_conn cb id s)
  unfolding close_conn
  close_conn-Inv id ready s v = elim (Option-cases (find_conn id s.conns)) [
    | inl e ↦ rw e v
    | inr (m, e) ↦ rw e (remove_conn-Inv m ready _ (close_state-Inv id ready s v))
  ]

  pub on_conn_notify-Inv :
      (id : ℕ) (ready : List HandshakeDone) (s : Server)
      → Inv lim ready s
      → Inv lim ready (on_conn_notify cb id s)
  unfolding on_conn_notify after_drain
  on_conn_notify-Inv id ready s v = elim (Option-cases (find_conn id s.conns)) [
    | inl e ↦ rw e v
    | inr (m, e) ↦ rw e (removed m)
  ]
    where
      removed : (m : Member) → Inv lim ready (after_drain cb m (cb.drain_ring m.id s))
      removed m =
          let d = cb.drain_ring m.id s in
          let kept = k.drain_ring m.id ready s v in
          elim (Bool-cases (d.0 || is_closeing (d.1.states m.id))) [
            | inl e ↦ rw e (remove_conn-Inv m ready d.1 kept)
            | inr e ↦ rw e kept
          ]

  pub on_conn_socket-Inv :
      (polled eof : Bool) (id : ℕ) (ready : List HandshakeDone) (s : Server)
      → Inv lim ready s
      → Inv lim ready (on_conn_socket cb polled eof id s)
  unfolding on_conn_socket
  on_conn_socket-Inv polled eof id ready s v = elim (Option-cases (find_conn id s.conns)) [
    | inl e ↦ rw e v
    | inr (m, e) ↦ rw e (elim (Bool-cases (polled && eof)) [
      | inl gone ↦ rw gone (remove_conn-Inv m ready _ (k.drain_ring m.id ready s v))
      | inr there ↦ rw there v
    ])
  ]
