-- ===== src/Server/Finish.antt =====
-- `OnHandshakeComplete` and `FinishAccept` of include/shm_ipc/shm_server.hpp keep the invariant.
use shm_cpp.Common.{
  ℕ, ◌<◌, ◌≡◌, arith, Bool-cases, Bool, inl, inr, List, [], ◌∷◌, ◌++◌, length, leb,
}
use shm_cpp.Server.{
  Server, HandshakeDone, Callbacks, opened, sockfds, erased, on_connection, enter, finish_accept,
  finish_each, finish_ready,
}
use shm_cpp.Server.Ledger.{
  count-append, count-erase, length-erase, openings, openings-append, closings-append,
}
use shm_cpp.Server.Inv.{Inv, Keeps, branch-Inv}

-- A connection whose object is new: nothing has happened to it.
record Fresh (id : ℕ) (s : Server) : Type 0 where
  pub never_opened : openings id s.log ≡ 0
  pub numbered : id < s.next_id

module _ {lim : ℕ} {cb : Callbacks} (k : Keeps lim cb) where
  on_connection-Inv :
      (id : ℕ) (ready : List HandshakeDone) (s : Server)
      → Inv lim ready s
      → Fresh id s
      → Inv lim ready (on_connection cb id s)
  unfolding on_connection
  on_connection-Inv id ready s v f = k.verify_connection id ready _ record {
    limit = v.limit;
    bound = v.bound;
    ledger = v.ledger;
    woken = v.woken;
    working = v.working;
    running = v.running;
    asked = v.asked;
    quiet = v.quiet;
    calls = λ i. ground (
      arith,
      v.calls i,
      v.calls id,
      f.never_opened,
      openings-append i s.log (opened id ∷ []),
      closings-append i s.log (opened id ∷ []),
    );
    once = λ i.
        ground
          (arith, v.once i, f.never_opened, f.numbered, openings-append i s.log (opened id ∷ []));
  }

  drop_socket-Inv :
      (d : HandshakeDone) (ready : List HandshakeDone) (s : Server)
      → Inv lim (d ∷ ready) s
      → Inv lim ready (record s { released = s.released ++ (d.sockfd ∷ []) })
  drop_socket-Inv d ready s v = record {
    limit = v.limit;
    bound = omega (arith, v.bound);
    ledger = λ fd. omega (arith, v.ledger fd, count-append fd s.released (d.sockfd ∷ []));
    woken = v.woken;
    working = v.working;
    running = v.running;
    asked = v.asked;
    quiet = v.quiet;
    calls = v.calls;
    once = v.once;
  }

  enter-Inv :
      (d : HandshakeDone) (ready : List HandshakeDone) (s : Server)
      → Inv lim (d ∷ ready) s
      → Inv lim ready (enter d s)
  unfolding enter
  enter-Inv d ready s v = record {
    limit = v.limit;
    bound = omega (arith, v.bound, length-erase s.next_id s.conns);
    ledger = λ fd. omega (
      arith,
      v.ledger fd,
      count-erase fd s.next_id s.conns,
      count-append fd s.released (erased s.next_id s.conns),
    );
    woken = v.woken;
    working = v.working;
    running = v.running;
    asked = v.asked;
    quiet = v.quiet;
    calls = v.calls;
    once = λ i. ground (arith, v.once i);
  }

  enter-Fresh :
      (d : HandshakeDone) (ready : List HandshakeDone) (s : Server)
      → Inv lim ready s
      → Fresh s.next_id (enter d s)
  unfolding enter
  enter-Fresh d ready s v = record {
    never_opened = ground (arith, v.once s.next_id);
    numbered = omega arith;
  }

  finish_accept-Inv :
      (codec : Bool) (d : HandshakeDone) (ready : List HandshakeDone) (s : Server)
      → Inv lim (d ∷ ready) s
      → Inv lim ready (finish_accept cb codec d s)
  unfolding finish_accept
  finish_accept-Inv codec d ready s v = elim (Bool-cases (leb s.max_clients (length s.conns))) [
    | inl full ↦ rw full (drop_socket-Inv d ready s v)
    | inr room ↦ rw room (elim (Bool-cases codec) [
      | inr refused ↦ rw refused (drop_socket-Inv d ready s v)
      | inl given ↦ rw given (
          on_connection-Inv s.next_id ready _ (enter-Inv d ready s v)
            (enter-Fresh d (d ∷ ready) s v))
    ])
  ]

  finish_each-Inv :
      (codecs : ℕ → Bool) (ready : List HandshakeDone) (s : Server)
      → Inv lim ready s
      → Inv lim [] (finish_each cb codecs ready s)
  unfolding finish_each
  finish_each-Inv codecs [] s v = v
  finish_each-Inv codecs (d ∷ ready) s v =
      branch-Inv s.started
        (finish_each-Inv codecs ready _ (finish_accept-Inv (codecs d.sockfd) d ready s v))
        record {
          limit = v.limit;
          bound = omega (arith, v.bound);
          ledger =
              λ fd. omega (arith, v.ledger fd, count-append fd s.released (sockfds (d ∷ ready)));
          woken = v.woken;
          working = v.working;
          running = v.running;
          asked = v.asked;
          quiet = v.quiet;
          calls = v.calls;
          once = v.once;
        }

  pub finish_ready-Inv :
      (codecs : ℕ → Bool) (s : Server) → Inv lim [] s → Inv lim [] (finish_ready cb codecs s)
  unfolding finish_ready
  finish_ready-Inv codecs s v = finish_each-Inv codecs s.hs_done _ record {
    limit = v.limit;
    bound = omega (arith, v.bound);
    ledger = λ fd. omega (arith, v.ledger fd);
    woken = omega arith;
    working = v.working;
    running = v.running;
    asked = v.asked;
    quiet = ground (arith, v.quiet);
    calls = v.calls;
    once = v.once;
  }
