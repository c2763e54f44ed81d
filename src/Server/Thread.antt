-- ===== src/Server/Thread.antt =====
-- `OnAccept` and the steps of the handshake thread of include/shm_ipc/shm_server.hpp keep the invariant.
use shm_cpp.Common.{
  ℕ, ◌+◌, ◌≤◌, ◌≡◌, refl, arith, Bool-cases, Bool, true, not, Option, none, some, inl, inr, List,
  [], ◌∷◌, length, length-append, leb, ◌==◌, ◌||◌,
}
use shm_cpp.Server.{
  Server, HandshakeDone, handshaking, on_accept, take_pending, end_handshake, wake_loop, held, fds,
}
use shm_cpp.Server.Ledger.{count-append, count-sockfds-append}
use shm_cpp.Server.Inv.{Inv, branch-Inv}
use shm_cpp.Server.Handshake.{WorkerStep, takes, ends, wakes_loop, returns}

pub on_accept-Inv :
    {lim : ℕ} (cfd : Option ℕ) (s : Server)
    → s.started ≡ true
    → Inv lim [] s
    → Inv lim [] (on_accept cfd s)
unfolding on_accept
on_accept-Inv cfd s up v = elim (Bool-cases full) [
  | inl e ↦ rw e record {
    limit = v.limit;
    bound = v.bound;
    ledger = λ x. omega (
      arith,
      v.ledger x,
      count-append x s.accepted (fds cfd),
      count-append x s.released (fds cfd),
    );
    woken = v.woken;
    working = v.working;
    running = v.running;
    asked = v.asked;
    quiet = v.quiet;
    calls = v.calls;
    once = v.once;
  }
  | inr e ↦ rw e record {
    limit = v.limit;
    bound = ground (arith, v.bound, v.limit, e, length-append s.hs_pending (fds cfd), one cfd);
    ledger = λ x. omega (
      arith,
      v.ledger x,
      count-append x s.accepted (fds cfd),
      count-append x s.hs_pending (fds cfd),
    );
    woken = v.woken;
    working = v.working;
    running = v.running;
    asked = v.asked;
    quiet = ground arith;
    calls = v.calls;
    once = v.once;
  }
]
  where
    full : Bool
    full =
        s.max_clients == 0
        || leb s.max_clients
            (length s.conns + (length s.hs_pending + length s.hs_done + held s.hs_current))

    one : (c : Option ℕ) → length (fds c) ≤ 1
    one none = omega arith
    one (some fd) = omega arith

module _ {lim : ℕ} {ready : List HandshakeDone} where
  -- The handshake failed, or the thread has been asked to stop.
  lose-Inv :
      (fd : ℕ) (s : Server)
      → s.worker ≡ handshaking
      → s.hs_current ≡ some fd
      → Inv lim ready s
      → Inv lim ready (end_handshake fd none s)
  unfolding end_handshake
  lose-Inv fd s w c v = record {
    limit = v.limit;
    bound = ground (arith, v.bound);
    ledger = λ x. ground (arith, v.ledger x, count-append x s.released (fd ∷ []));
    woken = ground (arith, v.woken);
    working = refl;
    running = ground (arith, v.running);
    asked = v.asked;
    quiet = v.quiet;
    calls = v.calls;
    once = v.once;
  }

  end_handshake-Inv :
      (fd : ℕ) (done : Option ℕ) (s : Server)
      → s.worker ≡ handshaking
      → s.hs_current ≡ some fd
      → Inv lim ready s
      → Inv lim ready (end_handshake fd done s)
  unfolding end_handshake
  end_handshake-Inv fd none s w c v = lose-Inv fd s w c v
  end_handshake-Inv fd (some efd) s w c v =
      branch-Inv (not s.hs_stopping)
        record {
          limit = v.limit;
          bound = ground (
            arith,
            v.bound,
            length-append s.hs_done (record { sockfd = fd; notify_fd = efd } ∷ []),
          );
          ledger = λ x. ground (
            arith,
            v.ledger x,
            count-sockfds-append x s.hs_done (record { sockfd = fd; notify_fd = efd } ∷ []),
          );
          woken = ground (
            arith,
            v.woken,
            length-append s.hs_done (record { sockfd = fd; notify_fd = efd } ∷ []),
          );
          working = refl;
          running = ground (arith, v.running);
          asked = v.asked;
          quiet = ground (arith, v.running);
          calls = v.calls;
          once = v.once;
        }
        (lose-Inv fd s w c v)

  pub worker-Inv : {s t : Server} → WorkerStep s t → Inv lim ready s → Inv lim ready t
  unfolding take_pending wake_loop
  worker-Inv {s} (takes fd q w p) v = record {
    limit = v.limit;
    bound = ground (arith, v.bound, v.working);
    ledger = λ x. ground (arith, v.ledger x, v.working);
    woken = ground (arith, v.woken);
    working = refl;
    running = ground (arith, v.running);
    asked = v.asked;
    quiet = ground (arith, v.running);
    calls = v.calls;
    once = v.once;
  }
  worker-Inv {s} (ends fd done w c) v = end_handshake-Inv fd done s w c v
  worker-Inv {s} (wakes_loop w) v = record {
    limit = v.limit;
    bound = v.bound;
    ledger = v.ledger;
    woken = ground (arith, v.woken);
    working = ground (arith, v.working);
    running = ground (arith, v.running);
    asked = v.asked;
    quiet = v.quiet;
    calls = v.calls;
    once = v.once;
  }
  worker-Inv {s} (returns w p st) v = absurd (ground (arith, v.running, v.asked))
