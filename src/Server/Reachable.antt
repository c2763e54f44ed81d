-- ===== src/Server/Reachable.antt =====
-- `ShmServer` of include/shm_ipc/shm_server.hpp as a system of two threads: the event loop runs one
-- handler at a time, and the handshake thread goes on between any two of them.
use shm_cpp.Common.{
  ℕ, ◌≤◌, ◌<◌, ◌≡◌, ◌⊎◌, inl, inr, refl, arith, Bool, true, false, Option, none, [], length,
  if◌then◌else◌,
}
use shm_cpp.Loop.{EventLoop}
use shm_cpp.Connection.{closeed}
use shm_cpp.Server.{
  Server, Callbacks, Listened, Worker, gone, waiting, handshaking, notifying, set_max_clients,
  on_accept, drain_wakes, finish_ready, close_conn, on_conn_notify, on_conn_socket, start, stop,
  is_closeed,
}
use shm_cpp.Server.Ledger.{count, openings, closings}
use shm_cpp.Server.Inv.{Inv, Keeps, clients, places}
use shm_cpp.Server.Close.{close_conn-Inv, on_conn_notify-Inv, on_conn_socket-Inv}
use shm_cpp.Server.Finish.{finish_ready-Inv}
use shm_cpp.Server.Thread.{on_accept-Inv, worker-Inv}
use shm_cpp.Server.Handshake.{WorkerStep}
use shm_cpp.Server.Stop.{stop-Inv, start-Inv}

-- A server that was never started.
abbrev pub new_server : EventLoop → Server
new_server loop = record {
  loop = loop;
  listen_fd = none;
  conns = [];
  next_id = 1;
  max_clients = 16;
  started = false;
  hs_pending = [];
  hs_done = [];
  hs_current = none;
  hs_wake_fd = none;
  wakes = 0;
  draining = false;
  worker = gone;
  hs_stopping = false;
  states = λ id. closeed;
  accepted = [];
  released = [];
  log = [];
}

-- The event loop calls handlers only of a server that is started, and ends one before the next; of
-- `OnHandshakeComplete` the two halves are steps of their own. `lim` bounds what `SetMaxClients` is
-- given.
pub data Step (lim : ℕ) (cb : Callbacks) (s : Server) : Server → Type 0 where
  works : {t : Server} → WorkerStep s t → Step lim cb s t
  accepts :
      (cfd : Option ℕ) → s.draining ≡ false → s.started ≡ true → Step lim cb s (on_accept cfd s)
  drains : s.draining ≡ false → s.started ≡ true → Step lim cb s (drain_wakes s)
  finishes : (codecs : ℕ → Bool) → s.draining ≡ true → Step lim cb s (finish_ready cb codecs s)
  notified : (id : ℕ) → s.draining ≡ false → Step lim cb s (on_conn_notify cb id s)
  polled :
      (ready eof : Bool) (id : ℕ)
      → s.draining ≡ false
      → Step lim cb s (on_conn_socket cb ready eof id s)
  closes : (id : ℕ) → s.draining ≡ false → Step lim cb s (close_conn cb id s)
  sets : (n : ℕ) → s.draining ≡ false → n ≤ lim → Step lim cb s (set_max_clients n s)
  starts : (l : Listened) → s.draining ≡ false → Step lim cb s (start l s).1
  stops : s.draining ≡ false → Step lim cb s (stop cb s)

pub data Reach (lim : ℕ) (cb : Callbacks) : Server → Type 0 where
  new : (loop : EventLoop) → Reach lim cb (new_server loop)
  next : {s t : Server} → Reach lim cb s → Step lim cb s t → Reach lim cb t

module _ {lim : ℕ} {cb : Callbacks} (k : Keeps lim cb) (default : 16 ≤ lim) where
  Step-Inv : {s t : Server} → Step lim cb s t → Inv lim [] s → Inv lim [] t
  unfolding drain_wakes set_max_clients
  Step-Inv (works w) v = worker-Inv w v
  Step-Inv {s} (accepts cfd _ up) v = on_accept-Inv cfd s up v
  Step-Inv {s} (drains _ up) v = record {
    limit = v.limit;
    bound = v.bound;
    ledger = v.ledger;
    woken = omega arith;
    working = v.working;
    running = v.running;
    asked = v.asked;
    quiet = v.quiet;
    calls = v.calls;
    once = v.once;
  }
  Step-Inv {s} (finishes codecs _) v = finish_ready-Inv k codecs s v
  Step-Inv {s} (notified id _) v = on_conn_notify-Inv k id [] s v
  Step-Inv {s} (polled ready eof id _) v = on_conn_socket-Inv k ready eof id [] s v
  Step-Inv {s} (closes id _) v = close_conn-Inv k id [] s v
  Step-Inv {s} (sets n _ h) v = record {
    limit = h;
    bound = v.bound;
    ledger = v.ledger;
    woken = v.woken;
    working = v.working;
    running = v.running;
    asked = v.asked;
    quiet = v.quiet;
    calls = v.calls;
    once = v.once;
  }
  Step-Inv {s} (starts l _) v = start-Inv l s v
  Step-Inv {s} (stops _) v = stop-Inv k s v

  pub Reach-Inv : {s : Server} → Reach lim cb s → Inv lim [] s
  Reach-Inv (new loop) = record {
    limit = default;
    bound = omega arith;
    ledger = λ fd. refl;
    woken = omega arith;
    working = refl;
    running = refl;
    asked = refl;
    quiet = refl;
    calls = λ id. refl;
    once = λ id. omega arith;
  }
  Reach-Inv (next r st) = Step-Inv st (Reach-Inv r)

  -- In every reachable state at most `lim` clients are connected or on the way.
  pub clients-bounded : {s : Server} → Reach lim cb s → clients [] s ≤ lim
  clients-bounded r = (Reach-Inv r).bound

  -- In every reachable state each accepted socket is in one place: it waits for its handshake, is in the
  -- handshake, waits for the event loop, belongs to a connection, or has been let go of.
  pub accepted-places :
      {s : Server} → Reach lim cb s → (fd : ℕ) → count fd s.accepted ≡ places fd [] s
  accepted-places r = (Reach-Inv r).ledger

  -- In every reachable state in which the event loop is not on its way to the ended handshakes and there
  -- is one, the eventfd is readable or the handshake thread is about to write to it.
  pub done-woken :
      {s : Server}
      → Reach lim cb s
      → s.draining ≡ false
      → 0 < length s.hs_done
      → (0 < s.wakes) ⊎ (s.worker ≡ notifying)
  done-woken {s} r e h = owed s.worker refl
    where
      v : Inv lim [] s
      v = Reach-Inv r

      owed : (w : Worker) → s.worker ≡ w → (0 < s.wakes) ⊎ (s.worker ≡ notifying)
      owed notifying f = inr f
      owed gone f = inl (ground (arith, v.woken))
      owed waiting f = inl (ground (arith, v.woken))
      owed handshaking f = inl (ground (arith, v.woken))

  -- In every reachable state a connection has been opened at most once, and closed once if it was opened
  -- and its state is `closeed`, and else not at all.
  pub opened-closed :
      {s : Server}
      → Reach lim cb s
      → (id : ℕ)
      → (openings id s.log ≤ 1)
        × (closings id s.log ≡ (if is_closeed (s.states id) then openings id s.log else 0))
  opened-closed r id =
      let v = Reach-Inv r in (ground (arith, v.once id), ground (arith, v.calls id, v.once id))
