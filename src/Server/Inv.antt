-- ===== src/Server/Inv.antt =====
-- The invariant of `ShmServer` (include/shm_ipc/shm_server.hpp).
use shm_cpp.Common.{
  ℕ, ◌+◌, ◌≤◌, ◌≡◌, Bool, true, false, not, ◌&&◌, List, length, ltb, if◌then◌else◌,
}
use shm_cpp.Server.{
  Server, HandshakeDone, Worker, gone, waiting, handshaking, notifying, Callbacks, is_closeed, held,
  fds, sockfds,
}
use shm_cpp.Server.Ledger.{count, sockets, openings, closings}

abbrev pub busy : Worker → ℕ
busy gone = 0
busy waiting = 0
busy handshaking = 1
busy notifying = 0

-- The wake-up that the handshake thread has still to write.
abbrev pub owes : Worker → ℕ
owes gone = 0
owes waiting = 0
owes handshaking = 0
owes notifying = 1

abbrev pub is_gone : Worker → Bool
is_gone gone = true
is_gone waiting = false
is_gone handshaking = false
is_gone notifying = false

-- The clients that are connected or on the way, with those that the event loop holds in `ready`.
abbrev pub clients : List HandshakeDone → Server → ℕ
clients ready s =
    length s.conns + (length s.hs_pending + length s.hs_done + held s.hs_current + length ready)

-- The places in which a socket may be.
abbrev pub places : ℕ → List HandshakeDone → Server → ℕ
places fd ready s =
    count fd s.hs_pending
    + (count fd (fds s.hs_current)
        + (count fd (sockfds s.hs_done)
            + (count fd (sockfds ready) + (count fd (sockets s.conns) + count fd s.released))))

-- `ready` are the ended handshakes that the event loop has taken out of the queue.
pub record Inv (lim : ℕ) (ready : List HandshakeDone) (s : Server) : Type 0 where
  pub limit : s.max_clients ≤ lim
  pub bound : clients ready s ≤ lim
  pub ledger : (fd : ℕ) → count fd s.accepted ≡ places fd ready s
  pub woken : (if s.draining then 0 else length s.hs_done) ≤ s.wakes + owes s.worker
  pub working : held s.hs_current ≡ busy s.worker
  pub running : is_gone s.worker ≡ not s.started
  pub asked : (s.started && s.hs_stopping) ≡ false
  pub quiet : (if s.started then 0 else length s.hs_done + length s.hs_pending) ≡ 0
  pub calls :
      (id : ℕ) → closings id s.log + (if is_closeed (s.states id) then 0 else 1) ≡ openings id s.log
  pub once : (id : ℕ) → openings id s.log ≤ (if ltb id s.next_id then 1 else 0)

-- Callbacks keep the invariant if they use the server through its operations only.
pub record Keeps (lim : ℕ) (cb : Callbacks) : Type 0 where
  pub verify_connection :
      (id : ℕ) (ready : List HandshakeDone) (s : Server)
      → Inv lim ready s
      → Inv lim ready (cb.verify_connection id s)
  pub close :
      (id : ℕ) (ready : List HandshakeDone) (s : Server)
      → Inv lim ready s
      → Inv lim ready (cb.close id s)
  pub drain_ring :
      (id : ℕ) (ready : List HandshakeDone) (s : Server)
      → Inv lim ready s
      → Inv lim ready (cb.drain_ring id s).1

pub branch-Inv :
    {lim : ℕ} {ready : List HandshakeDone} (b : Bool) {s t : Server}
    → Inv lim ready s
    → Inv lim ready t
    → Inv lim ready (if b then s else t)
branch-Inv true v w = v
branch-Inv false v w = w
