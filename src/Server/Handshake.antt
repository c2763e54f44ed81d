-- ===== src/Server/Handshake.antt =====
-- The handshake thread of include/shm_ipc/shm_server.hpp: `HandshakeWorker` as steps between two
-- sections under the mutex.
use shm_cpp.Common.{
  ℕ, zero, suc, ◌+◌, ◌*◌, ◌<◌, ◌≤◌, ◌≡◌, ◌⊎◌, inl, inr, refl, subst, ap, arith, true, Option, none,
  some, List, [], ◌∷◌, length, append_assoc, append-nil,
}
use shm_cpp.Server.{
  Server, Worker, gone, waiting, handshaking, notifying, take_pending, end_handshake, wake_loop,
  join, held,
}
use shm_cpp.Server.Inv.{busy}

-- `returns` is the return on an empty queue after the stop.
pub data WorkerStep (s : Server) : Server → Type 0 where
  takes :
      (fd : ℕ) (rest : List ℕ)
      → s.worker ≡ waiting
      → s.hs_pending ≡ fd ∷ rest
      → WorkerStep s (take_pending fd rest s)
  ends :
      (fd : ℕ) (done : Option ℕ)
      → s.worker ≡ handshaking
      → s.hs_current ≡ some fd
      → WorkerStep s (end_handshake fd done s)
  wakes_loop : s.worker ≡ notifying → WorkerStep s (wake_loop s)
  returns :
      s.worker ≡ waiting
      → s.hs_pending ≡ []
      → s.hs_stopping ≡ true
      → WorkerStep s (record s { worker = gone })

-- Steps of the thread alone.
pub data WorkerRun : Server → Server → Type 0 where
  halt : {s : Server} → WorkerRun s s
  goes : {s t u : Server} → WorkerStep s t → WorkerRun t u → WorkerRun s u

abbrev pub steps : {s t : Server} → WorkerRun s t → ℕ
steps halt = 0
steps (goes st r) = suc (steps r)

-- What the thread has still to do once it is asked to stop.
abbrev pub stage : Worker → ℕ
stage gone = 0
stage waiting = 1
stage handshaking = 2
stage notifying = 2

abbrev pub left : Server → ℕ
left s = 2 * length s.hs_pending + stage s.worker

abbrev pub forgotten : Worker → List ℕ → ℕ
forgotten gone p = length p
forgotten waiting p = 0
forgotten handshaking p = 0
forgotten notifying p = 0

-- The thread has been asked to stop.
pub record IsStopping (s : Server) : Type 0 where
  pub asked : s.hs_stopping ≡ true
  pub working : held s.hs_current ≡ busy s.worker
  pub served : forgotten s.worker s.hs_pending ≡ 0

-- After the stop an ended handshake is as good as a failed one.
end_handshake_late :
    (fd efd : ℕ) (s : Server)
    → s.hs_stopping ≡ true
    → end_handshake fd none s ≡ end_handshake fd (some efd) s
unfolding end_handshake
end_handshake_late fd efd s e = ground arith

step-IsStopping : {s t : Server} → IsStopping s → WorkerStep s t → IsStopping t
unfolding take_pending end_handshake wake_loop
step-IsStopping v (takes fd q w p) = record { asked = v.asked; working = refl; served = refl }
step-IsStopping v (ends fd none w c) = record { asked = v.asked; working = refl; served = refl }
step-IsStopping {s} v (ends fd (some efd) w c) =
    subst IsStopping (end_handshake_late fd efd s v.asked)
      record { asked = v.asked; working = refl; served = refl }
step-IsStopping v (wakes_loop w) = record {
  asked = v.asked;
  working = ground (arith, v.working);
  served = refl;
}
step-IsStopping v (returns w p st) = record {
  asked = v.asked;
  working = ground (arith, v.working);
  served = ap length p;
}

step-left : {s t : Server} → IsStopping s → WorkerStep s t → left t < left s
unfolding take_pending end_handshake wake_loop
step-left v (takes fd q w p) = rw (w, p) (omega arith)
step-left v (ends fd none w c) = rw w (omega arith)
step-left {s} v (ends fd (some efd) w c) =
    subst (λ t. left t < left s) (end_handshake_late fd efd s v.asked) (rw w (omega arith))
step-left v (wakes_loop w) = rw w (omega arith)
step-left v (returns w p st) = rw w (omega arith)

step-join : {s t : Server} → IsStopping s → WorkerStep s t → join t ≡ join s
unfolding take_pending end_handshake wake_loop join
step-join {s} v (takes fd q w p) = ground (arith, v.working)
step-join {s} v (ends fd none w c) = ground (arith, append_assoc s.released (fd ∷ []) s.hs_pending)
step-join {s} v (ends fd (some efd) w c) =
    subst (λ t. join t ≡ join s) (end_handshake_late fd efd s v.asked)
      (ground (arith, append_assoc s.released (fd ∷ []) s.hs_pending))
step-join {s} v (wakes_loop w) = ground arith
step-join {s} v (returns w p st) = ground arith

module _ (s : Server) (v : IsStopping s) where
  -- Until it is gone the thread can go on.
  progress :
      (w : Worker) (p : List ℕ) (c : Option ℕ)
      → s.worker ≡ w
      → s.hs_pending ≡ p
      → s.hs_current ≡ c
      → (s ≡ join s) ⊎ ((t : Server) × WorkerStep s t)
  unfolding join
  progress gone [] none e f g = inl (ground (arith, append-nil s.released))
  progress gone (fd ∷ p) c e f g = absurd (ground (arith, v.served))
  progress gone [] (some fd) e f g = absurd (ground (arith, v.working))
  progress waiting [] c e f g = inr (_, returns e f v.asked)
  progress waiting (fd ∷ p) c e f g = inr (_, takes fd p e f)
  progress handshaking p none e f g = absurd (ground (arith, v.working))
  progress handshaking p (some fd) e f g = inr (_, ends fd none e g)
  progress notifying p c e f g = inr (_, wakes_loop e)

ends_at-join : (n : ℕ) (s : Server) → IsStopping s → left s < n → WorkerRun s (join s)
ends_at-join zero s v h = absurd (omega arith)
ends_at-join (suc n) s v h = elim (progress s v s.worker s.hs_pending s.hs_current refl refl refl) [
  | inl e ↦ subst (WorkerRun s) e halt
  | inr (t, st) ↦ goes st (
      rw (step-join v st) at
        (ends_at-join n t (step-IsStopping v st) (omega (arith, step-left v st))))
]

-- Once the thread is asked to stop, it is gone after at most `left` steps, whatever comes of the
-- handshakes, and however far it is, what it leaves behind is `join` of where it was asked.
pub run-join :
    {s t : Server} → IsStopping s → (r : WorkerRun s t) → (steps r ≤ left s) × WorkerRun t (join s)
run-join {s} v halt = (omega arith, ends_at-join (suc (left s)) s v (omega arith))
run-join v (goes st r) =
    let (few, on) = run-join (step-IsStopping v st) r in
    (omega (arith, step-left v st), rw (step-join v st) at on)
