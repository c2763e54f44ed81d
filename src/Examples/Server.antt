-- ===== src/Examples/Server.antt =====
-- A server that is started, gets a client, and is stopped.
use shm_cpp.Common.{ℕ, ◌≤◌, ◌<◌, ◌≡◌, ◌⊎◌, refl, arith, true, false, some, [], ◌∷◌, if◌then◌else◌}
use shm_cpp.Loop.{EventLoop}
use shm_cpp.Server.{
  Server, Callbacks, listening, gone, notifying, start, listen_with, on_accept, take_pending,
  end_handshake, wake_loop, drain_wakes, finish_ready, stop, close_conn, request_stop, join,
  is_closeed,
}
use shm_cpp.Server.Ledger.{count, openings, closings}
use shm_cpp.Server.Inv.{Keeps, clients, places}
use shm_cpp.Server.Close.{close_conn-Inv}
use shm_cpp.Server.Handshake.{
  WorkerRun, halt, goes, takes, ends, wakes_loop, IsStopping, run-join, steps, left,
}
use shm_cpp.Server.Reachable.{
  new_server, Reach, new, next, works, accepts, drains, finishes, starts, clients-bounded,
  accepted-places, done-woken, opened-closed, Reach-Inv,
}
use shm_cpp.Server.Stop.{IsCalm, stop-releases}

-- Callbacks that do nothing.
abbrev plain : Callbacks
plain = record {
  verifies = false;
  verify_connection = λ id s. s;
  close = λ id s. s;
  drain_ring = λ id s. (false, s);
}

plain-Keeps : Keeps 16 plain
plain-Keeps = record {
  verify_connection = λ id ready s v. v;
  close = λ id ready s v. v;
  drain_ring = λ id ready s v. v;
}

-- A verify callback that closes the first connection, and messages that close their connection.
abbrev users : Callbacks
users = record {
  verifies = true;
  verify_connection = λ id s. close_conn plain 1 s;
  close = λ id s. s;
  drain_ring = λ id s. (true, close_conn plain id s);
}

users-Keeps : Keeps 16 users
users-Keeps = record {
  verify_connection = λ id ready s v. close_conn-Inv plain-Keeps 1 ready s v;
  close = λ id ready s v. v;
  drain_ring = λ id ready s v. close_conn-Inv plain-Keeps id ready s v;
}

users-IsCalm : IsCalm users
users-IsCalm = record { stays = λ id s e. e; shrinks = λ id i s e. e }

abbrev empty_loop : EventLoop
empty_loop = record { entries = []; owned_timerfds = []; running = true }

abbrev up : Server
up = (start (listening 3 4) (new_server empty_loop)).1

abbrev asked_for : Server
asked_for = on_accept (some 6) (on_accept (some 5) up)

abbrev shaken : Server
shaken = end_handshake 5 (some 7) (take_pending 5 (6 ∷ []) asked_for)

shaken-Reach : Reach 16 users shaken
unfolding start listen_with on_accept take_pending end_handshake
shaken-Reach =
    next
      (next
        (next
          (next (next (new empty_loop) (starts (listening 3 4) refl)) (accepts (some 5) refl refl))
          (accepts (some 6) refl refl))
        (works (takes 5 (6 ∷ []) refl refl)))
      (works (ends 5 (some 7) refl refl))

abbrev joined : Server
joined = finish_ready users (λ fd. true) (drain_wakes (wake_loop shaken))

joined-Reach : Reach 16 users joined
unfolding start listen_with on_accept take_pending end_handshake wake_loop drain_wakes
joined-Reach =
    next (next (next shaken-Reach (works (wakes_loop refl))) (drains refl refl))
      (finishes (λ fd. true) refl)

clients-bounded_example : clients [] joined ≤ 16
clients-bounded_example = clients-bounded users-Keeps (omega arith) joined-Reach

accepted-places_example : count 5 joined.accepted ≡ places 5 [] joined
accepted-places_example = accepted-places users-Keeps (omega arith) joined-Reach 5

done-woken_example : (0 < shaken.wakes) ⊎ (shaken.worker ≡ notifying)
unfolding start listen_with on_accept take_pending end_handshake
done-woken_example = done-woken users-Keeps (omega arith) shaken-Reach refl (omega arith)

opened-closed_example :
    (openings 1 joined.log ≤ 1)
    × (closings 1 joined.log ≡ (if is_closeed (joined.states 1) then openings 1 joined.log else 0))
opened-closed_example = opened-closed users-Keeps (omega arith) joined-Reach 1

stop-releases_example :
    ((stop users shaken).conns ≡ [])
    × ((stop users shaken).worker ≡ gone)
    × ((fd : ℕ) → count fd (stop users shaken).released ≡ count fd (stop users shaken).accepted)
unfolding start listen_with on_accept take_pending end_handshake
stop-releases_example =
    stop-releases users-Keeps users-IsCalm shaken (Reach-Inv users-Keeps (omega arith) shaken-Reach)
      refl

-- Asked to stop while it shakes hands with the first client.
abbrev stopping : Server
stopping = request_stop (take_pending 5 (6 ∷ []) asked_for)

stopping-IsStopping : IsStopping stopping
unfolding start listen_with on_accept take_pending request_stop
stopping-IsStopping = record { asked = refl; working = refl; served = refl }

abbrev lost : Server
lost = end_handshake 5 (some 7) stopping

first_step : WorkerRun stopping lost
unfolding start listen_with on_accept take_pending request_stop
first_step = goes (ends 5 (some 7) refl refl) halt

run-join_example : (steps first_step ≤ left stopping) × WorkerRun lost (join stopping)
run-join_example = run-join stopping-IsStopping first_step
