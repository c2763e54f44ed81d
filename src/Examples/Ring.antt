-- ===== src/Examples/Ring.antt =====
-- The ring of 1024 bytes at concrete calls.
use shm_cpp.Common.{◌≡◌, arith, none, some, List, [], ◌∷◌}
use shm_cpp.Ring.{ok, err, init, peek, Segments}
use shm_cpp.Ring.Read.{peek-Sees, Sees}
use shm_cpp.Ring.Queue
use shm_cpp.Ring.Queue.{
  Call, write, read, exact, look, commit, count, room, Reply, code, bytes, exactly, seen, done,
  number,
}
use shm_cpp.Ring.Refine.{run, run-init}
use shm_cpp.Examples.{cap_1024, wrapped, wrapped-Holds}

abbrev calls : List Call
calls =
    write (some (1 ∷ 2 ∷ 3 ∷ 4 ∷ [])) 4
    ∷ write none 4
    ∷ exact 5
    ∷ look
    ∷ read 1
    ∷ commit 1
    ∷ count
    ∷ room
    ∷ exact 2
    ∷ look
    ∷ []

abbrev replies : List Reply
replies =
    code ok
    ∷ code err
    ∷ exactly err []
    ∷ seen (some (1 ∷ 2 ∷ 3 ∷ 4 ∷ []))
    ∷ bytes 1 (1 ∷ [])
    ∷ done
    ∷ number 2
    ∷ number 1022
    ∷ exactly ok (3 ∷ 4 ∷ [])
    ∷ seen none
    ∷ []

calls-AllAllowed : Queue.AllAllowed 1024 [] calls
unfolding Queue.step Queue.push
calls-AllAllowed = (
  (omega arith, omega arith),
  (
    omega arith,
    (omega arith, (tt, (omega arith, (omega arith, (tt, (tt, (omega arith, (tt, tt)))))))),
  ),
)

run-init_example : run 1024 (init 1024) calls ≡ replies
unfolding Queue.run
run-init_example = run-init cap_1024 calls calls-AllAllowed

peek-Sees_example : (s : Segments) × (peek 1024 wrapped ≡ some s) × Sees cap_1024 wrapped-Holds s
peek-Sees_example = peek-Sees cap_1024 wrapped-Holds (omega arith)
