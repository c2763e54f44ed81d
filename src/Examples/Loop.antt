-- ===== src/Examples/Loop.antt =====
-- A round in which one callback removes a descriptor and registers its number again.
use shm_cpp.Common.{ℕ, zero, suc, ◌≡◌, refl, true, false, some, [], ◌∷◌}
use shm_cpp.Codec.{returned, threw}
use shm_cpp.Loop.{
  user, one_shot, Entry, EventLoop, live_cb, act_all, act, kill, add_fd, remove_fd, removes_fd,
  adds_fd, Calls, invoke, slots_from, entry_at, dispatch, round,
}
use shm_cpp.Loop.Dead.{Absent, dead_at, dispatch-Absent}
use shm_cpp.Loop.Round.{Ascends, round-Ascends}

abbrev entry : ℕ → ℕ → Entry
entry fd id = record { fd = fd; events = 1; dead = false; cb = some (user id) }

abbrev loop : EventLoop
loop = record {
  entries =
      entry 5 1
      ∷ entry 6 2
      ∷ record { fd = 9; events = 1; dead = false; cb = some (one_shot 9 4) }
      ∷ [];
  owned_timerfds = 9 ∷ [];
  running = true;
}

-- Callback 1 takes descriptor 6 over, and callback 4 throws.
abbrev behaviour : Calls ℕ
behaviour zero fd revents w = ([], returned, suc w)
behaviour (suc zero) fd revents w = (removes_fd 6 ∷ adds_fd 6 3 1 ∷ [], returned, suc w)
behaviour (suc (suc n)) fd revents w = ([], threw, suc w)

round_run : (round behaviour (λ _. 1) loop 0).0 ≡ 0 ∷ 2 ∷ []
unfolding round dispatch slots_from live_cb entry_at invoke act_all act add_fd remove_fd kill
round_run = refl

round-Ascends_example :
    let (log, o, l', w') = round behaviour (λ _. 1) loop 0 in
    Ascends 0 3 log × ((k : ℕ) → dead_at k l'.entries ≡ false)
round-Ascends_example = round-Ascends behaviour (λ _. 1) loop 0

dispatch-Absent_example :
    Absent 1 (dispatch behaviour (λ _. 1) 0 (slots_from 0 loop.entries) (remove_fd loop 6) 0).0
unfolding remove_fd dead_at kill
dispatch-Absent_example =
    dispatch-Absent behaviour (λ _. 1) 0 1 (slots_from 0 loop.entries) (remove_fd loop 6) 0 refl
