-- ===== src/Loop/Dead.antt =====
-- Tombstones of include/shm_ipc/event_loop.hpp stay where they are while a round is dispatched.
use shm_cpp.Common.{
  ℕ, zero, suc, Bool, true, false, ◌≡◌, ◌≢◌, refl, sym, subst, Option, none, some, List, [], ◌∷◌,
  ◌++◌, map, arith,
}
use shm_cpp.Codec.{Outcome, returned, threw}
use shm_cpp.Loop.{
  Callback, user, one_shot, Entry, EventLoop, add_fd, kill, remove_fd, add_timer,
  add_one_shot_timer, remove_timer, stop, Action, adds_fd, removes_fd, adds_timer, adds_one_shot,
  removes_timer, stops, act, act_all, Calls, invoke, Slot, entry_at, live_cb, Made, called, visit,
  dispatch,
}

-- Whether the entry at an index is there and dead.
unfoldable pub dead_at : ℕ → List Entry → Bool
dead_at k [] = false
dead_at zero (e ∷ es) = e.dead
dead_at (suc k) (e ∷ es) = dead_at k es

dead_at-append : (k : ℕ) (es fs : List Entry) → dead_at k es ≡ true → dead_at k (es ++ fs) ≡ true
unfolding dead_at
dead_at-append k [] fs d = absurd cc
dead_at-append zero (e ∷ es) fs d = d
dead_at-append (suc k) (e ∷ es) fs d = dead_at-append k es fs d

dead_at-kill :
    (k fd : ℕ) (es : List Entry) → dead_at k es ≡ true → dead_at k (map (kill fd) es) ≡ true
unfolding dead_at kill
dead_at-kill k fd [] d = absurd cc
dead_at-kill zero fd (e ∷ es) d = ground (arith, d)
dead_at-kill (suc k) fd (e ∷ es) d = dead_at-kill k fd es d

-- A dead entry is not dispatched.
pub live_cb-dead :
    (k revents : ℕ) (es : List Entry) → dead_at k es ≡ true → live_cb revents (entry_at k es) ≡ none
unfolding dead_at live_cb entry_at
live_cb-dead k revents [] d = absurd cc
live_cb-dead zero revents (e ∷ es) d = ground (arith, d)
live_cb-dead (suc k) revents (e ∷ es) d = live_cb-dead k revents es d

pub act-dead :
    (k : ℕ) (l : EventLoop) (a : Action)
    → dead_at k l.entries ≡ true
    → dead_at k (act l a).entries ≡ true
unfolding act add_fd remove_fd add_timer add_one_shot_timer remove_timer stop
act-dead k l (adds_fd fd id events) d = dead_at-append k l.entries _ d
act-dead k l (removes_fd fd) d = dead_at-kill k fd l.entries d
act-dead k l (adds_timer tfd id) d = dead_at-append k l.entries _ d
act-dead k l (adds_one_shot tfd id) d = dead_at-append k l.entries _ d
act-dead k l (removes_timer tfd) d = dead_at-kill k tfd l.entries d
act-dead k l stops d = d

pub act_all-dead :
    (k : ℕ) (l : EventLoop) (acts : List Action)
    → dead_at k l.entries ≡ true
    → dead_at k (act_all l acts).entries ≡ true
unfolding act_all
act_all-dead k l [] d = d
act_all-dead k l (a ∷ acts) d = act_all-dead k (act l a) acts (act-dead k l a d)

module _ {W : Type 0} (call : Calls W) where
  pub invoke-dead :
      (k : ℕ) (cb : Callback) (fd revents : ℕ) (l : EventLoop) (w : W)
      → dead_at k l.entries ≡ true
      → dead_at k (invoke call cb fd revents l w).1.entries ≡ true
  unfolding invoke remove_timer remove_fd act
  invoke-dead k (user id) fd revents l w d = act_all-dead k l (call id fd revents w).0 d
  invoke-dead k (one_shot tfd id) fd revents l w d =
      act_all-dead k (remove_timer l tfd) (call id fd revents w).0
        (act-dead k l (removes_timer tfd) d)

-- An index is not in a list.
abbrev pub Absent : ℕ → List ℕ → Type 0
Absent k [] = Unit
Absent k (j ∷ js) = (j ≢ k) × Absent k js

called-Absent :
    {W : Type 0} (k j : ℕ) (rest : EventLoop → W → Made W) (o : Outcome) (l : EventLoop) (w : W)
    → j ≢ k
    → Absent k (rest l w).0
    → Absent k (called j rest o l w).0
unfolding called
called-Absent k j rest returned l w other a = (other, a)
called-Absent k j rest threw l w other a = (other, tt)

visit-Absent :
    {W : Type 0} (call : Calls W) (k : ℕ) (s : Slot) (revents : ℕ) (rest : EventLoop → W → Made W)
    (runs : Bool) (cb : Option Callback) (l : EventLoop) (w : W)
    → ((c : Callback) → cb ≡ some c → s.index ≢ k)
    → ((l' : EventLoop) (w' : W) → dead_at k l'.entries ≡ true → Absent k (rest l' w').0)
    → dead_at k l.entries ≡ true
    → Absent k (visit call s revents rest runs cb l w).0
unfolding visit
visit-Absent call k s revents rest false cb l w other later d = tt
visit-Absent call k s revents rest true none l w other later d = later l w d
visit-Absent call k s revents rest true (some cb) l w other later d =
    called-Absent k s.index rest _ _ _ (other cb refl)
      (later _ _ (invoke-dead call k cb s.fd revents l w d))

-- A callback is called only for an entry that is alive when its row comes: from the moment that an entry
-- is dead, the rest of the round leaves it alone, whatever the callbacks do.
pub dispatch-Absent :
    {W : Type 0} (call : Calls W) (revents : ℕ → ℕ) (i k : ℕ) (ss : List Slot) (l : EventLoop)
    (w : W)
    → dead_at k l.entries ≡ true
    → Absent k (dispatch call revents i ss l w).0
unfolding dispatch
dispatch-Absent call revents i k [] l w d = tt
dispatch-Absent call revents i k (s ∷ ss) l w d =
    visit-Absent call k s (revents i) (dispatch call revents (suc i) ss) l.running
      (live_cb (revents i) (entry_at s.index l.entries)) l w (λ c e same. alive c e same)
      (λ l' w' d'. dispatch-Absent call revents (suc i) k ss l' w' d') d
  where
    alive : (c : Callback) → live_cb (revents i) (entry_at s.index l.entries) ≡ some c → s.index ≢ k
    alive c e same =
        let none_there : live_cb (revents i) (entry_at s.index l.entries) ≡ none =
          live_cb-dead s.index (revents i) l.entries
            (subst (λ j. dead_at j l.entries ≡ true) (sym same) d) in
        cc
