-- ===== src/Loop.antt =====
-- `EventLoop` of include/shm_ipc/event_loop.hpp: the table of watched descriptors with its tombstones,
-- and the dispatch of one round. A callback is known by a number; what it does to the loop is a list of
-- calls of the loop's methods, which `call` gives along with how it comes back. Descriptors, polling and
-- timers are the kernel's: their results are arguments.
pub mod Dead
pub mod Round
use shm_cpp.Common.{
  ℕ, zero, suc, Bool, true, false, not, Option, none, some, List, [], ◌∷◌, ◌++◌, ◌==◌, map,
  if◌then◌else◌,
}
use shm_cpp.Codec.{Outcome, returned, threw}

-- A plain callback, and the one that `AddOneShotTimer` wraps round it.
pub data Callback : Type 0 where
  user : (id : ℕ) → Callback
  one_shot : (tfd id : ℕ) → Callback

-- `cb` is `none` for an empty `std::function`.
pub record Entry : Type 0 where
  pub fd : ℕ
  pub events : ℕ
  pub dead : Bool
  pub cb : Option Callback

pub record EventLoop : Type 0 where
  pub entries : List Entry
  pub owned_timerfds : List ℕ
  pub running : Bool

abbrev pub pollin : ℕ
pollin = 1

unfoldable pub add_fd : EventLoop → ℕ → Option Callback → ℕ → EventLoop
add_fd l fd cb events = record l {
  entries = l.entries ++ (record { fd = fd; events = events; dead = false; cb = cb } ∷ []);
}

unfoldable pub kill : ℕ → Entry → Entry
kill fd e = if e.fd == fd then record e { dead = true } else e

unfoldable pub remove_fd : EventLoop → ℕ → EventLoop
remove_fd l fd = record l { entries = map (kill fd) l.entries }

-- `tfd` is the descriptor that the kernel gives to the new timer.
unfoldable pub add_timer : EventLoop → ℕ → ℕ → EventLoop
add_timer l tfd id =
    add_fd (record l { owned_timerfds = l.owned_timerfds ++ (tfd ∷ []) }) tfd (some (user id))
      pollin

unfoldable pub add_one_shot_timer : EventLoop → ℕ → ℕ → EventLoop
add_one_shot_timer l tfd id =
    add_fd (record l { owned_timerfds = l.owned_timerfds ++ (tfd ∷ []) }) tfd
      (some (one_shot tfd id)) pollin

unfoldable pub erase_first : ℕ → List ℕ → List ℕ
erase_first x [] = []
erase_first x (y ∷ ys) = let rest = erase_first x ys in if y == x then ys else y ∷ rest

unfoldable pub remove_timer : EventLoop → ℕ → EventLoop
remove_timer l tfd = record (remove_fd l tfd) { owned_timerfds = erase_first tfd l.owned_timerfds }

unfoldable pub stop : EventLoop → EventLoop
stop l = record l { running = false }

-- The calls that a callback may make.
pub data Action : Type 0 where
  adds_fd : (fd id events : ℕ) → Action
  removes_fd : (fd : ℕ) → Action
  adds_timer : (tfd id : ℕ) → Action
  adds_one_shot : (tfd id : ℕ) → Action
  removes_timer : (tfd : ℕ) → Action
  stops : Action

unfoldable pub act : EventLoop → Action → EventLoop
act l (adds_fd fd id events) = add_fd l fd (some (user id)) events
act l (removes_fd fd) = remove_fd l fd
act l (adds_timer tfd id) = add_timer l tfd id
act l (adds_one_shot tfd id) = add_one_shot_timer l tfd id
act l (removes_timer tfd) = remove_timer l tfd
act l stops = stop l

unfoldable pub act_all : EventLoop → List Action → EventLoop
act_all l [] = l
act_all l (a ∷ acts) = act_all (act l a) acts

-- What callbacks do in a world of type `W`: the calls in order, and how the callback comes back.
abbrev pub Calls : Type 0 → Type 0
Calls W = ℕ → ℕ → ℕ → W → List Action × Outcome × W

unfoldable pub invoke :
    {W : Type 0} → Calls W → Callback → ℕ → ℕ → EventLoop → W → Outcome × EventLoop × W
invoke call (user id) fd revents l w =
    let (acts, o, w') = call id fd revents w in (o, act_all l acts, w')
invoke call (one_shot tfd id) fd revents l w =
    let (acts, o, w') = call id fd revents w in (o, act_all (remove_timer l tfd) acts, w')

-- A row of the poll array with the entry's index, as `pfds` and `idx` hold them.
pub record Slot : Type 0 where
  pub fd : ℕ
  pub events : ℕ
  pub index : ℕ

-- The rows for the entries from index `k` on.
unfoldable pub slots_from : ℕ → List Entry → List Slot
slots_from k [] = []
slots_from k (e ∷ es) =
    let rest = slots_from (suc k) es in
    if e.dead then rest else record { fd = e.fd; events = e.events; index = k } ∷ rest

unfoldable pub entry_at : ℕ → List Entry → Option Entry
entry_at k [] = none
entry_at zero (e ∷ es) = some e
entry_at (suc k) (e ∷ es) = entry_at k es

-- The callback that an entry is dispatched to, if it is.
unfoldable pub live_cb : ℕ → Option Entry → Option Callback
live_cb revents none = none
live_cb revents (some e) = if e.dead then none else if revents == 0 then none else e.cb

-- What a round makes: the indices of the entries whose callbacks were called, how it comes back, the
-- loop and the world.
abbrev pub Made : Type 0 → Type 0
Made W = List ℕ × Outcome × EventLoop × W

-- After the callback of entry `k`: `rest` dispatches the rows that are left.
unfoldable pub called :
    {W : Type 0} → ℕ → (EventLoop → W → Made W) → Outcome → EventLoop → W → Made W
called k rest returned l w = let (log, o, l', w') = rest l w in (k ∷ log, o, l', w')
called k rest threw l w = (k ∷ [], threw, l, w)

-- One row: the round ends once the loop is stopped.
unfoldable pub visit :
    {W : Type 0}
    → Calls W
    → Slot
    → ℕ
    → (EventLoop → W → Made W)
    → Bool
    → Option Callback
    → EventLoop
    → W
    → Made W
unfolding called
visit call s revents rest false cb l w = ([], returned, l, w)
visit call s revents rest true none l w = rest l w
visit call s revents rest true (some cb) l w =
    let (o, l', w') = invoke call cb s.fd revents l w in called s.index rest o l' w'

-- The dispatch of a round from row `i` on. `revents` is what `poll` stored in each row.
unfoldable pub dispatch : {W : Type 0} → Calls W → (ℕ → ℕ) → ℕ → List Slot → EventLoop → W → Made W
unfolding visit
dispatch call revents i [] l w = ([], returned, l, w)
dispatch call revents i (s ∷ ss) l w =
    visit call s (revents i) (dispatch call revents (suc i) ss) l.running
      (live_cb (revents i) (entry_at s.index l.entries)) l w

unfoldable pub compact : List Entry → List Entry
compact [] = []
compact (e ∷ es) = let rest = compact es in if e.dead then rest else e ∷ rest

unfoldable pub compact_dead : EventLoop → EventLoop
compact_dead l = record l { entries = compact l.entries }

-- One round after `poll` has stored `revents`: dispatch, then compaction, also when a callback throws.
unfoldable pub round : {W : Type 0} → Calls W → (ℕ → ℕ) → EventLoop → W → Made W
round call revents l w =
    let (log, o, l', w') = dispatch call revents 0 (slots_from 0 l.entries) l w in
    (log, o, compact_dead l', w')

-- What `poll` may answer: a signal, an error, or the events of each row.
pub data Polled : Type 0 where
  interrupted : Polled
  failed : Polled
  ready : (revents : ℕ → ℕ) → Polled

-- How `Run` ends: it was stopped, it throws an error of `poll` or of a callback, or it still waits when
-- the answers of `poll` that are given are used up.
pub data Ended : Type 0 where
  stopped poll_error callback_threw waiting : Ended

-- The rest of `Run` after a round, or after `poll` was interrupted: `rest` goes on with the loop.
unfoldable pub after_poll :
    {W : Type 0}
    → Calls W
    → (EventLoop → W → Ended × EventLoop × W)
    → Polled
    → EventLoop
    → W
    → Ended × EventLoop × W
unfolding round
after_poll call rest interrupted l w = rest l w
after_poll call rest failed l w = (poll_error, l, w)
after_poll call rest (ready revents) l w =
    let (log, o, l', w') = round call revents l w in
    elim o [ returned ↦ rest l' w' | threw ↦ (callback_threw, l', w') ]

-- The loop of `Run` over the answers that `poll` gives.
unfoldable pub rounds : {W : Type 0} → Calls W → List Polled → EventLoop → W → Ended × EventLoop × W
unfolding after_poll
rounds call [] l w = if l.running then (waiting, l, w) else (stopped, l, w)
rounds call (p ∷ ps) l w =
    if l.running then after_poll call (rounds call ps) p l w else (stopped, l, w)

unfoldable pub run : {W : Type 0} → Calls W → List Polled → EventLoop → W → Ended × EventLoop × W
unfolding rounds
run call ps l w = rounds call ps (record l { running = true }) w
