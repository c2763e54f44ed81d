-- ===== src/Loop/Round.antt =====
-- A round of include/shm_ipc/event_loop.hpp: which callbacks it calls, and what it leaves.
use shm_cpp.Common.{
  ℕ, zero, suc, Bool, true, false, ◌+◌, ◌≤◌, ◌<◌, ◌≡◌, refl, sym, subst, ◌∙◌, Option, none, some,
  List, [], ◌∷◌, ◌++◌, map, ◌==◌, ◌&&◌, not, if◌then◌else◌, arith, length, Bool-cases, inl, inr,
}
use shm_cpp.Codec.{Outcome, returned, threw}
use shm_cpp.Loop.{
  Callback, one_shot, Entry, EventLoop, add_fd, kill, remove_fd, remove_timer, Calls, invoke, Slot,
  slots_from, entry_at, live_cb, Made, called, visit, dispatch, compact, compact_dead, round,
}
use shm_cpp.Loop.Dead.{dead_at, act_all-dead}

-- Indices that go up, from `lo` on and below `hi`.
abbrev pub Ascends : ℕ → ℕ → List ℕ → Type 0
Ascends lo hi [] = Unit
Ascends lo hi (k ∷ ks) = (lo ≤ k) × (k < hi) × Ascends (suc k) hi ks

InOrder : ℕ → ℕ → List Slot → Type 0
InOrder lo hi [] = Unit
InOrder lo hi (s ∷ ss) = (lo ≤ s.index) × (s.index < hi) × InOrder (suc s.index) hi ss

InOrder-lower : (lo lo' hi : ℕ) (ss : List Slot) → lo' ≤ lo → InOrder lo hi ss → InOrder lo' hi ss
unfolding InOrder
InOrder-lower lo lo' hi [] h o = tt
InOrder-lower lo lo' hi (s ∷ ss) h (a, b, o) = (omega arith, b, o)

Ascends-lower : (lo lo' hi : ℕ) (ks : List ℕ) → lo' ≤ lo → Ascends lo hi ks → Ascends lo' hi ks
Ascends-lower lo lo' hi [] h o = tt
Ascends-lower lo lo' hi (k ∷ ks) h (a, b, o) = (omega arith, b, o)

slots_from-InOrder :
    (k hi : ℕ) (es : List Entry) → k + length es ≡ hi → InOrder k hi (slots_from k es)
unfolding slots_from InOrder
slots_from-InOrder k hi [] e = tt
slots_from-InOrder k hi (x ∷ es) e =
    let rest = slots_from-InOrder (suc k) hi es (omega arith) in
    elim (Bool-cases x.dead) [
      | inl dead ↦ rw dead (InOrder-lower (suc k) k hi (slots_from (suc k) es) (omega arith) rest)
      | inr alive ↦ rw alive (omega arith, omega arith, rest)
    ]

called-Ascends :
    {W : Type 0} (lo hi j : ℕ) (rest : EventLoop → W → Made W) (o : Outcome) (l : EventLoop) (w : W)
    → lo ≤ j
    → j < hi
    → Ascends (suc j) hi (rest l w).0
    → Ascends lo hi (called j rest o l w).0
unfolding called
called-Ascends lo hi j rest returned l w a b o = (a, b, o)
called-Ascends lo hi j rest threw l w a b o = (a, b, tt)

visit-Ascends :
    {W : Type 0} (call : Calls W) (lo hi : ℕ) (s : Slot) (revents : ℕ)
    (rest : EventLoop → W → Made W) (runs : Bool) (cb : Option Callback) (l : EventLoop) (w : W)
    → lo ≤ s.index
    → s.index < hi
    → ((l' : EventLoop) (w' : W) → Ascends (suc s.index) hi (rest l' w').0)
    → Ascends lo hi (visit call s revents rest runs cb l w).0
unfolding visit
visit-Ascends call lo hi s revents rest false cb l w a b later = tt
visit-Ascends call lo hi s revents rest true none l w a b later =
    Ascends-lower (suc s.index) lo hi _ (omega arith) (later l w)
visit-Ascends call lo hi s revents rest true (some cb) l w a b later =
    called-Ascends lo hi s.index rest _ _ _ a b (later _ _)

dispatch-Ascends :
    {W : Type 0} (call : Calls W) (revents : ℕ → ℕ) (i lo hi : ℕ) (ss : List Slot) (l : EventLoop)
    (w : W)
    → InOrder lo hi ss
    → Ascends lo hi (dispatch call revents i ss l w).0
unfolding dispatch InOrder
dispatch-Ascends call revents i lo hi [] l w o = tt
dispatch-Ascends call revents i lo hi (s ∷ ss) l w (a, b, o) =
    visit-Ascends call lo hi s (revents i) (dispatch call revents (suc i) ss) l.running
      (live_cb (revents i) (entry_at s.index l.entries)) l w a b
      (λ l' w'. dispatch-Ascends call revents (suc i) (suc s.index) hi ss l' w' o)

cons-alive :
    (k : ℕ) (e : Entry) (es : List Entry)
    → e.dead ≡ false
    → ((j : ℕ) → dead_at j es ≡ false)
    → dead_at k (e ∷ es) ≡ false
unfolding dead_at
cons-alive zero e es alive rest = alive
cons-alive (suc k) e es alive rest = rest k

compact-alive : (es : List Entry) (k : ℕ) → dead_at k (compact es) ≡ false
unfolding compact dead_at
compact-alive [] k = refl
compact-alive (e ∷ es) k =
    let rest = compact-alive es in
    elim (Bool-cases e.dead) [
      | inl dead ↦
          subst (λ b. dead_at k (if b then compact es else e ∷ compact es) ≡ false) (sym dead)
            (rest k)
      | inr alive ↦
          subst (λ b. dead_at k (if b then compact es else e ∷ compact es) ≡ false) (sym alive)
            (cons-alive k e (compact es) alive rest)
    ]

-- A round calls the callbacks of entries that were there when it began, each at most once and in the
-- order of registration, and leaves no tombstone, also when a callback throws.
pub round-Ascends :
    {W : Type 0} (call : Calls W) (revents : ℕ → ℕ) (l : EventLoop) (w : W)
    → let (log, o, l', w') = round call revents l w in
      Ascends 0 (length l.entries) log × ((k : ℕ) → dead_at k l'.entries ≡ false)
unfolding round compact_dead
round-Ascends call revents l w = (
  dispatch-Ascends call revents 0 0 (length l.entries) (slots_from 0 l.entries) l w
      (slots_from-InOrder 0 (length l.entries) l.entries (omega arith)),
  λ k. compact-alive _ k,
)

-- How many live entries watch a descriptor.
unfoldable pub watching : ℕ → List Entry → ℕ
watching fd [] = 0
watching fd (e ∷ es) =
    let rest = watching fd es in if e.fd == fd && not e.dead then suc rest else rest

watching-kill :
    (fd fd' : ℕ) (es : List Entry)
    → watching fd' (map (kill fd) es) ≡ (if fd' == fd then 0 else watching fd' es)
unfolding watching kill
watching-kill fd fd' [] = ground arith
watching-kill fd fd' (e ∷ es) = ground (arith, watching-kill fd fd' es)

watching-append :
    (fd : ℕ) (es : List Entry) (e : Entry)
    → watching fd (es ++ (e ∷ [])) ≡ watching fd es + (if e.fd == fd && not e.dead then 1 else 0)
unfolding watching
watching-append fd [] e = ground arith
watching-append fd (x ∷ es) e = ground (arith, watching-append fd es e)

-- A descriptor that is removed and registered again, as when its number is used anew, is watched by
-- exactly the new entry, and the other descriptors by the entries as before.
pub add_fd-remove_fd :
    (l : EventLoop) (fd fd' : ℕ) (cb : Option Callback) (events : ℕ)
    → watching fd' (add_fd (remove_fd l fd) fd cb events).entries
      ≡ (if fd' == fd then 1 else watching fd' l.entries)
unfolding add_fd remove_fd
add_fd-remove_fd l fd fd' cb events =
    watching-append fd' (map (kill fd) l.entries) _ ∙ ground (arith, watching-kill fd fd' l.entries)

kill-dead :
    (k fd : ℕ) (es : List Entry) (e : Entry)
    → entry_at k es ≡ some e
    → e.fd ≡ fd
    → dead_at k (map (kill fd) es) ≡ true
unfolding dead_at entry_at kill
kill-dead k fd [] e there same = absurd cc
kill-dead zero fd (x ∷ es) e there same = ground (arith, there)
kill-dead (suc k) fd (x ∷ es) e there same = kill-dead k fd es e there same

-- A one-shot timer is dead once its callback has been called, whatever the callback does.
pub invoke-one_shot :
    {W : Type 0} (call : Calls W) (tfd id revents k : ℕ) (l : EventLoop) (w : W) (e : Entry)
    → entry_at k l.entries ≡ some e
    → e.fd ≡ tfd
    → dead_at k (invoke call (one_shot tfd id) tfd revents l w).1.entries ≡ true
unfolding invoke remove_timer remove_fd
invoke-one_shot call tfd id revents k l w e there same =
    act_all-dead k _ (call id tfd revents w).0 (kill-dead k tfd l.entries e there same)
