-- ===== src/Ring/Refine.antt =====
-- No sequence of calls tells the ring of include/shm_ipc/ringbuf.hpp from the queue.
use shm_cpp.Common.{
  ℕ, ◌+◌, ◌≡◌, refl, ap, ap₂, arith, Option, none, some, List, [], ◌∷◌, ◌++◌, length, ltb,
  if◌then◌else◌,
}
use shm_cpp.Ring.{
  Shm, Segments, IsCapacity, init, try_write, available, free_space, try_read, read_exact, view,
  peek, commit_read,
}
use shm_cpp.Ring.Window.{Holds}
use shm_cpp.Ring.Write.{init-Holds, try_write-push}
use shm_cpp.Ring.Read.{
  available-length, free_space-length, commit_read-Holds, try_read-take, read_exact-take,
  peek-empty, peek-Sees,
}
use shm_cpp.Ring.Queue
use shm_cpp.Ring.Queue.{
  Call, write, read, exact, look, commit, count, room, Reply, code, bytes, exactly, seen, done,
  number,
}

-- What a caller sees through the pointers that `Peek` stored.
see : Shm → Option Segments → Option (List ℕ)
see m none = none
see m (some s) = some (view m s.seg1 ++ view m s.seg2)

pub call : ℕ → Shm → Call → Reply × Shm
unfolding see
call cap m (write src len) = let (c, m') = try_write cap m src len in (code c, m')
call cap m (read n) = let (k, out, m') = try_read cap m n in (bytes k out, m')
call cap m (exact n) = let (c, out, m') = read_exact cap m n in (exactly c out, m')
call cap m look = (seen (see m (peek cap m)), m)
call cap m (commit n) = (done, commit_read m n)
call cap m count = (number (available m), m)
call cap m room = (number (free_space cap m), m)

pub run : ℕ → Shm → List Call → List Reply
run cap m [] = []
run cap m (c ∷ cs) = let (r, m') = call cap m c in r ∷ run cap m' cs

module _ {cap : ℕ} (c : IsCapacity cap) where
  -- Each call gives the queue's reply, and leaves the ring holding the queue's bytes.
  pub call-step :
      (k : Call) {m : Shm} {r : ℕ} {q : List ℕ}
      → Holds cap m r q
      → Queue.Allowed q k
      → ((call cap m k).0 ≡ (Queue.step cap q k).0)
        × ((r' : ℕ) × Holds cap (call cap m k).1 r' (Queue.step cap q k).1)
  unfolding call Queue.step
  call-step (write src len) {m} {r} {q} h a =
      let (e, h') = try_write-push c h src len a in (ap code e, (r, h'))
  call-step (read n) {m} {r} {q} h a =
      let (e, f, h') = try_read-take c h n a in (ap₂ bytes e f, (_, h'))
  call-step (exact n) {m} {r} {q} h a =
      let (e, f, h') = read_exact-take c h n a in
      (ground (arith, e, f), (if ltb (length q) n then r else r + n, ground (arith, h')))
  call-step look {q = []} h a = (rw (peek-empty c h refl), (_, h))
  call-step look {q = x ∷ q} h a =
      let (s, e, sees) = peek-Sees c h (omega arith) in
      (rw (e, see) (ap (λ t. seen (some t)) sees.seen), (_, h))
  call-step (commit n) {r} h a = (refl, (r + n, commit_read-Holds c h n a))
  call-step count {r} h a = (ap number (available-length c h), (r, h))
  call-step room {r} h a = (ap number (free_space-length c h), (r, h))

  -- From any memory that holds `q`, allowed calls get the replies of the queue `q`.
  pub run-Queue :
      (ks : List Call) {m : Shm} {r : ℕ} {q : List ℕ}
      → Holds cap m r q
      → Queue.AllAllowed cap q ks
      → run cap m ks ≡ Queue.run cap q ks
  unfolding run Queue.run
  run-Queue [] h a = refl
  run-Queue (k ∷ ks) h a = let (e, (r', h')) = call-step k h a.0 in ap₂ ◌∷◌ e (run-Queue ks h' a.1)

  -- Freshly initialised memory behaves as the empty queue, for every sequence of allowed calls.
  pub run-init :
      (ks : List Call) → Queue.AllAllowed cap [] ks → run cap (init cap) ks ≡ Queue.run cap [] ks
  run-init ks a = run-Queue ks (init-Holds cap) a
