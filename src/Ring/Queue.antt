-- ===== src/Ring/Queue.antt =====
-- What the ring promises: a FIFO of at most `cap` bytes, oldest first, whose calls are the methods
-- of `RingBuf`. Nothing here knows of positions, wrapping or segments.
use shm_cpp.Common.{
  ℕ, ◌+◌, ◌-◌, ◌≤◌, ◌<◌, Option, none, some, List, [], ◌∷◌, ◌++◌, ◌||◌, length, take, drop, ltb,
  ◌==◌, min, if◌then◌else◌, u32_mod,
}
use shm_cpp.Ring.{Code, ok, err, max_write_size}

pub data Call : Type 0 where
  write : Option (List ℕ) → ℕ → Call
  read : ℕ → Call
  exact : ℕ → Call
  look : Call
  commit : ℕ → Call
  count : Call
  room : Call

pub data Reply : Type 0 where
  code : Code → Reply
  bytes : ℕ → List ℕ → Reply
  exactly : Code → List ℕ → Reply
  seen : Option (List ℕ) → Reply
  done : Reply
  number : ℕ → Reply

unfoldable pub push : ℕ → List ℕ → Option (List ℕ) → ℕ → Code × List ℕ
push cap q none len = (err, q)
push cap q (some src) len =
    if len == 0 || ltb (max_write_size cap) len || ltb cap (length q + len)
    then (err, q)
    else (ok, q ++ take len src)

unfoldable pub step : ℕ → List ℕ → Call → Reply × List ℕ
unfolding push
step cap q (write src len) = let (c, q') = push cap q src len in (code c, q')
step cap q (read n) = let k = min n (length q) in (bytes k (take k q), drop k q)
step cap q (exact n) =
    if ltb (length q) n then (exactly err [], q) else (exactly ok (take n q), drop n q)
step cap [] look = (seen none, [])
step cap (x ∷ q) look = (seen (some (x ∷ q)), x ∷ q)
step cap q (commit n) = (done, drop n q)
step cap q count = (number (length q), q)
step cap q room = (number (cap - length q), q)

-- What the caller owes: a buffer as long as it says, a `uint32_t` length, and no commit beyond what
-- can be read.
abbrev pub Allowed : List ℕ → Call → Type 0
Allowed q (write none len) = len < u32_mod
Allowed q (write (some src) len) = (len ≤ length src) × (len < u32_mod)
Allowed q (read n) = n < u32_mod
Allowed q (exact n) = n < u32_mod
Allowed q look = Unit
Allowed q (commit n) = n ≤ length q
Allowed q count = Unit
Allowed q room = Unit

unfoldable pub run : ℕ → List ℕ → List Call → List Reply
unfolding step
run cap q [] = []
run cap q (c ∷ cs) = let (r, q') = step cap q c in r ∷ run cap q' cs

abbrev pub AllAllowed : ℕ → List ℕ → List Call → Type 0
AllAllowed cap q [] = Unit
AllAllowed cap q (c ∷ cs) = Allowed q c × AllAllowed cap (step cap q c).1 cs
