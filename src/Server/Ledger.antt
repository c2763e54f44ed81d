-- ===== src/Server/Ledger.antt =====
-- Where the sockets of include/shm_ipc/shm_server.hpp are, and how often a connection began and ended.
pub use shm_cpp.Common.{count, count-append}
use shm_cpp.Common.{ℕ, ◌+◌, ◌≤◌, ◌≡◌, refl, arith, List, [], ◌∷◌, ◌++◌, length, ◌==◌, if◌then◌else◌}
use shm_cpp.Server.{Member, HandshakeDone, Event, opened, closed, erase, erased, sockfds}

abbrev pub sockets : List Member → List ℕ
sockets [] = []
sockets (m ∷ ms) = m.socket_fd ∷ sockets ms

pub count-sockfds-append :
    (x : ℕ) (xs ys : List HandshakeDone)
    → count x (sockfds (xs ++ ys)) ≡ count x (sockfds xs) + count x (sockfds ys)
count-sockfds-append x [] ys = omega arith
count-sockfds-append x (d ∷ xs) ys = omega (arith, count-sockfds-append x xs ys)

-- What is erased from the table leaves it.
pub count-erase :
    (x id : ℕ) (ms : List Member)
    → count x (sockets (erase id ms)) + count x (erased id ms) ≡ count x (sockets ms)
unfolding erase erased
count-erase x id [] = refl
count-erase x id (m ∷ ms) = ground (arith, count-erase x id ms)

pub length-erase : (id : ℕ) (ms : List Member) → length (erase id ms) ≤ length ms
unfolding erase
length-erase id [] = omega arith
length-erase id (m ∷ ms) = ground (arith, length-erase id ms)

abbrev pub openings : ℕ → List Event → ℕ
openings x [] = 0
openings x (opened id ∷ es) = (if id == x then 1 else 0) + openings x es
openings x (closed id ∷ es) = openings x es

abbrev pub closings : ℕ → List Event → ℕ
closings x [] = 0
closings x (opened id ∷ es) = closings x es
closings x (closed id ∷ es) = (if id == x then 1 else 0) + closings x es

pub openings-append :
    (x : ℕ) (es fs : List Event) → openings x (es ++ fs) ≡ openings x es + openings x fs
openings-append x [] fs = omega arith
openings-append x (opened id ∷ es) fs = omega (arith, openings-append x es fs)
openings-append x (closed id ∷ es) fs = openings-append x es fs

pub closings-append :
    (x : ℕ) (es fs : List Event) → closings x (es ++ fs) ≡ closings x es + closings x fs
closings-append x [] fs = omega arith
closings-append x (opened id ∷ es) fs = closings-append x es fs
closings-append x (closed id ∷ es) fs = omega (arith, closings-append x es fs)
