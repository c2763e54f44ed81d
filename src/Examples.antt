-- ===== src/Examples.antt =====
-- Concrete rings, channels and calls, and the theorems of the library at them.
pub mod Ring
pub mod Spsc
pub mod Batch
pub mod Codec
pub mod Reader
pub mod Pod
pub mod Loop
pub mod Connection
pub mod Server
pub mod Client
pub mod SimplePod
pub mod Fds
pub mod Proto
use shm_cpp.Common.{
  ℕ, ◌≡◌, ◌-◌, arith, some, List, [], ◌∷◌, refl, replicate, length-replicate, u64_mod,
}
use shm_cpp.Ring.{Shm, IsCapacity, try_write}
use shm_cpp.Ring.Window.{Holds}
use shm_cpp.Ring.Write.{try_write-push}
use shm_cpp.Ring.Queue

-- The smallest ring.
pub cap_1024 : IsCapacity 1024
cap_1024 = record { power = refl; at_least = omega arith; fits = omega arith }

-- Four bytes before the end of the data area, and of the 64-bit positions.
abbrev pub near_end : ℕ
near_end = u64_mod - 4

abbrev pub drained : Shm
drained = record { write_pos = near_end; read_pos = near_end; bytes = replicate 1024 0 }

pub drained-Holds : Holds 1024 drained near_end []
drained-Holds = record {
  window = record {
    area = length-replicate {A = ℕ} 1024 0;
    size = omega arith;
    at = λ i h. absurd (omega arith);
  };
  reads = refl;
  writes = refl;
}

abbrev pub ten : List ℕ
ten = 1 ∷ 2 ∷ 3 ∷ 4 ∷ 5 ∷ 6 ∷ 7 ∷ 8 ∷ 9 ∷ 10 ∷ []

-- Ten bytes that go round the end.
abbrev pub wrapped : Shm
wrapped = (try_write 1024 drained (some ten) 10).1

pub wrapped-Holds : Holds 1024 wrapped near_end ten
unfolding Queue.push
wrapped-Holds = (try_write-push cap_1024 drained-Holds (some ten) 10 (omega arith, omega arith)).1
