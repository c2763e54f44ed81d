-- ===== src/SimplePod/Registering.antt =====
-- The registry of include/shm_ipc/simple_pod_codec.hpp: what `RegisterPod` makes known.
use shm_cpp.Common.{
  ℕ, ◌+◌, ◌<◌, ◌^◌, ◌≡◌, ◌≢◌, refl, arith, some, List, [], ◌∷◌, ◌==◌, if◌then◌else◌, u32_mod,
}
use shm_cpp.Pod.{tag_size}
use shm_cpp.SimplePod.{Registry, find, set, register_pod}

module _ {A : Type 0} where
  pub find-set :
      (k j : ℕ) (a : A) (m : List (ℕ × A))
      → find j (set k a m) ≡ (if k == j then some a else find j m)
  unfolding find set
  find-set k j a [] = refl
  find-set k j a ((i, b) ∷ m) = ground (arith, find-set k j a m)

-- Objects of type `ty` and `size` bytes go under `tag`.
pub record IsRegistered (reg : Registry) (ty tag size : ℕ) : Type 0 where
  pub tagged : find ty reg.tag_of ≡ some tag
  pub known : find tag reg.ops_of ≡ some (record { size = size; ty = ty })
  pub tag_fits : tag < u32_mod
  pub size_fits : tag_size + size < 2 ^ 31

-- Registering a type makes it known under its tag, and keeps every type that has another number and
-- another tag.
pub register_pod-IsRegistered :
    (reg : Registry) (ty tag size ty' tag' size' : ℕ)
    → tag < u32_mod
    → tag_size + size < 2 ^ 31
    → IsRegistered reg ty' tag' size'
    → ty ≢ ty'
    → tag ≢ tag'
    → IsRegistered (register_pod ty tag size reg) ty tag size
      × IsRegistered (register_pod ty tag size reg) ty' tag' size'
unfolding register_pod
register_pod-IsRegistered reg ty tag size ty' tag' size' t s old apart other = (
  record {
    tagged = ground (arith, find-set ty ty tag reg.tag_of);
    known = ground (arith, find-set tag tag (record { size = size; ty = ty }) reg.ops_of);
    tag_fits = t;
    size_fits = s;
  },
  record {
    tagged = ground (arith, find-set ty ty' tag reg.tag_of, old.tagged, apart);
    known =
        ground
          (arith, find-set tag tag' (record { size = size; ty = ty }) reg.ops_of, old.known, other);
    tag_fits = old.tag_fits;
    size_fits = old.size_fits;
  },
)
