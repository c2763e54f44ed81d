-- ===== src/Ring/Capacity.antt =====
-- What the `static_assert`s on the capacity give: the mask is a remainder, and it does not see the
-- wrap-around of a 64-bit position.
use shm_cpp.Common.{
  ℕ, ◌+◌, ◌-◌, ◌*◌, ◌/◌, ◌%◌, ◌^◌, ◌≤◌, ◌<◌, ◌≡◌, ap, sym, ◌∙◌, ◌⊎◌, inl, inr, bit_and, arith,
  bit_and_mask, bit_and_pred-pow, two_pow_split, two_pow-pos, u64_mod,
}
use shm_cpp.Ring.{IsCapacity, ring_phys}
use native.Mathlib.Nat.{
  mul-add-mod_self_left, div-add-mod, mod-eq_of_lt, mod-lt, mod-add-mod, mod-eq-sub-mod,
}
use native.Mathlib.Decide.{dec_lt}

pub IsCapacity-pow : {cap : ℕ} → IsCapacity cap → (k : ℕ) × (cap ≡ 2 ^ k)
IsCapacity-pow {cap} c = bit_and_pred-pow cap (omega arith) c.power

pow-le_of_le : (j d : ℕ) → 2 ^ j ≤ 2 ^ (j + d)
pow-le_of_le j d = rw (two_pow_split j d) (grind (arith, two_pow-pos d))

-- A power of two below 2 ^ 64 divides it.
exponent-lt : (k : ℕ) → 2 ^ k < 2 ^ 64 → k < 64
exponent-lt k h = elim (dec_lt k 64) [
  | yes p ↦ p
  | no p ↦
      let e : 64 + (k - 64) ≡ k = omega arith in
      absurd (omega (arith, ap (λ t. 2 ^ t) e, pow-le_of_le 64 (k - 64)))
]

pub IsCapacity-dvd : {cap : ℕ} → IsCapacity cap → (p : ℕ) × (u64_mod ≡ cap * p)
IsCapacity-dvd {cap} c =
    let (k, e) = IsCapacity-pow c in
    let small : k < 64 = exponent-lt k (omega arith) in
    let sum : k + (64 - k) ≡ 64 = omega arith in
    (
      2 ^ (64 - k),
      ap (λ t. 2 ^ t) (sym sum)
          ∙ two_pow_split k (64 - k)
          ∙ ap (λ (t : ℕ). t * 2 ^ (64 - k)) (sym e),
    )

pub bit_and-cap : {cap : ℕ} → IsCapacity cap → (x : ℕ) → bit_and x (cap - 1) ≡ x % cap
bit_and-cap c x = let (k, e) = IsCapacity-pow c in rw e (bit_and_mask k x)

-- A remainder by a multiple can be taken first.
mod-mod_mul : (x cap p u : ℕ) → u ≡ cap * p → x % u % cap ≡ x % cap
mod-mod_mul x cap p u e =
    sym (mul-add-mod_self_left cap (p * (x / u)) (x % u))
    ∙ ap (λ t. t % cap) (omega (arith, div-add-mod x u, ap (λ (t : ℕ). t * (x / u)) e))

-- The physical offset is the remainder by the capacity, also of a position that has wrapped.
pub ring_phys-mod : {cap : ℕ} → IsCapacity cap → (x : ℕ) → ring_phys cap (x % u64_mod) ≡ x % cap
unfolding ring_phys
ring_phys-mod {cap} c x =
    let (p, e) = IsCapacity-dvd c in bit_and-cap c (x % u64_mod) ∙ mod-mod_mul x cap p u64_mod e

-- Steps of at most the capacity go round at most once.
pub mod_wrap :
    {cap : ℕ} (r i : ℕ)
    → 0 < cap
    → i ≤ cap
    → ((r + i) % cap ≡ r % cap + i) ⊎ ((r + i) % cap + cap ≡ r % cap + i)
mod_wrap {cap} r i pos h = elim (dec_lt (r % cap + i) cap) [
  | yes p ↦ inl (sym (mod-add-mod r cap i) ∙ mod-eq_of_lt p)
  | no p ↦ inr (
      omega (
        arith,
        mod-add-mod r cap i,
        mod-lt r pos,
        mod-eq-sub-mod {n = r % cap + i} {m = cap} (omega arith),
        mod-eq_of_lt {n = r % cap + i - cap} {m = cap} (omega (arith, mod-lt r pos)),
      ))
]
