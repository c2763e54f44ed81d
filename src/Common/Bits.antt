-- ===== src/Common/Bits.antt =====
-- The bitwise `and` at variables, as far as the masks of the ring need it.
use Prim.Native.Nat.{
  ℕ, zero, suc, ◌+◌, ◌-◌, ◌*◌, ◌/◌, ◌%◌, ◌^◌, ◌≤◌, ◌<◌, min, bit_and, digits, bit_and-bitwise,
}
use mathlib.Core.Path.{◌≡◌, ap, ◌∙◌}
use native.Mathlib.Omega.{arith}
use native.Mathlib.Nat.{pow-suc, mul-add-mod_self_left, mod-eq_of_lt, mod-lt, div-add-mod}
use native.Mathlib.Decide.{dec_lt}

-- With any count of digits that is large enough, the recursion on digits gives the native operation:
-- counts and numbers below a bound `n` at once.
digits-bit_and : (n k a b : ℕ) → k ≤ n → a ≤ k → digits (λ _. 0) min k a b ≡ bit_and a b
digits-bit_and n zero zero b bound enough = ground (arith, bit_and-bitwise 0 b)
digits-bit_and n (suc k) zero b bound enough = ground (arith, bit_and-bitwise 0 b)
digits-bit_and n zero (suc a) b bound enough = absurd (omega arith)
digits-bit_and zero (suc k) (suc a) b bound enough = absurd (omega arith)
digits-bit_and (suc n) (suc k) (suc a) b bound enough =
    let at_k = digits-bit_and n k (suc a / 2) (b / 2) (omega arith) (omega arith) in
    let at_a = digits-bit_and n a (suc a / 2) (b / 2) (omega arith) (omega arith) in
    omega (arith, at_k, at_a, bit_and-bitwise (suc a) b)

-- The last binary digit apart.
pub bit_and-halves :
    (a b : ℕ) → 0 < a → bit_and a b ≡ 2 * bit_and (a / 2) (b / 2) + min (a % 2) (b % 2)
bit_and-halves zero b pos = absurd (omega arith)
bit_and-halves (suc a) b pos =
    let below = digits-bit_and a a (suc a / 2) (b / 2) (omega arith) (omega arith) in
    omega (arith, below, bit_and-bitwise (suc a) b)

bit_and_le : (n a b : ℕ) → a ≤ n → (bit_and a b ≤ a) × (bit_and a b ≤ b)
bit_and_le n zero b h = (omega (arith, bit_and-bitwise 0 b), omega (arith, bit_and-bitwise 0 b))
bit_and_le zero (suc a) b h = absurd (omega arith)
bit_and_le (suc n) (suc a) b h =
    let (left, right) = bit_and_le n (suc a / 2) (b / 2) (omega arith) in
    let law = bit_and-halves (suc a) b (omega arith) in
    (omega (arith, left, law), omega (arith, right, law))

pub two_pow-pos : (k : ℕ) → 0 < 2 ^ k
two_pow-pos zero = omega arith
two_pow-pos (suc k) = omega (arith, pow-suc 2 k, two_pow-pos k)

-- The lowest digit of a remainder by an even number.
mod_double : (a p : ℕ) → 0 < p → a % (2 * p) ≡ 2 * (a / 2 % p) + a % 2
mod_double a p h =
    ap (λ t. t % (2 * p)) split
    ∙ mul-add-mod_self_left (2 * p) (a / 2 / p) low
    ∙ mod-eq_of_lt {n = low} {m = 2 * p} small
  where
    low : ℕ
    low = 2 * (a / 2 % p) + a % 2

    split : a ≡ 2 * p * (a / 2 / p) + low
    split = omega (arith, div-add-mod (a / 2) p)

    small : low < 2 * p
    small = omega (arith, mod-lt (a / 2) h)

double : (k : ℕ) → 2 ^ suc k ≡ 2 * 2 ^ k
double k = omega (arith, pow-suc 2 k)

-- A mask of `k` ones takes the remainder by `2 ^ k`.
pub bit_and_mask : (k a : ℕ) → bit_and a (2 ^ k - 1) ≡ a % 2 ^ k
bit_and_mask zero a = omega (arith, (bit_and_le a a 0 (omega arith)).1)
bit_and_mask (suc k) zero = ground (
  arith,
  (bit_and_le 0 0 (2 ^ suc k - 1) (omega arith)).0,
  mod-eq_of_lt {n = 0} {m = 2 ^ suc k} (two_pow-pos (suc k)),
)
bit_and_mask (suc k) (suc a) =
    let half : (2 * 2 ^ k - 1) / 2 ≡ 2 ^ k - 1 = omega (arith, two_pow-pos k) in
    rw (double k) (
      omega (
        arith,
        two_pow-pos k,
        bit_and-halves (suc a) (2 * 2 ^ k - 1) (omega arith),
        ap (bit_and (suc a / 2)) half,
        bit_and_mask k (suc a / 2),
        mod_double (suc a) (2 ^ k) (two_pow-pos k),
      ))

bit_and_self : (n a : ℕ) → a ≤ n → bit_and a a ≡ a
bit_and_self n zero h = omega (arith, (bit_and_le 0 0 0 (omega arith)).0)
bit_and_self zero (suc a) h = absurd (omega arith)
bit_and_self (suc n) (suc a) h =
    omega (
      arith,
      bit_and-halves (suc a) (suc a) (omega arith),
      bit_and_self n (suc a / 2) (omega arith),
    )

-- The usual test for a power of two: an odd number that passes is 1, and an even one passes as its half
-- does.
power_below : (n c : ℕ) → c ≤ n → 0 < c → bit_and c (c - 1) ≡ 0 → (k : ℕ) × (c ≡ 2 ^ k)
power_below zero c h pos e = absurd (omega arith)
power_below (suc n) c h pos e = elim (dec_lt 0 (c % 2)) [
  | yes odd ↦
      let half : (c - 1) / 2 ≡ c / 2 = omega arith in
      (
        0,
        omega (
          arith,
          bit_and-halves c (c - 1) pos,
          bit_and_self c (c / 2) (omega arith),
          ap (bit_and (c / 2)) half,
        ),
      )
  | no even ↦
      let half : (c - 1) / 2 ≡ c / 2 - 1 = omega arith in
      let passes : bit_and (c / 2) (c / 2 - 1) ≡ 0 =
        omega (arith, bit_and-halves c (c - 1) pos, ap (bit_and (c / 2)) half) in
      let (k, p) = power_below n (c / 2) (omega arith) (omega arith) passes in
      (suc k, omega (arith, pow-suc 2 k))
]

pub bit_and_pred-pow : (c : ℕ) → 0 < c → bit_and c (c - 1) ≡ 0 → (k : ℕ) × (c ≡ 2 ^ k)
bit_and_pred-pow c pos e = power_below c c (omega arith) pos e

-- A power of two not above another divides it.
pub two_pow_split : (k m : ℕ) → 2 ^ (k + m) ≡ 2 ^ k * 2 ^ m
two_pow_split k zero = ap (λ t. 2 ^ t) (let e : k + 0 ≡ k = omega arith in e) ∙ omega arith
two_pow_split k (suc m) =
    ap (λ t. 2 ^ t) (let e : k + suc m ≡ suc (k + m) = omega arith in e)
    ∙ omega (
      arith,
      double (k + m),
      ap (λ (t : ℕ). 2 ^ k * t) (double m),
      ap (λ (t : ℕ). 2 * t) (two_pow_split k m),
    )
