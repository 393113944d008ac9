-- ===== src/Base/Bits.antt =====
-- Laws of `bit_and` with the masks of the code.
use Prim.Native.Nat.{ℕ, zero, suc, ◌+◌, ◌-◌, ◌*◌, ◌/◌, ◌%◌, ◌^◌, ◌≤◌, ◌<◌, min, bit_and}
use Prim.Native.Nat.{digits, bit_and-bitwise}
use mathlib.Core.Path.{◌≡◌, sym, ap, ◌∙◌}
use native.Mathlib.Nat.{pow-suc, mod-lt, mod-eq_of_lt, div-add-mod', mul-add-mod_self_right}
use native.Mathlib.Omega.{arith}

pub pow-pos : (k : ℕ) → 0 < 2 ^ k
pow-pos zero = omega arith
pow-pos (suc k) = rw pow-suc (omega (arith, pow-pos k))

-- A remainder is known by any quotient with it.
pub mod_unique : (q r m : ℕ) → r < m → (q * m + r) % m ≡ r
mod_unique q r m h = rw (mul-add-mod_self_right, mod-eq_of_lt h)

-- Two divisions with the same quotient of the halves.
mod_double : (a p : ℕ) → 0 < p → a % (p * 2) ≡ a / 2 % p * 2 + a % 2
mod_double a p h =
    ap (λ (t : ℕ). t % (p * 2)) parts
    ∙ mod_unique (a / 2 / p) (a / 2 % p * 2 + a % 2) (p * 2) (omega (arith, mod-lt (a / 2) h))
  where
    parts : a ≡ a / 2 / p * (p * 2) + (a / 2 % p * 2 + a % 2)
    parts = omega (arith, div-add-mod' (a / 2) p)

half_mask : (k : ℕ) → (2 ^ suc k - 1) / 2 ≡ 2 ^ k - 1
half_mask k = rw pow-suc (omega (arith, pow-pos k))

odd_mask : (k : ℕ) → (2 ^ suc k - 1) % 2 ≡ 1
odd_mask k = rw pow-suc (omega (arith, pow-pos k))

-- The recursion on digits that `bit_and` stands for, against a mask of `k` ones.
and_mask : ℕ → ℕ → ℕ → ℕ
and_mask k fuel a = digits (λ y. 0) min fuel a (2 ^ k - 1)

and_mask_lem : (fuel k a : ℕ) → a ≤ fuel → and_mask k fuel a ≡ a % 2 ^ k
unfolding and_mask
and_mask_lem zero k zero h = sym (mod-eq_of_lt (pow-pos k))
and_mask_lem zero k (suc a) h = absurd (omega arith)
and_mask_lem (suc fuel) k zero h = sym (mod-eq_of_lt (pow-pos k))
and_mask_lem (suc fuel) zero (suc a) h =
    omega (arith, and_mask_lem fuel zero (suc a / 2) (omega arith))
and_mask_lem (suc fuel) (suc k) (suc a) h =
    rw (half_mask k, odd_mask k)
      (let rest = and_mask_lem fuel k (suc a / 2) (omega arith) in
        let split = mod_double (suc a) (2 ^ k) (pow-pos k) in
        rw (pow-suc) (omega (arith, rest, split)))

-- A mask of `k` ones keeps the remainder by `2 ^ k`.
pub bit_and_low : (k a : ℕ) → bit_and a (2 ^ k - 1) ≡ a % 2 ^ k
unfolding and_mask
bit_and_low k a = bit_and-bitwise a (2 ^ k - 1) ∙ and_mask_lem a k a (omega arith)

-- The recursion against a mask of the bits from `j` to below `k`.
high : ℕ → ℕ → ℕ → ℕ → ℕ
high k j fuel a = digits (λ y. 0) min fuel a (2 ^ k - 2 ^ j)

half_high : (k j : ℕ) → (2 ^ suc k - 2 ^ suc j) / 2 ≡ 2 ^ k - 2 ^ j
half_high k j = rw (pow-suc 2 k, pow-suc 2 j) (omega arith)

even_high : (k j : ℕ) → (2 ^ suc k - 2 ^ suc j) % 2 ≡ 0
even_high k j = rw (pow-suc 2 k, pow-suc 2 j) (omega arith)

high_lem : (fuel k j a : ℕ) → a ≤ fuel → a < 2 ^ k → j ≤ k → high k j fuel a ≡ a - a % 2 ^ j
unfolding high and_mask
high_lem fuel k zero a h top le = omega (arith, and_mask_lem fuel k a h, mod-eq_of_lt top)
high_lem fuel zero (suc j) a h top le = absurd (omega arith)
high_lem zero (suc k) (suc j) zero h top le = omega arith
high_lem zero (suc k) (suc j) (suc a) h top le = absurd (omega arith)
high_lem (suc fuel) (suc k) (suc j) zero h top le = omega arith
high_lem (suc fuel) (suc k) (suc j) (suc a) h top le =
    let below : suc a / 2 < 2 ^ k = omega (arith, pow-suc 2 k) in
    let rest = high_lem fuel k j (suc a / 2) (omega arith) below (omega arith) in
    let split = mod_double (suc a) (2 ^ j) (pow-pos j) in
    rw (half_high k j, even_high k j)
      (rw (pow-suc 2 j) (omega (arith, rest, split, div-add-mod' (suc a / 2) (2 ^ j))))

-- A mask of the bits from `j` on rounds down to a multiple of `2 ^ j`.
pub bit_and_high : (k j a : ℕ) → a < 2 ^ k → j ≤ k → bit_and a (2 ^ k - 2 ^ j) ≡ a - a % 2 ^ j
unfolding high
bit_and_high k j a top le =
    bit_and-bitwise a (2 ^ k - 2 ^ j) ∙ high_lem a k j a (omega arith) top le
