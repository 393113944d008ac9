-- ===== src/Base/Int.antt =====
-- The signed results of the code: a count, 0, or a negated errno value.
use Prim.Native.Nat.{ℕ, zero, suc}
use mathlib.Core.Bool.{Bool, true, false}
use libzbc.Base.Tests.{◌==◌}

-- `negsuc n` is -(n + 1).
pub data ℤ : Type 0 where
  pos : ℕ → ℤ
  negsuc : ℕ → ℤ

abbrev pub is_zero : ℤ → Bool
is_zero (pos zero) = true
is_zero (pos (suc n)) = false
is_zero (negsuc n) = false

abbrev pub is_neg : ℤ → Bool
is_neg (pos n) = false
is_neg (negsuc n) = true

-- The errno values that the code returns, negated, as Linux numbers them.
abbrev pub neg_eio : ℤ
neg_eio = negsuc 4

abbrev pub neg_enxio : ℤ
neg_enxio = negsuc 5

abbrev pub neg_eagain : ℤ
neg_eagain = negsuc 10

abbrev pub neg_enomem : ℤ
neg_enomem = negsuc 11

abbrev pub neg_einval : ℤ
neg_einval = negsuc 21

abbrev pub neg_enotsup : ℤ
neg_enotsup = negsuc 94

abbrev pub neg_etimedout : ℤ
neg_etimedout = negsuc 109

abbrev pub is_pos : ℤ → Bool
is_pos (pos zero) = false
is_pos (pos (suc n)) = true
is_pos (negsuc n) = false

abbrev pub pos_part : ℤ → ℕ
pos_part (pos n) = n
pos_part (negsuc n) = 0

abbrev pub is_eagain : ℤ → Bool
is_eagain (pos n) = false
is_eagain (negsuc n) = n == 10
