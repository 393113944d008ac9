-- ===== src/Tools/Args.antt =====
-- The numbers of a command line: what the conversions of the C library give, as arguments.
use Prim.Native.String.{String}
use text.Mathlib.Text.{starts_with}
use libzbc.Base.{
  ℕ, ◌^◌, ◌-◌, ◌+◌, Bool, true, false, Option, none, some, List, [], ◌∷◌, leb, if◌then◌else◌, ℤ,
  pos, negsuc,
}

-- `strtol` gives nothing when text is left or errno is set.
pub record Numbers : Type 0 where
  pub atoi : String → ℤ
  pub atol : String → ℤ
  pub atoll : String → ℤ
  pub strtol : String → Option ℤ

-- A negative number as an unsigned one of 64 bits.
unfoldable pub to_u64 : ℤ → ℕ
to_u64 (pos n) = n
to_u64 (negsuc n) = 2 ^ 64 - (n + 1)

abbrev pub is_option : String → Bool
is_option arg = starts_with arg "-"

-- A single byte as a pattern.
abbrev pub is_pattern : Option ℤ → Bool
is_pattern none = false
is_pattern (some n) = leb (to_u64 n) 0xff

abbrev is_empty : List String → Bool
is_empty [] = true
is_empty (x ∷ xs) = false

-- The loop over the options of the two tools that read and write a zone, and what stands behind it.
-- `plain` is what an option without a value does, or nothing for one that ends the tool, `valued`
-- whether an option takes one, `with_value` what it does, and `operands` what is made of the rest.
-- The first argument of the loop is the option whose value comes. The last argument of the line is
-- not read as an option. Nothing stands for a line that is refused.
module _ {A : Type 0} (plain : String → A → Option A) (valued : String → Bool)
    (with_value : String → String → A → Option A) (operands : A → List String → Option A) where
  unfoldable pub options : Option String → A → List String → Option A
  options waits a [] = none
  options (some opt) a (arg ∷ more) = elim (with_value opt arg a) [
    | none ↦ none
    | some a' ↦ options none a' more
  ]
  options none a (arg ∷ more) =
      let value = options (some arg) a more in
      let next = elim (plain arg a) as (λ x. Option A) [
        | none ↦ none
        | some a' ↦ options none a' more
      ] in
      if is_empty more
      then none
      else if valued arg
      then value
      else if is_option arg
      then next
      else operands a (arg ∷ more)
