-- ===== src/Bytes/RoundTrip.antt =====
-- What is written into a field is read back, and the other bytes stay.
use libzbc.Base.{ℕ, zero, suc, ◌+◌, ◌-◌, ◌*◌, ◌%◌, ◌^◌, ◌≤◌, ◌<◌, ◌≡◌, refl, ◌∙◌, arith, List}
use libzbc.Base.{◌⊎◌, inr, u16, u32}
use libzbc.Base.{get_or, length, length-set, get_or-set_self, get_or-set_ne}
use libzbc.Bytes.{
  byte_of, put_byte, set_bytes_loop, set_bytes, set_int64, set_int48, set_int32, set_int16,
}
use libzbc.Bytes.{get_int64, get_int48, get_int32, get_int16}
use native.Mathlib.Decide.{ℕ_discrete}

pub length-set_bytes_loop :
    (cmd : List ℕ) (off val bytes left : ℕ)
    → length (set_bytes_loop cmd off val bytes left) ≡ length cmd
unfolding set_bytes_loop
length-set_bytes_loop cmd off val bytes zero = refl
length-set_bytes_loop cmd off val bytes (suc left) =
    length-set_bytes_loop (put_byte cmd off val bytes (bytes - suc left)) off val bytes left
    ∙ length-set cmd _ _

-- A position that the rounds left do not reach.
set_bytes_loop_out :
    (cmd : List ℕ) (off val bytes left p : ℕ)
    → left ≤ bytes
    → (p < off) ⊎ (off + left ≤ p)
    → get_or (set_bytes_loop cmd off val bytes left) p 0 ≡ get_or cmd p 0
unfolding set_bytes_loop
set_bytes_loop_out cmd off val bytes zero p h out = refl
set_bytes_loop_out cmd off val bytes (suc left) p h out =
    set_bytes_loop_out (put_byte cmd off val bytes (bytes - suc left)) off val bytes left p
      (omega arith) (omega arith)
    ∙ get_or-set_ne cmd _ p _ 0 (omega arith)

-- The most significant byte comes first.
set_bytes_loop_in :
    (cmd : List ℕ) (off val bytes left j : ℕ)
    → left ≤ bytes
    → off + left ≤ length cmd
    → j < left
    → get_or (set_bytes_loop cmd off val bytes left) (off + j) 0 ≡ byte_of val (bytes - 1 - j)
unfolding set_bytes_loop
set_bytes_loop_in cmd off val bytes zero j h fits lt = absurd (omega arith)
set_bytes_loop_in cmd off val bytes (suc left) j h fits lt = elim (ℕ_discrete j left) [
  | yes e ↦
      set_bytes_loop_out now off val bytes left (off + j) (omega arith) (inr (omega arith))
      ∙ at_left e
  | no ne ↦
      set_bytes_loop_in (put_byte cmd off val bytes (bytes - suc left)) off val bytes left j
        (omega arith) (omega (arith, kept)) (omega arith)
]
  where
    now : List ℕ
    now = put_byte cmd off val bytes (bytes - suc left)

    kept : length now ≡ length cmd
    kept = length-set cmd _ _

    at_left : j ≡ left → get_or now (off + j) 0 ≡ byte_of val (bytes - 1 - j)
    at_left e =
        let place : off + j ≡ off + (bytes - (bytes - suc left) - 1) = omega arith in
        let which : bytes - suc left ≡ bytes - 1 - j = omega arith in
        rw
          (
            place,
            get_or-set_self cmd (off + (bytes - (bytes - suc left) - 1))
                (byte_of val (bytes - suc left)) 0 (omega arith),
          )
          (rw which refl)

-- A written field: where its bytes are, and that nothing else moved.
module _ (cmd : List ℕ) (off val bytes : ℕ) where
  pub length-set_bytes : length (set_bytes cmd off val bytes) ≡ length cmd
  unfolding set_bytes
  length-set_bytes = length-set_bytes_loop cmd off val bytes bytes

  pub set_bytes_out :
      (p : ℕ)
      → (p < off) ⊎ (off + bytes ≤ p)
      → get_or (set_bytes cmd off val bytes) p 0 ≡ get_or cmd p 0
  unfolding set_bytes
  set_bytes_out p out = set_bytes_loop_out cmd off val bytes bytes p (omega arith) out

  pub set_bytes_in :
      off + bytes ≤ length cmd
      → (j : ℕ) → j < bytes
      → get_or (set_bytes cmd off val bytes) (off + j) 0 ≡ byte_of val (bytes - 1 - j)
  unfolding set_bytes
  set_bytes_in fits j lt = set_bytes_loop_in cmd off val bytes bytes j (omega arith) fits lt

-- The bytes of a field as the readers combine them, the most significant byte at `off`.
abbrev pub get_16 : (ℕ → ℕ) → ℕ
get_16 b = b 1 + 256 * (b 0)

abbrev pub get_32 : (ℕ → ℕ) → ℕ
get_32 b = b 3 + 256 * (b 2 + 256 * (b 1 + 256 * b 0))

abbrev pub get_48 : (ℕ → ℕ) → ℕ
get_48 b = b 5 + 256 * (b 4 + 256 * get_32 b)

abbrev pub get_64 : (ℕ → ℕ) → ℕ
get_64 b = b 7 + 256 * (b 6 + 256 * get_48 b)

module _ (buf : List ℕ) (off : ℕ) where
  -- Byte `j` of a field at `off`.
  abbrev pub field_at : ℕ → ℕ
  field_at j = get_or buf (off + j) 0

  pub get_int64_lem : get_int64 buf off ≡ get_64 field_at
  unfolding get_int64
  get_int64_lem = omega arith

  pub get_int48_lem : get_int48 buf off ≡ get_48 field_at % 2 ^ 48
  unfolding get_int48
  get_int48_lem = omega arith

  pub get_int32_lem : get_int32 buf off ≡ u32 (get_32 field_at)
  unfolding get_int32
  get_int32_lem = omega arith

  pub get_int16_lem : get_int16 buf off ≡ u16 (get_16 field_at)
  unfolding get_int16
  get_int16_lem = omega arith

module _ (buf : List ℕ) (off val : ℕ) where
  pub get_int64-set_int64 :
      off + 8 ≤ length buf → get_int64 (set_int64 buf off val) off ≡ val % 2 ^ 64
  unfolding set_int64
  get_int64-set_int64 fits =
      let b = set_bytes_in buf off val 8 fits in
      omega (
        arith,
        get_int64_lem (set_bytes buf off val 8) off,
        b 0 (omega arith),
        b 1 (omega arith),
        b 2 (omega arith),
        b 3 (omega arith),
        b 4 (omega arith),
        b 5 (omega arith),
        b 6 (omega arith),
        b 7 (omega arith),
      )

  pub get_int48-set_int48 :
      off + 6 ≤ length buf → get_int48 (set_int48 buf off val) off ≡ val % 2 ^ 48
  unfolding set_int48
  get_int48-set_int48 fits =
      let b = set_bytes_in buf off (val % 2 ^ 48) 6 fits in
      omega (
        arith,
        get_int48_lem (set_bytes buf off (val % 2 ^ 48) 6) off,
        b 0 (omega arith),
        b 1 (omega arith),
        b 2 (omega arith),
        b 3 (omega arith),
        b 4 (omega arith),
        b 5 (omega arith),
      )

  pub get_int32-set_int32 : off + 4 ≤ length buf → get_int32 (set_int32 buf off val) off ≡ u32 val
  unfolding set_int32
  get_int32-set_int32 fits =
      let b = set_bytes_in buf off (u32 val) 4 fits in
      omega (
        arith,
        get_int32_lem (set_bytes buf off (u32 val) 4) off,
        b 0 (omega arith),
        b 1 (omega arith),
        b 2 (omega arith),
        b 3 (omega arith),
      )

  pub get_int16-set_int16 : off + 2 ≤ length buf → get_int16 (set_int16 buf off val) off ≡ u16 val
  unfolding set_int16
  get_int16-set_int16 fits =
      let b = set_bytes_in buf off (u16 val) 2 fits in
      omega (
        arith,
        get_int16_lem (set_bytes buf off (u16 val) 2) off,
        b 0 (omega arith),
        b 1 (omega arith),
      )

-- For every buffer with 8 bytes from `off` on, and every value, each of the four readers gives back
-- what the writer of its width stored: the value reduced to 64, 48, 32 or 16 bits.
pub int_fields_round_trip :
    (buf : List ℕ) (off val : ℕ)
    → off + 8 ≤ length buf
    → (get_int64 (set_int64 buf off val) off ≡ val % 2 ^ 64)
      × (get_int48 (set_int48 buf off val) off ≡ val % 2 ^ 48)
      × (get_int32 (set_int32 buf off val) off ≡ val % 2 ^ 32)
      × (get_int16 (set_int16 buf off val) off ≡ val % 2 ^ 16)
int_fields_round_trip buf off val fits = (
  get_int64-set_int64 buf off val fits,
  get_int48-set_int48 buf off val (omega arith),
  get_int32-set_int32 buf off val (omega arith),
  get_int16-set_int16 buf off val (omega arith),
)
