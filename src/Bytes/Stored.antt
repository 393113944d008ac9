-- ===== src/Bytes/Stored.antt =====
-- Integers as the bytes that a drive stores, the most significant first.
use libzbc.Base.{ℕ, ◌-◌, ◌%◌, ◌^◌, ◌≡◌, arith, List, [], ◌∷◌}
use libzbc.Bytes.{byte_of, get_int64, get_int32}
use libzbc.Bytes.RoundTrip.{get_64, get_32, field_at, get_int64_lem, get_int32_lem}

-- The eight bytes of an integer.
abbrev pub be64 : ℕ → List ℕ
be64 v =
    byte_of v 7
    ∷ byte_of v 6
    ∷ byte_of v 5
    ∷ byte_of v 4
    ∷ byte_of v 3
    ∷ byte_of v 2
    ∷ byte_of v 1
    ∷ byte_of v 0
    ∷ []

-- The four bytes of an integer.
abbrev pub be32 : ℕ → List ℕ
be32 v = byte_of v 3 ∷ byte_of v 2 ∷ byte_of v 1 ∷ byte_of v 0 ∷ []

-- A field that holds the bytes of an integer reads as it.
pub get_int64_stored :
    (buf : List ℕ) (off v : ℕ)
    → get_64 (field_at buf off) ≡ get_64 (λ j. byte_of v (7 - j))
    → get_int64 buf off ≡ v % 2 ^ 64
get_int64_stored buf off v e = omega (arith, get_int64_lem buf off, e)

pub get_int32_stored :
    (buf : List ℕ) (off v : ℕ)
    → get_32 (field_at buf off) ≡ get_32 (λ j. byte_of v (3 - j))
    → get_int32 buf off ≡ v % 2 ^ 32
get_int32_stored buf off v e = omega (arith, get_int32_lem buf off, e)
