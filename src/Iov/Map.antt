-- ===== src/Iov/Map.antt =====
-- zbc_map_iov cuts one buffer into a vector.
use libzbc.Base.{
  ℕ, zero, suc, ◌+◌, ◌-◌, ◌*◌, ◌^◌, ◌≤◌, ◌<◌, ◌≡◌, refl, sym, ap, ◌∙◌, ◌⊎◌, inl, inr, arith,
}
use libzbc.Base.{
  Bool, true, false, ◌||◌, [], length, All, ◌==◌, ltb, if◌then◌else◌, u64, pos, neg_einval,
}
use libzbc.Base.{ge→ltb, lt→ltb, ==zero_false}
use libzbc.Device.Driver.{Iovec}
use libzbc.Iov.{map_iov_loop, zbc_map_iov}
use libzbc.Iov.Bytes.{range, bytes_of, range_zero, range-append}
use native.Mathlib.Decide.{dec_lt}
use native.Mathlib.Nat.{mul_comm, mul-suc}

module _ (iovlen : ℕ) where
  -- The length of the next entry.
  abbrev piece : ℕ → ℕ
  piece sectors = if ltb iovlen sectors then iovlen else sectors

  piece_le : (sectors : ℕ) → (piece sectors ≤ sectors) × (piece sectors ≤ iovlen)
  piece_le sectors = ground arith

  piece_pos : (sectors : ℕ) → 0 < iovlen → 0 < sectors → 0 < piece sectors
  piece_pos sectors h k = ground arith

  -- An entry of at most `iovlen` sectors.
  abbrev pub Fits : Iovec → Type 0
  Fits v = v.iov_len ≤ iovlen

  loop_bytes :
      (rounds buf sectors : ℕ)
      → 0 < iovlen
      → sectors ≤ rounds
      → bytes_of 512 (map_iov_loop rounds iovlen buf sectors) ≡ range buf (sectors * 512)
  unfolding map_iov_loop bytes_of
  loop_bytes zero buf sectors h k =
      let e : 0 ≡ sectors * 512 = omega arith in rw (← e) (sym (range_zero buf))
  loop_bytes (suc rounds) buf zero h k = sym (range_zero buf)
  loop_bytes (suc rounds) buf (suc n) h k =
      let len = piece (suc n) in
      let e : len * 512 + (suc n - len) * 512 ≡ suc n * 512 = omega (arith, piece_le (suc n)) in
      rw
        (
          ==zero_false (suc n) (omega arith),
          loop_bytes rounds (buf + len * 512) (suc n - len) h
              (omega (arith, piece_le (suc n), piece_pos (suc n) h (omega arith))),
        )
        (range-append buf (len * 512) ((suc n - len) * 512) ∙ ap (range buf) e)

  loop-Fits : (rounds buf sectors : ℕ) → All Fits (map_iov_loop rounds iovlen buf sectors)
  unfolding map_iov_loop
  loop-Fits zero buf sectors = tt
  loop-Fits (suc rounds) buf zero = tt
  loop-Fits (suc rounds) buf (suc n) =
      let len = piece (suc n) in
      rw (==zero_false (suc n) (omega arith))
        ((piece_le (suc n)).1, loop-Fits rounds (buf + len * 512) (suc n - len))

  mul-suc_left : (k : ℕ) → suc k * iovlen ≡ iovlen + k * iovlen
  mul-suc_left k = mul_comm (suc k) iovlen ∙ mul-suc iovlen k ∙ omega (arith, mul_comm iovlen k)

  -- `k` entries hold the sectors, so no more are written.
  loop_count :
      (rounds buf sectors k : ℕ)
      → sectors ≤ k * iovlen
      → length (map_iov_loop rounds iovlen buf sectors) ≤ k
  unfolding map_iov_loop
  loop_count zero buf sectors k h = omega arith
  loop_count (suc rounds) buf zero k h = omega arith
  loop_count (suc rounds) buf (suc n) zero h = absurd (omega arith)
  loop_count (suc rounds) buf (suc n) (suc k) h =
      let len = piece (suc n) in
      let less : suc n - len ≤ k * iovlen = left n k h in
      rw (==zero_false (suc n) (omega arith))
        (omega (arith, loop_count rounds (buf + len * 512) (suc n - len) k less))
    where
      left : (n k : ℕ) → suc n ≤ suc k * iovlen → suc n - piece (suc n) ≤ k * iovlen
      left n k h = let e : suc k * iovlen ≡ iovlen + k * iovlen = mul-suc_left k in ground arith

factors_pos : (m n : ℕ) → 0 < m * n → (0 < m) × (0 < n)
factors_pos zero n h = absurd (omega arith)
factors_pos (suc m) zero h = absurd (omega arith)
factors_pos (suc m) (suc n) h = (omega arith, omega arith)

||-true : (b : Bool) → (b || true) ≡ true
||-true true = refl
||-true false = refl

-- A call with a buffer, a vector and positive numbers of sectors and of entries succeeds exactly
-- when the entries hold the sectors (products below 2 ^ 64). Then the entries written are as
-- many as returned and no more than the vector has, each is of at most `iovlen` sectors, and
-- together they are the bytes of the buffer, in order; otherwise the code is -EINVAL and nothing
-- is written.
pub map_iov_partition :
    (buf sectors iovcnt iovlen : ℕ)
    → 0 < buf
    → 0 < sectors
    → iovcnt * iovlen < 2 ^ 64
    → let (ret, vs) = zbc_map_iov buf sectors true iovcnt iovlen in
      ((sectors ≤ iovcnt * iovlen)
        × (ret ≡ pos (length vs))
        × (length vs ≤ iovcnt)
        × All (Fits iovlen) vs
        × (bytes_of 512 vs ≡ range buf (sectors * 512)))
      ⊎ ((iovcnt * iovlen < sectors) × (ret ≡ neg_einval) × (vs ≡ []))
unfolding zbc_map_iov
map_iov_partition buf sectors iovcnt iovlen b s small = elim (dec_lt (iovcnt * iovlen) sectors) [
  | yes lt ↦
      rw
        (
          ==zero_false buf b,
          ==zero_false sectors s,
          lt→ltb (u64 (iovcnt * iovlen)) sectors (omega arith),
          ||-true (iovcnt == 0),
        )
        (inr (lt, refl, refl))
  | no ge ↦
      let (c, l) = factors_pos iovcnt iovlen (omega arith) in
      rw
        (
          ==zero_false buf b,
          ==zero_false sectors s,
          ==zero_false iovcnt c,
          ge→ltb (u64 (iovcnt * iovlen)) sectors (omega arith),
        )
        (inl (
          omega arith,
          refl,
          loop_count iovlen sectors buf sectors iovcnt (omega arith),
          loop-Fits iovlen sectors buf sectors,
          loop_bytes iovlen sectors buf sectors l (omega arith),
        ))
]
