-- ===== src/Scsi/Blocks.antt =====
-- The zones of a drive in logical blocks, and the same zones in sectors.
use libzbc.Base.{
  ℕ, ◌+◌, ◌*◌, ◌/◌, ◌^◌, ◌≤◌, ◌<◌, ◌≡◌, refl, sym, ap, ◌∙◌, inl, inr, arith, Bool, Bool-cases, List,
  [], ◌∷◌, map, All, take, ltb, ltb→lt, ltb→ge, lt→ltb, if◌then◌else◌, ◌==◌, ==→eq, u64, zero, suc,
}
use libzbc.Device.{Device, Zone}
use libzbc.Device.Sectors.{zbc_dev_sect2lba, zbc_dev_lba2sect}
use libzbc.Scsi.ZoneWire.{WireZone, IsWire, in_sectors}
use libzbc.Zones.Spec.{Covers, from_sector, matching, reported}
use native.Mathlib.Nat.{
  add-mul, mul_left_comm, mul-pos, div-lt_iff_lt-mul, mul-div-mul_left, mul-le-mul_right, zero-mul,
  zero-div,
}

-- The zones cover the blocks from the first number to the second, without a hole.
abbrev pub WireCovers : ℕ → ℕ → List WireZone → Type 0
WireCovers a b [] = a ≡ b
WireCovers a b (w ∷ ws) = (w.start ≡ a) × (0 < w.blocks) × WireCovers (a + w.blocks) b ws

-- The zones from the one that holds the block on.
unfoldable pub wires_from : ℕ → List WireZone → List WireZone
wires_from lba [] = []
wires_from lba (w ∷ ws) = if ltb lba (w.start + w.blocks) then w ∷ ws else wires_from lba ws

unfoldable pub wires_matching : (WireZone → Bool) → List WireZone → List WireZone
wires_matching q [] = []
wires_matching q (w ∷ ws) = if q w then w ∷ wires_matching q ws else wires_matching q ws

-- What a drive lists from a block on.
unfoldable pub wires_listed : (WireZone → Bool) → List WireZone → ℕ → List WireZone
unfolding wires_from wires_matching
wires_listed q ws lba = wires_matching q (wires_from lba ws)

-- All zones of a part are zones of the whole.
from-All : (lba : ℕ) (ws : List WireZone) → All IsWire ws → All IsWire (wires_from lba ws)
unfolding wires_from
from-All lba [] h = h
from-All lba (w ∷ ws) h = elim (Bool-cases (ltb lba (w.start + w.blocks))) [
  | inl t ↦ rw t h
  | inr t ↦ rw t (from-All lba ws h.1)
]

matching-All :
    (q : WireZone → Bool) (ws : List WireZone) → All IsWire ws → All IsWire (wires_matching q ws)
unfolding wires_matching
matching-All q [] h = h
matching-All q (w ∷ ws) h = elim (Bool-cases (q w)) [
  | inl t ↦ rw t (h.0, matching-All q ws h.1)
  | inr t ↦ rw t (matching-All q ws h.1)
]

pub listed-All :
    (q : WireZone → Bool) (ws : List WireZone) (lba : ℕ)
    → All IsWire ws
    → All IsWire (wires_listed q ws lba)
unfolding wires_listed
listed-All q ws lba h = matching-All q (wires_from lba ws) (from-All lba ws h)

pub take-All : (n : ℕ) (ws : List WireZone) → All IsWire ws → All IsWire (take n ws)
take-All zero ws h = tt
take-All (suc n) [] h = tt
take-All (suc n) (w ∷ ws) h = (h.0, take-All n ws h.1)

pub map-take :
    (f : WireZone → Zone) (n : ℕ) (ws : List WireZone) → map f (take n ws) ≡ take n (map f ws)
map-take f zero ws = refl
map-take f (suc n) [] = refl
map-take f (suc n) (w ∷ ws) = rw (map-take f n ws) refl

map-matching :
    (f : WireZone → Zone) (p : Zone → Bool) (ws : List WireZone)
    → matching p (map f ws) ≡ map f (wires_matching (λ w. p (f w)) ws)
unfolding matching wires_matching
map-matching f p [] = refl
map-matching f p (w ∷ ws) = elim (Bool-cases (p (f w))) [
  | inl t ↦ rw (t, map-matching f p ws) refl
  | inr t ↦ rw (t, map-matching f p ws) refl
]

-- The sectors before the end of a block are those of the blocks before it.
same_test : (m sector x : ℕ) → 0 < m → ltb sector (x * m) ≡ ltb (sector / m) x
same_test m sector x h = elim (Bool-cases (ltb (sector / m) x)) [
  | inl t ↦
      lt→ltb sector (x * m)
        ((div-lt_iff_lt-mul {k = m} {x = sector} {y = x} h).0 (ltb→lt (sector / m) x t))
      ∙ sym t
  | inr t ↦ elim (Bool-cases (ltb sector (x * m))) [
    | inr u ↦ u ∙ sym t
    | inl u ↦ absurd (
        omega (
          arith,
          (div-lt_iff_lt-mul {k = m} {x = sector} {y = x} h).1 (ltb→lt sector (x * m) u),
          ltb→ge (sector / m) x t,
        ))
  ]
]

-- A device whose logical blocks have `m` sectors.
module _ (dev : Device) (m : ℕ) (size : dev.zbd_info.zbd_lblock_size ≡ 512 * m)
    (m_pos : 0 < m) where
  pub lba2sect_lem : (b : ℕ) → b * m < 2 ^ 55 → zbc_dev_lba2sect dev b ≡ b * m
  unfolding zbc_dev_lba2sect
  lba2sect_lem b small = elim (Bool-cases (b == 0)) [
    | inl z ↦ let e : b ≡ 0 = ==→eq b 0 z in rw e (sym (zero-mul m))
    | inr z ↦
        let e : b * (512 * m) ≡ 512 * (b * m) = mul_left_comm b 512 m in
        rw (z, size, e) (omega arith)
  ]

  pub sect2lba_lem : (sector : ℕ) → sector < 2 ^ 55 → zbc_dev_sect2lba dev sector ≡ sector / m
  unfolding zbc_dev_sect2lba
  sect2lba_lem sector small = elim (Bool-cases (sector == 0)) [
    | inl z ↦ let e : sector ≡ 0 = ==→eq sector 0 z in rw e (sym (zero-div m))
    | inr z ↦
        let e : u64 (sector * 512) ≡ 512 * sector = omega arith in
        rw (z, size, e) (mul-div-mul_left {m = 512} sector m (omega arith))
  ]

wire_le : (a b : ℕ) (ws : List WireZone) → WireCovers a b ws → a ≤ b
wire_le a b [] e = omega arith
wire_le a b (w ∷ ws) (s, l, c) = omega (arith, wire_le (a + w.blocks) b ws c)

module _ (dev : Device) (m : ℕ) (size : dev.zbd_info.zbd_lblock_size ≡ 512 * m) (m_pos : 0 < m)
    (b : ℕ) (small : b * m < 2 ^ 55) where
  inside : (x : ℕ) → x ≤ b → zbc_dev_lba2sect dev x ≡ x * m
  inside x h = lba2sect_lem dev m size m_pos x (omega (arith, mul-le-mul_right {m = x} {n = b} m h))

  -- The zones in sectors cover the sectors of the blocks.
  pub covers_lem :
      (a : ℕ) (ws : List WireZone)
      → WireCovers a b ws
      → Covers (a * m) (b * m) (map (in_sectors dev) ws)
  unfolding in_sectors
  covers_lem a [] e = ap (λ (t : ℕ). t * m) e
  covers_lem a (w ∷ ws) (s, l, c) =
      let le = wire_le (a + w.blocks) b ws c in
      let start : zbc_dev_lba2sect dev w.start ≡ a * m =
        inside w.start (omega arith) ∙ ap (λ (t : ℕ). t * m) s in
      let len : zbc_dev_lba2sect dev w.blocks ≡ w.blocks * m = inside w.blocks (omega arith) in
      let rest : Covers ((a + w.blocks) * m) (b * m) (map (in_sectors dev) ws) =
        covers_lem (a + w.blocks) ws c in
      rw (start, len) (refl, mul-pos l m_pos, (rw add-mul at rest))

  -- The zones from a sector on are those from its block on.
  from_lem :
      (a sector : ℕ) (ws : List WireZone)
      → WireCovers a b ws
      → from_sector sector (map (in_sectors dev) ws)
        ≡ map (in_sectors dev) (wires_from (sector / m) ws)
  unfolding from_sector wires_from in_sectors
  from_lem a sector [] e = refl
  from_lem a sector (w ∷ ws) (s, l, c) =
      let le = wire_le (a + w.blocks) b ws c in
      let ends : zbc_dev_lba2sect dev w.start + zbc_dev_lba2sect dev w.blocks
          ≡ (w.start + w.blocks) * m =
        rw (inside w.start (omega arith), inside w.blocks (omega arith))
          (sym (add-mul w.start w.blocks m)) in
      let test =
        ap (λ (t : ℕ). ltb sector t) ends ∙ same_test m sector (w.start + w.blocks) m_pos in
      elim (Bool-cases (ltb (sector / m) (w.start + w.blocks))) [
        | inl t ↦ rw (test, t) refl
        | inr t ↦ rw (test, t) (from_lem (a + w.blocks) sector ws c)
      ]

  -- What a report for a sector lists is what the drive lists from its block on.
  pub reported_lem :
      (p : Zone → Bool) (sector : ℕ) (ws : List WireZone)
      → WireCovers 0 b ws
      → reported p (map (in_sectors dev) ws) sector
        ≡ map (in_sectors dev) (wires_listed (λ w. p (in_sectors dev w)) ws (sector / m))
  unfolding reported wires_listed
  reported_lem p sector ws c =
      rw (from_lem 0 sector ws c) (map-matching (in_sectors dev) p (wires_from (sector / m) ws))
