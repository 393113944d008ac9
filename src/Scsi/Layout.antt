-- ===== src/Scsi/Layout.antt =====
-- A drive whose zones are known in blocks, and the promise of a driver that lists them.
use libzbc.Base.{
  ℕ, zero, suc, ◌-◌, ◌*◌, ◌/◌, ◌^◌, ◌≤◌, ◌<◌, ◌≡◌, refl, sym, ap, ◌∙◌, arith, Bool, true, List, [],
  ◌∷◌, map, All, take, length, length-take, pos, bit_or,
}
use libzbc.Device.{Device, Zone, ro_partial, zbc_rz_ro_mask}
use libzbc.Device.Driver.{Drv, Filled}
use libzbc.Scsi.ZoneWire.{WireZone, IsWire, in_sectors}
use libzbc.Scsi.Blocks.{WireCovers, wires_listed, covers_lem, reported_lem, map-take}
use libzbc.Zones.Spec.{Covers, Reports, reported}
use native.Mathlib.Nat.{zero-mul}

-- The drive has `b` logical blocks of `m` sectors, which its zones cover, and the device agrees.
pub record Layout (dev : Device) (m b : ℕ) (ws : List WireZone) : Type 0 where
  pub size : dev.zbd_info.zbd_lblock_size ≡ 512 * m
  pub m_pos : 0 < m
  pub capacity : dev.zbd_info.zbd_sectors ≡ b * m
  pub small : b * m < 2 ^ 55
  pub covers : WireCovers 0 b ws
  pub fits : All IsWire ws

-- The number of descriptors that a reply of that many bytes has room for.
abbrev pub room_in : ℕ → ℕ
room_in bufsz = (bufsz - 64) / 64

length-map : (f : WireZone → Zone) (ws : List WireZone) → length (map f ws) ≡ length ws
length-map f [] = refl
length-map f (w ∷ ws) = ap suc (length-map f ws)

-- A part of the front is known by its length.
front :
    (n room : ℕ) (ws : List WireZone)
    → take n (take room ws) ≡ take (length (take n (take room ws))) ws
front zero room ws = refl
front (suc n) zero ws = refl
front (suc n) (suc room) [] = refl
front (suc n) (suc room) (w ∷ ws) = ap (λ (t : List WireZone). w ∷ t) (front n room ws)

-- What a driver leaves that stores at most `n` of the zones that a reply with room for `room` has.
abbrev pub partial_report : Device → ℕ → ℕ → List WireZone → Filled Zone
partial_report dev n room ws = record {
  ret = pos 0;
  stored = map (in_sectors dev) (take n (take room ws));
  nr = length (take n (take room ws));
}

module _ {S : Type 0} (drv : Drv S) (dev : Device) (m b ro : ℕ) (p : Zone → Bool)
    (ws : List WireZone) (layout : Layout dev m b ws) (room : ℕ → ℕ)
    (some_room : (n : ℕ) → 0 < room n)
    (answers : (sector n : ℕ) (s : S)
      → sector < dev.zbd_info.zbd_sectors
      → (drv.zbd_report_zones dev sector (bit_or (zbc_rz_ro_mask ro) ro_partial) true n s).0
        ≡ partial_report dev n
            (room n)
            (wires_listed (λ w. p (in_sectors dev w)) ws (sector / m))) where
  abbrev listed : ℕ → List WireZone
  listed sector = wires_listed (λ w. p (in_sectors dev w)) ws (sector / m)

  abbrev zones : List Zone
  zones = map (in_sectors dev) ws

  report_lem : (sector : ℕ) → reported p zones sector ≡ map (in_sectors dev) (listed sector)
  report_lem sector =
      reported_lem dev m layout.size layout.m_pos b layout.small p sector ws layout.covers

  count_lem : (sector : ℕ) → length (reported p zones sector) ≡ length (listed sector)
  count_lem sector = ap length (report_lem sector) ∙ length-map (in_sectors dev) (listed sector)

  sectors-Covers : Covers 0 dev.zbd_info.zbd_sectors zones
  sectors-Covers =
      let blocks : Covers (0 * m) (b * m) zones =
        covers_lem dev m layout.size layout.m_pos b layout.small 0 ws layout.covers in
      let from_zero : Covers 0 (b * m) zones = rw zero-mul at blocks in
      ends (b * m) dev.zbd_info.zbd_sectors (sym layout.capacity) from_zero
    where
      ends : (x y : ℕ) → x ≡ y → Covers 0 x zones → Covers 0 y zones
      ends x y e c = rw e at c

  -- A driver whose partial reports have the front of what the drive lists, at least one zone if
  -- there is one, keeps the promise that lib/zbc.c relies on.
  pub Reports-of : Reports drv dev (λ s. Unit) ro p zones
  Reports-of = record {
    covers = sectors-Covers;
    capacity = omega (arith, layout.capacity, layout.small);
    succeeds = λ sector n s g h. ap (λ (r : Filled Zone). r.ret) (answers sector n s h);
    stores = λ sector n s g h.
        rw (answers sector n s h, report_lem sector)
          (ap (map (in_sectors dev)) (front n (room n) (listed sector))
            ∙ map-take (in_sectors dev) (length (take n (take (room n) (listed sector))))
                (listed sector));
    fits = λ sector n s g h.
        rw (answers sector n s h, count_lem sector) (lengths n (room n) (listed sector));
    stays = λ sector n s g h. tt;
    progress = λ sector n s g h some' more. rw (answers sector n s h) (
        omega (
          arith,
          length-take n (take (room n) (listed sector)),
          length-take (room n) (listed sector),
          count_lem sector,
          some_room n,
        ));
  }
    where
      lengths :
          (n room : ℕ) (xs : List WireZone)
          → (length (take n (take room xs)) ≤ n) × (length (take n (take room xs)) ≤ length xs)
      lengths n room xs =
          let a = length-take n (take room xs) in
          let c = length-take room xs in (omega arith, omega arith)
