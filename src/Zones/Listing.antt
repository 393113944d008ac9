-- ===== src/Zones/Listing.antt =====
-- zbc_list_zones lists all zones to report.
use libzbc.Base.{ℕ, ◌<◌, ◌^◌, ◌≡◌, refl, ◌∙◌, arith, Bool, true, false}
use libzbc.Base.{
  Option, none, some, List, [], length, take, replicate, length-replicate, take_all, ℤ, pos,
  ==zero_false, gt→leb, &&-false,
}
use libzbc.Device.{Device, Zone, zbc_rz_ro_mask}
use libzbc.Device.Driver.{Drv}
use libzbc.Zones.{no_zone, zbc_report_zones, zbc_list_zones}
use libzbc.Zones.Spec.{Reports, reported}
use libzbc.Zones.Report.{report_zones_complete, report_zones-ok}

-- A report without an array, from a sector inside the capacity, gives the number of zones to report,
-- and goes on to a state that `ok` names.
abbrev pub Counts :
    {S : Type 0} → Drv S → Device → (S → Type 0) → ℕ → (Zone → Bool) → List Zone → Type 0
Counts {S} drv dev ok ro p zs =
    (sector : ℕ) (s : S)
    → ok s
    → sector < dev.zbd_info.zbd_sectors
    → let (r, s') = drv.zbd_report_zones dev sector (zbc_rz_ro_mask ro) false 0 s in
      (r.ret ≡ pos 0) × (r.nr ≡ length (reported p zs sector)) × ok s'

-- The entries of the array that is stored, if one is, up to the count stored.
unfoldable pub listed_zones : Option (Option (List Zone) × ℕ) → List Zone
listed_zones none = []
listed_zones (some (none, n)) = []
listed_zones (some (some zs, n)) = take n zs

counts_lem :
    {S : Type 0} (drv : Drv S) (dev : Device) (ok : S → Type 0) (ro sector : ℕ) (p : Zone → Bool)
    (zs : List Zone)
    → sector < dev.zbd_info.zbd_sectors
    → Counts drv dev ok ro p zs
    → (junk : ℤ) (s : S) → ok s
    → let (r, s') = zbc_report_zones drv junk dev sector ro none 0 s in
      (r.ret ≡ pos 0) × (r.nr ≡ length (reported p zs sector)) × ok s'
unfolding zbc_report_zones
counts_lem drv dev ok ro sector p zs inside counts junk s g =
    rw (gt→leb dev.zbd_info.zbd_sectors sector inside, &&-false) (counts sector s g inside)

module _ {S : Type 0} {drv : Drv S} {dev : Device} {ok : S → Type 0} (ro : ℕ) {p : Zone → Bool}
    {zs : List Zone} (d : Reports drv dev ok (zbc_rz_ro_mask ro) p zs)
    (counts : Counts drv dev ok (zbc_rz_ro_mask ro) p zs) (calloc : ℕ → Bool) (junk : ℤ)
    (sector : ℕ) (s : S) (g : ok s) (inside : sector < dev.zbd_info.zbd_sectors)
    (nonempty : 0 < length (reported p zs sector))
    (room : calloc (length (reported p zs sector)) ≡ true) where
  -- A driver that reports and counts the zones of the device in the states that `ok` names. From such
  -- a state, and while the allocation of the list succeeds, a call for a sector inside the capacity
  -- with a positive number of zones to report below 2 ^ 32 succeeds and stores exactly the zones to
  -- report from the sector on, in order.
  pub list_zones_complete :
      length (reported p zs sector) < 2 ^ 32
      → let (ret, out) = (zbc_list_zones drv junk dev calloc sector ro s).0 in
        (ret ≡ pos 0) × (listed_zones out ≡ reported p zs sector)
  unfolding zbc_list_zones listed_zones
  list_zones_complete small =
      let all = reported p zs sector in
      let n = length all in
      let first = counts_lem drv dev ok (zbc_rz_ro_mask ro) sector p zs inside counts junk s g in
      let s₁ = (zbc_report_zones drv junk dev sector (zbc_rz_ro_mask ro) none 0 s).1 in
      let second =
        report_zones_complete d junk sector n (replicate n no_zone) s₁ first.2 inside nonempty small
          (omega (arith, length-replicate n no_zone)) in
      rw (first.0, first.1, ==zero_false n nonempty, room, second.0)
        (refl, second.2 ∙ take_all n all (omega arith))

  -- Such a call leaves a state in which the promise holds.
  pub list_zones-ok :
      length (reported p zs sector) < 2 ^ 32 → ok (zbc_list_zones drv junk dev calloc sector ro s).1
  unfolding zbc_list_zones
  list_zones-ok small =
      let all = reported p zs sector in
      let n = length all in
      let first = counts_lem drv dev ok (zbc_rz_ro_mask ro) sector p zs inside counts junk s g in
      let s₁ = (zbc_report_zones drv junk dev sector (zbc_rz_ro_mask ro) none 0 s).1 in
      let second =
        report_zones_complete d junk sector n (replicate n no_zone) s₁ first.2 inside nonempty small
          (omega (arith, length-replicate n no_zone)) in
      let left = report_zones-ok d junk sector n (replicate n no_zone) s₁ first.2 inside in
      rw (first.0, first.1, ==zero_false n nonempty, room, second.0) left
