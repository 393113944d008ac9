-- ===== src/Zones/GroupOp.antt =====
-- An operation on several zones, where the drive has no zone count, goes zone by zone.
use libzbc.Base.{ℕ, zero, suc, ◌+◌, ◌^◌, ◌≤◌, ◌<◌, ◌≡◌, refl, sym, ap, ◌∙◌, arith, Bool}
use libzbc.Base.{true, false, Bool-cases, not, ◌&&◌, ◌||◌, inl, inr, List, [], ◌∷◌, ℤ, pos, is_zero}
use libzbc.Base.{some, u64, has, length, take, get_or, get_or-take, All, ltb, if◌then◌else◌, gt→leb}
use libzbc.Device.{Device, Zone, op_all_zones, zbc_test_mode, zbc_zone_count_supported}
use libzbc.Device.Sectors.{zbc_dev_sect_laligned}
use libzbc.Device.Driver.{Drv}
use libzbc.Zones.{no_zone, zbc_report_zones, group_op_loop, zbc_zone_group_op}
use libzbc.Zones.Spec.{Covers, Reports, from_sector, matching, reported}
use libzbc.Zones.Suffix.{zone_end, Covers-le}
use mathlib.Core.Path.{subst}
use libzbc.Zones.Report.{report_zones_complete}

-- The operation on the zones that start at the sectors, one command each, up to the first failure.
unfoldable pub run_ops : {S : Type 0} → Drv S → Device → ℕ → ℕ → List ℕ → S → ℤ × S
run_ops drv dev op flags [] s = (pos 0, s)
run_ops drv dev op flags (sector ∷ sectors) s =
    let (ret, s') = drv.zbd_zone_op dev sector 0 op flags s in
    let rest = run_ops drv dev op flags sectors s' in if not (is_zero ret) then (ret, s') else rest

-- The start sectors of zones.
abbrev pub starts : List Zone → List ℕ
starts [] = []
starts (z ∷ zs) = z.zbz_start ∷ starts zs

module _ {S : Type 0} (drv : Drv S) (dev : Device) (op flags len : ℕ) where
  loop-run_ops :
      (count a b : ℕ) (zs : List Zone) (s : S)
      → Covers a b zs
      → b < 2 ^ 64
      → All (λ z. z.zbz_length ≡ len) (take count zs)
      → count ≤ length zs
      → group_op_loop drv dev count a len op flags s
        ≡ run_ops drv dev op flags (starts (take count zs)) s
  unfolding group_op_loop run_ops
  loop-run_ops zero a b zs s c small same fits = refl
  loop-run_ops (suc count) a b [] s c small same fits = absurd (omega arith)
  loop-run_ops (suc count) a b (z ∷ zs) s c small same fits =
      let next : u64 (a + len) ≡ a + z.zbz_length =
        omega (arith, c, same.0, Covers-le _ b zs c.2) in
      rw (
        next,
        loop-run_ops count (a + z.zbz_length) b zs (drv.zbd_zone_op dev a 0 op flags s).1 c.2 small
            same.1 (omega arith),
        c.0,
      )

-- The zones cover what lies between the start of the first and `b`.
abbrev CoversTo : ℕ → List Zone → Type 0
CoversTo b [] = Unit
CoversTo b (z ∷ zs) = Covers z.zbz_start b (z ∷ zs)

from_sector-CoversTo :
    (a b sector : ℕ) (zs : List Zone) → Covers a b zs → CoversTo b (from_sector sector zs)
unfolding from_sector
from_sector-CoversTo a b sector [] c = tt
from_sector-CoversTo a b sector (z ∷ zs) c = elim (Bool-cases (ltb sector (zone_end z))) [
  | inl e ↦ rw e (refl, c.1, subst (λ t. Covers (t + z.zbz_length) b zs) (sym c.0) c.2)
  | inr e ↦ rw e (from_sector-CoversTo (a + z.zbz_length) b sector zs c.2)
]

guard_off : (a l : Bool) → (a || l) ≡ true → (not a && true && not l) ≡ false
guard_off a l h = ground arith

-- With no filter all zones are reported.
pub matching_all : (zs : List Zone) → matching (λ z. true) zs ≡ zs
unfolding matching
matching_all [] = refl
matching_all (z ∷ zs) = ap (λ l. z ∷ l) (matching_all zs)

module _ {S : Type 0} {drv : Drv S} {dev : Device} {ok : S → Type 0} {zs : List Zone}
    (d : Reports drv dev ok 0 (λ z. true) zs) (junk : ℤ) (junk_zone : Zone) where
  -- The report of one zone gives the zone that holds the sector.
  first_reported :
      (sector : ℕ) (z : Zone) (rest : List Zone) (s : S)
      → ok s
      → sector < dev.zbd_info.zbd_sectors
      → from_sector sector zs ≡ z ∷ rest
      → let r = (zbc_report_zones drv junk dev sector 0 (some (junk_zone ∷ [])) 1 s).0 in
        (r.ret ≡ pos 0) × (get_or r.stored 0 no_zone ≡ z)
  first_reported sector z rest s g inside e =
      let r = (zbc_report_zones drv junk dev sector 0 (some (junk_zone ∷ [])) 1 s).0 in
      let done =
        report_zones_complete d junk sector 1 (junk_zone ∷ []) s g inside (omega arith)
          (omega arith) (omega arith) in
      let all : reported (λ z. true) zs sector ≡ z ∷ rest =
        unfold reported in (matching_all (from_sector sector zs) ∙ e) in
      let one : r.nr ≡ 1 = omega (arith, done.1, ap length all) in
      (
        done.0,
        sym (get_or-take 1 r.stored 0 no_zone (omega arith))
            ∙ ap (λ n. get_or (take n r.stored) 0 no_zone) (sym one)
            ∙ ap (λ l. get_or l 0 no_zone) (done.2 ∙ ap (take 1) all),
      )

  -- A drive without zone counts whose reports, in the states that `ok` names, are those of the zones
  -- `zs`. From such a state, an operation on 2 or more zones, not on all, from the start of a zone
  -- on, which is aligned to the logical block unless the device is in test mode: if the zones are all
  -- of one length and there are as many, the drive gets one command for each of the zones, in order
  -- and at their start sectors, after the report of the first; the commands stop at the first that
  -- fails, and its code is returned. The commands may change the zones and leave those states.
  pub group_op_emulates :
      (sector count op flags : ℕ) (z : Zone) (rest : List Zone) (s : S)
      → ok s
      → (zbc_test_mode dev || zbc_dev_sect_laligned dev sector) ≡ true
      → has flags op_all_zones ≡ false
      → zbc_zone_count_supported dev.zbd_info ≡ false
      → 2 ≤ count
      → sector < dev.zbd_info.zbd_sectors
      → from_sector sector zs ≡ z ∷ rest
      → z.zbz_start ≡ sector
      → count ≤ length (z ∷ rest)
      → All (λ y. y.zbz_length ≡ z.zbz_length) (take count (z ∷ rest))
      → zbc_zone_group_op drv junk dev junk_zone sector count op flags s
        ≡ run_ops drv dev op flags
            (starts (take count (z ∷ rest)))
            (zbc_report_zones drv junk dev sector 0 (some (junk_zone ∷ [])) 1 s).1
  unfolding zbc_zone_group_op
  group_op_emulates sector count op flags z rest s g al one unsup two inside e st enough same =
      let f = first_reported sector z rest s g inside e in
      let s' = (zbc_report_zones drv junk dev sector 0 (some (junk_zone ∷ [])) 1 s).1 in
      rw
        (
          one,
          guard_off (zbc_test_mode dev) (zbc_dev_sect_laligned dev sector) al,
          gt→leb count 1 two,
          unsup,
          f.0,
          f.1,
        )
        (loop-run_ops drv dev op flags z.zbz_length count sector dev.zbd_info.zbd_sectors (z ∷ rest)
          s' covers d.capacity same enough)
    where
      covers : Covers sector dev.zbd_info.zbd_sectors (z ∷ rest)
      covers =
          let c : CoversTo dev.zbd_info.zbd_sectors (z ∷ rest) =
            subst (CoversTo dev.zbd_info.zbd_sectors) e
              (from_sector-CoversTo 0 dev.zbd_info.zbd_sectors sector zs d.covers) in
          subst (λ t. Covers t dev.zbd_info.zbd_sectors (z ∷ rest)) st c
