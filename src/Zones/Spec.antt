-- ===== src/Zones/Spec.antt =====
-- What a device reports: its zones follow one another from sector 0 to the capacity, and a report
-- lists those from a sector on that match the reporting options.
use libzbc.Base.{ℕ, ◌+◌, ◌≤◌, ◌<◌, ◌^◌, ◌≡◌, Bool, true, List, [], ◌∷◌, ltb, if◌then◌else◌}
use libzbc.Base.{pos, length, take, bit_or}
use libzbc.Device.{Device, Zone, ro_partial, zbc_rz_ro_mask}
use libzbc.Device.Driver.{Drv}

-- The zones cover the sectors from the first number to the second, without a hole.
abbrev pub Covers : ℕ → ℕ → List Zone → Type 0
Covers a b [] = a ≡ b
Covers a b (z ∷ zs) = (z.zbz_start ≡ a) × (0 < z.zbz_length) × Covers (a + z.zbz_length) b zs

-- The zones from the one that holds the sector on.
unfoldable pub from_sector : ℕ → List Zone → List Zone
from_sector sector [] = []
from_sector sector (z ∷ zs) =
    if ltb sector (z.zbz_start + z.zbz_length) then z ∷ zs else from_sector sector zs

unfoldable pub matching : (Zone → Bool) → List Zone → List Zone
matching p [] = []
matching p (z ∷ zs) = if p z then z ∷ matching p zs else matching p zs

unfoldable pub reported : (Zone → Bool) → List Zone → ℕ → List Zone
unfolding from_sector matching
reported p zones sector = matching p (from_sector sector zones)

-- The promise of a driver for one reporting option, in the states that `ok` names: a partial report
-- of at most `n` zones from a sector inside the capacity succeeds, stores the first of the zones to
-- report, at least one if there is one, leaves their number, and goes on to such a state. A drive
-- whose zones change keeps it in the states before the change.
pub record Reports {S : Type 0} (drv : Drv S) (dev : Device) (ok : S → Type 0) (ro : ℕ)
    (p : Zone → Bool) (zones : List Zone) : Type 0 where
  pub covers : Covers 0 dev.zbd_info.zbd_sectors zones
  pub capacity : dev.zbd_info.zbd_sectors < 2 ^ 64
  pub succeeds :
      (sector n : ℕ) (s : S)
      → ok s
      → sector < dev.zbd_info.zbd_sectors
      → (drv.zbd_report_zones dev sector (bit_or (zbc_rz_ro_mask ro) ro_partial) true n s).0.ret
        ≡ pos 0
  pub stores :
      (sector n : ℕ) (s : S)
      → ok s
      → sector < dev.zbd_info.zbd_sectors
      → let r =
          (drv.zbd_report_zones dev sector (bit_or (zbc_rz_ro_mask ro) ro_partial) true n s).0 in
        r.stored ≡ take r.nr (reported p zones sector)
  pub fits :
      (sector n : ℕ) (s : S)
      → ok s
      → sector < dev.zbd_info.zbd_sectors
      → let r =
          (drv.zbd_report_zones dev sector (bit_or (zbc_rz_ro_mask ro) ro_partial) true n s).0 in
        (r.nr ≤ n) × (r.nr ≤ length (reported p zones sector))
  pub progress :
      (sector n : ℕ) (s : S)
      → ok s
      → sector < dev.zbd_info.zbd_sectors
      → let r =
          (drv.zbd_report_zones dev sector (bit_or (zbc_rz_ro_mask ro) ro_partial) true n s).0 in
        0 < n → 0 < length (reported p zones sector) → 0 < r.nr
  pub stays :
      (sector n : ℕ) (s : S)
      → ok s
      → sector < dev.zbd_info.zbd_sectors
      → ok (drv.zbd_report_zones dev sector (bit_or (zbc_rz_ro_mask ro) ro_partial) true n s).1
