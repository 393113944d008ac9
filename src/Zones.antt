-- ===== src/Zones.antt =====
-- zbc_report_zones, zbc_list_zones and zbc_zone_group_op of lib/zbc.c, over any driver.
-- `junk` is what an uninitialised local variable holds.
pub mod Spec
pub mod Suffix
pub mod Gather
pub mod Report
pub mod GroupOp
pub mod Listing
use libzbc.Base.{ℕ, zero, suc, ◌+◌, ◌-◌, ◌*◌, ◌%◌, ◌^◌, bit_and, bit_or, Bool, true, false, not}
use libzbc.Base.{◌&&◌, ◌||◌, Option, none, some, List, [], ◌∷◌, ◌==◌, ltb, leb, if◌then◌else◌}
use libzbc.Base.{u32, u64, has, get_or, splice, replicate, ℤ, pos, negsuc, is_zero, is_neg}
use libzbc.Base.{neg_einval, neg_enomem}
use libzbc.Device.{Device, Zone, op_all_zones, ro_partial, zbc_rz_ro_mask, zbc_test_mode}
use libzbc.Device.{zbc_zone_count_supported}
use libzbc.Device.Sectors.{zbc_dev_sect_laligned}
use libzbc.Device.Driver.{Drv, Filled}

-- Memory that calloc cleared.
abbrev pub no_zone : Zone
no_zone = record {
  zbz_length = 0;
  zbz_start = 0;
  zbz_write_pointer = 0;
  zbz_type = 0;
  zbz_condition = 0;
  zbz_attributes = 0;
}

-- The sector behind the zone that was stored last.
abbrev pub end_of : Zone → ℕ
end_of z = u64 (z.zbz_start + z.zbz_length)

module _ {S : Type 0} (drv : Drv S) (dev : Device) (ro max_zones : ℕ) where
  -- The `while` loop of `zbc_report_zones`. It takes a zone at least in each round, so that
  -- `max_zones` rounds are enough; when none is left the test is false. The array is `zones`.
  pub report_zones_loop : ℕ → ℕ → ℕ → List Zone → ℤ → S → Filled Zone × S
  report_zones_loop zero sector nz zones ret s = (record { ret = ret; stored = zones; nr = nz }, s)
  report_zones_loop (suc rounds) sector nz zones ret s =
      let (r, s') =
        drv.zbd_report_zones dev sector (bit_or (zbc_rz_ro_mask ro) ro_partial) true
          (max_zones - nz) s in
      let nz' = u32 (nz + r.nr) in
      let zones' = splice zones nz r.stored in
      let last_sector = end_of (get_or zones' (nz' - 1) no_zone) in
      let rest = report_zones_loop rounds last_sector nz' zones' r.ret s' in
      if ltb nz max_zones && ltb sector dev.zbd_info.zbd_sectors
      then (if not (is_zero r.ret)
          then (record { ret = r.ret; stored = zones'; nr = nz }, s')
          else if r.nr == 0
          then (record { ret = r.ret; stored = zones'; nr = nz }, s')
          else if leb dev.zbd_info.zbd_sectors last_sector
          then (record { ret = r.ret; stored = zones'; nr = nz' }, s')
          else rest)
      else (record { ret = ret; stored = zones; nr = nz }, s)

-- What `zbc_report_zones` leaves: `*nr_zones` is written only if the code is 0.
abbrev pub finish_report : ℕ → Filled Zone → Filled Zone
finish_report max_zones r = record r { nr = if is_zero r.ret then r.nr else max_zones }

module _ {S : Type 0} (drv : Drv S) (dev : Device) where
  -- The `for` loop of `zbc_zone_group_op`, by the rounds left.
  pub group_op_loop : ℕ → ℕ → ℕ → ℕ → ℕ → S → ℤ × S
  group_op_loop zero sector len op flags s = (pos 0, s)
  group_op_loop (suc left) sector len op flags s =
      let (ret, s') = drv.zbd_zone_op dev sector 0 op flags s in
      let rest = group_op_loop left (u64 (sector + len)) len op flags s' in
      if not (is_zero ret) then (ret, s') else rest

module _ {S : Type 0} (drv : Drv S) (junk : ℤ) (dev : Device) where
  -- The option is the array, or NULL.
  unfoldable pub zbc_report_zones : ℕ → ℕ → Option (List Zone) → ℕ → S → Filled Zone × S
  unfolding report_zones_loop
  zbc_report_zones sector ro none nr_zones s =
      if not (zbc_test_mode dev) && leb dev.zbd_info.zbd_sectors sector
      then (record { ret = pos 0; stored = []; nr = 0 }, s)
      else drv.zbd_report_zones dev sector (zbc_rz_ro_mask ro) false nr_zones s
  zbc_report_zones sector ro (some zones) nr_zones s =
      let (r, s') = report_zones_loop drv dev ro nr_zones nr_zones sector 0 zones junk s in
      if not (zbc_test_mode dev) && leb dev.zbd_info.zbd_sectors sector
      then (record { ret = pos 0; stored = zones; nr = 0 }, s)
      else (finish_report nr_zones r, s')

  -- zbc_list_zones: the code, and what `*pzones` and `*pnr_zones` are set to, if they are. NULL is
  -- the empty option. `calloc` says whether the allocation of that many zones succeeds.
  unfoldable pub zbc_list_zones : (ℕ → Bool) → ℕ → ℕ → S → (ℤ × Option (Option (List Zone) × ℕ)) × S
  zbc_list_zones calloc sector ro s =
      let (r, s₁) = zbc_report_zones sector (zbc_rz_ro_mask ro) none 0 s in
      let (q, s₂) =
        zbc_report_zones sector (zbc_rz_ro_mask ro) (some (replicate r.nr no_zone)) r.nr s₁ in
      if is_neg r.ret
      then ((r.ret, none), s₁)
      else if r.nr == 0
      then ((pos 0, some (none, 0)), s₁)
      else if not (calloc r.nr)
      then ((neg_enomem, none), s₁)
      else if not (is_zero q.ret)
      then ((q.ret, none), s₂)
      else ((pos 0, some (some q.stored, q.nr)), s₂)

  -- `junk_zone` is the local variable `zone` before the report.
  unfoldable pub zbc_zone_group_op : Zone → ℕ → ℕ → ℕ → ℕ → S → ℤ × S
  zbc_zone_group_op junk_zone sector count op flags s =
      let (r, s') = zbc_report_zones sector 0 (some (junk_zone ∷ [])) 1 s in
      let len = (get_or r.stored 0 no_zone).zbz_length in
      let emulated = group_op_loop drv dev count sector len op flags s' in
      if not (zbc_test_mode dev)
        && not (has flags op_all_zones)
        && not (zbc_dev_sect_laligned dev sector)
      then (neg_einval, s)
      else if leb count 1 || has flags op_all_zones
      then drv.zbd_zone_op dev sector 0 op flags s
      else if zbc_zone_count_supported dev.zbd_info
      then drv.zbd_zone_op dev sector count op flags s
      else if not (is_zero r.ret)
      then (r.ret, s')
      else emulated

  unfoldable pub zbc_zone_operation : Zone → ℕ → ℕ → ℕ → S → ℤ × S
  zbc_zone_operation junk_zone sector op flags s = zbc_zone_group_op junk_zone sector 0 op flags s
