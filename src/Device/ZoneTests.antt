-- ===== src/Device/ZoneTests.antt =====
-- The tests and the functions on zones, zone domains and activation results of
-- include/libzbc/zbc.h that only read a field.
use libzbc.Base.{ℕ, ◌+◌, Bool, ◌||◌, ◌==◌, has, u32, u64, sub64, ◌/◌}
use libzbc.Device.{Zone, ZoneDomain, ActvRes}
use libzbc.Device.ZoneCond as ZoneCond
use libzbc.Device.ZoneType as ZoneType

abbrev pub zbc_zone_conventional : Zone → Bool
zbc_zone_conventional z = z.zbz_type == ZoneType.conventional

abbrev pub zbc_zone_sequential_req : Zone → Bool
zbc_zone_sequential_req z = z.zbz_type == ZoneType.sequential_req

abbrev pub zbc_zone_sequential_pref : Zone → Bool
zbc_zone_sequential_pref z = z.zbz_type == ZoneType.sequential_pref

abbrev pub zbc_zone_gap : Zone → Bool
zbc_zone_gap z = z.zbz_type == ZoneType.gap

abbrev pub zbc_zone_not_wp : Zone → Bool
zbc_zone_not_wp z = z.zbz_condition == ZoneCond.not_wp

abbrev pub zbc_zone_empty : Zone → Bool
zbc_zone_empty z = z.zbz_condition == ZoneCond.empty

abbrev pub zbc_zone_imp_open : Zone → Bool
zbc_zone_imp_open z = z.zbz_condition == ZoneCond.imp_open

abbrev pub zbc_zone_exp_open : Zone → Bool
zbc_zone_exp_open z = z.zbz_condition == ZoneCond.exp_open

abbrev pub zbc_zone_is_open : Zone → Bool
zbc_zone_is_open z = zbc_zone_imp_open z || zbc_zone_exp_open z

abbrev pub zbc_zone_closed : Zone → Bool
zbc_zone_closed z = z.zbz_condition == ZoneCond.closed

abbrev pub zbc_zone_full : Zone → Bool
zbc_zone_full z = z.zbz_condition == ZoneCond.full

abbrev pub zbc_zone_rdonly : Zone → Bool
zbc_zone_rdonly z = z.zbz_condition == ZoneCond.rdonly

abbrev pub zbc_zone_offline : Zone → Bool
zbc_zone_offline z = z.zbz_condition == ZoneCond.offline

abbrev pub zbc_zone_inactive : Zone → Bool
zbc_zone_inactive z = z.zbz_condition == ZoneCond.inactive

abbrev pub zbc_zone_rwp_recommended : Zone → Bool
zbc_zone_rwp_recommended z = has z.zbz_attributes 0x0001

abbrev pub zbc_zone_non_seq : Zone → Bool
zbc_zone_non_seq z = has z.zbz_attributes 0x0002

abbrev pub zbc_zone_domain_sect_size : ZoneDomain → ℕ
zbc_zone_domain_sect_size d = u64 (sub64 d.zbm_end_sector d.zbm_start_sector + 1)

-- For a domain with zones: the code divides by their number.
abbrev pub zbc_zone_domain_zone_size : ZoneDomain → ℕ
zbc_zone_domain_zone_size d =
    u32 (sub64 (u64 (d.zbm_end_sector + 1)) d.zbm_start_sector / d.zbm_nr_zones)

abbrev pub zbc_actv_res_conventional : ActvRes → Bool
zbc_actv_res_conventional r = r.zbe_type == ZoneType.conventional

abbrev pub zbc_actv_res_seq_req : ActvRes → Bool
zbc_actv_res_seq_req r = r.zbe_type == ZoneType.sequential_req

abbrev pub zbc_actv_res_seq_pref : ActvRes → Bool
zbc_actv_res_seq_pref r = r.zbe_type == ZoneType.sequential_pref

abbrev pub zbc_actv_res_sobr : ActvRes → Bool
zbc_actv_res_sobr r = r.zbe_type == ZoneType.seq_or_bef_req

abbrev pub zbc_actv_res_nonseq : ActvRes → Bool
zbc_actv_res_nonseq r = zbc_actv_res_conventional r || zbc_actv_res_sobr r

abbrev pub zbc_actv_res_seq : ActvRes → Bool
zbc_actv_res_seq r = zbc_actv_res_seq_req r || zbc_actv_res_seq_pref r
