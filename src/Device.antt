-- ===== src/Device.antt =====
-- The types of include/libzbc/zbc.h and lib/zbc.h: device information, zones, the driver's table.
-- An `enum` or flag word is the number that the code stores. The build has HAVE_DEVTEST: without
-- it no device is in test mode, which is the case of `o_devtest` never set.
pub mod ZoneType
pub mod ZoneCond
pub mod ZoneTests
pub mod Model
pub mod DevFlag
pub mod ZoneOp
pub mod Sectors
pub mod Driver
use libzbc.Base.{ℕ, Bool, ◌&&◌, ◌||◌, List, bit_and, ◌==◌, has}

-- ZBC_O_DEVTEST of `zbd_o_flags`
abbrev pub o_devtest : ℕ
o_devtest = 0x40000000

-- ZBC_OP_ALL_ZONES
abbrev pub op_all_zones : ℕ
op_all_zones = 1

-- ZBC_RZ_RO_PARTIAL
abbrev pub ro_partial : ℕ
ro_partial = 0x80

-- struct zbc_device_info, without the vendor string
pub record DeviceInfo : Type 0 where
  pub zbd_type : ℕ
  pub zbd_model : ℕ
  pub zbd_flags : ℕ
  pub zbd_sectors : ℕ
  pub zbd_lblock_size : ℕ
  pub zbd_lblocks : ℕ
  pub zbd_pblock_size : ℕ
  pub zbd_pblocks : ℕ
  pub zbd_max_rw_sectors : ℕ
  pub zbd_opt_nr_open_seq_pref : ℕ
  pub zbd_opt_nr_non_seq_write_seq_pref : ℕ
  pub zbd_max_nr_open_seq_req : ℕ
  pub zbd_max_activation : ℕ
  pub zbd_snoz : ℕ

-- struct zbc_device, without the path and the driver's table; zbd_sg_fd is the same as zbd_fd
pub record Device : Type 0 where
  pub zbd_info : DeviceInfo
  pub zbd_fd : ℕ
  pub zbd_o_flags : ℕ
  pub zbd_drv_flags : ℕ
  pub zbd_report_bufsz_mask : ℕ
  pub zbd_report_bufsz_min : ℕ

-- struct zbc_zone
pub record Zone : Type 0 where
  pub zbz_length : ℕ
  pub zbz_start : ℕ
  pub zbz_write_pointer : ℕ
  pub zbz_type : ℕ
  pub zbz_condition : ℕ
  pub zbz_attributes : ℕ

unfoldable pub zbc_zone_sequential : Zone → Bool
zbc_zone_sequential z =
    (z.zbz_type == ZoneType.sequential_req) || (z.zbz_type == ZoneType.sequential_pref)

unfoldable pub zbc_zone_sobr : Zone → Bool
zbc_zone_sobr z = z.zbz_type == ZoneType.seq_or_bef_req

-- struct zbc_zone_domain
pub record ZoneDomain : Type 0 where
  pub zbm_start_sector : ℕ
  pub zbm_end_sector : ℕ
  pub zbm_nr_zones : ℕ
  pub zbm_id : ℕ
  pub zbm_type : ℕ
  pub zbm_flags : ℕ

-- struct zbc_realm_item
pub record RealmItem : Type 0 where
  pub zbi_start_sector : ℕ
  pub zbi_end_sector : ℕ
  pub zbi_length : ℕ
  pub zbi_dom_id : ℕ
  pub zbi_type : ℕ

-- struct zbc_zone_realm
pub record ZoneRealm : Type 0 where
  pub zbr_number : ℕ
  pub zbr_dom_id : ℕ
  pub zbr_type : ℕ
  pub zbr_actv_flags : ℕ
  pub zbr_nr_domains : ℕ
  pub zbr_restr : ℕ
  pub zbr_ri : List RealmItem

-- struct zbc_actv_res
pub record ActvRes : Type 0 where
  pub zbe_start_zone : ℕ
  pub zbe_nr_zones : ℕ
  pub zbe_domain : ℕ
  pub zbe_type : ℕ
  pub zbe_condition : ℕ

-- struct zbc_zd_dev_control
pub record DevControl : Type 0 where
  pub zbt_nr_zones : ℕ
  pub zbt_max_activate : ℕ
  pub zbt_urswrz : ℕ

-- struct zbc_err_ext, the per-thread error `zerrno`
pub record ErrExt : Type 0 where
  pub sk : ℕ
  pub asc_ascq : ℕ
  pub err_info : ℕ
  pub err_csinfo : ℕ
  pub err_cbf : ℕ
  pub err_za : ℕ

unfoldable pub zbc_test_mode : Device → Bool
zbc_test_mode dev = has dev.zbd_o_flags o_devtest

unfoldable pub zbc_dev_is_zoned : Device → Bool
zbc_dev_is_zoned dev =
    (dev.zbd_info.zbd_model == Model.host_managed) || (dev.zbd_info.zbd_model == Model.host_aware)

unfoldable pub zbc_device_is_zdr : DeviceInfo → Bool
zbc_device_is_zdr info =
    has info.zbd_flags DevFlag.zone_domains_support
    || has info.zbd_flags DevFlag.zone_realms_support

unfoldable pub zbc_dev_is_zdr : Device → Bool
unfolding zbc_dev_is_zoned
zbc_dev_is_zdr dev =
    zbc_dev_is_zoned dev
    && (has dev.zbd_info.zbd_flags DevFlag.zone_domains_support
        || has dev.zbd_info.zbd_flags DevFlag.zone_realms_support)

unfoldable pub zbc_zone_count_supported : DeviceInfo → Bool
unfolding zbc_device_is_zdr
zbc_zone_count_supported info =
    zbc_device_is_zdr info || has info.zbd_flags DevFlag.zone_op_count_support

-- REPORT ZONES reporting option mask
abbrev pub zbc_rz_ro_mask : ℕ → ℕ
zbc_rz_ro_mask ro = bit_and ro 0x3f

abbrev pub with_info : Device → DeviceInfo → Device
with_info dev info = record dev { zbd_info = info }
