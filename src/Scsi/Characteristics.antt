-- ===== src/Scsi/Characteristics.antt =====
-- zbc_scsi_get_zbd_characteristics and zbc_scsi_get_dev_info of lib/zbc_scsi.c.
use libzbc.Base.{
  ℕ, ◌/◌, ◌^◌, ◌-◌, bit_and, bit_or, Bool, true, not, ◌&&◌, ◌||◌, Option, none, some, List, [], ◌∷◌,
  ◌++◌, ◌==◌, if◌then◌else◌, has, take, replicate, ℤ, pos, is_zero, is_neg, pos_part, neg_enxio,
  neg_enomem,
}
use libzbc.Bytes.{get_int32}
use libzbc.Device.{Device, DeviceInfo, ZoneDomain, with_info}
use libzbc.Device.Model as Model
use libzbc.Device.DevFlag as DevFlag
use libzbc.Device.ZoneType as ZoneType
use libzbc.Domains.{no_domain}
use libzbc.Sg.{Cmd}
use libzbc.Sg.Sense.{sb}
use libzbc.Sg.Exec.{Reply, Sys, zbc_sg_test_unit_ready}
use libzbc.Sg.MaxBlocks.{FileKind, zbc_sg_get_max_cmd_blocks}
use libzbc.Scsi.Inquiry.{with_model, zbc_scsi_vpd_inquiry, zbc_scsi_classify}
use libzbc.Scsi.ReportDomains.{zbc_scsi_report_domains}
use libzbc.Scsi.Capacity.{zbc_scsi_get_capacity}

-- The flags that a ZBD extension of 2 stands for.
abbrev realm_flags : ℕ
realm_flags = bit_or DevFlag.zone_domains_support (
    bit_or DevFlag.zone_realms_support (
      bit_or DevFlag.report_realms_support (
        bit_or DevFlag.gap_zone_support
          (bit_or DevFlag.standard_rpt_realms DevFlag.zone_op_count_support))))

-- ZBC_NOT_REPORTED and ZBC_NO_LIMIT for a number that is 0.
abbrev stated_number : ℕ → ℕ
stated_number val = if val == 0 then 2 ^ 32 - 1 else val

-- The model and the flags.
unfoldable pub extended : List ℕ → DeviceInfo → DeviceInfo
extended buf info =
    let ext = bit_and (sb buf 4 / 16) 0x0f in
    let free =
      bit_or info.zbd_flags (if has (sb buf 4) 0x01 then DevFlag.unrestricted_read else 0) in
    let aware = (info.zbd_model == Model.standard) && (ext == 1) in
    if ext == 2
    then record info { zbd_model = Model.host_managed; zbd_flags = bit_or free realm_flags }
    else record info {
      zbd_model = if aware then Model.host_aware else info.zbd_model;
      zbd_flags = free;
    }

-- The numbers of zones for resource management.
unfoldable pub with_resources : List ℕ → DeviceInfo → DeviceInfo
with_resources buf info =
    let aware = info.zbd_model == Model.host_aware in
    record info {
      zbd_opt_nr_open_seq_pref = if aware then stated_number (get_int32 buf 8) else 0;
      zbd_opt_nr_non_seq_write_seq_pref = if aware then stated_number (get_int32 buf 12) else 0;
      zbd_max_nr_open_seq_req = if aware then 0 else stated_number (get_int32 buf 16);
    }

-- The flag for the zone type of a domain.
unfoldable pub type_flag : ZoneDomain → ℕ
type_flag d =
    if not (has d.zbm_flags 0x2)
    then 0
    else if d.zbm_type == ZoneType.conventional
    then DevFlag.conv_zone_support
    else if d.zbm_type == ZoneType.sequential_req
    then DevFlag.seq_req_zone_support
    else if d.zbm_type == ZoneType.sequential_pref
    then DevFlag.seq_pref_zone_support
    else if d.zbm_type == ZoneType.seq_or_bef_req
    then DevFlag.sobr_zone_support
    else 0

unfoldable pub type_flags : ℕ → List ZoneDomain → ℕ
unfolding type_flag
type_flags flags [] = flags
type_flags flags (d ∷ ds) = type_flags (bit_or flags (type_flag d)) ds

-- What follows the capacity. Where that divides by zero the outcome is `none`.
abbrev pub after_size : ℕ → (Device → FileKind) → Option (ℤ × Device) → Option (ℤ × Device)
after_size page_size file none = none
after_size page_size file (some (ret, dev)) = some (
    if not (is_zero ret) then (ret, dev) else (pos 0, zbc_sg_get_max_cmd_blocks page_size file dev))

module _ {K : Type 0} (sg_io : Cmd → K → Reply × K) (memalign calloc : ℕ → Bool) where
  -- The zone types of the domains: the first report gives their number.
  unfoldable pub domain_types : Device → Sys K → (ℤ × Device) × Sys K
  unfolding type_flags
  domain_types dev s =
      let ((first, d), s₁) = zbc_scsi_report_domains sg_io memalign dev 0 0 true 1 s in
      let nr = pos_part first in
      let ((ret, ds), s₂) = zbc_scsi_report_domains sg_io memalign dev 0 0 true nr s₁ in
      let array = take nr (ds ++ replicate nr no_domain) in
      let flags = type_flags dev.zbd_info.zbd_flags array in
      if is_neg first
      then ((neg_enxio, dev), s₁)
      else if not (calloc nr)
      then ((neg_enomem, dev), s₁)
      else if is_neg ret
      then ((ret, dev), s₂)
      else ((pos 0, with_info dev (record dev.zbd_info { zbd_flags = flags })), s₂)

  -- What is made of the zoned block device characteristics page.
  unfoldable pub apply_page : Device → List ℕ → Sys K → (ℤ × Device) × Sys K
  unfolding extended with_resources domain_types
  apply_page dev buf s =
      let info = extended buf dev.zbd_info in
      let zoned = (info.zbd_model == Model.host_managed) || (info.zbd_model == Model.host_aware) in
      let full = with_info dev (with_resources buf info) in
      if not zoned
      then ((neg_enxio, with_info dev info), s)
      else if has full.zbd_info.zbd_flags DevFlag.zone_domains_support
      then domain_types full s
      else ((pos 0, full), s)

  unfoldable pub zbc_scsi_get_zbd_characteristics : Device → Sys K → (ℤ × Device) × Sys K
  unfolding apply_page
  zbc_scsi_get_zbd_characteristics dev s =
      let ((ret, buf), s') = zbc_scsi_vpd_inquiry sg_io memalign dev 0xb6 64 s in
      if not (is_zero ret)
      then ((neg_enxio, with_model dev Model.standard), s')
      else apply_page dev buf s'

  -- From the capacity on.
  unfoldable pub size_steps : ℕ → (Device → FileKind) → Device → Sys K → Option (ℤ × Device) × Sys K
  size_steps page_size file dev s =
      let (r, s') = zbc_scsi_get_capacity sg_io memalign page_size file dev s in
      (after_size page_size file r, s')

  unfoldable pub zbc_scsi_get_dev_info :
      ℕ → (Device → FileKind) → Device → Sys K → Option (ℤ × Device) × Sys K
  unfolding size_steps
  zbc_scsi_get_dev_info page_size file dev s =
      let start : Device = record dev { zbd_report_bufsz_min = 512; zbd_report_bufsz_mask = 511 } in
      let (ready, s₁) = zbc_sg_test_unit_ready sg_io memalign start s in
      let ((class, d₁), s₂) = zbc_scsi_classify sg_io memalign start s₁ in
      let ((info, d₂), s₃) = zbc_scsi_get_zbd_characteristics d₁ s₂ in
      if not (is_zero ready)
      then (some (ready, start), s₁)
      else if not (is_zero class)
      then (some (class, d₁), s₂)
      else if not (is_zero info)
      then (some (info, d₂), s₃)
      else size_steps page_size file d₂ s₃
