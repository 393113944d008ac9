-- ===== src/Ata/Info.antt =====
-- zbc_ata_get_zoned_device_info of lib/zbc_ata.c: what the zoned device information page says.
use libzbc.Base.{
  ℕ, ◌-◌, ◌/◌, ◌^◌, bit_and, bit_or, Bool, not, ◌||◌, List, ◌==◌, if◌then◌else◌, has, ℤ, pos,
  is_neg, neg_enxio, neg_einval,
}
use libzbc.Device.{Device, DeviceInfo, zbc_device_is_zdr}
use libzbc.Device.Model as Model
use libzbc.Device.DevFlag as DevFlag
use libzbc.Sg.{Cmd}
use libzbc.Sg.Exec.{Reply, Sys}
use libzbc.Ata.{zbc_ata_get_qword}
use libzbc.Ata.Log.{zbc_ata_read_log}

-- ZBC_NOT_REPORTED and ZBC_NO_LIMIT
abbrev pub not_reported : ℕ
not_reported = 2 ^ 32 - 1

-- The flags for the minor version: the three of ZAC-2 have the zone count, two of them the standard
-- layout of REPORT REALMS.
unfoldable pub version_flags : ℕ → ℕ
version_flags ver =
    let standard = (ver == 0xb403) || (ver == 0x3612) in
    if ver == 0x7317
    then DevFlag.zone_op_count_support
    else if standard
    then bit_or DevFlag.zone_op_count_support DevFlag.standard_rpt_realms
    else 0

-- A device flag for a bit of a word.
abbrev flag_if : ℕ → ℕ → ℕ → ℕ
flag_if word bit flag = if has word bit then flag else 0

-- The page's words for zone domains, when the device supports them.
unfoldable pub domain_flags : ℕ → ℕ → ℕ → ℕ
domain_flags flags caps types =
    let f = bit_or flags (flag_if caps 0x4 DevFlag.urswrz_set_support) in
    let f = bit_or f (flag_if caps 0x8 DevFlag.za_control_support) in
    let f = bit_or f (flag_if caps 0x10 DevFlag.nozsrc_support) in
    let f = bit_or f (flag_if caps 0x20 DevFlag.report_realms_support) in
    let f = bit_or f (flag_if caps 0x40 DevFlag.maxact_set_support) in
    let f = bit_or f (flag_if types 0x01 DevFlag.conv_zone_support) in
    let f = bit_or f (flag_if types 0x02 DevFlag.seq_pref_zone_support) in
    let f = bit_or f (flag_if types 0x04 DevFlag.seq_req_zone_support) in
    let f = bit_or f (flag_if types 0x08 DevFlag.sobr_zone_support) in
    bit_or f (flag_if types 0x10 DevFlag.gap_zone_support)

-- A number of the page, 0 being no number.
abbrev stated : ℕ → ℕ
stated word = let val = bit_and word 0xffffffff in if val == 0 then not_reported else val

-- The numbers of zones for resource management.
unfoldable pub set_resources : List ℕ → DeviceInfo → DeviceInfo
set_resources buf info =
    let aware = info.zbd_model == Model.host_aware in
    record info {
      zbd_opt_nr_open_seq_pref = if aware then stated (zbc_ata_get_qword buf 24) else 0;
      zbd_opt_nr_non_seq_write_seq_pref = if aware then stated (zbc_ata_get_qword buf 32) else 0;
      zbd_max_nr_open_seq_req = if aware then 0 else stated (zbc_ata_get_qword buf 40);
    }

-- The flags of the version and of zone domains and realms.
unfoldable pub first_flags : List ℕ → ℕ → ℕ
unfolding version_flags
first_flags buf flags =
    let caps = zbc_ata_get_qword buf 56 in
    let f = bit_or flags (version_flags (bit_and (zbc_ata_get_qword buf 48) 0xffff)) in
    let f = bit_or f (flag_if caps 0x01 DevFlag.zone_domains_support) in
    bit_or f (flag_if caps 0x02 DevFlag.zone_realms_support)

-- A device with zone domains or realms is host managed.
unfoldable pub set_domains : List ℕ → DeviceInfo → DeviceInfo
unfolding domain_flags
set_domains buf info =
    let caps = zbc_ata_get_qword buf 56 in
    record info {
      zbd_model = Model.host_managed;
      zbd_flags = domain_flags info.zbd_flags caps (zbc_ata_get_qword buf 72);
      zbd_max_activation = bit_and (caps / 2 ^ 32) 0xffff;
      zbd_snoz = bit_and (zbc_ata_get_qword buf 64) 0xfffffff;
    }

-- The part after the zone domains.
unfoldable pub finish_info : List ℕ → DeviceInfo → ℤ × DeviceInfo
unfolding set_resources
finish_info buf info =
    let flags =
      bit_or info.zbd_flags (flag_if (zbc_ata_get_qword buf 8) 0x01 DevFlag.unrestricted_read) in
    let zoned = (info.zbd_model == Model.host_managed) || (info.zbd_model == Model.host_aware) in
    if not zoned
    then (neg_enxio, info)
    else (pos 0, set_resources buf (record info { zbd_flags = flags }))

-- What is made of the page.
unfoldable pub process_info : List ℕ → DeviceInfo → ℤ × DeviceInfo
unfolding finish_info set_domains first_flags
process_info buf info =
    let info' = record info { zbd_flags = first_flags buf info.zbd_flags } in
    if not (zbc_device_is_zdr info')
    then finish_info buf info'
    else if not (info'.zbd_model == Model.standard)
    then (neg_einval, info')
    else finish_info buf (set_domains buf info')

module _ {K : Type 0} (sg_io : Cmd → K → Reply × K) (memalign : ℕ → Bool) where
  unfoldable pub zbc_ata_get_zoned_device_info : Device → Sys K → (ℤ × Device) × Sys K
  unfolding process_info
  zbc_ata_get_zoned_device_info dev s =
      let ((ret, buf), s') = zbc_ata_read_log sg_io memalign dev 0x30 0x09 s in
      let (ret', info) = process_info buf dev.zbd_info in
      if is_neg ret then ((ret, dev), s') else ((ret', record dev { zbd_info = info }), s')
