-- ===== src/Scsi/ReportRealms.antt =====
-- zbc_scsi_report_realms of lib/zbc_scsi.c. Where the code divides by zero the outcome is `none`.
use libzbc.Base.{
  ℕ, ◌+◌, ◌-◌, ◌*◌, ◌/◌, bit_and, Bool, true, not, ◌||◌, Option, none, some, List, [], ◌==◌, ltb,
  if◌then◌else◌, u32, u64, has, set, drop, ℤ, pos, is_zero, is_neg, pos_part, neg_eio, neg_enxio,
  neg_enomem,
}
use libzbc.Bytes.{get_int64, get_int32, get_int16, set_int64, set_int32}
use libzbc.Device.{Device, ZoneDomain, ZoneRealm, zbc_dev_is_zoned}
use libzbc.Device.DevFlag as DevFlag
use libzbc.Device.Driver.{Filled}
use libzbc.Device.Sectors.{zbc_dev_sect2lba}
use libzbc.Sg.{Cmd, zbc_sg_cmd_init, zbc_sg_align_bufsz}
use libzbc.Sg.CmdId as CmdId
use libzbc.Sg.Exec.{Reply, Sys, zbc_sg_cmd_exec}
use libzbc.Scsi.{no_cdb}
use libzbc.Scsi.ReportDomains.{zbc_scsi_report_domains}
use libzbc.Scsi.RealmItems.{kept_domains, domain_array, fill_realms}

unfoldable pub report_realms_cdb : ℕ → ℕ → ℕ → List ℕ
report_realms_cdb lba bufsz ro =
    set (set_int32 (set_int64 (set (set no_cdb 0 0x95) 1 0x06) 2 lba) 10 (u32 bufsz)) 14
      (bit_and ro 0x3f)

-- A call that stores nothing.
abbrev pub no_realms : ℤ → ℕ → Filled ZoneRealm
no_realms ret nr = record { ret = ret; stored = []; nr = nr }

-- What is made of a reply of `bufsz` bytes. `wanted` is false for a NULL array, and `array` is what
-- the array holds before.
unfoldable pub process_realms :
    Device
    → List ZoneDomain
    → ℕ
    → Bool
    → List ZoneRealm
    → ℕ
    → ℕ
    → List ℕ
    → Option (Filled ZoneRealm)
process_realms dev domains nr_domains wanted array nr_realms bufsz buf =
    let nr = get_int32 buf 4 in
    let asked = if ltb nr_realms nr then nr_realms else nr in
    let desc_len = get_int32 buf 8 in
    let held = (bufsz - 64) / desc_len in
    let n = if ltb held asked then held else asked in
    if ltb bufsz 64
    then some (no_realms neg_eio 0)
    else if not wanted || (nr == 0)
    then some (no_realms (pos 0) nr)
    else if not (has dev.zbd_info.zbd_flags DevFlag.standard_rpt_realms)
    then some (no_realms neg_enxio asked)
    else if not (get_int64 buf 12 == 0)
    then some (no_realms neg_enxio asked)
    else if desc_len == 0
    then none
    else some (record {
      ret = pos 0;
      stored =
          fill_realms dev get_int64 domains get_int32 get_int16 nr_domains desc_len n (drop 64 buf)
            array;
      nr = n;
    })

module _ {K : Type 0} (sg_io : Cmd → K → Reply × K) (memalign calloc : ℕ → Bool)
    (dev : Device) where
  unfoldable pub zbc_scsi_report_realms :
      ℕ → ℕ → Bool → List ZoneRealm → ℕ → Sys K → Option (Filled ZoneRealm) × Sys K
  unfolding process_realms
  zbc_scsi_report_realms sector ro wanted array nr_realms s =
      let ((found, ds), s₁) = zbc_scsi_report_domains sg_io memalign dev 0 0 true 4 s in
      let nr_domains = kept_domains (pos_part found) in
      let bufsz = zbc_sg_align_bufsz dev (u64 (64 + nr_realms * 128)) in
      let (init, cmd) = zbc_sg_cmd_init memalign dev CmdId.report_realms 0 bufsz in
      let cdb = report_realms_cdb (zbc_dev_sect2lba dev sector) bufsz ro in
      let ((ret, cmd'), s₂) = zbc_sg_cmd_exec sg_io (record cmd { cdb = cdb }) s₁ in
      if not (zbc_dev_is_zoned dev)
      then (some (no_realms neg_enxio nr_realms), s)
      else if not (calloc 4)
      then (some (no_realms neg_enomem nr_realms), s)
      else if is_neg found
      then (some (no_realms found nr_realms), s₁)
      else if not (is_zero init)
      then (some (no_realms init nr_realms), s₁)
      else if not (is_zero ret)
      then (some (no_realms ret 0), s₂)
      else (
        process_realms dev (domain_array ds) nr_domains wanted array nr_realms cmd'.bufsz cmd'.buf,
        s₂,
      )
