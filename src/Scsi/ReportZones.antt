-- ===== src/Scsi/ReportZones.antt =====
-- zbc_scsi_do_report_zones and zbc_scsi_report_zones of lib/zbc_scsi.c.
use libzbc.Base.{
  ℕ, zero, suc, ◌+◌, ◌-◌, ◌*◌, ◌/◌, ◌^◌, bit_and, Bool, false, not, ◌&&◌, ◌||◌, Option, none, some,
}
use libzbc.Base.{
  List, [], ◌∷◌, ◌==◌, ltb, if◌then◌else◌, u32, u64, has, set, drop, ℤ, pos, is_zero, neg_eio,
}
use libzbc.Bytes.{get_int64, get_int32, set_int64, set_int32}
use libzbc.Device.{Device, Zone, zbc_zone_sequential, zbc_zone_sobr}
use libzbc.Device.Sectors.{zbc_dev_sect2lba, zbc_dev_lba2sect}
use libzbc.Device.Driver.{Filled}
use libzbc.Sg.{Cmd}
use libzbc.Sg.CmdId as CmdId
use libzbc.Sg.Sense.{sb}
use libzbc.Sg.Exec.{Reply, Sys}
use libzbc.Scsi.{no_cdb, run}

unfoldable pub report_zones_cdb : ℕ → ℕ → ℕ → List ℕ
report_zones_cdb lba bufsz ro =
    set (set_int32 (set_int64 (set (set no_cdb 0 0x95) 1 0x00) 2 lba) 10 (u32 bufsz)) 14
      (bit_and ro 0xbf)

module _ (dev : Device) where
  -- The zone of the descriptor at the front of the buffer.
  unfoldable pub read_zone : List ℕ → Zone
  read_zone buf =
      let z : Zone = record {
        zbz_length = zbc_dev_lba2sect dev (get_int64 buf 8);
        zbz_start = zbc_dev_lba2sect dev (get_int64 buf 16);
        zbz_write_pointer = 2 ^ 64 - 1;
        zbz_type = bit_and (sb buf 0) 0x0f;
        zbz_condition = bit_and (sb buf 1 / 16) 0x0f;
        zbz_attributes = bit_and (sb buf 1) 0x03;
      } in
      if zbc_zone_sequential z || zbc_zone_sobr z
      then record z { zbz_write_pointer = zbc_dev_lba2sect dev (get_int64 buf 24) }
      else z

  -- The loop over the descriptors, by the zones left.
  unfoldable pub read_zones : ℕ → List ℕ → List Zone
  read_zones zero buf = []
  read_zones (suc left) buf = read_zone buf ∷ read_zones left (drop 64 buf)

-- The call's outcome; `max_lba` is what is stored through the pointer, if it is.
pub record Report : Type 0 where
  pub zones : Filled Zone
  pub max_lba : Option ℕ

-- The block at which a report ended, if it stored one.
abbrev pub stored_or : Option ℕ → ℕ → ℕ
stored_or none d = d
stored_or (some n) d = n

unfoldable pub report_of : ℤ → List Zone → ℕ → Option ℕ → Report
report_of ret stored nr max_lba = record {
  zones = record { ret = ret; stored = stored; nr = nr };
  max_lba = max_lba;
}

-- What is made of a reply of `bufsz` bytes. `zones` is false for a NULL array.
unfoldable pub process_report : Device → Bool → Bool → ℕ → ℕ → List ℕ → Report
unfolding report_of
process_report dev max_lba zones nr_zones bufsz buf =
    let nz = get_int32 buf 0 / 64 in
    let max = if max_lba then some (get_int64 buf 8) else none in
    let asked = if ltb nr_zones nz then nr_zones else nz in
    let buf_nz = u32 ((bufsz - 64) / 64) in
    let held = if ltb buf_nz asked then buf_nz else asked in
    if ltb bufsz 64
    then report_of neg_eio [] 0 none
    else if not zones || (nz == 0)
    then report_of (pos 0) [] nz max
    else report_of (pos 0) (read_zones dev held (drop 64 buf)) held max

-- The size of the buffer that `zbc_scsi_report_zones` asks for. The number of zones is an unsigned
-- int, and so is the product.
unfoldable pub report_bufsz : Device → Bool → ℕ → ℕ
report_bufsz dev zones nr_zones =
    let most = u64 (dev.zbd_info.zbd_max_rw_sectors * 512) in
    let wanted = u32 (u32 (nr_zones + 1) * 64) in
    let bufsz = if zones then (if ltb wanted most then wanted else most) else 0 in
    let mask = dev.zbd_report_bufsz_mask in
    if ltb bufsz dev.zbd_report_bufsz_min
    then dev.zbd_report_bufsz_min
    else if has bufsz mask
    then bit_and (u64 (bufsz + mask)) (2 ^ 64 - 1 - mask)
    else bufsz

module _ {K : Type 0} (sg_io : Cmd → K → Reply × K) (memalign : ℕ → Bool) (dev : Device) where
  unfoldable pub zbc_scsi_do_report_zones : ℕ → ℕ → Bool → Bool → ℕ → ℕ → Sys K → Report × Sys K
  unfolding report_of process_report
  zbc_scsi_do_report_zones sector ro max_lba zones nr_zones bufsz s =
      let ((ret, cmd), s') =
        run sg_io memalign dev CmdId.report_zones bufsz
          (report_zones_cdb (zbc_dev_sect2lba dev sector) bufsz ro) s in
      let unsent = not (bufsz == 0) && not (memalign bufsz) in
      if unsent
      then (report_of ret [] nr_zones none, s')
      else if not (is_zero ret)
      then (report_of ret [] 0 none, s')
      else (process_report dev max_lba zones nr_zones cmd.bufsz cmd.buf, s')

  unfoldable pub zbc_scsi_report_zones : ℕ → ℕ → Bool → ℕ → Sys K → Filled Zone × Sys K
  unfolding report_bufsz
  zbc_scsi_report_zones sector ro zones nr_zones s =
      let (r, s') =
        zbc_scsi_do_report_zones sector ro false zones nr_zones (report_bufsz dev zones nr_zones)
          s in
      (r.zones, s')
