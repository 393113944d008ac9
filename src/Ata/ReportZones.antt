-- ===== src/Ata/ReportZones.antt =====
-- zbc_ata_do_report_zones and zbc_ata_report_zones of lib/zbc_ata.c.
use libzbc.Base.{
  ℕ, zero, suc, ◌+◌, ◌-◌, ◌*◌, ◌/◌, ◌^◌, bit_and, Bool, false, not, ◌&&◌, ◌||◌, none, some, List,
  [], ◌∷◌, ◌==◌, ltb, if◌then◌else◌, u32, u64, has, set, drop, pos, is_zero, neg_eio,
}
use libzbc.Device.{Device, Zone, zbc_zone_sequential, zbc_zone_sobr}
use libzbc.Device.Sectors.{zbc_dev_sect2lba, zbc_dev_lba2sect}
use libzbc.Device.Driver.{Filled}
use libzbc.Sg.{Cmd, from_dev}
use libzbc.Sg.Sense.{sb}
use libzbc.Sg.Exec.{Reply, Sys}
use libzbc.Scsi.ReportZones.{Report, report_of}
use libzbc.Ata.{
  pass_through, put_count, dma_ext, zbc_ata_put_lba, zbc_ata_get_dword, zbc_ata_get_qword,
  sensed_run,
}

-- ZAC MANAGEMENT IN with an action, its parameter, an address and the size of the buffer, of which
-- the low 16 bits in units of 512 bytes are sent.
unfoldable pub management_in : ℕ → ℕ → ℕ → ℕ → List ℕ
management_in features af lba bufsz =
    let cdb = set (set (pass_through dma_ext 0x0e 0x4a) 3 features) 4 af in
    set (zbc_ata_put_lba (put_count cdb (bufsz / 512)) lba) 13 0x40

module _ (dev : Device) where
  -- The zone of the descriptor at the front of the buffer.
  unfoldable pub read_ata_zone : List ℕ → Zone
  read_ata_zone buf =
      let z : Zone = record {
        zbz_length = zbc_dev_lba2sect dev (zbc_ata_get_qword buf 8);
        zbz_start = zbc_dev_lba2sect dev (zbc_ata_get_qword buf 16);
        zbz_write_pointer = 2 ^ 64 - 1;
        zbz_type = bit_and (sb buf 0) 0x0f;
        zbz_condition = bit_and (sb buf 1 / 16) 0x0f;
        zbz_attributes = bit_and (sb buf 1) 0x03;
      } in
      if zbc_zone_sequential z || zbc_zone_sobr z
      then record z { zbz_write_pointer = zbc_dev_lba2sect dev (zbc_ata_get_qword buf 24) }
      else z

  -- The loop over the descriptors, by the zones left.
  unfoldable pub read_ata_zones : ℕ → List ℕ → List Zone
  read_ata_zones zero buf = []
  read_ata_zones (suc left) buf = read_ata_zone buf ∷ read_ata_zones left (drop 64 buf)

-- What is made of a reply of `bufsz` bytes. `zones` is false for a NULL array.
unfoldable pub process_ata_report : Device → Bool → Bool → ℕ → ℕ → List ℕ → Report
unfolding report_of
process_ata_report dev max_lba zones nr_zones bufsz buf =
    let nz = zbc_ata_get_dword buf 0 / 64 in
    let max = if max_lba then some (zbc_ata_get_qword buf 8) else none in
    let asked = if ltb nr_zones nz then nr_zones else nz in
    let buf_nz = u32 ((bufsz - 64) / 64) in
    let held = if ltb buf_nz asked then buf_nz else asked in
    if ltb bufsz 64
    then report_of neg_eio [] 0 none
    else if not zones || (nz == 0)
    then report_of (pos 0) [] nz max
    else report_of (pos 0) (read_ata_zones dev held (drop 64 buf)) held max

-- The size of the buffer that `zbc_ata_report_zones` asks for. The number of zones is an unsigned
-- int, and so is the product.
unfoldable pub ata_report_bufsz : Device → Bool → ℕ → ℕ
ata_report_bufsz dev zones nr_zones =
    let most = u64 (dev.zbd_info.zbd_max_rw_sectors * 512) in
    let wanted = u32 (u32 (nr_zones + 1) * 64) in
    let bufsz = if zones then (if ltb wanted most then wanted else most) else 0 in
    let mask = dev.zbd_report_bufsz_mask in
    if ltb bufsz dev.zbd_report_bufsz_min
    then dev.zbd_report_bufsz_min
    else if has bufsz mask
    then bit_and (u64 (bufsz + mask)) (2 ^ 64 - 1 - mask)
    else bufsz

module _ {K : Type 0} (sg_io : Cmd → K → Reply × K) (memalign : ℕ → Bool) (dev : Device) where
  unfoldable pub zbc_ata_do_report_zones : ℕ → ℕ → Bool → Bool → ℕ → ℕ → Sys K → Report × Sys K
  unfolding report_of process_ata_report management_in
  zbc_ata_do_report_zones sector ro max_lba zones nr_zones bufsz s =
      let ((ret, cmd), s') =
        sensed_run sg_io memalign dev bufsz from_dev
          (management_in (bit_and ro 0xbf) 0x00 (zbc_dev_sect2lba dev sector) bufsz) s in
      let unsent = not (bufsz == 0) && not (memalign bufsz) in
      if unsent
      then (report_of ret [] nr_zones none, s')
      else if not (is_zero ret)
      then (report_of ret [] 0 none, s')
      else (process_ata_report dev max_lba zones nr_zones cmd.bufsz cmd.buf, s')

  unfoldable pub zbc_ata_report_zones : ℕ → ℕ → Bool → ℕ → Sys K → Filled Zone × Sys K
  unfolding ata_report_bufsz
  zbc_ata_report_zones sector ro zones nr_zones s =
      let (r, s') =
        zbc_ata_do_report_zones sector ro false zones nr_zones (ata_report_bufsz dev zones nr_zones)
          s in
      (r.zones, s')
