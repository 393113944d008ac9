-- ===== src/Scsi/ReportDomains.antt =====
-- zbc_scsi_report_domains of lib/zbc_scsi.c, as built without REJECT_OLD_DOMAIN_FORMAT.
use libzbc.Base.{ℕ, zero, suc, ◌+◌, ◌*◌, ◌/◌, bit_and, Bool, true, false, not, ◌||◌}
use libzbc.Base.{
  List, [], ◌∷◌, ◌==◌, ltb, if◌then◌else◌, u32, u64, sub64, set, drop, ℤ, pos, is_zero, neg_eio,
  neg_einval,
}
use libzbc.Bytes.{get_int64, get_int32, set_int64, set_int32}
use libzbc.Device.{Device, ZoneDomain}
use libzbc.Device.ZoneType as ZoneType
use libzbc.Device.Sectors.{zbc_dev_sect2lba, zbc_dev_lba2sect}
use libzbc.Sg.{Cmd, zbc_sg_align_bufsz}
use libzbc.Sg.CmdId as CmdId
use libzbc.Sg.Sense.{sb}
use libzbc.Sg.Exec.{Reply, Sys}
use libzbc.Scsi.{no_cdb, run}

unfoldable pub report_domains_cdb : ℕ → ℕ → ℕ → List ℕ
report_domains_cdb lba bufsz ro =
    set (set_int32 (set_int64 (set (set no_cdb 0 0x95) 1 0x07) 2 lba) 10 (u32 bufsz)) 14
      (bit_and ro 0x3f)

-- The types that a domain may have.
unfoldable pub known_type : ℕ → Bool
known_type t =
    (t == ZoneType.conventional)
    || (t == ZoneType.sequential_req)
    || (t == ZoneType.sequential_pref)
    || (t == ZoneType.seq_or_bef_req)

module _ (dev : Device) where
  -- The domain of the descriptor at the front of the buffer. Its number of zones is an unsigned int.
  unfoldable pub read_domain : List ℕ → ZoneDomain
  read_domain buf = record {
    zbm_start_sector = zbc_dev_lba2sect dev (get_int64 buf 24);
    zbm_end_sector = zbc_dev_lba2sect dev (get_int64 buf 32);
    zbm_nr_zones = u32 (get_int64 buf 16);
    zbm_id = sb buf 0;
    zbm_type = sb buf 40;
    zbm_flags = sb buf 42;
  }

  -- The loop over the descriptors, by those left: whether it ends without an unknown zone type, and
  -- what it stored.
  unfoldable pub read_domains : ℕ → List ℕ → Bool × List ZoneDomain
  read_domains zero buf = (true, [])
  read_domains (suc left) buf =
      let d = read_domain buf in
      let (ok, ds) = read_domains left (drop 96 buf) in
      if not (known_type d.zbm_type) then (false, d ∷ []) else (ok, d ∷ ds)

  -- The number of descriptors read: the smallest of the numbers reported, asked for, and held.
  unfoldable pub domains_held : ℕ → ℕ → List ℕ → ℕ
  domains_held nr_domains bufsz buf =
      let nd = sb buf 9 in
      let asked = if ltb nd nr_domains then nd else nr_domains in
      let sz = get_int32 buf 4 in
      let held = sub64 (if ltb sz bufsz then sz else bufsz) 64 / 96 in
      if ltb held asked then held else asked

  -- What is made of a reply of `bufsz` bytes. `domains` is false for a NULL array.
  unfoldable pub process_domains : Bool → ℕ → ℕ → List ℕ → ℤ × List ZoneDomain
  process_domains domains nr_domains bufsz buf =
      let nd = sb buf 9 in
      let (ok, ds) = read_domains (domains_held nr_domains bufsz buf) (drop 64 buf) in
      if ltb bufsz 64
      then (neg_eio, [])
      else if not domains || (nd == 0)
      then (pos 0, [])
      else (if ok then pos nd else neg_einval, ds)

module _ {K : Type 0} (sg_io : Cmd → K → Reply × K) (memalign : ℕ → Bool) (dev : Device) where
  unfoldable pub zbc_scsi_report_domains : ℕ → ℕ → Bool → ℕ → Sys K → (ℤ × List ZoneDomain) × Sys K
  zbc_scsi_report_domains sector ro domains nr_domains s =
      let bufsz = zbc_sg_align_bufsz dev (u64 (64 + nr_domains * 96)) in
      let ((ret, cmd), s') =
        run sg_io memalign dev CmdId.report_zone_domains bufsz
          (report_domains_cdb (zbc_dev_sect2lba dev sector) bufsz ro) s in
      if not (is_zero ret)
      then ((ret, []), s')
      else (process_domains dev domains nr_domains cmd.bufsz cmd.buf, s')
