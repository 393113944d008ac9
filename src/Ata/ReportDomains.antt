-- ===== src/Ata/ReportDomains.antt =====
-- zbc_ata_report_domains of lib/zbc_ata.c, as built without REJECT_OLD_DOMAIN_FORMAT.
use libzbc.Base.{
  ℕ, zero, suc, ◌+◌, ◌*◌, ◌/◌, bit_and, Bool, true, false, not, ◌||◌, List, [], ◌∷◌, ◌==◌, ltb,
  if◌then◌else◌, u16, u32, u64, sub64, drop, ℤ, pos, is_zero, neg_eio, neg_einval,
}
use libzbc.Device.{Device, ZoneDomain}
use libzbc.Device.Sectors.{zbc_dev_sect2lba, zbc_dev_lba2sect}
use libzbc.Sg.{Cmd, from_dev, zbc_sg_align_bufsz}
use libzbc.Sg.Sense.{sb}
use libzbc.Sg.Exec.{Reply, Sys}
use libzbc.Scsi.ReportDomains.{known_type}
use libzbc.Ata.{zbc_ata_get_dword, zbc_ata_get_qword, sensed_run}
use libzbc.Ata.ReportZones.{management_in}

module _ (dev : Device) where
  -- The domain of the descriptor at the front of the buffer. Its number of zones is an unsigned int,
  -- and its flags a uint16_t.
  unfoldable pub read_ata_domain : List ℕ → ZoneDomain
  read_ata_domain buf = record {
    zbm_start_sector = zbc_dev_lba2sect dev (zbc_ata_get_qword buf 24);
    zbm_end_sector = zbc_dev_lba2sect dev (zbc_ata_get_qword buf 32);
    zbm_nr_zones = u32 (zbc_ata_get_qword buf 16);
    zbm_id = sb buf 0;
    zbm_type = sb buf 40;
    zbm_flags = u16 (zbc_ata_get_dword buf 42);
  }

  -- The loop over the descriptors, by those left: whether it ends without an unknown zone type, and
  -- what it stored.
  unfoldable pub read_ata_domains : ℕ → List ℕ → Bool × List ZoneDomain
  read_ata_domains zero buf = (true, [])
  read_ata_domains (suc left) buf =
      let d = read_ata_domain buf in
      let (ok, ds) = read_ata_domains left (drop 96 buf) in
      if not (known_type d.zbm_type) then (false, d ∷ []) else (ok, d ∷ ds)

  -- The number of descriptors read: the smallest of the numbers reported, asked for, and held.
  unfoldable pub ata_domains_held : ℕ → ℕ → List ℕ → ℕ
  ata_domains_held nr_domains bufsz buf =
      let nd = sb buf 9 in
      let asked = if ltb nd nr_domains then nd else nr_domains in
      let sz = zbc_ata_get_dword buf 4 in
      let held = sub64 (if ltb sz bufsz then sz else bufsz) 64 / 96 in
      if ltb held asked then held else asked

  -- What is made of a reply of `bufsz` bytes. `domains` is false for a NULL array.
  unfoldable pub process_ata_domains : Bool → ℕ → ℕ → List ℕ → ℤ × List ZoneDomain
  process_ata_domains domains nr_domains bufsz buf =
      let nd = sb buf 9 in
      let (ok, ds) = read_ata_domains (ata_domains_held nr_domains bufsz buf) (drop 64 buf) in
      if ltb bufsz 64
      then (neg_eio, [])
      else if not domains || (nd == 0)
      then (pos 0, [])
      else (if ok then pos nd else neg_einval, ds)

module _ {K : Type 0} (sg_io : Cmd → K → Reply × K) (memalign : ℕ → Bool) (dev : Device) where
  unfoldable pub zbc_ata_report_domains : ℕ → ℕ → Bool → ℕ → Sys K → (ℤ × List ZoneDomain) × Sys K
  zbc_ata_report_domains sector ro domains nr_domains s =
      let bufsz = zbc_sg_align_bufsz dev (if domains then u64 (64 + nr_domains * 96) else 64) in
      let lba = if sector == 0 then 0 else zbc_dev_sect2lba dev sector in
      let ((ret, cmd), s') =
        sensed_run sg_io memalign dev bufsz from_dev
          (management_in (bit_and ro 0x3f) 0x07 lba bufsz) s in
      if not (is_zero ret)
      then ((ret, []), s')
      else (process_ata_domains dev domains nr_domains cmd.bufsz cmd.buf, s')
