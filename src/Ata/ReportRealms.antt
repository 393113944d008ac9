-- ===== src/Ata/ReportRealms.antt =====
-- zbc_ata_report_realms of lib/zbc_ata.c.
use libzbc.Base.{
  ℕ, zero, suc, ◌+◌, ◌-◌, ◌*◌, ◌/◌, ◌^◌, bit_and, Bool, true, not, ◌||◌, List, [], ◌∷◌, ◌==◌, ltb,
  if◌then◌else◌, u64, has, get_or, set, drop, pos, is_zero, is_neg, pos_part, neg_eio, neg_enxio,
  neg_enomem,
}
use libzbc.Device.{Device, ZoneDomain, ZoneRealm}
use libzbc.Device.DevFlag as DevFlag
use libzbc.Device.Driver.{Filled}
use libzbc.Device.Sectors.{zbc_dev_sect2lba}
use libzbc.Realms.{no_item, no_realm}
use libzbc.Sg.{Cmd, from_dev, zbc_sg_cmd_init, zbc_sg_align_bufsz}
use libzbc.Sg.CmdId as CmdId
use libzbc.Sg.Sense.{sb}
use libzbc.Sg.Exec.{Reply, Sys}
use libzbc.Scsi.RealmItems.{kept_domains, domain_array, fill_item, fill_realms, realm_type}
use libzbc.Scsi.ReportRealms.{no_realms}
use libzbc.Ata.{exec_sensed, zbc_ata_get_word, zbc_ata_get_dword, zbc_ata_get_qword}
use libzbc.Ata.ReportDomains.{zbc_ata_report_domains}
use libzbc.Ata.ReportZones.{management_in}

module _ (dev : Device) (domains : List ZoneDomain) where
  -- The loop over the four zone types of a descriptor of the old layout, by those left.
  unfoldable pub old_loop : ℕ → ℕ → List ℕ → ZoneRealm → ZoneRealm
  old_loop zero j ptr r = r
  old_loop (suc left) j ptr r =
      let it = fill_item dev zbc_ata_get_qword domains j ptr (get_or r.zbr_ri j no_item) in
      let filled : ZoneRealm = record r { zbr_ri = set r.zbr_ri j it } in
      old_loop left (j + 1) (drop 16 ptr) (if has r.zbr_actv_flags (2 ^ j) then filled else r)

  -- A descriptor of the old layout, of 128 bytes.
  unfoldable pub old_realm : ℕ → List ℕ → ZoneRealm → ZoneRealm
  unfolding old_loop
  old_realm nr_domains buf r =
      let dom_id = sb buf 0 in
      old_loop 4 0 (drop 16 buf) (record r {
        zbr_number = zbc_ata_get_word buf 2;
        zbr_dom_id = dom_id;
        zbr_type = realm_type dev zbc_ata_get_qword domains dom_id r;
        zbr_actv_flags = sb buf 1;
        zbr_nr_domains = nr_domains;
      })

  unfoldable pub old_realms : ℕ → ℕ → List ℕ → List ZoneRealm → List ZoneRealm
  old_realms nr_domains zero buf realms = []
  old_realms nr_domains (suc left) buf realms =
      old_realm nr_domains buf (get_or realms 0 no_realm)
      ∷ old_realms nr_domains left (drop 128 buf) (drop 1 realms)

  -- A reply of the old layout, of which `n` descriptors are read.
  abbrev old_report : ℕ → ℕ → List ℕ → List ZoneRealm → Filled ZoneRealm
  old_report nr_domains n buf array = record {
    ret = pos 0;
    stored = old_realms nr_domains n (drop 64 buf) array;
    nr = n;
  }

  -- What is made of a reply of `bufsz` bytes. A device of the standard layout that states no
  -- length of a descriptor has the old layout, and then the bytes received are not regarded.
  unfoldable pub process_ata_realms : ℕ → Bool → List ZoneRealm → ℕ → ℕ → List ℕ → Filled ZoneRealm
  unfolding old_realms
  process_ata_realms nr_domains wanted array nr_realms bufsz buf =
      let nr = zbc_ata_get_dword buf 0 in
      let asked = if ltb nr_realms nr then nr_realms else nr in
      let desc_len = zbc_ata_get_dword buf 4 in
      let held = (bufsz - 64) / desc_len in
      let n = if ltb held asked then held else asked in
      let old_held = (bufsz - 64) / 128 in
      if ltb bufsz 64
      then no_realms neg_eio 0
      else if not wanted || (nr == 0)
      then no_realms (pos 0) nr
      else if not (has dev.zbd_info.zbd_flags DevFlag.standard_rpt_realms)
      then old_report nr_domains (if ltb old_held asked then old_held else asked) buf array
      else if desc_len == 0
      then old_report nr_domains asked buf array
      else if not (zbc_ata_get_qword buf 8 == 0)
      then no_realms neg_enxio asked
      else record {
        ret = pos 0;
        stored =
            fill_realms dev zbc_ata_get_qword domains zbc_ata_get_dword zbc_ata_get_word nr_domains
              desc_len n (drop 64 buf) array;
        nr = n;
      }

module _ {K : Type 0} (sg_io : Cmd → K → Reply × K) (memalign calloc : ℕ → Bool)
    (dev : Device) where
  unfoldable pub zbc_ata_report_realms :
      ℕ → ℕ → Bool → List ZoneRealm → ℕ → Sys K → Filled ZoneRealm × Sys K
  unfolding process_ata_realms
  zbc_ata_report_realms sector ro wanted array nr_realms s =
      let ((found, ds), s₁) = zbc_ata_report_domains sg_io memalign dev 0 0 true 4 s in
      let nr_domains = kept_domains (pos_part found) in
      let bufsz = zbc_sg_align_bufsz dev (u64 (64 + nr_realms * 128)) in
      let (init, cmd) = zbc_sg_cmd_init memalign dev CmdId.ata16 0 bufsz in
      let cdb = management_in (bit_and ro 0x3f) 0x06 (zbc_dev_sect2lba dev sector) bufsz in
      let sent : Cmd = record cmd { dxfer_direction = from_dev; cdb = cdb } in
      let ((ret, cmd'), s₂) = exec_sensed sg_io memalign dev sent s₁ in
      if not (calloc 4)
      then (no_realms neg_enomem nr_realms, s)
      else if is_neg found
      then (no_realms found nr_realms, s₁)
      else if not (is_zero init)
      then (no_realms init nr_realms, s₁)
      else if not (is_zero ret)
      then (no_realms ret 0, s₂)
      else (
        process_ata_realms dev (domain_array ds) nr_domains wanted array nr_realms cmd'.bufsz
            cmd'.buf,
        s₂,
      )
