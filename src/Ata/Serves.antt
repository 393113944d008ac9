-- ===== src/Ata/Serves.antt =====
-- The ATA backend on a drive that serves zone reports keeps the promise of a driver.
use libzbc.Base.{
  ℕ, zero, suc, ◌+◌, ◌-◌, ◌*◌, ◌/◌, ◌^◌, ◌≤◌, ◌<◌, ◌≡◌, refl, sym, ap, ◌∙◌, arith, Bool, true,
  false, List, [], ◌∷◌, ◌++◌, map, All, take, drop, length, length-take, min, pos, bit_and, bit_or,
  ℤ, some,
}
use libzbc.Base.{ge→ltb, &&-false, sub64, replicate}
use libzbc.Device.{Device, Zone, ro_partial, zbc_rz_ro_mask}
use libzbc.Device.Driver.{Drv}
use libzbc.Device.Sectors.{zbc_dev_sect2lba}
use libzbc.Scsi.Blocks.{wires_listed, listed-All, take-All, sect2lba_lem}
use libzbc.Scsi.Layout.{Layout, room_in, partial_report, Reports-of}
use libzbc.Scsi.ReportZones.{report_bufsz, report_of}
use libzbc.Scsi.Run.{Completes}
use libzbc.Scsi.ZoneWire.{WireZone, IsWire, in_sectors}
use libzbc.Sg.{Cmd, from_dev}
use libzbc.Sg.Exec.{Reply, replied, Sys}
use libzbc.Zones.{zbc_report_zones}
use libzbc.Zones.Spec.{Reports, reported}
use libzbc.Zones.Report.{report_zones_complete}
use libzbc.Ata.{zbc_ata_get_dword, zbc_ata_get_word}
use libzbc.Scsi.BufferSize.{Aligned, bufsz_fits}
use libzbc.Ata.ReportZones.{
  ata_report_bufsz, management_in, process_ata_report, zbc_ata_do_report_zones,
  zbc_ata_report_zones,
}
use libzbc.Ata.Run.{sensed_run_ok}
use libzbc.Ata.ZoneWire.{
  ata_descriptor, ata_descriptors, ata_report_bytes, ata_report_zones_reads, quiet, le32, le64,
}
use native.Mathlib.Nat.{div-lt_iff_lt-mul}

-- The options that the library sends for a partial report.
abbrev pub options : ℕ → ℕ
options ro = bit_and (bit_or (zbc_rz_ro_mask ro) ro_partial) 0xbf

-- The drive answers a partial report from any of its blocks with the front of its list, as far as
-- the buffer has room, and states the number of the descriptors in the reply. The bytes left over,
-- the residue, may be none of the reply's own.
abbrev pub Serves :
    {K : Type 0}
    → (Cmd → K → Reply × K)
    → ℕ
    → (WireZone → Bool)
    → ℕ
    → List WireZone
    → ℕ
    → List ℕ
    → Type 0
Serves {K} sg_io ro q b ws highest rest =
    (lba bufsz : ℕ) (k : K)
    → lba < b
    → 64 ≤ bufsz
    → let part = take (room_in bufsz) (wires_listed q ws lba) in
      (resid : ℕ) × (64 + length part * 64 + resid ≤ bufsz)
      × Completes sg_io (management_in (options ro) 0x00 lba bufsz) bufsz k resid
          (ata_report_bytes (length part) highest part rest)

split :
    (n : ℕ) (ws : List WireZone) (rest : List ℕ)
    → ata_descriptors (take n ws) ++ (ata_descriptors (drop n ws) ++ rest)
      ≡ ata_descriptors ws ++ rest
split zero ws rest = refl
split (suc n) [] rest = refl
split (suc n) (w ∷ ws) rest = ap (λ (t : List ℕ). ata_descriptor w ++ t) (split n ws rest)

module _ {K : Type 0} (sg_io : Cmd → K → Reply × K) (memalign : ℕ → Bool) (dev : Device) where
  -- A reply without descriptors.
  process_none :
      (nr_zones highest bufsz : ℕ) (rest : List ℕ)
      → 64 ≤ bufsz
      → (process_ata_report dev false true nr_zones bufsz
          (ata_report_bytes 0 highest [] rest)).zones
        ≡ record { ret = pos 0; stored = []; nr = 0 }
  unfolding process_ata_report report_of zbc_ata_get_dword zbc_ata_get_word
  process_none nr_zones highest bufsz rest h = rw (ge→ltb bufsz 64 h) refl

  report_none :
      (sector ro nr_zones bufsz resid highest : ℕ) (rest : List ℕ) (s : Sys K)
      → memalign bufsz ≡ true
      → 64 + resid ≤ bufsz
      → bufsz < 2 ^ 32
      → Completes sg_io
          (management_in (bit_and ro 0xbf) 0x00 (zbc_dev_sect2lba dev sector) bufsz)
          bufsz
          s.kernel
          resid
          (ata_report_bytes 0 highest [] rest)
      → (zbc_ata_do_report_zones sg_io memalign dev sector ro false true nr_zones bufsz s).0.zones
        ≡ record { ret = pos 0; stored = []; nr = 0 }
  unfolding zbc_ata_do_report_zones
  report_none sector ro nr_zones bufsz resid highest rest s ok h top answers =
      let (ret, sz, buf) =
        sensed_run_ok sg_io s memalign dev bufsz from_dev
          (management_in (bit_and ro 0xbf) 0x00 (zbc_dev_sect2lba dev sector) bufsz) resid
          (ata_report_bytes 0 highest [] rest) ok (omega arith) (omega arith)
          (quiet (bit_and ro 0xbf) (zbc_dev_sect2lba dev sector) bufsz) answers in
      let received : sub64 bufsz resid ≡ bufsz - resid = omega arith in
      rw (ok, &&-false, ret, sz, buf, received)
        (process_none nr_zones highest (bufsz - resid) rest (omega arith))

  -- A reply with the front of a list, of which the array has room for `n`.
  report_part :
      (sector ro n bufsz resid highest : ℕ) (ws : List WireZone) (rest : List ℕ) (s : Sys K)
      → memalign bufsz ≡ true
      → All IsWire ws
      → bufsz < 2 ^ 32
      → 64 + length ws * 64 + resid ≤ bufsz
      → Completes sg_io
          (management_in (bit_and ro 0xbf) 0x00 (zbc_dev_sect2lba dev sector) bufsz)
          bufsz
          s.kernel
          resid
          (ata_report_bytes (length ws) highest ws rest)
      → (zbc_ata_do_report_zones sg_io memalign dev sector ro false true n bufsz s).0.zones
        ≡ record { ret = pos 0; stored = map (in_sectors dev) (take n ws); nr = length (take n ws) }
  report_part sector ro zero bufsz resid highest [] rest s ok fits top room answers =
      report_none sector ro zero bufsz resid highest rest s ok (omega arith) top answers
  report_part sector ro (suc n) bufsz resid highest [] rest s ok fits top room answers =
      report_none sector ro (suc n) bufsz resid highest rest s ok (omega arith) top answers
  report_part sector ro n bufsz resid highest (w ∷ ws) rest s ok fits top room answers =
      let all = w ∷ ws in
      let tail = ata_descriptors (drop n all) ++ rest in
      let same : ata_report_bytes (length all) highest (take n all) tail
          ≡ ata_report_bytes (length all) highest all rest =
        ap
          (λ (t : List ℕ).
            le32 (length all * 64) ++ 0 ∷ 0 ∷ 0 ∷ 0 ∷ le64 highest ++ replicate 48 0 ++ t)
          (split n all rest) in
      ata_report_zones_reads sg_io memalign dev sector ro n bufsz resid (length all) highest
        (take n all) tail s ok (take-All n all fits) (omega arith) (omega arith) (omega arith) top
        (omega (arith, length-take n all))
        (λ cmd e f. answers cmd e f ∙ ap (replied 0 0 0 0 resid cmd.sense_buf) (sym same))

-- The table of a backend with the zone reports of this one.
abbrev pub ata_reporter :
    {K : Type 0} → (Cmd → K → Reply × K) → (ℕ → Bool) → Drv (Sys K) → Drv (Sys K)
ata_reporter sg_io memalign drv = record drv {
  zbd_report_zones =
      λ d sector ro zones n s. zbc_ata_report_zones sg_io memalign d sector ro zones n s;
}

module _ {K : Type 0} (sg_io : Cmd → K → Reply × K) (memalign : ℕ → Bool) (drv : Drv (Sys K))
    (dev : Device) (m b ro highest : ℕ) (p : Zone → Bool) (ws : List WireZone) (rest : List ℕ)
    (layout : Layout dev m b ws) (aligned : Aligned dev)
    (most : dev.zbd_info.zbd_max_rw_sectors < 2 ^ 23)
    (granted : (n : ℕ) → memalign (report_bufsz dev true n) ≡ true)
    (serves : Serves sg_io ro (λ w. p (in_sectors dev w)) b ws highest rest) where
  abbrev q : WireZone → Bool
  q w = p (in_sectors dev w)

  answers :
      (sector n : ℕ) (s : Sys K)
      → sector < dev.zbd_info.zbd_sectors
      → (zbc_ata_report_zones sg_io memalign dev sector
          (bit_or (zbc_rz_ro_mask ro) ro_partial)
          true
          n
          s).0
        ≡ partial_report dev n (room_in (report_bufsz dev true n)) (wires_listed q ws (sector / m))
  unfolding zbc_ata_report_zones ata_report_bufsz report_bufsz
  answers sector n s inside =
      let bufsz = report_bufsz dev true n in
      let (least, top) = bufsz_fits dev n aligned most in
      let start = zbc_dev_sect2lba dev sector in
      let lba : start ≡ sector / m =
        sect2lba_lem dev m layout.size layout.m_pos sector
          (omega (arith, layout.capacity, layout.small)) in
      let below : sector / m < b =
        (div-lt_iff_lt-mul {k = m} {x = sector} {y = b} layout.m_pos).1
          (omega (arith, layout.capacity)) in
      let all = wires_listed q ws start in
      let part = take (room_in bufsz) all in
      let (resid, left, reply) =
        serves start bufsz s.kernel (omega (arith, lba, below)) (omega arith) in
      let report =
        report_part sg_io memalign dev sector (bit_or (zbc_rz_ro_mask ro) ro_partial) n bufsz resid
          highest part rest s (granted n)
          (take-All (room_in bufsz) all (listed-All q ws start layout.fits)) top left reply in
      rw (← lba) report

  some_room : (n : ℕ) → 0 < room_in (report_bufsz dev true n)
  some_room n = omega (arith, bufsz_fits dev n aligned most)

  -- For a device that an open has aligned, while the report buffers can be allocated, and for a drive
  -- whose zones cover its blocks and that answers every partial report from one of its blocks, in
  -- every state, with the front of its list of matching zones, as far as the buffer has room, and
  -- with a residue that leaves that reply whole, the zone reports of the ATA backend keep the
  -- promise that lib/zbc.c relies on.
  pub ata_report_zones-Reports :
      Reports (ata_reporter sg_io memalign drv) dev (λ s. Unit) ro p (map (in_sectors dev) ws)
  ata_report_zones-Reports =
      Reports-of (ata_reporter sg_io memalign drv) dev m b ro p ws layout
        (λ n. room_in (report_bufsz dev true n)) some_room answers

  -- For a device that an open has aligned, while the report buffers can be allocated, and for a drive
  -- whose zones cover its blocks and that answers every partial report from one of its blocks, in
  -- every state, with the front of its list of matching zones, as far as the buffer has room, and
  -- with a residue that leaves that reply whole, a report of lib/zbc.c through the ATA backend for
  -- 0 < n < 2 ^ 32 zones from a sector inside the capacity succeeds and stores exactly the first n
  -- of the drive's matching zones from the one that holds the sector on, in sectors and in order,
  -- and leaves their number.
  pub ata_zones_complete :
      (junk : ℤ) (sector n : ℕ) (array : List Zone) (s : Sys K)
      → sector < dev.zbd_info.zbd_sectors
      → 0 < n
      → n < 2 ^ 32
      → n ≤ length array
      → let zones = map (in_sectors dev) ws in
        let r =
          (zbc_report_zones
            (ata_reporter sg_io memalign drv)
            junk
            dev
            sector
            ro
            (some array)
            n
            s).0 in
        (r.ret ≡ pos 0)
        × (r.nr ≡ min n (length (reported p zones sector)))
        × (take r.nr r.stored ≡ take n (reported p zones sector))
  ata_zones_complete = λ junk sector n array s.
      report_zones_complete ata_report_zones-Reports junk sector n array s tt
