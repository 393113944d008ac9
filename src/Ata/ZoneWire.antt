-- ===== src/Ata/ZoneWire.antt =====
-- A zone report as an ATA drive sends it, and what the backend makes of it.
use libzbc.Base.{ℕ, ◌+◌, ◌-◌, ◌*◌, ◌/◌, ◌%◌, ◌^◌, ◌≤◌, ◌<◌, ◌≡◌, refl, sym, ◌∙◌, arith, bit_and}
use libzbc.Base.{
  Bool, true, false, ◌||◌, List, [], ◌∷◌, ◌++◌, length, replicate, map, All, ◌==◌, ge→ltb,
  ==zero_false, pos, min, sub64, &&-false, has, get_or,
}
use libzbc.Bytes.{byte_of}
use libzbc.Device.{Device, zbc_zone_sequential, zbc_zone_sobr}
use libzbc.Device.Sectors.{zbc_dev_sect2lba, zbc_dev_lba2sect}
use libzbc.Scsi.ReportZones.{report_of}
use libzbc.Scsi.Run.{Completes}
use libzbc.Scsi.ZoneWire.{
  WireZone, IsWire, in_sectors, choice, held_count, held_lem, type_read, condition_read,
  attributes_read,
}
use libzbc.Sg.{Cmd, from_dev}
use libzbc.Sg.Exec.{Reply, Sys}
use libzbc.Ata.{
  zbc_ata_get_word, zbc_ata_get_dword, zbc_ata_get_qword, zbc_ata_put_lba, zbc_ata_set_lba,
}
use libzbc.Ata.Run.{sensed_run_ok}
use libzbc.Ata.ReportZones.{
  read_ata_zone, read_ata_zones, process_ata_report, management_in, zbc_ata_do_report_zones,
}

-- The bytes of an integer as an ATA drive stores it, the least significant first.
abbrev pub le32 : ℕ → List ℕ
le32 v = byte_of v 0 ∷ byte_of v 1 ∷ byte_of v 2 ∷ byte_of v 3 ∷ []

abbrev pub le64 : ℕ → List ℕ
le64 v = le32 v ++ byte_of v 4 ∷ byte_of v 5 ∷ byte_of v 6 ∷ byte_of v 7 ∷ []

dword_of :
    (v : ℕ)
    → byte_of v 0 + 256 * byte_of v 1 + 65536 * (byte_of v 2 + 256 * byte_of v 3) ≡ v % 2 ^ 32
dword_of v = omega arith

qword_of :
    (v : ℕ)
    → byte_of v 0
        + 256 * byte_of v 1
        + 65536 * (byte_of v 2 + 256 * byte_of v 3)
        + 2 ^ 32 * (byte_of v 4 + 256 * byte_of v 5 + 65536 * (byte_of v 6 + 256 * byte_of v 7))
      ≡ v % 2 ^ 64
qword_of v = omega arith

-- The 64 bytes of a zone descriptor.
abbrev pub ata_descriptor : WireZone → List ℕ
ata_descriptor w =
    w.type ∷ (w.condition * 16 + w.attributes) ∷ 0 ∷ 0 ∷ 0 ∷ 0 ∷ 0 ∷ 0 ∷ le64 w.blocks
    ++ le64 w.start
    ++ le64 w.pointer
    ++ replicate 32 0

abbrev pub ata_descriptors : List WireZone → List ℕ
ata_descriptors [] = []
ata_descriptors (w ∷ ws) = ata_descriptor w ++ ata_descriptors ws

module _ (dev : Device) (w : WireZone) (fits : IsWire w) (rest : List ℕ) where
  abbrev buf : List ℕ
  buf = ata_descriptor w ++ rest

  blocks_read : zbc_ata_get_qword buf 8 ≡ w.blocks
  unfolding zbc_ata_get_qword zbc_ata_get_dword zbc_ata_get_word
  blocks_read = omega (arith, qword_of w.blocks, fits.blocks_fits)

  start_read : zbc_ata_get_qword buf 16 ≡ w.start
  unfolding zbc_ata_get_qword zbc_ata_get_dword zbc_ata_get_word
  start_read = omega (arith, qword_of w.start, fits.start_fits)

  pointer_read : zbc_ata_get_qword buf 24 ≡ w.pointer
  unfolding zbc_ata_get_qword zbc_ata_get_dword zbc_ata_get_word
  pointer_read = omega (arith, qword_of w.pointer, fits.pointer_fits)

  read_ata_zone_lem : read_ata_zone dev buf ≡ in_sectors dev w
  unfolding read_ata_zone in_sectors zbc_zone_sequential zbc_zone_sobr
  read_ata_zone_lem =
      rw
        (
          blocks_read,
          start_read,
          pointer_read,
          type_read w fits,
          condition_read w fits,
          attributes_read w fits,
        )
        (choice (((w.type == 2) || (w.type == 3)) || (w.type == 4))
          (record {
            zbz_length = zbc_dev_lba2sect dev w.blocks;
            zbz_start = zbc_dev_lba2sect dev w.start;
            zbz_write_pointer = 2 ^ 64 - 1;
            zbz_type = w.type;
            zbz_condition = w.condition;
            zbz_attributes = w.attributes;
          })
          (zbc_dev_lba2sect dev w.pointer))

read_ata_zones_lem :
    (dev : Device) (ws : List WireZone) (rest : List ℕ)
    → All IsWire ws
    → read_ata_zones dev (length ws) (ata_descriptors ws ++ rest) ≡ map (in_sectors dev) ws
unfolding read_ata_zones
read_ata_zones_lem dev [] rest fits = refl
read_ata_zones_lem dev (w ∷ ws) rest fits =
    rw
      (
        read_ata_zone_lem dev w fits.0 (ata_descriptors ws ++ rest),
        read_ata_zones_lem dev ws rest fits.1,
      )
      refl

-- A reply to REPORT ZONES EXT: the length of the list of all `total` zones, the highest block, and
-- the descriptors, with whatever follows them.
abbrev pub ata_report_bytes : ℕ → ℕ → List WireZone → List ℕ → List ℕ
ata_report_bytes total highest ws rest =
    le32 (total * 64)
    ++ 0 ∷ 0 ∷ 0 ∷ 0 ∷ le64 highest
    ++ replicate 48 0
    ++ ata_descriptors ws
    ++ rest

stated_total :
    (total highest : ℕ) (ws : List WireZone) (rest : List ℕ)
    → total < 2 ^ 26
    → zbc_ata_get_dword (ata_report_bytes total highest ws rest) 0 / 64 ≡ total
unfolding zbc_ata_get_dword zbc_ata_get_word
stated_total total highest ws rest small = omega (arith, dword_of (total * 64))

process_ata_report_lem :
    (dev : Device) (nr_zones total highest bufsz : ℕ) (ws : List WireZone) (rest : List ℕ)
    → All IsWire ws
    → 0 < total
    → total < 2 ^ 26
    → 64 ≤ bufsz
    → bufsz < 2 ^ 32
    → length ws ≡ min (min nr_zones total) ((bufsz - 64) / 64)
    → (process_ata_report dev false true nr_zones bufsz
        (ata_report_bytes total highest ws rest)).zones
      ≡ record { ret = pos 0; stored = map (in_sectors dev) ws; nr = length ws }
unfolding process_ata_report report_of
process_ata_report_lem dev nr_zones total highest bufsz ws rest fits some' small header top len =
    let stated : zbc_ata_get_dword (ata_report_bytes total highest ws rest) 0 / 64 ≡ total =
      stated_total total highest ws rest small in
    let held : held_count nr_zones total bufsz ≡ length ws =
      held_lem nr_zones total bufsz top ∙ sym len in
    rw
      (
        stated,
        ge→ltb bufsz 64 header,
        ==zero_false total some',
        held,
        read_ata_zones_lem dev ws rest fits,
      )
      refl

pub quiet :
    (features lba bufsz : ℕ) → has (get_or (management_in features 0x00 lba bufsz) 2 0) 32 ≡ false
unfolding management_in zbc_ata_put_lba zbc_ata_set_lba
quiet features lba bufsz = refl

-- An ATA drive that completes REPORT ZONES EXT for a sector with the descriptors of its zones from
-- there on, `total` of them, of which at least those that the array and the bytes received have room
-- for are in the reply: the call succeeds, stores exactly these zones, in order and converted to
-- sectors, and leaves their number.
pub ata_report_zones_reads :
    {K : Type 0} (sg_io : Cmd → K → Reply × K) (memalign : ℕ → Bool) (dev : Device)
    (sector ro nr_zones bufsz resid total highest : ℕ) (ws : List WireZone) (rest : List ℕ)
    (s : Sys K)
    → memalign bufsz ≡ true
    → All IsWire ws
    → 0 < total
    → total < 2 ^ 26
    → 64 + resid ≤ bufsz
    → bufsz < 2 ^ 32
    → length ws ≡ min (min nr_zones total) ((bufsz - resid - 64) / 64)
    → Completes sg_io
        (management_in (bit_and ro 0xbf) 0x00 (zbc_dev_sect2lba dev sector) bufsz)
        bufsz
        s.kernel
        resid
        (ata_report_bytes total highest ws rest)
    → (zbc_ata_do_report_zones sg_io memalign dev sector ro false true nr_zones bufsz s).0.zones
      ≡ record { ret = pos 0; stored = map (in_sectors dev) ws; nr = length ws }
unfolding zbc_ata_do_report_zones
ata_report_zones_reads sg_io memalign dev sector ro nr_zones bufsz resid total highest ws rest s ok
      fits some' small room top len answers =
    let (ret, sz, buf) =
      sensed_run_ok sg_io s memalign dev bufsz from_dev
        (management_in (bit_and ro 0xbf) 0x00 (zbc_dev_sect2lba dev sector) bufsz) resid
        (ata_report_bytes total highest ws rest) ok (omega arith) (omega arith)
        (quiet (bit_and ro 0xbf) (zbc_dev_sect2lba dev sector) bufsz) answers in
    let received : sub64 bufsz resid ≡ bufsz - resid = omega arith in
    rw (ok, &&-false, ret, sz, buf, received)
      (process_ata_report_lem dev nr_zones total highest (bufsz - resid) ws rest fits some' small
        (omega arith) (omega arith) len)
