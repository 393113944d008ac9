-- ===== src/Scsi/ZoneWire.antt =====
-- A zone report as a drive sends it, and what the backend makes of it.
use libzbc.Base.{ℕ, ◌+◌, ◌-◌, ◌*◌, ◌/◌, ◌%◌, ◌^◌, ◌≤◌, ◌<◌, ◌≡◌, refl, sym, ◌∙◌, arith, bit_and}
use libzbc.Base.{
  Bool, true, false, ◌||◌, List, [], ◌∷◌, ◌++◌, length, replicate, map, All, if◌then◌else◌, ltb,
  ◌==◌, ge→ltb, ==zero_false, pos, min, u32, sub64, &&-false,
}
use libzbc.Base.Bits.{bit_and_low}
use libzbc.Bytes.{get_int64, get_int32}
use libzbc.Bytes.Stored.{be64, be32, get_int64_stored, get_int32_stored}
use libzbc.Device.{Device, Zone, zbc_zone_sequential, zbc_zone_sobr}
use libzbc.Device.Sectors.{zbc_dev_sect2lba, zbc_dev_lba2sect}
use libzbc.Scsi.ReportZones.{
  read_zone, read_zones, process_report, report_of, report_zones_cdb, zbc_scsi_do_report_zones,
}
use libzbc.Scsi.Run.{Completes, run_ok}
use libzbc.Sg.{Cmd}
use libzbc.Sg.CmdId as CmdId
use libzbc.Sg.Exec.{Reply, Sys}

-- A zone as the drive knows it, in logical blocks.
pub record WireZone : Type 0 where
  pub type : ℕ
  pub condition : ℕ
  pub attributes : ℕ
  pub blocks : ℕ
  pub start : ℕ
  pub pointer : ℕ

-- The values fit their fields.
pub record IsWire (w : WireZone) : Type 0 where
  pub type_fits : w.type < 16
  pub condition_fits : w.condition < 16
  pub attributes_fits : w.attributes < 4
  pub blocks_fits : w.blocks < 2 ^ 64
  pub start_fits : w.start < 2 ^ 64
  pub pointer_fits : w.pointer < 2 ^ 64

-- The 64 bytes of a zone descriptor.
abbrev pub descriptor : WireZone → List ℕ
descriptor w =
    w.type ∷ (w.condition * 16 + w.attributes) ∷ 0 ∷ 0 ∷ 0 ∷ 0 ∷ 0 ∷ 0 ∷ be64 w.blocks
    ++ be64 w.start
    ++ be64 w.pointer
    ++ replicate 32 0

abbrev pub descriptors : List WireZone → List ℕ
descriptors [] = []
descriptors (w ∷ ws) = descriptor w ++ descriptors ws

-- The zone in sectors. Only a zone of a sequential type has a write pointer.
unfoldable pub in_sectors : Device → WireZone → Zone
in_sectors dev w = record {
  zbz_length = zbc_dev_lba2sect dev w.blocks;
  zbz_start = zbc_dev_lba2sect dev w.start;
  zbz_write_pointer =
      if ((w.type == 2) || (w.type == 3)) || (w.type == 4)
      then zbc_dev_lba2sect dev w.pointer
      else 2 ^ 64 - 1;
  zbz_type = w.type;
  zbz_condition = w.condition;
  zbz_attributes = w.attributes;
}

-- A choice of the zone is one of its write pointer.
pub choice :
    (b : Bool) (z : Zone) (p : ℕ)
    → (if b then record z { zbz_write_pointer = p } else z)
      ≡ record z { zbz_write_pointer = if b then p else z.zbz_write_pointer }
choice true z p = refl
choice false z p = refl

-- The fields of the first two bytes.
module _ (w : WireZone) (fits : IsWire w) where
  pub type_read : bit_and w.type 15 ≡ w.type
  type_read =
      let low : bit_and w.type 15 ≡ w.type % 16 = bit_and_low 4 w.type in
      omega (arith, low, fits.type_fits)

  pub condition_read : bit_and ((w.condition * 16 + w.attributes) / 16) 15 ≡ w.condition
  condition_read =
      let c = (w.condition * 16 + w.attributes) / 16 in
      let low : bit_and c 15 ≡ c % 16 = bit_and_low 4 c in
      omega (arith, low, fits.condition_fits, fits.attributes_fits)

  pub attributes_read : bit_and (w.condition * 16 + w.attributes) 3 ≡ w.attributes
  attributes_read =
      let c = w.condition * 16 + w.attributes in
      let low : bit_and c 3 ≡ c % 4 = bit_and_low 2 c in omega (arith, low, fits.attributes_fits)

module _ (dev : Device) (w : WireZone) (fits : IsWire w) (rest : List ℕ) where
  abbrev buf : List ℕ
  buf = descriptor w ++ rest

  blocks_read : get_int64 buf 8 ≡ w.blocks
  blocks_read = omega (arith, get_int64_stored buf 8 w.blocks refl, fits.blocks_fits)

  start_read : get_int64 buf 16 ≡ w.start
  start_read = omega (arith, get_int64_stored buf 16 w.start refl, fits.start_fits)

  pointer_read : get_int64 buf 24 ≡ w.pointer
  pointer_read = omega (arith, get_int64_stored buf 24 w.pointer refl, fits.pointer_fits)

  read_zone_lem : read_zone dev buf ≡ in_sectors dev w
  unfolding read_zone in_sectors zbc_zone_sequential zbc_zone_sobr
  read_zone_lem =
      rw
        (
          blocks_read,
          start_read,
          pointer_read,
          type_read w fits,
          condition_read w fits,
          attributes_read w fits,
        )
        (choice (((w.type == 2) || (w.type == 3)) || (w.type == 4))
          (record {
            zbz_length = zbc_dev_lba2sect dev w.blocks;
            zbz_start = zbc_dev_lba2sect dev w.start;
            zbz_write_pointer = 2 ^ 64 - 1;
            zbz_type = w.type;
            zbz_condition = w.condition;
            zbz_attributes = w.attributes;
          })
          (zbc_dev_lba2sect dev w.pointer))

read_zones_lem :
    (dev : Device) (ws : List WireZone) (rest : List ℕ)
    → All IsWire ws
    → read_zones dev (length ws) (descriptors ws ++ rest) ≡ map (in_sectors dev) ws
unfolding read_zones
read_zones_lem dev [] rest fits = refl
read_zones_lem dev (w ∷ ws) rest fits =
    rw (read_zone_lem dev w fits.0 (descriptors ws ++ rest), read_zones_lem dev ws rest fits.1) refl

-- A reply to REPORT ZONES: the length of the list of all `total` zones, the highest block, and the
-- descriptors, with whatever follows them.
abbrev pub report_bytes : ℕ → ℕ → List WireZone → List ℕ → List ℕ
report_bytes total highest ws rest =
    be32 (total * 64) ++ 0 ∷ 0 ∷ 0 ∷ 0 ∷ be64 highest ++ replicate 48 0 ++ descriptors ws ++ rest

-- The number of zones that both backends read.
abbrev pub held_count : ℕ → ℕ → ℕ → ℕ
held_count nr_zones total bufsz =
    let asked = if ltb nr_zones total then nr_zones else total in
    let buf_nz = u32 ((bufsz - 64) / 64) in if ltb buf_nz asked then buf_nz else asked

pub held_lem :
    (nr_zones total bufsz : ℕ)
    → bufsz < 2 ^ 32
    → held_count nr_zones total bufsz ≡ min (min nr_zones total) ((bufsz - 64) / 64)
held_lem nr_zones total bufsz top = ground arith

process_report_lem :
    (dev : Device) (nr_zones total highest bufsz : ℕ) (ws : List WireZone) (rest : List ℕ)
    → All IsWire ws
    → 0 < total
    → total < 2 ^ 26
    → 64 ≤ bufsz
    → bufsz < 2 ^ 32
    → length ws ≡ min (min nr_zones total) ((bufsz - 64) / 64)
    → (process_report dev false true nr_zones bufsz (report_bytes total highest ws rest)).zones
      ≡ record { ret = pos 0; stored = map (in_sectors dev) ws; nr = length ws }
unfolding process_report report_of
process_report_lem dev nr_zones total highest bufsz ws rest fits some' small header top len =
    let stated : get_int32 (report_bytes total highest ws rest) 0 / 64 ≡ total =
      omega (arith, get_int32_stored (report_bytes total highest ws rest) 0 (total * 64) refl) in
    let held : held_count nr_zones total bufsz ≡ length ws =
      held_lem nr_zones total bufsz top ∙ sym len in
    rw
      (
        stated,
        ge→ltb bufsz 64 header,
        ==zero_false total some',
        held,
        read_zones_lem dev ws rest fits,
      )
      refl

-- A drive that completes REPORT ZONES for a sector with the descriptors of its zones from there on,
-- `total` of them, of which at least those that the array and the bytes received have room for are
-- in the reply: the call succeeds, stores exactly these zones, in order and converted to sectors,
-- and leaves their number.
pub do_report_zones_reads :
    {K : Type 0} (sg_io : Cmd → K → Reply × K) (memalign : ℕ → Bool) (dev : Device)
    (sector ro nr_zones bufsz resid total highest : ℕ) (ws : List WireZone) (rest : List ℕ)
    (s : Sys K)
    → memalign bufsz ≡ true
    → All IsWire ws
    → 0 < total
    → total < 2 ^ 26
    → 64 + resid ≤ bufsz
    → bufsz < 2 ^ 32
    → length ws ≡ min (min nr_zones total) ((bufsz - resid - 64) / 64)
    → Completes sg_io
        (report_zones_cdb (zbc_dev_sect2lba dev sector) bufsz ro)
        bufsz
        s.kernel
        resid
        (report_bytes total highest ws rest)
    → (zbc_scsi_do_report_zones sg_io memalign dev sector ro false true nr_zones bufsz s).0.zones
      ≡ record { ret = pos 0; stored = map (in_sectors dev) ws; nr = length ws }
unfolding zbc_scsi_do_report_zones
do_report_zones_reads sg_io memalign dev sector ro nr_zones bufsz resid total highest ws rest s ok
      fits some' small room top len answers =
    let (ret, sz, buf) =
      run_ok sg_io s memalign dev CmdId.report_zones bufsz
        (report_zones_cdb (zbc_dev_sect2lba dev sector) bufsz ro) resid
        (report_bytes total highest ws rest) ok (omega arith) (omega arith) refl answers in
    let received : sub64 bufsz resid ≡ bufsz - resid = omega arith in
    rw (ok, &&-false, ret, sz, buf, received)
      (process_report_lem dev nr_zones total highest (bufsz - resid) ws rest fits some' small
        (omega arith) (omega arith) len)
