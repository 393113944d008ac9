-- ===== src/Examples/ServeWitnesses.antt =====
-- The theorems on zone reports through a backend at a drive that decodes the commands.
use libzbc.Base.{
  ℕ, ◌+◌, ◌-◌, ◌*◌, ◌≡◌, refl, ap, ◌∙◌, arith, Bool, true, List, [], ◌∷◌, map, take, length,
  length-take, replicate, min, pos, some, none,
}
use libzbc.Bytes.{get_int64}
use libzbc.Device.{Zone}
use libzbc.Scsi.Blocks.{wires_listed}
use libzbc.Scsi.Layout.{Layout, room_in}
use libzbc.Scsi.ZoneWire.{WireZone, in_sectors, report_bytes}
use libzbc.Scsi.ReportFields.{report_zones_lba}
use libzbc.Scsi.Serves as ScsiServes
use libzbc.Scsi.Serves.{scsi_reporter, scsi_report_zones-Reports, scsi_zones_complete}
use libzbc.Sg.{Cmd}
use libzbc.Sg.Exec.{Reply, replied, Sys}
use libzbc.Device.Driver.{Drv}
use libzbc.Zones.{no_zone, zbc_report_zones}
use libzbc.Zones.Spec.{Reports, reported}
use libzbc.Ata.LbaFields.{lba_field, management_in_lba}
use libzbc.Ata.Serves as AtaServes
use libzbc.Ata.Serves.{ata_reporter, ata_report_zones-Reports, ata_zones_complete}
use libzbc.Ata.ZoneWire.{ata_report_bytes}
use libzbc.Examples.{drive, every, idle, wire_at, wire_at-IsWire}

-- Three zones of eight blocks.
abbrev three_wires : List WireZone
three_wires = wire_at 0 ∷ wire_at 8 ∷ wire_at 16 ∷ []

three-Layout : Layout drive 1 24 three_wires
three-Layout = record {
  size = refl;
  m_pos = omega arith;
  capacity = refl;
  small = omega arith;
  covers = (refl, omega arith, (refl, omega arith, (refl, omega arith, refl)));
  fits = (
    wire_at-IsWire 0 (omega arith),
    (wire_at-IsWire 8 (omega arith), (wire_at-IsWire 16 (omega arith), tt)),
  );
}

abbrev q : WireZone → Bool
q w = every (in_sectors drive w)

-- The front of the list from a block on.
abbrev part_of : ℕ → ℕ → List WireZone
part_of lba bufsz = take (room_in bufsz) (wires_listed q three_wires lba)

-- An ATA drive that reads the address from the command.
abbrev ata_kernel : Cmd → ℕ → Reply × ℕ
ata_kernel cmd sent =
    let part = part_of (lba_field cmd.cdb) cmd.dxfer_len in
    (
      replied 0 0 0 0 (cmd.dxfer_len - (64 + length part * 64)) cmd.sense_buf
          (ata_report_bytes (length part) 23 part []),
      sent + 1,
    )

ata_kernel-Serves : AtaServes.Serves ata_kernel 0 q 24 three_wires 23 []
ata_kernel-Serves lba bufsz k below h =
    let part = part_of lba bufsz in
    (
      bufsz - (64 + length part * 64),
      omega (arith, length-take (room_in bufsz) (wires_listed q three_wires lba)),
      λ cmd e f.
          let field : lba_field cmd.cdb ≡ lba =
            ap lba_field e
            ∙ management_in_lba (AtaServes.options 0) 0x00 lba bufsz
            ∙ (omega arith) in
          let bytes = λ (l z : ℕ).
            replied 0 0 0 0 (z - (64 + length (part_of l z) * 64)) cmd.sense_buf
              (ata_report_bytes (length (part_of l z)) 23 (part_of l z) []) in
          ap (λ (l : ℕ). bytes l cmd.dxfer_len) field ∙ ap (bytes lba) f,
    )

-- A table whose other functions do nothing.
abbrev table : Drv (Sys ℕ)
table = record {
  zbd_report_zones = λ dev sector ro array n s. (record { ret = pos 0; stored = []; nr = 0 }, s);
  zbd_zone_op = λ dev sector count op flags s. (pos 0, s);
  zbd_report_domains = none;
  zbd_report_realms = λ dev sector ro array n s. (record { ret = pos 0; stored = []; nr = 0 }, s);
  zbd_zone_query_actv = none;
  zbd_dev_control = none;
  zbd_preadv = λ dev vs offset s. (pos 0, s);
  zbd_pwritev = λ dev vs offset s. (pos 0, s);
  zbd_flush = λ dev s. (pos 0, s);
}

-- Four zones asked for, from sector 9 on.
abbrev array : List Zone
array = replicate 4 no_zone

ata_report_zones-Reports_example :
    Reports
      (ata_reporter ata_kernel (λ n. true) table)
      drive
      (λ s. Unit)
      0
      every
      (map (in_sectors drive) three_wires)
ata_report_zones-Reports_example =
    ata_report_zones-Reports ata_kernel (λ n. true) table drive 1 24 0 23 every three_wires []
      three-Layout (refl, refl) (omega arith) (λ n. refl) ata_kernel-Serves

ata_zones_complete_example :
    let zones = map (in_sectors drive) three_wires in
    let r =
      (zbc_report_zones
        (ata_reporter ata_kernel (λ n. true) table)
        (pos 0)
        drive
        9
        0
        (some array)
        4
        idle).0 in
    (r.ret ≡ pos 0)
    × (r.nr ≡ min 4 (length (reported every zones 9)))
    × (take r.nr r.stored ≡ take 4 (reported every zones 9))
ata_zones_complete_example =
    ata_zones_complete ata_kernel (λ n. true) table drive 1 24 0 23 every three_wires []
      three-Layout (refl, refl) (omega arith) (λ n. refl) ata_kernel-Serves (pos 0) 9 4 array idle
      (omega arith) (omega arith) (omega arith) (omega arith)

-- A SCSI drive that reads the address from the command.
abbrev scsi_kernel : Cmd → ℕ → Reply × ℕ
scsi_kernel cmd sent =
    let part = part_of (get_int64 cmd.cdb 2) cmd.dxfer_len in
    (
      replied 0 0 0 0 (cmd.dxfer_len - (64 + length part * 64)) cmd.sense_buf
          (report_bytes (length part) 23 part []),
      sent + 1,
    )

scsi_kernel-Serves : ScsiServes.Serves scsi_kernel 0 q 24 three_wires 23 []
scsi_kernel-Serves lba bufsz k below h =
    let part = part_of lba bufsz in
    (
      bufsz - (64 + length part * 64),
      omega (arith, length-take (room_in bufsz) (wires_listed q three_wires lba)),
      λ cmd e f.
          let field : get_int64 cmd.cdb 2 ≡ lba =
            ap (λ (c : List ℕ). get_int64 c 2) e
            ∙ report_zones_lba lba bufsz (ScsiServes.options 0)
            ∙ omega arith in
          let bytes = λ (l z : ℕ).
            replied 0 0 0 0 (z - (64 + length (part_of l z) * 64)) cmd.sense_buf
              (report_bytes (length (part_of l z)) 23 (part_of l z) []) in
          ap (λ (l : ℕ). bytes l cmd.dxfer_len) field ∙ ap (bytes lba) f,
    )

scsi_report_zones-Reports_example :
    Reports
      (scsi_reporter scsi_kernel (λ n. true) table)
      drive
      (λ s. Unit)
      0
      every
      (map (in_sectors drive) three_wires)
scsi_report_zones-Reports_example =
    scsi_report_zones-Reports scsi_kernel (λ n. true) table drive 1 24 0 23 every three_wires []
      three-Layout (refl, refl) (omega arith) (λ n. refl) scsi_kernel-Serves

scsi_zones_complete_example :
    let zones = map (in_sectors drive) three_wires in
    let r =
      (zbc_report_zones
        (scsi_reporter scsi_kernel (λ n. true) table)
        (pos 0)
        drive
        9
        0
        (some array)
        4
        idle).0 in
    (r.ret ≡ pos 0)
    × (r.nr ≡ min 4 (length (reported every zones 9)))
    × (take r.nr r.stored ≡ take 4 (reported every zones 9))
scsi_zones_complete_example =
    scsi_zones_complete scsi_kernel (λ n. true) table drive 1 24 0 23 every three_wires []
      three-Layout (refl, refl) (omega arith) (λ n. refl) scsi_kernel-Serves (pos 0) 9 4 array idle
      (omega arith) (omega arith) (omega arith) (omega arith)
