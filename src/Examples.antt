-- ===== src/Examples.antt =====
-- A small drive behind the driver's table, and runs of the theorems on it: three zones of eight
-- sectors, reports of two zones at most, transfers of two sectors at most. Its state is the log of
-- the sectors that commands were sent for.
pub mod Witnesses
pub mod ScsiWitnesses
pub mod ServeWitnesses
pub mod AtaWitnesses
pub mod OpenWitnesses
pub mod BalanceWitnesses
pub mod ScanWitnesses
pub mod InsideWitnesses
pub mod ListWitnesses
pub mod ToolWitnesses
pub mod ActivateWitnesses
use libzbc.Base.{
  ℕ, ◌+◌, ◌*◌, ◌/◌, ◌≤◌, ◌<◌, ◌≡◌, refl, sym, ap, ◌∙◌, arith, Bool, true, min, none, List, [], ◌∷◌,
  ℤ, pos, pos_part,
}
use libzbc.Base.{length, take, length-take}
use libzbc.Device.{Device, DeviceInfo, Zone}
use libzbc.Device.Driver.{Drv, Filled, Iovec}
use libzbc.Zones.Spec.{Reports, reported}
use libzbc.Iov.Bytes.{bytes_of}
use libzbc.Base.{if◌then◌else◌, some}
use libzbc.Device.{ActvRes, ZoneDomain, ZoneRealm}
use libzbc.Domains.{no_domain}
use libzbc.Realms.{no_realm}
use libzbc.Activation.{no_record}
use libzbc.Rw.Runs.{Honest}
use libzbc.Base.{◌^◌}
use libzbc.Sg.{Cmd}
use libzbc.Sg.Sense.{zbc_clear_errno}
use libzbc.Sg.Exec.{Reply, replied, Sys}
use libzbc.Scsi.ZoneWire.{WireZone, IsWire}

abbrev pub drive_info : DeviceInfo
drive_info = record {
  zbd_type = 2;
  zbd_model = 2;
  zbd_flags = 0;
  zbd_sectors = 24;
  zbd_lblock_size = 512;
  zbd_lblocks = 24;
  zbd_pblock_size = 512;
  zbd_pblocks = 24;
  zbd_max_rw_sectors = 16;
  zbd_opt_nr_open_seq_pref = 0;
  zbd_opt_nr_non_seq_write_seq_pref = 0;
  zbd_max_nr_open_seq_req = 0;
  zbd_max_activation = 0;
  zbd_snoz = 0;
}

abbrev pub drive : Device
drive = record {
  zbd_info = drive_info;
  zbd_o_flags = 0;
  zbd_fd = 3;
  zbd_drv_flags = 0;
  zbd_report_bufsz_mask = 511;
  zbd_report_bufsz_min = 512;
}

abbrev pub zone_at : ℕ → Zone
zone_at sector = record {
  zbz_length = 8;
  zbz_start = sector;
  zbz_write_pointer = sector;
  zbz_type = 2;
  zbz_condition = 1;
  zbz_attributes = 0;
}

abbrev pub drive_zones : List Zone
drive_zones = zone_at 0 ∷ zone_at 8 ∷ zone_at 16 ∷ []

abbrev pub every : Zone → Bool
every z = true

-- Two zones at most, from the one that holds the sector on; without an array, the number of all.
abbrev report_two : Device → ℕ → ℕ → Bool → ℕ → List ℕ → Filled Zone × List ℕ
report_two dev sector ro array n log =
    let all = length (reported every drive_zones sector) in
    let nr = if array then min (min n 2) all else all in
    (
      record { ret = pos 0; stored = take nr (reported every drive_zones sector); nr = nr },
      sector ∷ log,
    )

-- Two sectors at most.
abbrev move_two : Device → List Iovec → ℕ → List ℕ → ℤ × List ℕ
move_two dev vs offset log = (pos (min 2 (length (bytes_of 1 vs) / 512)), offset ∷ log)

-- Seven domains, more than the first report of zbc_list_domains has room for.
abbrev pub domain_at : ℕ → ZoneDomain
domain_at id = record no_domain { zbm_id = id; zbm_type = 2 }

abbrev pub drive_domains : List ZoneDomain
drive_domains =
    domain_at 0
    ∷ domain_at 1
    ∷ domain_at 2
    ∷ domain_at 3
    ∷ domain_at 4
    ∷ domain_at 5
    ∷ domain_at 6
    ∷ []

abbrev pub realm_at : ℕ → ZoneRealm
realm_at n = record no_realm { zbr_number = n; zbr_nr_domains = 2; zbr_actv_flags = 1 }

abbrev pub drive_realms : List ZoneRealm
drive_realms = realm_at 0 ∷ realm_at 1 ∷ []

abbrev pub drive_results : List ActvRes
drive_results = no_record ∷ record no_record { zbe_start_zone = 1; zbe_nr_zones = 2 } ∷ []

abbrev pub drive_drv : Drv (List ℕ)
drive_drv = record {
  zbd_report_zones = report_two;
  zbd_zone_op = λ dev sector count op flags log. (pos 0, sector ∷ log);
  zbd_report_domains = some (λ dev sector ro n log. ((pos 7, take n drive_domains), log));
  zbd_report_realms = λ dev sector ro array n log. (
    if array
        then record { ret = pos 0; stored = take n drive_realms; nr = min n (length drive_realms) }
        else record { ret = pos 0; stored = []; nr = length drive_realms },
    log,
  );
  zbd_zone_query_actv = some (λ dev zsrc all cdb32 query sector n id array nr log.
      (record { ret = pos 0; stored = if array then drive_results else []; nr = 2 }, log));
  zbd_dev_control = none;
  zbd_preadv = move_two;
  zbd_pwritev = move_two;
  zbd_flush = λ dev log. (pos 0, log);
}

pub drive-Reports : Reports drive_drv drive (λ log. Unit) 0 every drive_zones
drive-Reports = record {
  covers = (refl, omega arith, (refl, omega arith, (refl, omega arith, refl)));
  capacity = omega arith;
  succeeds = λ sector n s g h. refl;
  stores = λ sector n s g h. refl;
  fits = λ sector n s g h. (omega arith, omega arith);
  progress = λ sector n s g i h k. omega arith;
  stays = λ sector n s g h. tt;
}

pub move_two-Honest : Honest move_two drive
move_two-Honest vs offset n s e = omega (arith, ap pos_part e)

-- A kernel that completes every command without an error, and with these bytes in the buffer.
abbrev pub always : List ℕ → Cmd → ℕ → Reply × ℕ
always payload cmd sent = (replied 0 0 0 0 0 cmd.sense_buf payload, sent + 1)

abbrev pub idle : Sys ℕ
idle = record { zerrno = zbc_clear_errno; kernel = 0 }

-- The drive with REPORT REALMS, domains and realms.
abbrev pub zdr_drive : Device
zdr_drive = record drive { zbd_info = record drive_info { zbd_flags = 0x26 } }

-- Two zones as the drive sends them.
abbrev pub wire_at : ℕ → WireZone
wire_at block = record {
  type = 2;
  condition = 1;
  attributes = 0;
  blocks = 8;
  start = block;
  pointer = block;
}

abbrev pub wire_zones : List WireZone
wire_zones = wire_at 0 ∷ wire_at 8 ∷ []

pub wire_at-IsWire : (block : ℕ) → block < 2 ^ 64 → IsWire (wire_at block)
wire_at-IsWire block h = record {
  type_fits = omega arith;
  condition_fits = omega arith;
  attributes_fits = omega arith;
  blocks_fits = omega arith;
  start_fits = h;
  pointer_fits = h;
}
