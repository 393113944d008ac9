-- ===== src/Examples/ToolWitnesses.antt =====
-- The theorems on the command line tools at concrete inputs: runs on the small drive.
use libzbc.Base.{ℕ, ◌≡◌, refl, arith, Bool, true, false, [], ◌∷◌, none, some, pos, take, drop, List}
use libzbc.Activation.{call_actv}
use libzbc.Device.{Device, zbc_test_mode, zbc_zone_count_supported}
use libzbc.Device.Sectors.{zbc_dev_sect_laligned}
use libzbc.Examples.{drive, drive_info, drive_drv, drive_zones, domain_at, drive-Reports}
use libzbc.Tools.{Plan, iosize}
use libzbc.Tools.ActivateLine.{activate_in, ActivateAsked, parse_activate}
use libzbc.Tools.Chunks.{IsPlan}
use libzbc.Tools.OpRuns.{status, operate-Runs}
use libzbc.Tools.QueryRuns.{Leaves}
use libzbc.Tools.QueryLine.{activate_in-Leaves}
use libzbc.Tools.Args.{Numbers, to_u64}
use Prim.Native.String.{String}
use libzbc.Tools.ReadRuns as ReadRuns
use libzbc.Tools.ReadRuns.{read_loop-Ended}
use libzbc.Tools.ReadZone.{read_loop}
use libzbc.Tools.WriteRuns as WriteRuns
use libzbc.Tools.WriteRuns.{write_loop-Ended}
use libzbc.Tools.WriteZone.{write_loop}
use libzbc.Tools.ZoneOp.{OpAsked, operate}
use libzbc.Zones.{no_zone, zbc_list_zones, zbc_report_zones}
use libzbc.Zones.GroupOp.{run_ops, starts}
use libzbc.Zones.Spec.{from_sector, matching, reported}

abbrev never : List ℕ → Bool
never log = false

abbrev granted : ℕ → Bool
granted n = true

-- The second zone, with a buffer of three sectors.
abbrev second_zone : Plan
second_zone = record {
  start = 8;
  max = 8;
  bufsize = 1536;
  iovcnt = 1;
  vio = false;
  ionum = 0;
  buf = 1;
}

second_zone-IsPlan : IsPlan second_zone
unfolding iosize
second_zone-IsPlan = record { short = omega arith; sized = omega arith }

read_loop-Ended_example :
    ReadRuns.Ended 4096 drive_drv drive never none second_zone 1 0 []
      (read_loop 4096 drive_drv drive never none second_zone 9 1 0 0 [])
read_loop-Ended_example =
    read_loop-Ended 4096 drive_drv drive never none second_zone 1 [] (omega arith)
      second_zone-IsPlan (omega arith)

write_loop-Ended_example :
    WriteRuns.Ended 4096 drive_drv drive never none false second_zone 0 0 []
      (write_loop 4096 drive_drv drive never none false false second_zone 9 (pos 0) 0 0 0 [])
write_loop-Ended_example =
    write_loop-Ended 4096 drive_drv drive never none false second_zone (pos 0) 0 [] (omega arith)
      second_zone-IsPlan (omega arith)

abbrev reset_two : OpAsked
reset_two = record {
  oflags = 0;
  sector_unit = false;
  lba_unit = false;
  flags = 0;
  path = "";
  start = 1;
  zone_count = 2;
}

operate-Runs_example :
    let s₁ = (zbc_list_zones drive_drv (pos 7) drive granted 0 0 []).1 in
    let s₂ = (zbc_report_zones drive_drv (pos 7) drive 8 0 (some (no_zone ∷ [])) 1 s₁).1 in
    operate granted (pos 7) no_zone reset_two 1 drive_drv drive []
    ≡ status (run_ops drive_drv drive 1 0 (starts (take 2 (drop 1 drive_zones))) s₂)
unfolding zbc_dev_sect_laligned zbc_test_mode zbc_zone_count_supported from_sector matching reported
operate-Runs_example =
    operate-Runs drive-Reports (λ sector s g h. (refl, refl, tt)) granted (pos 7) no_zone reset_two
      1 [] tt refl refl refl refl (omega arith) (omega arith) refl refl (omega arith) (omega arith)
      (refl, (refl, tt))

-- A drive with domains that takes a number of zones with its commands.
abbrev activating_drive : Device
activating_drive = record drive { zbd_info = record drive_info { zbd_flags = 0x126 } }

abbrev query_line : List String
query_line = "-q" ∷ "-r" ∷ "-32" ∷ "-z" ∷ "/dev/sda" ∷ "0" ∷ "1" ∷ "seq" ∷ []

-- Conversions that give 1.
abbrev ones : Numbers
ones = record {
  atoi = λ t. pos 1;
  atol = λ t. pos 1;
  atoll = λ t. pos 1;
  strtol = λ t. some (pos 1);
}

abbrev zone_query : ActivateAsked
zone_query = record {
  oflags = 0;
  path = "/dev/sda";
  opts = record {
    start = 1;
    nr_units = 1;
    new_type = 2;
    domain_id = 0;
    lba_units = false;
    query = true;
    fsnoz = false;
    all = false;
    zone_addr = true;
    list = true;
    cdb32 = true;
    reset = false;
  };
}

activate_in-Leaves_example :
    Leaves
      (λ log. log)
      (7 ∷ [])
      (activate_in granted no_zone
        (pos 7)
        zone_query.opts
        (some (3, record (domain_at 3) { zbm_flags = 2 }))
        drive_drv
        activating_drive
        (7 ∷ []))
unfolding call_actv parse_activate to_u64
activate_in-Leaves_example =
    activate_in-Leaves (λ log. log) drive_drv activating_drive
      (record { reports = λ sector ro realms nr s. refl; queries = λ q recs nr s. refl }) granted
      no_zone (pos 7) ones query_line zone_query (some (3, record (domain_at 3) { zbm_flags = 2 }))
      (7 ∷ []) refl refl refl refl refl
