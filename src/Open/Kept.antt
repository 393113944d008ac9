-- ===== src/Open/Kept.antt =====
-- A state of the kernel that no SG_IO command changes is what it was behind every step of the device
-- information of the two backends.
use libzbc.Base.{ℕ, zero, suc, ◌≡◌, refl, arith, Bool, List, ℤ}
use libzbc.Device.{Device}
use libzbc.Device.Driver.{Iovec}
use libzbc.Sg.{Cmd, Dir, none_dir, from_dev}
use libzbc.Sg.Exec.{Reply, Sys, zbc_sg_cmd_exec, zbc_sg_test_unit_ready, ready_loop}
use libzbc.Scsi.{run, transfer, zbc_scsi_preadv}
use libzbc.Scsi.ReportZones.{zbc_scsi_do_report_zones}
use libzbc.Scsi.ReportDomains.{zbc_scsi_report_domains}
use libzbc.Ata.{ata_run, sensed_run, zbc_ata_get_sense_data, zbc_ata_request_sense_data_ext}
use libzbc.Ata.Log.{stack_buf, zbc_ata_read_log, zbc_ata_set_features}
use libzbc.Ata.ReportZones.{zbc_ata_do_report_zones}
use libzbc.Scsi.Inquiry.{ask, zbc_scsi_inquiry, zbc_scsi_vpd_inquiry, zbc_scsi_vpd_page_supported}

module _ {K V : Type 0} (sg_io : Cmd → K → Reply × K) (memalign : ℕ → Bool) (view : K → V)
    (quiet : (cmd : Cmd) (k : K) → view (sg_io cmd k).1 ≡ view k) where
  -- What is seen of the kernel is the same.
  abbrev pub Kept : Sys K → Sys K → Type 0
  Kept s s' = view s'.kernel ≡ view s.kernel

  pub exec-Kept : (cmd : Cmd) (s : Sys K) → Kept s (zbc_sg_cmd_exec sg_io cmd s).1
  unfolding zbc_sg_cmd_exec
  exec-Kept cmd s = quiet cmd s.kernel

  pub run-Kept :
      (dev : Device) (id bufsz : ℕ) (cdb : List ℕ) (s : Sys K)
      → Kept s (run sg_io memalign dev id bufsz cdb s).1
  run-Kept dev id bufsz cdb s = grind (arith, exec-Kept)

  pub ask-Kept :
      (dev : Device) (len : ℕ) (cdb : List ℕ) (s : Sys K)
      → Kept s (ask sg_io memalign dev len cdb s).1
  ask-Kept dev len cdb s = grind (arith, exec-Kept)

  pub ready_loop-Kept :
      (dev : Device) (n : ℕ) (s : Sys K) → Kept s (ready_loop sg_io memalign dev n s).1
  unfolding ready_loop
  ready_loop-Kept dev zero s = refl
  ready_loop-Kept dev (suc n) s = grind (arith, exec-Kept, ready_loop-Kept dev n)

  pub ready-Kept :
      (dev : Device) (s : Sys K) → Kept s (zbc_sg_test_unit_ready sg_io memalign dev s).1
  unfolding zbc_sg_test_unit_ready
  ready-Kept dev s = grind (arith, ready_loop-Kept)

  pub inquiry-Kept :
      (dev : Device) (len : ℕ) (s : Sys K) → Kept s (zbc_scsi_inquiry sg_io memalign dev len s).1
  unfolding zbc_scsi_inquiry
  inquiry-Kept dev len s = ask-Kept dev len _ s

  pub vpd-Kept :
      (dev : Device) (page len : ℕ) (s : Sys K)
      → Kept s (zbc_scsi_vpd_inquiry sg_io memalign dev page len s).1
  unfolding zbc_scsi_vpd_inquiry
  vpd-Kept dev page len s = ask-Kept dev len _ s

  pub supported-Kept :
      (dev : Device) (page : ℕ) (s : Sys K)
      → Kept s (zbc_scsi_vpd_page_supported sg_io memalign dev page s).1
  unfolding zbc_scsi_vpd_page_supported
  supported-Kept dev page s = vpd-Kept dev 0x00 32 s

  pub preadv-Kept :
      (dev : Device) (iov : List Iovec) (offset : ℕ) (s : Sys K)
      → Kept s (zbc_scsi_preadv sg_io memalign dev iov offset s).1
  unfolding zbc_scsi_preadv transfer
  preadv-Kept dev iov offset s = grind (arith, exec-Kept)

  pub scsi_report-Kept :
      (dev : Device) (sector ro : ℕ) (max_lba zones : Bool) (nr bufsz : ℕ) (s : Sys K)
      → Kept s (zbc_scsi_do_report_zones sg_io memalign dev sector ro max_lba zones nr bufsz s).1
  unfolding zbc_scsi_do_report_zones
  scsi_report-Kept dev sector ro max_lba zones nr bufsz s = grind (arith, exec-Kept)

  pub domains-Kept :
      (dev : Device) (sector ro : ℕ) (domains : Bool) (nr : ℕ) (s : Sys K)
      → Kept s (zbc_scsi_report_domains sg_io memalign dev sector ro domains nr s).1
  unfolding zbc_scsi_report_domains
  domains-Kept dev sector ro domains nr s = grind (arith, exec-Kept)

  pub ata_run-Kept :
      (dev : Device) (buf bufsz : ℕ) (dir : Dir) (cdb : List ℕ) (s : Sys K)
      → Kept s (ata_run sg_io memalign dev buf bufsz dir cdb s).1
  ata_run-Kept dev buf bufsz dir cdb s = grind (arith, exec-Kept)

  pub log-Kept :
      (dev : Device) (log page : ℕ) (s : Sys K)
      → Kept s (zbc_ata_read_log sg_io memalign dev log page s).1
  unfolding zbc_ata_read_log
  log-Kept dev log page s = ata_run-Kept dev stack_buf 512 from_dev _ s

  pub features-Kept :
      (dev : Device) (feature lba count : ℕ) (s : Sys K)
      → Kept s (zbc_ata_set_features sg_io memalign dev feature lba count s).1
  unfolding zbc_ata_set_features
  features-Kept dev feature lba count s = ata_run-Kept dev 0 0 none_dir _ s

  pub sense-Kept :
      (dev : Device) (cmd : Cmd) (ret : ℤ) (s : Sys K)
      → Kept s (zbc_ata_get_sense_data sg_io memalign dev cmd ret s)
  unfolding zbc_ata_get_sense_data zbc_ata_request_sense_data_ext
  sense-Kept dev cmd ret s = grind (arith, ata_run-Kept, exec-Kept)

  pub sensed_run-Kept :
      (dev : Device) (bufsz : ℕ) (dir : Dir) (cdb : List ℕ) (s : Sys K)
      → Kept s (sensed_run sg_io memalign dev bufsz dir cdb s).1
  sensed_run-Kept dev bufsz dir cdb s = grind (arith, exec-Kept, sense-Kept)

  pub ata_report-Kept :
      (dev : Device) (sector ro : ℕ) (max_lba zones : Bool) (nr bufsz : ℕ) (s : Sys K)
      → Kept s (zbc_ata_do_report_zones sg_io memalign dev sector ro max_lba zones nr bufsz s).1
  unfolding zbc_ata_do_report_zones
  ata_report-Kept dev sector ro max_lba zones nr bufsz s =
      grind (arith, sensed_run-Kept, exec-Kept, sense-Kept)
