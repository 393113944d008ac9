-- ===== src/Open/ScsiSteps.antt =====
-- The same of the SCSI device information, whose capacity may trap.
use libzbc.Base.{ℕ, ◌≡◌, arith, Bool, true, false, List, ℤ, Option, some, none}
use libzbc.Bytes.{get_int32}
use libzbc.Device.{Device, with_info}
use libzbc.Sg.{Cmd}
use libzbc.Sg.CmdId as CmdId
use libzbc.Sg.Exec.{Reply, Sys, zbc_sg_test_unit_ready}
use libzbc.Sg.MaxBlocks.{FileKind, zbc_sg_get_max_cmd_blocks}
use libzbc.Scsi.{run}
use libzbc.Scsi.Inquiry.{zbc_scsi_classify}
use libzbc.Scsi.Characteristics.{
  zbc_scsi_get_zbd_characteristics, size_steps, zbc_scsi_get_dev_info,
}
use libzbc.Scsi.Capacity.{
  capacity_cdb, set_capacity, process_capacity, read_capacity, zbc_scsi_get_capacity,
}
use libzbc.Ata.Capacity.{zbc_ata_get_capacity}
use libzbc.Open.Kept.{ready-Kept, scsi_report-Kept, run-Kept}
use libzbc.Open.Steps.{classify-Stays, characteristics-Stays, capacity-Stays}

-- The descriptor of the device of an outcome, if there is one.
abbrev pub SameFd : Device → Option (ℤ × Device) → Type 0
SameFd dev none = Unit
SameFd dev (some r) = r.1.zbd_fd ≡ dev.zbd_fd

set_capacity-SameFd : (dev : Device) (max lpp : ℕ) → SameFd dev (set_capacity dev max lpp)
unfolding set_capacity
set_capacity-SameFd dev max lpp = ground arith

module _ {K V : Type 0} (sg_io : Cmd → K → Reply × K) (memalign : ℕ → Bool) (view : K → V)
    (quiet : (cmd : Cmd) (k : K) → view (sg_io cmd k).1 ≡ view k) where
  abbrev pub AfterOption : Device → Sys K → Option (ℤ × Device) × Sys K → Type 0
  AfterOption dev s r = SameFd dev r.0 × (view r.1.kernel ≡ view s.kernel)

  process-AfterOption :
      (dev : Device) (buf : List ℕ) (s : Sys K)
      → AfterOption dev s (process_capacity sg_io memalign dev buf s)
  unfolding process_capacity set_capacity
  process-AfterOption dev buf s =
      let sized = with_info dev (record dev.zbd_info { zbd_lblock_size = get_int32 buf 8 }) in
      ground (
        arith,
        scsi_report-Kept sg_io memalign view quiet sized 0 0x80 true false 0
            sized.zbd_report_bufsz_min s,
      )

  read-AfterOption :
      (dev : Device) (s : Sys K) → AfterOption dev s (read_capacity sg_io memalign dev s)
  unfolding read_capacity
  read-AfterOption dev s =
      let reply = run sg_io memalign dev CmdId.read_capacity 32 capacity_cdb s in
      ground (
        arith,
        run-Kept sg_io memalign view quiet dev CmdId.read_capacity 32 capacity_cdb s,
        process-AfterOption dev reply.0.1.buf reply.1,
      )

  module _ (calloc : ℕ → Bool) (page_size : ℕ) (file : Device → FileKind) where
    capacity-AfterOption :
        (dev : Device) (s : Sys K)
        → AfterOption dev s (zbc_scsi_get_capacity sg_io memalign page_size file dev s)
    unfolding zbc_scsi_get_capacity
    capacity-AfterOption dev s =
        let log = zbc_ata_get_capacity sg_io memalign page_size file dev s in
        ground (
          arith,
          capacity-Stays sg_io memalign view quiet page_size file dev s,
          read-AfterOption log.0.1 log.1,
          read-AfterOption dev s,
        )

    size-AfterOption :
        (dev : Device) (s : Sys K)
        → AfterOption dev s (size_steps sg_io memalign calloc page_size file dev s)
    unfolding size_steps zbc_sg_get_max_cmd_blocks
    size-AfterOption dev s = ground (arith, capacity-AfterOption dev s)

    pub scsi_dev_info-AfterOption :
        (dev : Device) (s : Sys K)
        → AfterOption dev s (zbc_scsi_get_dev_info sg_io memalign calloc page_size file dev s)
    unfolding zbc_scsi_get_dev_info
    scsi_dev_info-AfterOption dev s =
        let start : Device = record dev {
          zbd_report_bufsz_min = 512;
          zbd_report_bufsz_mask = 511;
        } in
        let ready = zbc_sg_test_unit_ready sg_io memalign start s in
        let class = zbc_scsi_classify sg_io memalign start ready.1 in
        let info = zbc_scsi_get_zbd_characteristics sg_io memalign calloc class.0.1 class.1 in
        ground (
          arith,
          ready-Kept sg_io memalign view quiet start s,
          classify-Stays sg_io memalign view quiet start ready.1,
          characteristics-Stays sg_io memalign view quiet calloc class.0.1 class.1,
          size-AfterOption info.0.1 info.1,
        )
