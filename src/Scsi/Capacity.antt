-- ===== src/Scsi/Capacity.antt =====
-- zbc_scsi_get_capacity of lib/zbc_scsi.c. Where the code divides by zero the outcome is `none`.
use libzbc.Base.{
  ℕ, ◌+◌, ◌*◌, ◌/◌, ◌^◌, bit_and, Bool, true, false, not, ◌&&◌, Option, none, some, List, ◌==◌,
  if◌then◌else◌,
}
use libzbc.Base.{u32, u64, has, set, ℤ, pos, is_zero, neg_eio}
use libzbc.Bytes.{get_int64, get_int32, set_int32}
use libzbc.Device.{Device, with_info, zbc_test_mode, zbc_dev_is_zoned}
use libzbc.Sg.{Cmd}
use libzbc.Sg.CmdId as CmdId
use libzbc.Sg.Sense.{sb}
use libzbc.Sg.Exec.{Reply, Sys}
use libzbc.Scsi.{no_cdb, run}
use libzbc.Scsi.Inquiry.{is_ata}
use libzbc.Scsi.ReportZones.{stored_or, zbc_scsi_do_report_zones}
use libzbc.Sg.MaxBlocks.{FileKind}
use libzbc.Ata.Capacity.{zbc_ata_get_capacity}

unfoldable pub capacity_cdb : List ℕ
capacity_cdb = set_int32 (set (set no_cdb 0 0x9e) 1 0x10) 10 32

-- `1 << buf[13] & 0x0f`, which is `(1 << buf[13]) & 0x0f`, for a shift that an int has room for.
unfoldable pub per_physical : ℕ → ℕ
per_physical exponent = bit_and (2 ^ exponent) 0x0f

-- From `zbd_lblocks` on, with the block size set.
unfoldable pub set_capacity : Device → ℕ → ℕ → Option (ℤ × Device)
set_capacity dev max_lba logical_per_physical =
    let lblocks = u64 (max_lba + 1) in
    let info = record dev.zbd_info { zbd_lblocks = lblocks } in
    let size = info.zbd_lblock_size in
    if lblocks == 0
    then some (neg_eio, with_info dev info)
    else if logical_per_physical == 0
    then none
    else some (
      pos 0,
      with_info dev (record info {
        zbd_pblock_size = u32 (size * logical_per_physical);
        zbd_pblocks = lblocks / logical_per_physical;
        zbd_sectors = u64 (lblocks * size) / 512;
      }),
    )

module _ {K : Type 0} (sg_io : Cmd → K → Reply × K) (memalign : ℕ → Bool) where
  -- The reply to READ CAPACITY 16, in `buf`. ZBC_RO_PARTIAL is the reporting option.
  unfoldable pub process_capacity : Device → List ℕ → Sys K → Option (ℤ × Device) × Sys K
  process_capacity dev buf s =
      let size = get_int32 buf 8 in
      let dev' = with_info dev (record dev.zbd_info { zbd_lblock_size = size }) in
      let lpp = per_physical (sb buf 13) in
      let basis = bit_and (sb buf 12) 0x30 / 16 in
      let (r, s') =
        zbc_scsi_do_report_zones sg_io memalign dev' 0 0x80 true false 0 dev'.zbd_report_bufsz_min
          s in
      let max_lba = get_int64 buf 0 in
      if size == 0
      then (some (neg_eio, dev'), s)
      else if not (zbc_dev_is_zoned dev')
      then (set_capacity dev' max_lba lpp, s)
      else if basis == 0
      then (
        if is_zero r.zones.ret
            then set_capacity dev' (stored_or r.max_lba max_lba) lpp
            else some (r.zones.ret, dev'),
        s',
      )
      else if basis == 1
      then (set_capacity dev' max_lba lpp, s)
      else (some (neg_eio, dev'), s)

  unfoldable pub read_capacity : Device → Sys K → Option (ℤ × Device) × Sys K
  read_capacity dev s =
      let ((ret, cmd), s') = run sg_io memalign dev CmdId.read_capacity 32 capacity_cdb s in
      if not (is_zero ret) then (some (ret, dev), s') else process_capacity dev cmd.buf s'

  -- An ATA drive is asked for its log first.
  unfoldable pub zbc_scsi_get_capacity :
      ℕ → (Device → FileKind) → Device → Sys K → Option (ℤ × Device) × Sys K
  unfolding read_capacity process_capacity
  zbc_scsi_get_capacity page_size file dev s =
      let ((ret, dev'), s') = zbc_ata_get_capacity sg_io memalign page_size file dev s in
      let fallback = read_capacity dev' s' in
      if has dev.zbd_drv_flags is_ata && not (zbc_test_mode dev)
      then (if is_zero ret then (some (pos 0, dev'), s') else fallback)
      else read_capacity dev s
