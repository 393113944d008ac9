-- ===== src/Scsi.antt =====
-- The SCSI backend, lib/zbc_scsi.c. This file: zbc_scsi_zone_op, zbc_scsi_preadv, zbc_scsi_pwritev
-- and zbc_scsi_flush. Messages and the release of the command's buffer, which the caller does not
-- see, are left out.
pub mod Run
pub mod ReportZones
pub mod ReportDomains
pub mod ZoneOpFields
pub mod ZoneWire
pub mod Blocks
pub mod Layout
pub mod ReportFields
pub mod Inquiry
pub mod Characteristics
pub mod Activate32
pub mod Stats
pub mod Opened
pub mod RealmItems
pub mod ReportRealms
pub mod BufferSize
pub mod Serves
pub mod Honest
pub mod Capacity
pub mod Activate
pub mod ActivateWire
pub mod Mode
pub mod ModeFields
pub mod CapacityWire
pub mod Vendor
use libzbc.Base.{
  ℕ, ◌+◌, ◌-◌, ◌*◌, ◌/◌, ◌%◌, ◌^◌, Bool, not, Option, none, some, List, [], ◌∷◌, ◌==◌,
  if◌then◌else◌,
}
use libzbc.Base.{u32, sub64, has, set, replicate, ℤ, pos, is_zero, neg_einval}
use libzbc.Bytes.{set_int64, set_int32, set_int16}
use libzbc.Device.{Device, op_all_zones}
use libzbc.Device.ZoneOp as ZoneOp
use libzbc.Device.Sectors.{zbc_dev_sect2lba}
use libzbc.Device.Driver.{Iovec}
use libzbc.Iov.{zbc_iov_count}
use libzbc.Sg.{Cmd, zbc_sg_cmd_init, zbc_sg_vcmd_init}
use libzbc.Sg.CmdId as CmdId
use libzbc.Sg.Exec.{Reply, Sys, zbc_sg_cmd_exec}

-- A command block of zeros, as the set-up leaves it.
abbrev pub no_cdb : List ℕ
no_cdb = replicate 32 0

-- The identifier and the service action of an operation; all have one operation code.
unfoldable pub zone_op_code : ℕ → Option (ℕ × ℕ)
zone_op_code op =
    if op == ZoneOp.reset_zone
    then some (CmdId.reset_zone, 0x04)
    else if op == ZoneOp.open_zone
    then some (CmdId.open_zone, 0x03)
    else if op == ZoneOp.close_zone
    then some (CmdId.close_zone, 0x01)
    else if op == ZoneOp.finish_zone
    then some (CmdId.finish_zone, 0x02)
    else none

unfoldable pub zone_op_cdb : ℕ → ℕ → ℕ → ℕ → List ℕ
zone_op_cdb sa lba count flags =
    let cdb = set (set no_cdb 0 0x94) 1 sa in
    set_int16 (if has flags op_all_zones then set cdb 14 0x01 else set_int64 cdb 2 lba) 12 count

-- READ 16 and WRITE 16. `count` is in logical blocks.
unfoldable pub rw_cdb : ℕ → ℕ → ℕ → List ℕ
rw_cdb opcode lba count =
    set_int32 (set_int64 (set (set no_cdb 0 opcode) 1 0x10) 2 lba) 10 (u32 count)

module _ {K : Type 0} (sg_io : Cmd → K → Reply × K) (memalign : ℕ → Bool) (dev : Device) where
  -- The command that is set up, with its block.
  abbrev pub run : ℕ → ℕ → List ℕ → Sys K → (ℤ × Cmd) × Sys K
  run id bufsz cdb s =
      let (ret, cmd) = zbc_sg_cmd_init memalign dev id 0 bufsz in
      if not (is_zero ret)
      then ((ret, cmd), s)
      else zbc_sg_cmd_exec sg_io (record cmd { cdb = cdb }) s

  zone_op_with : Option (ℕ × ℕ) → ℕ → ℕ → ℕ → Sys K → ℤ × Sys K
  zone_op_with none sector count flags s = (neg_einval, s)
  zone_op_with (some (id, sa)) sector count flags s =
      let ((ret, cmd), s') =
        run id 0 (zone_op_cdb sa (zbc_dev_sect2lba dev sector) count flags) s in
      (ret, s')

  unfoldable pub zbc_scsi_zone_op : ℕ → ℕ → ℕ → ℕ → Sys K → ℤ × Sys K
  unfolding zone_op_with
  zbc_scsi_zone_op sector count op flags s = zone_op_with (zone_op_code op) sector count flags s

  -- What both transfer functions do.
  unfoldable pub transfer : ℕ → ℕ → List Iovec → ℕ → Sys K → ℤ × Sys K
  transfer id opcode iov offset s =
      let sz = zbc_iov_count iov in
      let (init, cmd) = zbc_sg_vcmd_init memalign dev id iov in
      let cdb = rw_cdb opcode (zbc_dev_sect2lba dev offset) (zbc_dev_sect2lba dev (sz / 512)) in
      let ((ret, cmd'), s') = zbc_sg_cmd_exec sg_io (record cmd { cdb = cdb }) s in
      if not (is_zero init)
      then (init, s)
      else (if is_zero ret then pos (sub64 sz cmd'.resid / 512) else ret, s')

  unfoldable pub zbc_scsi_preadv : List Iovec → ℕ → Sys K → ℤ × Sys K
  unfolding transfer
  zbc_scsi_preadv = transfer CmdId.read 0x88

  unfoldable pub zbc_scsi_pwritev : List Iovec → ℕ → Sys K → ℤ × Sys K
  unfolding transfer
  zbc_scsi_pwritev = transfer CmdId.write 0x8a

  unfoldable pub zbc_scsi_flush : Sys K → ℤ × Sys K
  zbc_scsi_flush s =
      let ((ret, cmd), s') =
        run CmdId.sync_cache 0 (set_int32 (set_int64 (set no_cdb 0 0x91) 2 0) 10 0) s in
      (ret, s')
