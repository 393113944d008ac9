-- ===== src/Ata/ZoneOp.antt =====
-- zbc_ata_zone_op of lib/zbc_ata.c: ZAC MANAGEMENT OUT.
use libzbc.Base.{ℕ, Bool, Option, none, some, List, ◌==◌, if◌then◌else◌, has, set, ℤ, neg_einval}
use libzbc.Device.{Device, op_all_zones}
use libzbc.Device.ZoneOp as ZoneOp
use libzbc.Device.Sectors.{zbc_dev_sect2lba}
use libzbc.Sg.{Cmd, none_dir}
use libzbc.Sg.Exec.{Reply, Sys}
use libzbc.Ata.{pass_through, put_count, no_data_ext, zbc_ata_put_lba, sensed_run}

-- The action of an operation.
unfoldable pub zone_op_action : ℕ → Option ℕ
zone_op_action op =
    if op == ZoneOp.open_zone
    then some 0x03
    else if op == ZoneOp.close_zone
    then some 0x01
    else if op == ZoneOp.finish_zone
    then some 0x02
    else if op == ZoneOp.reset_zone
    then some 0x04
    else none

unfoldable pub zone_op_block : ℕ → ℕ → ℕ → ℕ → List ℕ
zone_op_block af lba count flags =
    let cdb = set (pass_through no_data_ext 0 0x9f) 4 af in
    set
      (put_count (if has flags op_all_zones then set cdb 3 0x01 else zbc_ata_put_lba cdb lba) count)
      13 0x40

module _ {K : Type 0} (sg_io : Cmd → K → Reply × K) (memalign : ℕ → Bool) (dev : Device) where
  zone_action : Option ℕ → ℕ → ℕ → ℕ → Sys K → ℤ × Sys K
  unfolding zone_op_block
  zone_action none sector count flags s = (neg_einval, s)
  zone_action (some af) sector count flags s =
      let ((ret, cmd), s') =
        sensed_run sg_io memalign dev 0 none_dir
          (zone_op_block af (zbc_dev_sect2lba dev sector) count flags) s in
      (ret, s')

  unfoldable pub zbc_ata_zone_op : ℕ → ℕ → ℕ → ℕ → Sys K → ℤ × Sys K
  unfolding zone_action
  zbc_ata_zone_op sector count op flags s = zone_action (zone_op_action op) sector count flags s
