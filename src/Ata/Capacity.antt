-- ===== src/Ata/Capacity.antt =====
-- zbc_ata_get_capacity of lib/zbc_ata.c: the capacity page of the log. A report that leaves no
-- highest block is not used.
use libzbc.Base.{
  ℕ, ◌+◌, ◌-◌, ◌*◌, ◌/◌, ◌^◌, bit_and, Bool, true, false, not, ◌||◌, List, ◌==◌, ltb, if◌then◌else◌,
  u32, u64, has, ℤ, pos, is_zero, neg_einval,
}
use libzbc.Device.{Device, with_info, zbc_dev_is_zdr}
use libzbc.Scsi.ReportZones.{stored_or}
use libzbc.Sg.{Cmd}
use libzbc.Sg.Exec.{Reply, Sys}
use libzbc.Sg.MaxBlocks.{FileKind, zbc_sg_get_max_cmd_blocks}
use libzbc.Ata.{zbc_ata_get_qword}
use libzbc.Ata.Log.{zbc_ata_read_log}
use libzbc.Ata.ReportZones.{zbc_ata_do_report_zones}

-- The size of a logical block, in an unsigned int: the field counts 16-bit words.
unfoldable pub page_block_size : List ℕ → ℕ
page_block_size buf =
    if has (zbc_ata_get_qword buf 16) (2 ^ 61)
    then u32 (bit_and (zbc_ata_get_qword buf 24) 0xffffffff * 2)
    else 512

-- The number of logical blocks in a physical one.
unfoldable pub page_per_physical : List ℕ → ℕ
page_per_physical buf =
    let q = zbc_ata_get_qword buf 16 in if has q (2 ^ 62) then 2 ^ bit_and (q / 2 ^ 16) 0x7 else 1

-- The part after the number of blocks is known.
unfoldable pub set_sizes : Device → ℕ → ℕ → Device
set_sizes dev lblocks lpp =
    let size = dev.zbd_info.zbd_lblock_size in
    with_info dev (record dev.zbd_info {
      zbd_lblocks = lblocks;
      zbd_pblock_size = u32 (size * lpp);
      zbd_pblocks = lblocks / lpp;
      zbd_sectors = u64 (lblocks * size) / 512;
    })

module _ {K : Type 0} (sg_io : Cmd → K → Reply × K) (memalign : ℕ → Bool) (page_size : ℕ)
    (file : Device → FileKind) where
  -- The part for a device whose page has the two validity bits and the block size. ZBC_RO_PARTIAL is
  -- the reporting option.
  unfoldable pub total_capacity : Device → ℕ → Sys K → (ℤ × Device) × Sys K
  unfolding set_sizes
  total_capacity dev lpp s =
      let dev' = zbc_sg_get_max_cmd_blocks page_size file dev in
      let blocks = dev'.zbd_info.zbd_lblocks in
      let (r, s') =
        zbc_ata_do_report_zones sg_io memalign dev' 0 0x80 true false 0 dev'.zbd_report_bufsz_min
          s in
      if not (zbc_dev_is_zdr dev')
      then ((pos 0, set_sizes dev' blocks lpp), s)
      else if not (is_zero r.zones.ret)
      then ((r.zones.ret, dev'), s')
      else ((pos 0, set_sizes dev' (u64 (stored_or r.max_lba 0 + 1)) lpp), s')

  -- What is made of the page.
  unfoldable pub process_page : Device → List ℕ → Sys K → (ℤ × Device) × Sys K
  unfolding total_capacity page_block_size page_per_physical
  process_page dev buf s =
      let q = zbc_ata_get_qword buf 8 in
      let blocks = bit_and q (2 ^ 48 - 1) in
      let counted = with_info dev (record dev.zbd_info { zbd_lblocks = blocks }) in
      let size = page_block_size buf in
      let sized = with_info dev (record counted.zbd_info { zbd_lblock_size = size }) in
      if not (has q (2 ^ 63)) || (blocks == 0)
      then ((neg_einval, counted), s)
      else if not (has (zbc_ata_get_qword buf 16) (2 ^ 63))
      then ((neg_einval, counted), s)
      else if ltb size 512
      then ((neg_einval, sized), s)
      else total_capacity sized (page_per_physical buf) s

  unfoldable pub zbc_ata_get_capacity : Device → Sys K → (ℤ × Device) × Sys K
  unfolding process_page
  zbc_ata_get_capacity dev s =
      let ((ret, buf), s') = zbc_ata_read_log sg_io memalign dev 0x30 0x02 s in
      if not (is_zero ret) then ((ret, dev), s') else process_page dev buf s'
