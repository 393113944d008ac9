-- ===== src/Ata/Transfer.antt =====
-- Reads, writes and the flush of lib/zbc_ata.c: READ DMA EXT, WRITE DMA EXT and FLUSH CACHE EXT, or
-- the functions of the SCSI backend on a device with ZBC_ATA_USE_SBC.
use libzbc.Base.{
  ℕ, ◌*◌, ◌/◌, Bool, not, List, ltb, if◌then◌else◌, u32, sub64, has, set, ℤ, pos, is_zero,
  neg_einval,
}
use libzbc.Device.{Device}
use libzbc.Device.Sectors.{zbc_dev_sect2lba}
use libzbc.Device.Driver.{Iovec}
use libzbc.Iov.{zbc_iov_count}
use libzbc.Activation.{to_int}
use libzbc.Sg.{Cmd, Dir, none_dir, to_dev, from_dev, zbc_sg_cmd_init, zbc_sg_vcmd_init}
use libzbc.Sg.CmdId as CmdId
use libzbc.Sg.Exec.{Reply, Sys, zbc_sg_cmd_exec}
use libzbc.Scsi.{zbc_scsi_preadv, zbc_scsi_pwritev, zbc_scsi_flush}
use libzbc.Ata.{pass_through, put_count, dma_ext, no_data_ext, zbc_ata_put_lba, exec_sensed}

-- ZBC_ATA_USE_SBC
abbrev pub use_sbc : ℕ
use_sbc = 0x1

-- `count` is in logical blocks. A field of 0 stands for 65536.
unfoldable pub dma_cdb : ℕ → ℕ → ℕ → ℕ → List ℕ
dma_cdb transfer command lba count =
    set (zbc_ata_put_lba (put_count (pass_through dma_ext transfer command) (u32 count)) lba) 13
      0x40

module _ {K : Type 0} (sg_io : Cmd → K → Reply × K) (memalign : ℕ → Bool) (dev : Device) where
  -- What both functions do; `convert` is that of the number of sectors to the type of `ret`.
  unfoldable pub native_transfer : (ℕ → ℤ) → Dir → ℕ → ℕ → List Iovec → ℕ → Sys K → ℤ × Sys K
  unfolding dma_cdb
  native_transfer convert dir way command iov offset s =
      let sz = zbc_iov_count iov in
      let count = sz / 512 in
      let (init, cmd) = zbc_sg_vcmd_init memalign dev CmdId.ata16 iov in
      let cdb = dma_cdb way command (zbc_dev_sect2lba dev offset) (zbc_dev_sect2lba dev count) in
      let ((ret, cmd'), s') =
        exec_sensed sg_io memalign dev (record cmd { dxfer_direction = dir; cdb = cdb }) s in
      if ltb 65536 count
      then (neg_einval, s)
      else if not (is_zero init)
      then (init, s)
      else (if is_zero ret then convert (sub64 sz cmd'.resid / 512) else ret, s')

  unfoldable pub zbc_ata_native_preadv : List Iovec → ℕ → Sys K → ℤ × Sys K
  unfolding native_transfer
  zbc_ata_native_preadv = native_transfer pos from_dev 0x0e 0x25

  unfoldable pub zbc_ata_native_pwritev : List Iovec → ℕ → Sys K → ℤ × Sys K
  unfolding native_transfer
  zbc_ata_native_pwritev = native_transfer (λ n. to_int (u32 n)) to_dev 0x06 0x35

  unfoldable pub zbc_ata_native_flush : Sys K → ℤ × Sys K
  zbc_ata_native_flush s =
      let (init, cmd) = zbc_sg_cmd_init memalign dev CmdId.ata16 0 0 in
      let sent : Cmd = record cmd {
        dxfer_direction = none_dir;
        timeout = cmd.timeout * 2;
        cdb = pass_through no_data_ext 0 0xea;
      } in
      let ((ret, cmd'), s') = zbc_sg_cmd_exec sg_io sent s in
      if not (is_zero init) then (init, s) else (ret, s')

  unfoldable pub zbc_ata_preadv : List Iovec → ℕ → Sys K → ℤ × Sys K
  unfolding zbc_ata_native_preadv
  zbc_ata_preadv =
      if has dev.zbd_drv_flags use_sbc
      then zbc_scsi_preadv sg_io memalign dev
      else zbc_ata_native_preadv

  unfoldable pub zbc_ata_pwritev : List Iovec → ℕ → Sys K → ℤ × Sys K
  unfolding zbc_ata_native_pwritev
  zbc_ata_pwritev =
      if has dev.zbd_drv_flags use_sbc
      then zbc_scsi_pwritev sg_io memalign dev
      else zbc_ata_native_pwritev

  unfoldable pub zbc_ata_flush : Sys K → ℤ × Sys K
  unfolding zbc_ata_native_flush
  zbc_ata_flush =
      if has dev.zbd_drv_flags use_sbc
      then zbc_scsi_flush sg_io memalign dev
      else zbc_ata_native_flush
