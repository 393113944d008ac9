-- ===== src/Ata/Sat.antt =====
-- zbc_ata_test_sbc_sat, zbc_ata_get_dev_info and zbc_ata_get_stats of lib/zbc_ata.c. The vendor
-- string, which zbc_ata_vendor_id reads from the log at its place, is not kept: its command is run
-- for the state that it leaves.
use libzbc.Base.{
  ℕ, bit_or, Bool, false, not, List, [], ◌∷◌, ◌==◌, if◌then◌else◌, has, ℤ, pos, negsuc, is_zero,
  neg_enxio,
}
use libzbc.Device.{Device, zbc_test_mode, zbc_device_is_zdr}
use libzbc.Device.DevFlag as DevFlag
use libzbc.Device.Driver.{Iovec}
use libzbc.Sg.{Cmd}
use libzbc.Sg.Exec.{Reply, Sys, zbc_sg_test_unit_ready}
use libzbc.Sg.MaxBlocks.{FileKind, zbc_sg_get_max_cmd_blocks}
use libzbc.Scsi.{zbc_scsi_preadv}
use libzbc.Ata.Log.{stack_buf, zbc_ata_read_log}
use libzbc.Ata.Classify.{zbc_ata_classify}
use libzbc.Ata.Info.{zbc_ata_get_zoned_device_info}
use libzbc.Ata.Capacity.{zbc_ata_get_capacity}
use libzbc.Ata.Transfer.{use_sbc}

-- The vector of the test: a buffer of 4096 bytes, with its length given as 4096 >> 9.
abbrev pub test_iov : List Iovec
test_iov = record { iov_base = stack_buf; iov_len = 8 } ∷ []

abbrev pub is_eight : ℤ → Bool
is_eight (pos n) = n == 8
is_eight (negsuc n) = false

abbrev with_sbc : Device → Device
with_sbc dev = record dev { zbd_drv_flags = bit_or dev.zbd_drv_flags use_sbc }

module _ {K : Type 0} (sg_io : Cmd → K → Reply × K) (memalign : ℕ → Bool) where
  unfoldable pub zbc_ata_test_sbc_sat : Device → Sys K → Device × Sys K
  zbc_ata_test_sbc_sat dev s =
      let (ret, s') = zbc_scsi_preadv sg_io memalign dev test_iov 0 s in
      if zbc_device_is_zdr dev.zbd_info
      then (with_sbc dev, s)
      else if has dev.zbd_info.zbd_flags DevFlag.unrestricted_read
      then (if is_eight ret then with_sbc dev else dev, s')
      else (dev, s)

  -- The first step of the device information.
  abbrev pub ready_step : Device → Sys K → (ℤ × Device) × Sys K
  ready_step dev s = let (ret, s') = zbc_sg_test_unit_ready sg_io memalign dev s in ((ret, dev), s')

  -- The function has nothing to ask yet.
  unfoldable pub zbc_ata_get_stats : Sys K → ℤ × Sys K
  zbc_ata_get_stats s = (neg_enxio, s)

-- A step that gives a code, and what follows a success.
abbrev pub and_then :
    {K : Type 0}
    → (Sys K → (ℤ × Device) × Sys K)
    → (Device → Sys K → (ℤ × Device) × Sys K)
    → Sys K
    → (ℤ × Device) × Sys K
and_then step next s =
    let ((ret, dev), s') = step s in if not (is_zero ret) then ((ret, dev), s') else next dev s'

module _ {K : Type 0} (sg_io : Cmd → K → Reply × K) (memalign : ℕ → Bool) (page_size : ℕ)
    (file : Device → FileKind) where
  -- The part after the capacity is known.
  unfoldable pub last_steps : Device → Sys K → (ℤ × Device) × Sys K
  unfolding zbc_ata_test_sbc_sat
  last_steps dev s =
      let (r, s') = zbc_ata_read_log sg_io memalign dev 0x30 0x05 s in
      let dev' = zbc_sg_get_max_cmd_blocks page_size file dev in
      let (dev'', s'') = zbc_ata_test_sbc_sat sg_io memalign dev' s' in
      if zbc_test_mode dev' then ((pos 0, dev'), s') else ((pos 0, dev''), s'')

  unfoldable pub zbc_ata_get_dev_info : Device → Sys K → (ℤ × Device) × Sys K
  unfolding last_steps
  zbc_ata_get_dev_info dev =
      let dev' = record dev { zbd_report_bufsz_min = 512; zbd_report_bufsz_mask = 511 } in
      and_then (ready_step sg_io memalign dev') (λ d1.
        and_then (zbc_ata_classify sg_io memalign d1) (λ d2.
          and_then (zbc_ata_get_zoned_device_info sg_io memalign d2)
            (λ d3. and_then (zbc_ata_get_capacity sg_io memalign page_size file d3) last_steps)))
