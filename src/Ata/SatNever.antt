-- ===== src/Ata/SatNever.antt =====
-- What zbc_ata_test_sbc_sat can find.
use libzbc.Base.{
  ℕ, ◌*◌, ◌≡◌, refl, ap, sym, inl, inr, arith, Bool, true, false, Bool-cases, ==→eq, ℤ, pos, negsuc,
  has, length-append, [],
}
use mathlib.Core.Bool.{true≢false}
use libzbc.Device.{Device, zbc_device_is_zdr}
use libzbc.Device.DevFlag as DevFlag
use libzbc.Iov.Bytes.{bytes_of, range, length-range}
use libzbc.Sg.{Cmd}
use libzbc.Sg.Exec.{Reply, Sys}
use libzbc.Scsi.{zbc_scsi_preadv}
use libzbc.Scsi.Honest.{Bounded, scsi_transfer-Honest}
use libzbc.Ata.Sat.{test_iov, is_eight, zbc_ata_test_sbc_sat}

is_eight_lem : (r : ℤ) → is_eight r ≡ true → r ≡ pos 8
is_eight_lem (pos n) h = ap pos (==→eq n 8 h)
is_eight_lem (negsuc n) h = absurd (true≢false (sym h))

module _ {K : Type 0} (sg_io : Cmd → K → Reply × K) (bounded : Bounded sg_io) (memalign : ℕ → Bool)
    (dev : Device) where
  never_eight : (s : Sys K) → is_eight (zbc_scsi_preadv sg_io memalign dev test_iov 0 s).0 ≡ false
  unfolding bytes_of
  never_eight s = elim (Bool-cases (is_eight (zbc_scsi_preadv sg_io memalign dev test_iov 0 s).0)) [
    | inr other ↦ other
    | inl yes' ↦ absurd (
        omega (
          arith,
          (scsi_transfer-Honest sg_io bounded memalign dev).0 test_iov 0 8 s (is_eight_lem _ yes'),
          length-append (range 1 (8 * 1)) (bytes_of 1 []),
          length-range 1 (8 * 1),
        ))
  ]

  -- With a kernel that never states a residue above the size of a transfer, the test for working
  -- SCSI reads never changes the device, unless it supports zone domains or realms: its vector has
  -- 8 bytes, so that no read returns 8 sectors, whatever the drive answers.
  pub sat_never_chosen :
      (s : Sys K)
      → zbc_device_is_zdr dev.zbd_info ≡ false
      → (zbc_ata_test_sbc_sat sg_io memalign dev s).0 ≡ dev
  unfolding zbc_ata_test_sbc_sat
  sat_never_chosen s plain =
      elim (Bool-cases (has dev.zbd_info.zbd_flags DevFlag.unrestricted_read)) [
        | inl free ↦ rw (plain, free, never_eight s) refl
        | inr bound ↦ rw (plain, bound) refl
      ]
