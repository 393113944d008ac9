-- ===== src/Ata/Honest.antt =====
-- The transfers of the ATA backend keep the promise that lib/zbc.c relies on.
use libzbc.Base.{
  ℕ, ◌*◌, ◌/◌, ◌^◌, ◌≤◌, ◌<◌, ◌≡◌, refl, sym, ap, ◌∙◌, ◌⊎◌, inl, inr, arith, Bool, true, Bool-cases,
  not, List, length, ltb, ltb→ge, if◌then◌else◌, u32, sub64, ℤ, pos, is_zero, is_neg, pos_part, has,
  neg_einval, lt→ltb,
}
use libzbc.Activation.{to_int}
use libzbc.Device.{Device}
use libzbc.Device.Driver.{Iovec}
use libzbc.Device.Sectors.{zbc_dev_sect2lba}
use libzbc.Iov.{zbc_iov_count}
use libzbc.Iov.Bytes.{bytes_of}
use libzbc.Rw.Runs.{Honest}
use libzbc.Sg.{Cmd, Dir, from_dev, to_dev, zbc_sg_vcmd_init}
use libzbc.Sg.CmdId as CmdId
use libzbc.Sg.Exec.{Reply, Sys}
use libzbc.Scsi.Honest.{
  Bounded, resid_of, count_le, count_small, vcmd_init-Ready, exec-Settled, within,
  scsi_transfer-Honest, pos-ne, is_zero_neg,
}
use libzbc.Ata.{exec_sensed}
use libzbc.Ata.Transfer.{
  native_transfer, dma_cdb, use_sbc, zbc_ata_preadv, zbc_ata_pwritev, zbc_ata_native_preadv,
  zbc_ata_native_pwritev,
}

-- A conversion that keeps the numbers of sectors of a transfer.
abbrev Keeps : (ℕ → ℤ) → Type 0
Keeps convert = (n : ℕ) → n ≤ 65536 → convert n ≡ pos n

to_int-Keeps : Keeps (λ n. to_int (u32 n))
unfolding to_int
to_int-Keeps n h = let e : u32 n ≡ n = omega arith in rw (e, lt→ltb n (2 ^ 31) (omega arith)) refl

-- The code that a native transfer makes of the codes of the set-up and of the command.
abbrev finished : {K : Type 0} → (ℕ → ℤ) → ℤ → ℤ → ℕ → ℕ → Sys K → Sys K → ℤ × Sys K
finished convert init ret sz resid s s' =
    if not (is_zero init)
    then (init, s)
    else (if is_zero ret then convert (sub64 sz resid / 512) else ret, s')

abbrev native_outcome : {K : Type 0} → (ℕ → ℤ) → ℤ → ℤ → ℕ → ℕ → Sys K → Sys K → ℤ × Sys K
native_outcome convert init ret sz resid s s' =
    if ltb 65536 (sz / 512) then (neg_einval, s) else finished convert init ret sz resid s s'

native_outcome_le :
    {K : Type 0} (convert : ℕ → ℤ) (init ret : ℤ) (sz resid n : ℕ) (s s' : Sys K)
    → Keeps convert
    → (init ≡ pos 0) ⊎ (is_neg init ≡ true)
    → ((ret ≡ pos 0) × (resid ≤ sz)) ⊎ (is_neg ret ≡ true)
    → sz < 2 ^ 64
    → (native_outcome convert init ret sz resid s s').0 ≡ pos n
    → n * 512 ≤ sz
native_outcome_le convert init ret sz resid n s s' keeps i r top e =
    elim (Bool-cases (ltb 65536 (sz / 512))) [
      | inl large ↦ absurd (pos-ne neg_einval n refl (rw large at e))
      | inr small ↦ settled (ltb→ge 65536 (sz / 512) small) i r (rw small at e)
    ]
  where
    settled :
        sz / 512 ≤ 65536
        → (init ≡ pos 0) ⊎ (is_neg init ≡ true)
        → ((ret ≡ pos 0) × (resid ≤ sz)) ⊎ (is_neg ret ≡ true)
        → (finished convert init ret sz resid s s').0 ≡ pos n
        → n * 512 ≤ sz
    settled room (inr bad) r e = absurd (pos-ne init n bad (rw (is_zero_neg init bad) at e))
    settled room (inl ok) (inr bad) e =
        absurd (pos-ne ret n bad (rw (ok, is_zero_neg ret bad) at e))
    settled room (inl ok) (inl (zero_ret, le)) e =
        let moved : convert (sub64 sz resid / 512) ≡ pos n = rw (ok, zero_ret) at e in
        let fits : sub64 sz resid / 512 ≤ 65536 = omega arith in
        omega (arith, ap pos_part (sym (keeps (sub64 sz resid / 512) fits) ∙ moved))

module _ {K : Type 0} (sg_io : Cmd → K → Reply × K) (bounded : Bounded sg_io) (memalign : ℕ → Bool)
    (dev : Device) where
  native_le :
      (convert : ℕ → ℤ) (keeps : Keeps convert) (dir : Dir) (way command : ℕ) (iov : List Iovec)
      (offset n : ℕ) (s : Sys K)
      → (native_transfer sg_io memalign dev convert dir way command iov offset s).0 ≡ pos n
      → n * 512 ≤ length (bytes_of 1 iov)
  unfolding native_transfer
  native_le convert keeps dir way command iov offset n s e =
      let sz = zbc_iov_count iov in
      let init = zbc_sg_vcmd_init memalign dev CmdId.ata16 iov in
      let ready = vcmd_init-Ready memalign dev CmdId.ata16 iov in
      let cdb =
        dma_cdb way command (zbc_dev_sect2lba dev offset) (zbc_dev_sect2lba dev (sz / 512)) in
      let cmd : Cmd = record init.1 { dxfer_direction = dir; cdb = cdb } in
      let out = exec_sensed sg_io memalign dev cmd s in
      let fits : resid_of (sg_io cmd s.kernel).0 ≤ sz =
        omega (arith, bounded cmd s.kernel, ready.2) in
      let r =
        within (resid_of (sg_io cmd s.kernel).0) sz out.0 fits (exec-Settled sg_io cmd s ready.1) in
      let le : n * 512 ≤ sz =
        native_outcome_le convert init.0 out.0.0 sz out.0.1.resid n s out.1 keeps ready.0 r
          (count_small iov) e in
      omega (arith, le, count_le iov)

  -- With a kernel that never states a residue above the size of a transfer, the reads and the writes
  -- of the ATA backend, by ATA or by SCSI commands, never report more sectors than the vector holds,
  -- whatever the drive answers, for any device and allocator.
  pub ata_transfer-Honest :
      Honest (zbc_ata_preadv sg_io memalign) dev × Honest (zbc_ata_pwritev sg_io memalign) dev
  unfolding zbc_ata_preadv zbc_ata_pwritev zbc_ata_native_preadv zbc_ata_native_pwritev
  ata_transfer-Honest =
      let scsi = scsi_transfer-Honest sg_io bounded memalign dev in
      elim (Bool-cases (has dev.zbd_drv_flags use_sbc)) [
        | inl h ↦ rw h scsi
        | inr h ↦ rw h (
          (λ vs offset n s e. native_le pos (λ n h. refl) from_dev 0x0e 0x25 vs offset n s e),
          (λ vs offset n s e.
              native_le (λ n. to_int (u32 n)) to_int-Keeps to_dev 0x06 0x35 vs offset n s e),
        )
      ]
