-- ===== src/Scsi/Run.antt =====
-- A command that the drive completes.
use libzbc.Base.{
  ==zero_false, ℕ, ◌+◌, ◌^◌, ◌<◌, ◌≡◌, refl, ap, ◌∙◌, arith, Bool, true, false, List, ◌==◌, sub64,
  u64, pos,
}
use libzbc.Device.{Device}
use libzbc.Iov.{zbc_iov_count}
use libzbc.Sg.{Cmd, init_cmd, zbc_sg_cmd_init, zbc_sg_vcmd_init}
use libzbc.Sg.Exec.{
  Reply, replied, Sys, zbc_sg_cmd_exec, zbc_sg_cmd_driver_status, finish, check_status,
  wants_ata_status, failed,
}
use libzbc.Sg.CmdId as CmdId
use libzbc.Scsi.{run}

-- The drive completes a command with the given block and buffer size without an error, writes no
-- sense data, and leaves `payload` in the buffer, `resid` bytes short of its size.
abbrev pub Completes : {K : Type 0} → (Cmd → K → Reply × K) → List ℕ → ℕ → K → ℕ → List ℕ → Type 0
Completes sg_io cdb bufsz k resid payload =
    (cmd : Cmd)
    → cmd.cdb ≡ cdb
    → cmd.dxfer_len ≡ bufsz
    → (sg_io cmd k).0 ≡ replied 0 0 0 0 resid cmd.sense_buf payload

module _ {K : Type 0} (sg_io : Cmd → K → Reply × K) (s : Sys K) where
  -- What is left of a command that the drive completes and whose ATA status is not asked for.
  pub exec_ok :
      (cmd : Cmd) (resid : ℕ) (payload : List ℕ)
      → wants_ata_status cmd ≡ false
      → (sg_io cmd s.kernel).0 ≡ replied 0 0 0 0 resid cmd.sense_buf payload
      → let ((ret, cmd'), s') = zbc_sg_cmd_exec sg_io cmd s in
        (ret ≡ pos 0) × (cmd'.bufsz ≡ sub64 cmd.bufsz resid) × (cmd'.buf ≡ payload)
  unfolding zbc_sg_cmd_exec finish check_status wants_ata_status failed zbc_sg_cmd_driver_status
  exec_ok cmd resid payload quiet e = rw (e, quiet) (refl, refl, refl)

  not_ata : (cmd : Cmd) → (cmd.code == CmdId.ata16) ≡ false → wants_ata_status cmd ≡ false
  unfolding wants_ata_status
  not_ata cmd other = rw other refl

  pub init_ok :
      (memalign : ℕ → Bool) (dev : Device) (id bufsz : ℕ)
      → memalign bufsz ≡ true
      → 0 < bufsz
      → bufsz < 2 ^ 64
      → (zbc_sg_cmd_init memalign dev id 0 bufsz).0 ≡ pos 0
  unfolding zbc_sg_cmd_init zbc_sg_vcmd_init zbc_iov_count
  init_ok memalign dev id bufsz ok some' small =
      let e : u64 (bufsz + 0) ≡ bufsz = omega arith in rw (e, ok, ==zero_false bufsz some') refl

  pub sizes :
      (memalign : ℕ → Bool) (dev : Device) (id bufsz : ℕ)
      → memalign bufsz ≡ true
      → 0 < bufsz
      → bufsz < 2 ^ 64
      → let cmd = (zbc_sg_cmd_init memalign dev id 0 bufsz).1 in
        (cmd.bufsz ≡ bufsz) × (cmd.dxfer_len ≡ bufsz) × (cmd.code ≡ id)
  unfolding zbc_sg_cmd_init zbc_sg_vcmd_init zbc_iov_count init_cmd
  sizes memalign dev id bufsz ok some' small =
      let e : u64 (bufsz + 0) ≡ bufsz = omega arith in
      rw (e, ok, ==zero_false bufsz some') (refl, refl, refl)

  pub run_ok :
      (memalign : ℕ → Bool) (dev : Device) (id bufsz : ℕ) (cdb : List ℕ) (resid : ℕ)
      (payload : List ℕ)
      → memalign bufsz ≡ true
      → 0 < bufsz
      → bufsz < 2 ^ 64
      → (id == CmdId.ata16) ≡ false
      → Completes sg_io cdb bufsz s.kernel resid payload
      → let ((ret, cmd'), s') = run sg_io memalign dev id bufsz cdb s in
        (ret ≡ pos 0) × (cmd'.bufsz ≡ sub64 bufsz resid) × (cmd'.buf ≡ payload)
  run_ok memalign dev id bufsz cdb resid payload ok some' small other answers =
      let (b, d, c) = sizes memalign dev id bufsz ok some' small in
      let cmd : Cmd = record (zbc_sg_cmd_init memalign dev id 0 bufsz).1 { cdb = cdb } in
      let (ret, sz, buf) =
        exec_ok cmd resid payload (not_ata cmd (ap (λ (t : ℕ). t == CmdId.ata16) c ∙ other))
          (answers cmd refl d) in
      rw (init_ok memalign dev id bufsz ok some' small)
        (ret, sz ∙ ap (λ (t : ℕ). sub64 t resid) b, buf)
