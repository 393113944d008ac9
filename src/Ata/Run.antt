-- ===== src/Ata/Run.antt =====
-- An ATA command that the drive completes.
use libzbc.Base.{
  ℕ, ◌^◌, ◌<◌, ◌≡◌, refl, ap, ◌∙◌, Bool, true, false, &&-false, List, ◌==◌, get_or, has, sub64, pos,
}
use libzbc.Device.{Device}
use libzbc.Sg.{Cmd, Dir, zbc_sg_cmd_init}
use libzbc.Sg.CmdId as CmdId
use libzbc.Sg.Exec.{Reply, Sys, wants_ata_status}
use libzbc.Scsi.Run.{Completes, exec_ok, init_ok, sizes}
use libzbc.Ata.{sensed_run}

-- The check condition bit of a block that does not have it.
quiet_block : (cmd : Cmd) → has (get_or cmd.cdb 2 0) 32 ≡ false → wants_ata_status cmd ≡ false
unfolding wants_ata_status
quiet_block cmd h = rw (h, &&-false (cmd.code == CmdId.ata16)) refl

module _ {K : Type 0} (sg_io : Cmd → K → Reply × K) (s : Sys K) where
  pub sensed_run_ok :
      (memalign : ℕ → Bool) (dev : Device) (bufsz : ℕ) (dir : Dir) (cdb : List ℕ) (resid : ℕ)
      (payload : List ℕ)
      → memalign bufsz ≡ true
      → 0 < bufsz
      → bufsz < 2 ^ 64
      → has (get_or cdb 2 0) 32 ≡ false
      → Completes sg_io cdb bufsz s.kernel resid payload
      → let ((ret, cmd'), s') = sensed_run sg_io memalign dev bufsz dir cdb s in
        (ret ≡ pos 0) × (cmd'.bufsz ≡ sub64 bufsz resid) × (cmd'.buf ≡ payload)
  sensed_run_ok memalign dev bufsz dir cdb resid payload ok some' small quiet answers =
      let (b, d, c) = sizes sg_io s memalign dev CmdId.ata16 bufsz ok some' small in
      let cmd : Cmd = record (zbc_sg_cmd_init memalign dev CmdId.ata16 0 bufsz).1 {
        dxfer_direction = dir;
        cdb = cdb;
      } in
      let (ret, sz, buf) =
        exec_ok sg_io s cmd resid payload (quiet_block cmd quiet) (answers cmd refl d) in
      rw (init_ok sg_io s memalign dev CmdId.ata16 bufsz ok some' small)
        (ret, sz ∙ ap (λ (t : ℕ). sub64 t resid) b, buf)
