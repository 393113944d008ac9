-- ===== src/Sg/Exec.antt =====
-- zbc_sg_cmd_exec and zbc_sg_test_unit_ready of lib/zbc_sg.c. The kernel is a parameter: what the
-- SG_IO ioctl does with a command, over a state of its own.
use libzbc.Base.{ℕ, zero, suc, bit_and, Bool, not, ◌&&◌, ◌||◌, List}
use libzbc.Base.{
  ◌==◌, ltb, if◌then◌else◌, has, get_or, set, sub64, ℤ, pos, negsuc, is_zero, is_eagain,
}
use libzbc.Base.{neg_eio, neg_eagain, neg_etimedout}
use libzbc.Device.{Device, ErrExt}
use libzbc.Sg.{Cmd, zbc_sg_cmd_init}
use libzbc.Sg.CmdId as CmdId
use libzbc.Sg.Sense.{sb, zbc_clear_errno, zbc_sg_set_sense}

-- The outcome of the ioctl: -1 with an errno, or 0 and the fields that it writes. `payload` is what the
-- buffer holds afterwards.
pub data Reply : Type 0 where
  refused : ℕ → Reply
  replied : (status host_status driver_status sb_len_wr resid : ℕ) (sense payload : List ℕ) → Reply

-- The state: the thread's error, and the kernel with the device.
pub record Sys (K : Type 0) : Type 0 where
  pub zerrno : ErrExt
  pub kernel : K

-- The errno, negated.
abbrev pub neg : ℕ → ℤ
neg zero = pos 0
neg (suc n) = negsuc n

unfoldable pub zbc_sg_cmd_driver_status : Cmd → ℕ
zbc_sg_cmd_driver_status cmd = bit_and cmd.driver_status 0x0f

-- ATA 16 with the check condition bit of the command set.
unfoldable pub wants_ata_status : Cmd → Bool
wants_ata_status cmd = (cmd.code == CmdId.ata16) && has (get_or cmd.cdb 2 0) 32

-- The ATA status descriptor of the sense data shows another status than 0x50.
unfoldable pub ata_failed : Cmd → Bool
unfolding zbc_sg_cmd_driver_status
ata_failed cmd =
    not (cmd.status == 2)
    || ((zbc_sg_cmd_driver_status cmd == 8)
        && ltb 21 cmd.sb_len_wr
        && not (sb cmd.sense_buf 21 == 0x50))

unfoldable pub failed : Cmd → Bool
unfolding zbc_sg_cmd_driver_status
failed cmd =
    not (cmd.status == 0)
    || not (cmd.host_status == 0)
    || (not (zbc_sg_cmd_driver_status cmd == 0) && not (zbc_sg_cmd_driver_status cmd == 8))

-- What `zbc_sg_cmd_exec` does once the ioctl has returned 0.
unfoldable pub check_status : Cmd → ErrExt → (ℤ × Cmd) × ErrExt
check_status cmd cleared =
    let sense = zbc_sg_set_sense cmd.sense_buf cmd.sb_len_wr in
    let cmd' = if wants_ata_status cmd then record cmd { status = 0 } else cmd in
    let timed_out = cmd'.host_status == 3 in
    if wants_ata_status cmd && ata_failed cmd
    then ((neg_eio, cmd), sense)
    else if failed cmd'
    then ((if timed_out then neg_etimedout else neg_eio, cmd'), sense)
    else ((pos 0, record cmd' { bufsz = sub64 cmd'.bufsz cmd'.resid }), cleared)

module _ {K : Type 0} (sg_io : Cmd → K → Reply × K) where
  unfoldable pub finish : Cmd → Reply → ErrExt → (ℤ × Cmd) × ErrExt
  finish cmd (refused errno) e = ((neg errno, cmd), e)
  finish cmd (replied status host_status driver_status sb_len_wr resid sense payload) e =
      check_status
        (record cmd {
          status = status;
          host_status = host_status;
          driver_status = driver_status;
          sb_len_wr = sb_len_wr;
          resid = resid;
          sense_buf = sense;
          buf = payload;
        })
        zbc_clear_errno

  unfoldable pub zbc_sg_cmd_exec : Cmd → Sys K → (ℤ × Cmd) × Sys K
  zbc_sg_cmd_exec cmd s =
      let (reply, k) = sg_io cmd s.kernel in
      let (r, e) = finish cmd reply s.zerrno in (r, record { zerrno = e; kernel = k })

  -- The loop of `zbc_sg_test_unit_ready`, by the retries left.
  unfoldable pub ready_loop : (ℕ → Bool) → Device → ℕ → Sys K → ℤ × Sys K
  ready_loop memalign dev zero s = (neg_eagain, s)
  ready_loop memalign dev (suc retries) s =
      let cmd = (zbc_sg_cmd_init memalign dev CmdId.test_unit_ready 0 0).1 in
      let ((ret, cmd'), s') = zbc_sg_cmd_exec (record cmd { cdb = set cmd.cdb 0 0 }) s in
      let attention =
        (cmd'.host_status == 11) || (not (cmd'.sb_len_wr == 0) && (sb cmd'.sense_buf 2 == 6)) in
      let rest = ready_loop memalign dev retries s' in
      if is_zero ret then (ret, s') else if attention || is_eagain ret then rest else (ret, s')

  unfoldable pub zbc_sg_test_unit_ready : (ℕ → Bool) → Device → Sys K → ℤ × Sys K
  zbc_sg_test_unit_ready memalign dev s =
      let (ret, s') = ready_loop memalign dev 5 s in (if is_eagain ret then neg_eio else ret, s')
