-- ===== src/Sg.antt =====
-- Commands of the SCSI generic driver: struct zbc_sg_cmd of lib/zbc_sg.h, the table of commands,
-- zbc_sg_vcmd_init, zbc_sg_cmd_init, zbc_sg_cmd_destroy and zbc_sg_align_bufsz.
pub mod CmdId
pub mod Sense
pub mod Exec
pub mod Descriptors
pub mod Ready
pub mod MaxBlocks
use libzbc.Base.{
  ℕ, zero, suc, ◌+◌, ◌-◌, ◌*◌, ◌/◌, ◌%◌, ◌^◌, bit_or, Bool, true, false, not, ◌&&◌, ◌||◌,
}
use libzbc.Base.{
  List, [], ◌∷◌, ◌==◌, ltb, if◌then◌else◌, u64, has, get_or, replicate, length, ℤ, pos, negsuc,
}
use libzbc.Base.{neg_einval, neg_enomem}
use libzbc.Device.{Device}
use libzbc.Device.Driver.{Iovec}
use libzbc.Iov.{zbc_iov_count}

-- The transfer direction; `unset` is the 0 that the table has for ATA 16, whose user sets it.
pub data Dir : Type 0 where
  unset : Dir
  none_dir : Dir
  to_dev : Dir
  from_dev : Dir

-- An entry of `zbc_sg_cmd_list`, without the name.
pub record CmdInfo : Type 0 where
  pub cdb_opcode : ℕ
  pub cdb_sa : ℕ
  pub cdb_length : ℕ
  pub dir : Dir
  pub timeout : ℕ

abbrev entry : ℕ → ℕ → ℕ → Dir → ℕ → CmdInfo
entry opcode sa len dir timeout = record {
  cdb_opcode = opcode;
  cdb_sa = sa;
  cdb_length = len;
  dir = dir;
  timeout = timeout;
}

-- The entries in the order of the identifiers. MODE SENSE (10) is 0x5a and MODE SELECT (10) 0x55.
unfoldable pub zbc_sg_cmd_list : List CmdInfo
zbc_sg_cmd_list =
    entry 0x00 0 6 none_dir 30000
    ∷ entry 0x12 0 6 from_dev 30000
    ∷ entry 0x9e 0x10 16 from_dev 30000
    ∷ entry 0x5a 0 10 from_dev 30000
    ∷ entry 0x55 0 10 to_dev 30000
    ∷ entry 0x88 0 16 from_dev 30000
    ∷ entry 0x8a 0 16 to_dev 30000
    ∷ entry 0x91 0 16 none_dir 60000
    ∷ entry 0x95 0x00 16 from_dev 30000
    ∷ entry 0x94 0x04 16 none_dir 30000
    ∷ entry 0x94 0x03 16 none_dir 30000
    ∷ entry 0x94 0x01 16 none_dir 30000
    ∷ entry 0x94 0x02 16 none_dir 30000
    ∷ entry 0x94 0x10 16 none_dir 30000
    ∷ entry 0x95 0x06 16 from_dev 30000
    ∷ entry 0x95 0x07 16 from_dev 30000
    ∷ entry 0x95 0x08 16 from_dev 30000
    ∷ entry 0x95 0x09 16 from_dev 30000
    ∷ entry 0x7f 0xf800 32 from_dev 30000
    ∷ entry 0x7f 0xf801 32 from_dev 30000
    ∷ entry 0x1c 0 6 from_dev 30000
    ∷ entry 0x85 0 16 unset 30000
    ∷ []

-- struct zbc_sg_cmd with the fields of its header. `buf` is what the buffer of a single-buffer
-- command holds; `iov` is where the data goes.
pub record Cmd : Type 0 where
  pub code : ℕ
  pub cdb_opcode : ℕ
  pub cdb_sa : ℕ
  pub cdb_sz : ℕ
  pub cdb : List ℕ
  pub sense_buf : List ℕ
  pub buf_needfree : Bool
  pub bufsz : ℕ
  pub buf : List ℕ
  pub iov : List Iovec
  pub timeout : ℕ
  pub flags : ℕ
  pub dxfer_direction : Dir
  pub iovec_count : ℕ
  pub dxfer_len : ℕ
  pub status : ℕ
  pub host_status : ℕ
  pub driver_status : ℕ
  pub sb_len_wr : ℕ
  pub resid : ℕ

-- O_DIRECT, which ZBC_O_DIRECT is, on x86
abbrev pub o_direct : ℕ
o_direct = 0x4000

abbrev no_info : CmdInfo
no_info = entry 0 0 0 unset 0

-- The command that `zbc_sg_vcmd_init` sets up, with the buffer it allocated or not.
unfoldable pub init_cmd : Device → ℕ → List Iovec → Bool → Cmd
unfolding zbc_sg_cmd_list
init_cmd dev cmd_code iov allocated =
    let info = get_or zbc_sg_cmd_list cmd_code no_info in
    let bufsz = zbc_iov_count iov in
    let single = length iov == 1 in
    record {
      code = cmd_code;
      cdb_opcode = info.cdb_opcode;
      cdb_sa = info.cdb_sa;
      cdb_sz = info.cdb_length;
      cdb = replicate 32 0;
      sense_buf = replicate 64 0;
      buf_needfree = allocated;
      bufsz = bufsz;
      buf = [];
      iov = iov;
      timeout = info.timeout;
      flags = if has dev.zbd_o_flags o_direct && not (bufsz == 0) && single then 0x11 else 0x10;
      dxfer_direction = info.dir;
      iovec_count = if ltb 1 (length iov) then length iov else 0;
      dxfer_len = bufsz;
      status = 0;
      host_status = 0;
      driver_status = 0;
      sb_len_wr = 0;
      resid = 0;
    }

abbrev pub no_vec : Iovec
no_vec = record { iov_base = 0; iov_len = 0 }

-- `memalign` says whether the allocation of a buffer of that many bytes succeeds. A failed
-- set-up leaves a command that nobody uses.
unfoldable pub zbc_sg_vcmd_init : (ℕ → Bool) → Device → ℕ → List Iovec → ℤ × Cmd
zbc_sg_vcmd_init memalign dev cmd_code iov =
    let bufsz = zbc_iov_count iov in
    let needed = ((get_or iov 0 no_vec).iov_base == 0) && not (bufsz == 0) in
    let cmd = init_cmd dev cmd_code iov needed in
    if needed && not (length iov == 1)
    then (neg_einval, cmd)
    else if needed && not (memalign bufsz)
    then (neg_enomem, cmd)
    else (pos 0, cmd)

unfoldable pub zbc_sg_cmd_init : (ℕ → Bool) → Device → ℕ → ℕ → ℕ → ℤ × Cmd
zbc_sg_cmd_init memalign dev cmd_code buf bufsz =
    zbc_sg_vcmd_init memalign dev cmd_code (record { iov_base = buf; iov_len = bufsz } ∷ [])

-- `~511` has all bits of a `size_t` but the low nine.
unfoldable pub zbc_sg_align_bufsz : Device → ℕ → ℕ
zbc_sg_align_bufsz dev bufsz =
    let max = u64 (dev.zbd_info.zbd_max_rw_sectors * 512) in
    let max_bufsz = if max == 0 then 512 else max in
    let aligned = u64 (bufsz + 511) / 512 * 512 in
    if ltb max_bufsz aligned then max_bufsz else aligned
