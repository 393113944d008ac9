-- ===== src/Ata.antt =====
-- The ATA backend, lib/zbc_ata.c: ATA commands in ATA 16 pass-through blocks. This file: the
-- little-endian words, the address fields, the command blocks and the sense data of the drive.
-- A byte is below 256, so that `|` of shifted bytes is their sum.
pub mod Log
pub mod Transfer
pub mod ZoneOp
pub mod ReportZones
pub mod ReportDomains
pub mod ReportRealms
pub mod Inside
pub mod Activate
pub mod Classify
pub mod Info
pub mod Capacity
pub mod Sat
pub mod SatNever
pub mod Honest
pub mod LbaFields
pub mod Run
pub mod ZoneWire
pub mod Opened
pub mod Serves
pub mod Vendor
use libzbc.Base.{
  ℕ, ◌+◌, ◌-◌, ◌*◌, ◌/◌, ◌%◌, ◌^◌, bit_and, bit_or, Bool, false, not, ◌&&◌, ◌||◌, List, ◌==◌, ltb,
  leb, if◌then◌else◌,
}
use libzbc.Base.{has, set, ℤ, pos, negsuc, is_zero}
use libzbc.Device.{Device, ErrExt}
use libzbc.Sg.{Cmd, Dir, none_dir, zbc_sg_cmd_init}
use libzbc.Sg.CmdId as CmdId
use libzbc.Sg.Sense.{sb}
use libzbc.Sg.Exec.{Reply, Sys, zbc_sg_cmd_exec}
use libzbc.Scsi.{no_cdb}

unfoldable pub zbc_ata_get_word : List ℕ → ℕ → ℕ
zbc_ata_get_word buf off = sb buf off + 256 * sb buf (off + 1)

unfoldable pub zbc_ata_get_dword : List ℕ → ℕ → ℕ
unfolding zbc_ata_get_word
zbc_ata_get_dword buf off = zbc_ata_get_word buf off + 65536 * zbc_ata_get_word buf (off + 2)

unfoldable pub zbc_ata_get_qword : List ℕ → ℕ → ℕ
unfolding zbc_ata_get_dword
zbc_ata_get_qword buf off = zbc_ata_get_dword buf off + 2 ^ 32 * zbc_ata_get_dword buf (off + 4)

-- The six bytes of an address.
unfoldable pub zbc_ata_get_lba : List ℕ → ℕ → ℕ
unfolding zbc_ata_get_word zbc_ata_get_dword
zbc_ata_get_lba buf off = zbc_ata_get_dword buf off + 2 ^ 32 * zbc_ata_get_word buf (off + 4)

-- The address of a command with 48-bit fields: bits 24 to 47 are in the previous contents of the
-- three registers.
unfoldable pub zbc_ata_set_lba : List ℕ → ℕ → ℕ → List ℕ
zbc_ata_set_lba buf off lba =
    let low =
      set (set (set buf (off + 1) (lba % 256)) (off + 3) (lba / 2 ^ 8 % 256)) (off + 5)
        (lba / 2 ^ 16 % 256) in
    set (set (set low off (lba / 2 ^ 24 % 256)) (off + 2) (lba / 2 ^ 32 % 256)) (off + 4)
      (lba / 2 ^ 40 % 256)

unfoldable pub zbc_ata_put_lba : List ℕ → ℕ → List ℕ
unfolding zbc_ata_set_lba
zbc_ata_put_lba cdb lba = zbc_ata_set_lba cdb 7 lba

-- The address of SET FEATURES, whose last byte has bit 6 set.
unfoldable pub zbc_ata_set_feat_lba : List ℕ → ℕ → ℕ → List ℕ
zbc_ata_set_feat_lba buf off lba =
    set
      (set (set (set buf off (lba % 256)) (off + 2) (lba / 2 ^ 8 % 256)) (off + 4)
        (lba / 2 ^ 16 % 256))
      (off + 5) (bit_or (lba / 2 ^ 24 % 256) 0x40)

unfoldable pub zbc_ata_put_feat_lba : List ℕ → ℕ → List ℕ
unfolding zbc_ata_set_feat_lba
zbc_ata_put_feat_lba cdb lba = zbc_ata_set_feat_lba cdb 8 lba

-- The protocols in byte 1: no data, no data with ext, DMA with ext.
abbrev pub no_data : ℕ
no_data = 0x06

abbrev pub no_data_ext : ℕ
no_data_ext = 0x07

abbrev pub dma_ext : ℕ
dma_ext = 0x0d

-- A pass-through block with its protocol, its transfer and the ATA command.
abbrev pub pass_through : ℕ → ℕ → ℕ → List ℕ
pass_through protocol transfer command =
    set (set (set (set no_cdb 0 0x85) 1 protocol) 2 transfer) 14 command

-- The two bytes of the count field.
abbrev pub put_count : List ℕ → ℕ → List ℕ
put_count cdb count = set (set cdb 5 (count / 256 % 256)) 6 (count % 256)

unfoldable pub request_sense_cdb : List ℕ
request_sense_cdb = pass_through no_data_ext 0x20 0x0b

-- The HBA has given no sense codes, and the ATA status descriptor has the error bit set.
unfoldable pub zbc_ata_need_sense_data : Cmd → ErrExt → Bool
zbc_ata_need_sense_data cmd e =
    if not (e.asc_ascq == 0)
    then false
    else ltb 8 cmd.sb_len_wr && (sb cmd.sense_buf 8 == 0x09) && has (sb cmd.sense_buf 21) 0x02

abbrev pub is_eio : ℤ → Bool
is_eio (pos n) = false
is_eio (negsuc n) = n == 4

module _ {K : Type 0} (sg_io : Cmd → K → Reply × K) (memalign : ℕ → Bool) (dev : Device) where
  -- The command that is set up, with its direction and its block. `buf` is the address of the
  -- caller's buffer, or 0.
  abbrev pub ata_run : ℕ → ℕ → Dir → List ℕ → Sys K → (ℤ × Cmd) × Sys K
  ata_run buf bufsz dir cdb s =
      let (ret, cmd) = zbc_sg_cmd_init memalign dev CmdId.ata16 buf bufsz in
      if not (is_zero ret)
      then ((ret, cmd), s)
      else zbc_sg_cmd_exec sg_io (record cmd { dxfer_direction = dir; cdb = cdb }) s

  unfoldable pub zbc_ata_request_sense_data_ext : Sys K → Sys K
  zbc_ata_request_sense_data_ext s =
      let ((ret, cmd), s') = ata_run 0 0 none_dir request_sense_cdb s in
      let sense = cmd.sense_buf in
      if not (is_zero ret) || leb cmd.sb_len_wr 8 then s' else record s' {
        zerrno = record s'.zerrno {
          sk = bit_and (sb sense 19) 0x0f;
          asc_ascq = sb sense 17 * 256 + sb sense 15;
        };
      }

  unfoldable pub zbc_ata_get_sense_data : Cmd → ℤ → Sys K → Sys K
  unfolding zbc_ata_request_sense_data_ext zbc_ata_need_sense_data
  zbc_ata_get_sense_data cmd ret s =
      if not (is_eio ret) || not (zbc_ata_need_sense_data cmd s.zerrno)
      then s
      else zbc_ata_request_sense_data_ext s

  -- A command that is executed, and after a failure the sense data of the drive.
  abbrev pub exec_sensed : Cmd → Sys K → (ℤ × Cmd) × Sys K
  exec_sensed cmd s =
      let ((ret, cmd'), s') = zbc_sg_cmd_exec sg_io cmd s in
      ((ret, cmd'), if is_zero ret then s' else zbc_ata_get_sense_data cmd' ret s')

  -- A command with a buffer of its own or none, and the sense data after a failure.
  abbrev pub sensed_run : ℕ → Dir → List ℕ → Sys K → (ℤ × Cmd) × Sys K
  sensed_run bufsz dir cdb s =
      let (ret, cmd) = zbc_sg_cmd_init memalign dev CmdId.ata16 0 bufsz in
      if not (is_zero ret)
      then ((ret, cmd), s)
      else exec_sensed (record cmd { dxfer_direction = dir; cdb = cdb }) s
