-- ===== src/Ata/Classify.antt =====
-- zbc_ata_get_signature and zbc_ata_classify of lib/zbc_ata.c: the model of the drive.
use libzbc.Base.{
  ℕ, ◌+◌, ◌*◌, ◌-◌, ◌^◌, bit_and, Bool, not, ◌&&◌, List, ◌==◌, ltb, if◌then◌else◌, has, ℤ, pos,
  is_zero, neg_eio, neg_enxio,
}
use libzbc.Device.{Device, zbc_test_mode}
use libzbc.Device.Model as Model
use libzbc.Sg.{Cmd, none_dir, zbc_sg_cmd_init}
use libzbc.Sg.CmdId as CmdId
use libzbc.Sg.Sense.{sb, is_descriptor_format}
use libzbc.Sg.Exec.{Reply, Sys}
use libzbc.Ata.{ata_run, pass_through, no_data_ext, zbc_ata_get_qword}
use libzbc.Ata.Log.{zbc_ata_read_log}

-- ZBC_DT_ATA
abbrev pub type_ata : ℕ
type_ata = 0x03

-- The signature as the unsigned int that `zbc_ata_classify` keeps; -1 is its largest value.
unfoldable pub zbc_ata_get_signature : Cmd → ℕ
zbc_ata_get_signature cmd =
    let buf = cmd.sense_buf in
    if ltb cmd.sb_len_wr 8
    then 2 ^ 32 - 1
    else if is_descriptor_format buf
    then sb buf 19 * 256 + sb buf 17
    else sb buf 11 * 256 + sb buf 10

abbrev with_model : Device → ℕ → Device
with_model dev m = record dev { zbd_info = record dev.zbd_info { zbd_model = m } }

-- The ZONED field of the supported capabilities page.
unfoldable pub zoned_field : List ℕ → ℕ
zoned_field buf = let q = zbc_ata_get_qword buf 104 in if has q (2 ^ 63) then bit_and q 0x03 else 0

-- What the field says of a device whose signature is known.
unfoldable pub apply_zoned : Device → ℕ → ℤ × Device
apply_zoned dev zoned =
    if dev.zbd_info.zbd_model == Model.host_managed
    then (if zbc_test_mode dev && not (zoned == 0) then neg_eio else pos 0, dev)
    else if zoned == 0
    then (pos 0, with_model dev Model.standard)
    else if zoned == 1
    then (pos 0, with_model dev Model.host_aware)
    else if zoned == 2
    then (neg_enxio, with_model dev Model.device_managed)
    else (neg_eio, with_model dev Model.drive_unknown)

module _ {K : Type 0} (sg_io : Cmd → K → Reply × K) (memalign : ℕ → Bool) where
  -- The part from the log page on.
  unfoldable pub classify_page : Device → Sys K → (ℤ × Device) × Sys K
  unfolding apply_zoned zoned_field
  classify_page dev s =
      let ((ret, buf), s') = zbc_ata_read_log sg_io memalign dev 0x30 0x03 s in
      if not (is_zero ret) then ((neg_enxio, dev), s') else (apply_zoned dev (zoned_field buf), s')

  unfoldable pub zbc_ata_classify : Device → Sys K → (ℤ × Device) × Sys K
  unfolding classify_page
  zbc_ata_classify dev s =
      let init = (zbc_sg_cmd_init memalign dev CmdId.ata16 0 0).0 in
      let ((ret, cmd), s') =
        ata_run sg_io memalign dev 0 0 none_dir (pass_through no_data_ext 0x20 0x90) s in
      let ata : Device = record dev { zbd_info = record dev.zbd_info { zbd_type = type_ata } } in
      let sig = zbc_ata_get_signature cmd in
      if not (is_zero init)
      then ((init, dev), s)
      else if not (is_zero ret)
      then ((neg_enxio, dev), s')
      else if sig == 0xabcd
      then classify_page (with_model ata Model.host_managed) s'
      else if sig == 0
      then classify_page ata s'
      else ((neg_enxio, with_model ata Model.drive_unknown), s')
