-- ===== src/Scsi/Inquiry.antt =====
-- zbc_scsi_inquiry, zbc_scsi_vpd_inquiry, zbc_scsi_vpd_page_supported and zbc_scsi_classify of
-- lib/zbc_scsi.c, without the vendor string. The kernel leaves the whole buffer, which the code clears
-- first, in the payload: a byte behind it is 0.
use libzbc.Base.{
  ℕ, zero, suc, ◌+◌, ◌-◌, ◌/◌, bit_and, bit_or, Bool, false, not, ◌&&◌, ◌||◌, List, ◌==◌, ltb,
  if◌then◌else◌, has, set, ℤ, pos, is_zero, neg_eio, neg_enxio,
}
use libzbc.Bytes.{get_int16, set_int16}
use libzbc.Device.{Device, zbc_test_mode, with_info}
use libzbc.Device.Model as Model
use libzbc.Sg.{Cmd, zbc_sg_cmd_init}
use libzbc.Sg.CmdId as CmdId
use libzbc.Sg.Sense.{sb}
use libzbc.Sg.Exec.{Reply, Sys, zbc_sg_cmd_exec}
use libzbc.Scsi.{no_cdb}

-- ZBC_IS_ATA
abbrev pub is_ata : ℕ
is_ata = 0x1

-- ZBC_DT_SCSI
abbrev pub type_scsi : ℕ
type_scsi = 0x02

-- The address of a buffer on the stack, which is not NULL.
abbrev stack_buf : ℕ
stack_buf = 1

unfoldable pub inquiry_cdb : ℕ → List ℕ
inquiry_cdb len = set_int16 (set no_cdb 0 0x12) 3 len

unfoldable pub vpd_cdb : ℕ → ℕ → List ℕ
vpd_cdb page len = set_int16 (set (set (set no_cdb 0 0x12) 1 0x01) 2 page) 3 len

abbrev pub with_model : Device → ℕ → Device
with_model dev m = with_info dev (record dev.zbd_info { zbd_model = m })

-- The loop over the page codes, by those left.
unfoldable pub has_page : ℕ → List ℕ → ℕ → ℕ → Bool
has_page zero buf i page = false
has_page (suc left) buf i page = (sb buf i == page) || has_page left buf (i + 1) page

-- The list of pages, cut to the buffer of 32 bytes.
unfoldable pub listed_page : List ℕ → ℕ → Bool
listed_page buf page =
    let len = get_int16 buf 2 + 4 in
    (sb buf 1 == 0) && has_page ((if ltb 32 len then 32 else len) - 4) buf 4 page

module _ {K : Type 0} (sg_io : Cmd → K → Reply × K) (memalign : ℕ → Bool) where
  -- The command with a buffer of the caller.
  abbrev pub ask : Device → ℕ → List ℕ → Sys K → (ℤ × List ℕ) × Sys K
  ask dev len cdb s =
      let (init, cmd) = zbc_sg_cmd_init memalign dev CmdId.inquiry stack_buf len in
      let ((ret, cmd'), s') = zbc_sg_cmd_exec sg_io (record cmd { cdb = cdb }) s in
      if not (is_zero init) then ((init, cmd.buf), s) else ((ret, cmd'.buf), s')

  unfoldable pub zbc_scsi_inquiry : Device → ℕ → Sys K → (ℤ × List ℕ) × Sys K
  zbc_scsi_inquiry dev len s = ask dev len (inquiry_cdb len) s

  unfoldable pub zbc_scsi_vpd_inquiry : Device → ℕ → ℕ → Sys K → (ℤ × List ℕ) × Sys K
  zbc_scsi_vpd_inquiry dev page len s = ask dev len (vpd_cdb page len) s

  unfoldable pub zbc_scsi_vpd_page_supported : Device → ℕ → Sys K → Bool × Sys K
  unfolding zbc_scsi_vpd_inquiry listed_page
  zbc_scsi_vpd_page_supported dev page s =
      let ((ret, buf), s') = zbc_scsi_vpd_inquiry dev 0x00 32 s in
      (is_zero ret && listed_page buf page, s')

  -- From the label `out` on.
  unfoldable pub require_page : Device → Sys K → (ℤ × Device) × Sys K
  unfolding zbc_scsi_vpd_page_supported
  require_page dev s =
      let (supported, s') = zbc_scsi_vpd_page_supported dev 0xb6 s in
      if supported
      then ((pos 0, dev), s')
      else ((if has dev.zbd_drv_flags is_ata then neg_enxio else neg_eio, dev), s')

  -- What is made of the ZONED field.
  unfoldable pub apply_zoned_field : Device → ℕ → Sys K → (ℤ × Device) × Sys K
  unfolding require_page
  apply_zoned_field dev zoned s =
      let bad = if has dev.zbd_drv_flags is_ata then neg_enxio else neg_eio in
      if dev.zbd_info.zbd_model == Model.host_managed
      then (if zbc_test_mode dev && not (zoned == 0) then ((bad, dev), s) else require_page dev s)
      else if zoned == 0
      then require_page (with_model dev Model.standard) s
      else if zoned == 1
      then require_page (with_model dev Model.host_aware) s
      else if zoned == 2
      then ((neg_enxio, with_model dev Model.device_managed), s)
      else ((neg_eio, with_model dev Model.drive_unknown), s)

  -- From the block device characteristics page on.
  unfoldable pub characteristics_page : Device → Sys K → (ℤ × Device) × Sys K
  unfolding apply_zoned_field zbc_scsi_vpd_inquiry
  characteristics_page dev s =
      let ((ret, buf), s') = zbc_scsi_vpd_inquiry dev 0xb1 64 s in
      if not (is_zero ret)
      then ((ret, dev), s')
      else if not (sb buf 1 == 0xb1) || not (sb buf 2 == 0) || not (sb buf 3 == 0x3c)
      then ((neg_eio, dev), s')
      else apply_zoned_field dev (bit_and (sb buf 8) 0x30 / 16) s'

  unfoldable pub zbc_scsi_classify : Device → Sys K → (ℤ × Device) × Sys K
  unfolding characteristics_page zbc_scsi_inquiry
  zbc_scsi_classify dev s =
      let ((ret, buf), s₁) = zbc_scsi_inquiry dev 96 s in
      let scsi = with_info dev (record dev.zbd_info { zbd_type = type_scsi }) in
      let (ata, s₂) = zbc_scsi_vpd_page_supported scsi 0x89 s₁ in
      let flags = if ata then bit_or scsi.zbd_drv_flags is_ata else scsi.zbd_drv_flags in
      let found : Device = record scsi { zbd_drv_flags = flags } in
      let dev_type = bit_and (sb buf 0) 0x1f in
      if not (is_zero ret)
      then ((ret, dev), s₁)
      else if dev_type == 0x14
      then characteristics_page (with_model found Model.host_managed) s₂
      else if dev_type == 0
      then characteristics_page found s₂
      else ((neg_enxio, found), s₂)
