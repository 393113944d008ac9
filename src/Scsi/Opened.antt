-- ===== src/Scsi/Opened.antt =====
-- What a device is when zbc_scsi_get_dev_info has succeeded.
use libzbc.Base.{
  ℕ, ◌≡◌, refl, sym, ap, ◌∙◌, inl, inr, arith, Bool, true, false, Bool-cases, not, ◌||◌, List, ◌==◌,
  has, ℤ, pos, is_zero, if◌then◌else◌, Option, some, none, neg_enxio,
}
use mathlib.Core.Bool.{true≢false}
use libzbc.Device.{Device, DeviceInfo, zbc_dev_is_zoned}
use libzbc.Device.{with_info}
use libzbc.Base.{bit_or, bit_and, ◌/◌, ◌+◌, u64}
use libzbc.Bytes.{get_int64, get_int32}
use libzbc.Sg.Sense.{sb}
use libzbc.Scsi.ReportZones.{stored_or, zbc_scsi_do_report_zones}
use libzbc.Scsi.Capacity.{
  per_physical, set_capacity, process_capacity, capacity_cdb, read_capacity, zbc_scsi_get_capacity,
}
use libzbc.Device.Model as Model
use libzbc.Device.DevFlag as DevFlag
use libzbc.Sg.{Cmd}
use libzbc.Sg.Exec.{Reply, Sys, zbc_sg_test_unit_ready}
use libzbc.Sg.MaxBlocks.{FileKind, zbc_sg_get_max_cmd_blocks, max_rw_sectors_lt}
use libzbc.Scsi.BufferSize.{Aligned}
use libzbc.Scsi.Honest.{pos-ne}
use libzbc.Scsi.Inquiry.{
  is_ata, type_scsi, with_model, zbc_scsi_inquiry, zbc_scsi_vpd_inquiry,
  zbc_scsi_vpd_page_supported, zbc_scsi_classify, characteristics_page, apply_zoned_field,
  require_page,
}
use libzbc.Scsi.Characteristics.{
  zbc_scsi_get_zbd_characteristics, apply_page, domain_types, with_resources, extended, size_steps,
  after_size, zbc_scsi_get_dev_info,
}
use libzbc.Ata.Opened.{Zoned, Limited, is_zero_lem, capacity-Zoned}
use libzbc.Ata.Capacity.{zbc_ata_get_capacity}
use libzbc.Scsi.{run}
use libzbc.Sg.CmdId as CmdId
use libzbc.Device.{zbc_test_mode}
use libzbc.Base.{◌≢◌, ◌&&◌}

resources_zoned :
    (dev : Device) (buf : List ℕ) (info : DeviceInfo)
    → ((info.zbd_model == Model.host_managed) || (info.zbd_model == Model.host_aware)) ≡ true
    → zbc_dev_is_zoned (with_info dev (with_resources buf info)) ≡ true
unfolding with_resources zbc_dev_is_zoned
resources_zoned dev buf info z = z

module _ {K : Type 0} (sg_io : Cmd → K → Reply × K) (memalign calloc : ℕ → Bool) where
  require-Aligned :
      (dev : Device) (s : Sys K) → Aligned dev → Aligned (require_page sg_io memalign dev s).0.1
  unfolding require_page
  require-Aligned dev s h = ground arith

  zoned_field-Aligned :
      (dev : Device) (zoned : ℕ) (s : Sys K)
      → Aligned dev
      → Aligned (apply_zoned_field sg_io memalign dev zoned s).0.1
  unfolding apply_zoned_field require_page
  zoned_field-Aligned dev zoned s h = ground arith

  page-Aligned :
      (dev : Device) (s : Sys K)
      → Aligned dev
      → Aligned (characteristics_page sg_io memalign dev s).0.1
  unfolding characteristics_page apply_zoned_field require_page
  page-Aligned dev s h = ground arith

  classify-Aligned :
      (dev : Device) (s : Sys K)
      → Aligned dev
      → Aligned (zbc_scsi_classify sg_io memalign dev s).0.1
  unfolding zbc_scsi_classify
  classify-Aligned dev s h =
      let ask = zbc_scsi_inquiry sg_io memalign dev 96 s in
      let scsi = with_info dev (record dev.zbd_info { zbd_type = type_scsi }) in
      let ata = zbc_scsi_vpd_page_supported sg_io memalign scsi 0x89 ask.1 in
      let flags = if ata.0 then bit_or scsi.zbd_drv_flags is_ata else scsi.zbd_drv_flags in
      let found : Device = record scsi { zbd_drv_flags = flags } in
      let page = λ (d : Device) (k : Aligned d). page-Aligned d ata.1 k in
      ground (arith, page found h, page (with_model found Model.host_managed) h)

  domains-Zoned :
      (dev : Device) (s : Sys K) → Zoned dev → Zoned (domain_types sg_io memalign calloc dev s).0.1
  unfolding domain_types zbc_dev_is_zoned
  domains-Zoned dev s h = ground arith

  -- The characteristics are a success only for a zoned device.
  apply_page-Zoned :
      (dev : Device) (buf : List ℕ) (s : Sys K)
      → Aligned dev
      → (apply_page sg_io memalign calloc dev buf s).0.0 ≡ pos 0
      → Zoned (apply_page sg_io memalign calloc dev buf s).0.1
  unfolding apply_page
  apply_page-Zoned dev buf s h =
      let info = extended buf dev.zbd_info in
      let zoned = (info.zbd_model == Model.host_managed) || (info.zbd_model == Model.host_aware) in
      let full = with_info dev (with_resources buf info) in
      elim (Bool-cases zoned) [
        | inr z ↦ rw z (λ e. absurd (pos-ne neg_enxio 0 refl e))
        | inl z ↦
            let ok : Zoned full = (h, resources_zoned dev buf info z) in
            elim (Bool-cases (has full.zbd_info.zbd_flags DevFlag.zone_domains_support)) [
              | inl d ↦ rw (z, d) (λ e. domains-Zoned full s ok)
              | inr d ↦ rw (z, d) (λ e. ok)
            ]
      ]

  characteristics-Zoned :
      (dev : Device) (s : Sys K)
      → Aligned dev
      → (zbc_scsi_get_zbd_characteristics sg_io memalign calloc dev s).0.0 ≡ pos 0
      → Zoned (zbc_scsi_get_zbd_characteristics sg_io memalign calloc dev s).0.1
  unfolding zbc_scsi_get_zbd_characteristics
  characteristics-Zoned dev s h =
      let page = zbc_scsi_vpd_inquiry sg_io memalign dev 0xb6 64 s in
      elim (Bool-cases (is_zero page.0.0)) [
        | inr bad ↦ rw bad (λ e. absurd (pos-ne neg_enxio 0 refl e))
        | inl good ↦ rw good (apply_page-Zoned dev page.0.1 page.1 h)
      ]

-- The parts of an outcome.
abbrev code : Option (ℤ × Device) → ℤ
code none = neg_enxio
code (some r) = r.0

abbrev device : Device → Option (ℤ × Device) → Device
device d none = d
device d (some r) = r.1

none-ne : (r : ℤ × Device) → none ≢ some r
none-ne r e = true≢false (ap is_none e)
  where
    is_none : Option (ℤ × Device) → Bool
    is_none none = true
    is_none (some r) = false

-- The device of an outcome, if there is one, is zoned.
abbrev Kept : Option (ℤ × Device) → Type 0
Kept none = Unit
Kept (some r) = Zoned r.1

set_capacity-Kept : (dev : Device) (max lpp : ℕ) → Zoned dev → Kept (set_capacity dev max lpp)
unfolding set_capacity zbc_dev_is_zoned
set_capacity-Kept dev max lpp h = elim (Bool-cases (u64 (max + 1) == 0)) [
  | inl z ↦ rw z h
  | inr z ↦ elim (Bool-cases (lpp == 0)) [ inl y ↦ rw (z, y) tt | inr y ↦ rw (z, y) h ]
]

module _ {K : Type 0} (sg_io : Cmd → K → Reply × K) (memalign : ℕ → Bool) where
  process-Kept :
      (dev : Device) (buf : List ℕ) (s : Sys K)
      → Zoned dev
      → Kept (process_capacity sg_io memalign dev buf s).0
  unfolding process_capacity zbc_dev_is_zoned
  process-Kept dev buf s h =
      let size = get_int32 buf 8 in
      let sized = with_info dev (record dev.zbd_info { zbd_lblock_size = size }) in
      let lpp = per_physical (sb buf 13) in
      let basis = bit_and (sb buf 12) 0x30 / 16 in
      let report =
        zbc_scsi_do_report_zones sg_io memalign sized 0 0x80 true false 0 sized.zbd_report_bufsz_min
          s in
      let max = get_int64 buf 0 in
      elim (Bool-cases (size == 0)) [
        | inl a ↦ rw a h
        | inr a ↦ elim (Bool-cases (basis == 0)) [
          | inl b ↦ elim (Bool-cases (is_zero report.0.zones.ret)) [
            | inl c ↦
                rw (a, h.1, b, c) (set_capacity-Kept sized (stored_or report.0.max_lba max) lpp h)
            | inr c ↦ rw (a, h.1, b, c) h
          ]
          | inr b ↦ elim (Bool-cases (basis == 1)) [
            | inl c ↦ rw (a, h.1, b, c) (set_capacity-Kept sized max lpp h)
            | inr c ↦ rw (a, h.1, b, c) h
          ]
        ]
      ]

  read-Kept : (dev : Device) (s : Sys K) → Zoned dev → Kept (read_capacity sg_io memalign dev s).0
  unfolding read_capacity
  read-Kept dev s h =
      let reply = run sg_io memalign dev CmdId.read_capacity 32 capacity_cdb s in
      elim (Bool-cases (is_zero reply.0.0)) [
        | inl ok ↦ rw ok (process-Kept dev reply.0.1.buf reply.1 h)
        | inr bad ↦ rw bad h
      ]

  module _ (page_size : ℕ) (file : Device → FileKind) where
    capacity-Kept :
        (dev : Device) (s : Sys K)
        → Zoned dev
        → Kept (zbc_scsi_get_capacity sg_io memalign page_size file dev s).0
    unfolding zbc_scsi_get_capacity
    capacity-Kept dev s h =
        let log = zbc_ata_get_capacity sg_io memalign page_size file dev s in
        let kept : Zoned log.0.1 = capacity-Zoned sg_io memalign page_size file dev s h in
        let ata = has dev.zbd_drv_flags is_ata && not (zbc_test_mode dev) in
        elim (Bool-cases ata) [
          | inr no_log ↦ rw no_log (read-Kept dev s h)
          | inl by_log ↦ elim (Bool-cases (is_zero log.0.0)) [
            | inl ok ↦ rw (by_log, ok) kept
            | inr bad ↦ rw (by_log, bad) (read-Kept log.0.1 log.1 kept)
          ]
        ]

    after-Limited :
        (r : Option (ℤ × Device)) (dev' : Device)
        → Kept r
        → after_size page_size file r ≡ some (pos 0, dev')
        → Limited dev'
    unfolding zbc_sg_get_max_cmd_blocks zbc_dev_is_zoned
    after-Limited none dev' h e = absurd (none-ne (pos 0, dev') e)
    after-Limited (some (ret, dev)) dev' h e = elim (Bool-cases (is_zero ret)) [
      | inr bad ↦ absurd (true≢false (sym (ap is_zero (ap code (rw bad at e))) ∙ bad))
      | inl ok ↦
          let same : zbc_sg_get_max_cmd_blocks page_size file dev ≡ dev' =
            ap (device dev') (rw ok at e) in
          rw (← same) (h, max_rw_sectors_lt page_size (file dev))
    ]

module _ {K : Type 0} (sg_io : Cmd → K → Reply × K) (memalign calloc : ℕ → Bool) (page_size : ℕ)
    (file : Device → FileKind) where
  size-Limited :
      (dev dev' : Device) (s : Sys K)
      → Zoned dev
      → (size_steps sg_io memalign calloc page_size file dev s).0 ≡ some (pos 0, dev')
      → Limited dev'
  unfolding size_steps
  size-Limited dev dev' s h e =
      after-Limited sg_io memalign page_size file
        (zbc_scsi_get_capacity sg_io memalign page_size file dev s).0 dev'
        (capacity-Kept sg_io memalign page_size file dev s h) e

  -- A code that is not 0 is not the outcome of a success.
  failed_code :
      (r : ℤ) (d dev' : Device)
      → is_zero r ≡ false
      → ◌≡◌ {A = Option (ℤ × Device)} (some (r, d)) (some (pos 0, dev'))
      → Limited dev'
  failed_code r d dev' bad e = absurd (true≢false (sym (ap is_zero (ap code e)) ∙ bad))

  -- When the SCSI driver's device information succeeds, whatever the drive answers, the device is
  -- host managed or host aware, its reports are aligned to 512 bytes with the mask for that, and
  -- the largest transfer is below 2 ^ 32 bytes.
  pub scsi_dev_info-Limited :
      (dev dev' : Device) (s : Sys K)
      → (zbc_scsi_get_dev_info sg_io memalign calloc page_size file dev s).0 ≡ some (pos 0, dev')
      → Limited dev'
  unfolding zbc_scsi_get_dev_info
  scsi_dev_info-Limited dev dev' s =
      let start : Device = record dev { zbd_report_bufsz_min = 512; zbd_report_bufsz_mask = 511 } in
      let ready = zbc_sg_test_unit_ready sg_io memalign start s in
      let class = zbc_scsi_classify sg_io memalign start ready.1 in
      let info = zbc_scsi_get_zbd_characteristics sg_io memalign calloc class.0.1 class.1 in
      let aligned = classify-Aligned sg_io memalign calloc start ready.1 (refl, refl) in
      elim (Bool-cases (is_zero ready.0)) [
        | inr bad ↦ rw bad (failed_code ready.0 start dev' bad)
        | inl a ↦ elim (Bool-cases (is_zero class.0.0)) [
          | inr bad ↦ rw (a, bad) (failed_code class.0.0 class.0.1 dev' bad)
          | inl b ↦ elim (Bool-cases (is_zero info.0.0)) [
            | inr bad ↦ rw (a, b, bad) (failed_code info.0.0 info.0.1 dev' bad)
            | inl c ↦
                let zoned : Zoned info.0.1 =
                  characteristics-Zoned sg_io memalign calloc class.0.1 class.1 aligned
                    (is_zero_lem info.0.0 c) in
                rw (a, b, c) (size-Limited info.0.1 dev' info.1 zoned)
          ]
        ]
      ]
