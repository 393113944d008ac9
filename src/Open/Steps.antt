-- ===== src/Open/Steps.antt =====
-- The steps of the device information leave the descriptor of the device and what SG_IO commands
-- leave of the kernel's state as they are.
use libzbc.Base.{ℕ, ◌≡◌, refl, arith, Bool, true, false, List, ℤ}
use libzbc.Device.{Device, with_info}
use libzbc.Base.{bit_and, bit_or, ◌/◌, if◌then◌else◌}
use libzbc.Device.Model as Model
use libzbc.Sg.Sense.{sb}
use libzbc.Sg.{Cmd}
use libzbc.Sg.Exec.{Reply, Sys}
use libzbc.Sg.MaxBlocks.{FileKind, zbc_sg_get_max_cmd_blocks}
use libzbc.Scsi.Inquiry.{
  is_ata, type_scsi, with_model, zbc_scsi_inquiry, zbc_scsi_vpd_inquiry,
  zbc_scsi_vpd_page_supported, require_page, apply_zoned_field, characteristics_page,
  zbc_scsi_classify,
}
use libzbc.Scsi.ReportDomains.{zbc_scsi_report_domains}
use libzbc.Base.{pos_part}
use libzbc.Scsi.Characteristics.{
  extended, with_resources, domain_types, apply_page, zbc_scsi_get_zbd_characteristics,
}
use libzbc.Ata.Classify.{apply_zoned, classify_page, zbc_ata_classify}
use libzbc.Ata.Info.{zbc_ata_get_zoned_device_info}
use libzbc.Ata.Capacity.{total_capacity, process_page, set_sizes, zbc_ata_get_capacity}
use libzbc.Ata.Sat.{and_then, ready_step, zbc_ata_test_sbc_sat, last_steps, zbc_ata_get_dev_info}
use libzbc.Ata.Log.{zbc_ata_read_log, zbc_ata_enable_sense_data_reporting}
use libzbc.Open.Kept.{
  ready-Kept, inquiry-Kept, vpd-Kept, supported-Kept, preadv-Kept, domains-Kept, exec-Kept,
  ata_run-Kept, log-Kept, features-Kept, ata_report-Kept,
}

module _ {K V : Type 0} (sg_io : Cmd → K → Reply × K) (memalign : ℕ → Bool) (view : K → V)
    (quiet : (cmd : Cmd) (k : K) → view (sg_io cmd k).1 ≡ view k) where
  -- A device and a state after one step.
  abbrev pub Stays : Device → Sys K → Device → Sys K → Type 0
  Stays dev s dev' s' = (dev'.zbd_fd ≡ dev.zbd_fd) × (view s'.kernel ≡ view s.kernel)

  abbrev After : Device → Sys K → (ℤ × Device) × Sys K → Type 0
  After dev s r = Stays dev s r.0.1 r.1

  pub require-Stays : (dev : Device) (s : Sys K) → After dev s (require_page sg_io memalign dev s)
  unfolding require_page
  require-Stays dev s = ground (arith, supported-Kept sg_io memalign view quiet dev 0xb6 s)

  pub zoned-Stays :
      (dev : Device) (zoned : ℕ) (s : Sys K)
      → After dev s (apply_zoned_field sg_io memalign dev zoned s)
  unfolding apply_zoned_field
  zoned-Stays dev zoned s = ground (
    arith,
    require-Stays dev s,
    require-Stays (with_model dev Model.standard) s,
    require-Stays (with_model dev Model.host_aware) s,
  )

  pub page-Stays :
      (dev : Device) (s : Sys K) → After dev s (characteristics_page sg_io memalign dev s)
  unfolding characteristics_page
  page-Stays dev s =
      let page = zbc_scsi_vpd_inquiry sg_io memalign dev 0xb1 64 s in
      ground (
        arith,
        vpd-Kept sg_io memalign view quiet dev 0xb1 64 s,
        zoned-Stays dev (bit_and (sb page.0.1 8) 0x30 / 16) page.1,
      )

  pub classify-Stays :
      (dev : Device) (s : Sys K) → After dev s (zbc_scsi_classify sg_io memalign dev s)
  unfolding zbc_scsi_classify
  classify-Stays dev s =
      let ask = zbc_scsi_inquiry sg_io memalign dev 96 s in
      let scsi = with_info dev (record dev.zbd_info { zbd_type = type_scsi }) in
      let ata = zbc_scsi_vpd_page_supported sg_io memalign scsi 0x89 ask.1 in
      let flags = if ata.0 then bit_or scsi.zbd_drv_flags is_ata else scsi.zbd_drv_flags in
      let found : Device = record scsi { zbd_drv_flags = flags } in
      ground (
        arith,
        inquiry-Kept sg_io memalign view quiet dev 96 s,
        supported-Kept sg_io memalign view quiet scsi 0x89 ask.1,
        page-Stays found ata.1,
        page-Stays (with_model found Model.host_managed) ata.1,
      )

  pub ata_page-Stays : (dev : Device) (s : Sys K) → After dev s (classify_page sg_io memalign dev s)
  unfolding classify_page apply_zoned
  ata_page-Stays dev s = grind (arith, log-Kept sg_io memalign view quiet)

  pub ata_classify-Stays :
      (dev : Device) (s : Sys K) → After dev s (zbc_ata_classify sg_io memalign dev s)
  unfolding zbc_ata_classify
  ata_classify-Stays dev s = grind (
    arith,
    ata_run-Kept sg_io memalign view quiet,
    exec-Kept sg_io memalign view quiet,
    ata_page-Stays,
  )

  pub ata_info-Stays :
      (dev : Device) (s : Sys K) → After dev s (zbc_ata_get_zoned_device_info sg_io memalign dev s)
  unfolding zbc_ata_get_zoned_device_info
  ata_info-Stays dev s = grind (arith, log-Kept sg_io memalign view quiet)

  pub sat-Stays :
      (dev : Device) (s : Sys K)
      → let r = zbc_ata_test_sbc_sat sg_io memalign dev s in Stays dev s r.0 r.1
  unfolding zbc_ata_test_sbc_sat
  sat-Stays dev s = grind (arith, preadv-Kept sg_io memalign view quiet)

  pub sense_reporting-Kept :
      (dev : Device) (s : Sys K)
      → view (zbc_ata_enable_sense_data_reporting sg_io memalign dev s).kernel ≡ view s.kernel
  unfolding zbc_ata_enable_sense_data_reporting
  sense_reporting-Kept dev s =
      grind (arith, log-Kept sg_io memalign view quiet, features-Kept sg_io memalign view quiet)

  pub domains-Stays :
      (calloc : ℕ → Bool) (dev : Device) (s : Sys K)
      → After dev s (domain_types sg_io memalign calloc dev s)
  unfolding domain_types
  domains-Stays calloc dev s =
      let first = zbc_scsi_report_domains sg_io memalign dev 0 0 true 1 s in
      ground (
        arith,
        domains-Kept sg_io memalign view quiet dev 0 0 true 1 s,
        domains-Kept sg_io memalign view quiet dev 0 0 true (pos_part first.0.0) first.1,
      )

  pub apply_page-Stays :
      (calloc : ℕ → Bool) (dev : Device) (buf : List ℕ) (s : Sys K)
      → After dev s (apply_page sg_io memalign calloc dev buf s)
  unfolding apply_page
  apply_page-Stays calloc dev buf s =
      let info = extended buf dev.zbd_info in
      ground (arith, domains-Stays calloc (with_info dev (with_resources buf info)) s)

  pub characteristics-Stays :
      (calloc : ℕ → Bool) (dev : Device) (s : Sys K)
      → After dev s (zbc_scsi_get_zbd_characteristics sg_io memalign calloc dev s)
  unfolding zbc_scsi_get_zbd_characteristics
  characteristics-Stays calloc dev s =
      let page = zbc_scsi_vpd_inquiry sg_io memalign dev 0xb6 64 s in
      ground (
        arith,
        vpd-Kept sg_io memalign view quiet dev 0xb6 64 s,
        apply_page-Stays calloc dev page.0.1 page.1,
      )

  module _ (page_size : ℕ) (file : Device → FileKind) where
    pub total-Stays :
        (dev : Device) (lpp : ℕ) (s : Sys K)
        → After dev s (total_capacity sg_io memalign page_size file dev lpp s)
    unfolding total_capacity set_sizes zbc_sg_get_max_cmd_blocks
    total-Stays dev lpp s =
        let dev' = zbc_sg_get_max_cmd_blocks page_size file dev in
        ground (
          arith,
          ata_report-Kept sg_io memalign view quiet dev' 0 0x80 true false 0
              dev'.zbd_report_bufsz_min s,
        )

    pub process-Stays :
        (dev : Device) (buf : List ℕ) (s : Sys K)
        → After dev s (process_page sg_io memalign page_size file dev buf s)
    unfolding process_page
    process-Stays dev buf s = grind (arith, total-Stays)

    pub capacity-Stays :
        (dev : Device) (s : Sys K)
        → After dev s (zbc_ata_get_capacity sg_io memalign page_size file dev s)
    unfolding zbc_ata_get_capacity
    capacity-Stays dev s =
        let log = zbc_ata_read_log sg_io memalign dev 0x30 0x02 s in
        ground (
          arith,
          log-Kept sg_io memalign view quiet dev 0x30 0x02 s,
          process-Stays dev log.0.1 log.1,
        )

    pub last-Stays :
        (dev : Device) (s : Sys K) → After dev s (last_steps sg_io memalign page_size file dev s)
    unfolding last_steps zbc_sg_get_max_cmd_blocks
    last-Stays dev s =
        let dev' = zbc_sg_get_max_cmd_blocks page_size file dev in
        let log = zbc_ata_read_log sg_io memalign dev 0x30 0x05 s in
        ground (arith, log-Kept sg_io memalign view quiet dev 0x30 0x05 s, sat-Stays dev' log.1)

    -- The rule for two steps.
    pub and_then-Stays :
        (step : Sys K → (ℤ × Device) × Sys K) (next : Device → Sys K → (ℤ × Device) × Sys K)
        (dev : Device) (s : Sys K)
        → After dev s (step s)
        → ((d : Device) (s : Sys K) → After d s (next d s))
        → After dev s (and_then step next s)
    and_then-Stays step next dev s first second = ground (arith, second (step s).0.1 (step s).1)

    pub ata_dev_info-Stays :
        (dev : Device) (s : Sys K)
        → After dev s (zbc_ata_get_dev_info sg_io memalign page_size file dev s)
    unfolding zbc_ata_get_dev_info
    ata_dev_info-Stays dev s =
        let start : Device = record dev {
          zbd_report_bufsz_min = 512;
          zbd_report_bufsz_mask = 511;
        } in
        let last = last_steps sg_io memalign page_size file in
        let size = zbc_ata_get_capacity sg_io memalign page_size file in
        let info = zbc_ata_get_zoned_device_info sg_io memalign in
        let s4 = λ (d : Device). and_then (size d) last in
        let s3 = λ (d : Device). and_then (info d) s4 in
        let s2 = λ (d : Device). and_then (zbc_ata_classify sg_io memalign d) s3 in
        let g4 = λ (d : Device) (s : Sys K).
          and_then-Stays (size d) last d s (capacity-Stays d s) last-Stays in
        let g3 =
          λ (d : Device) (s : Sys K). and_then-Stays (info d) s4 d s (ata_info-Stays d s) g4 in
        let g2 = λ (d : Device) (s : Sys K).
          and_then-Stays (zbc_ata_classify sg_io memalign d) s3 d s (ata_classify-Stays d s) g3 in
        and_then-Stays (ready_step sg_io memalign start) s2 dev s
          (refl, ready-Kept sg_io memalign view quiet start s) g2
