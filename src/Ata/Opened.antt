-- ===== src/Ata/Opened.antt =====
-- What a device is when zbc_ata_get_dev_info has succeeded.
use libzbc.Base.{
  ℕ, zero, suc, ◌<◌, arith, ◌^◌, ◌≡◌, refl, sym, ap, ◌∙◌, inl, inr, Bool, true, Bool-cases, not,
  List, ◌==◌, pick, ℤ, pos, negsuc, is_zero, is_neg, if◌then◌else◌, neg_einval,
}
use mathlib.Core.Bool.{true≢false}
use libzbc.Device.{Device, DeviceInfo, zbc_dev_is_zoned, zbc_device_is_zdr, zbc_test_mode}
use libzbc.Device.Model as Model
use libzbc.Scsi.BufferSize.{Aligned}
use libzbc.Scsi.Honest.{pos-ne}
use libzbc.Sg.{Cmd}
use libzbc.Sg.Exec.{Reply, Sys}
use libzbc.Sg.MaxBlocks.{FileKind, zbc_sg_get_max_cmd_blocks, max_rw_sectors_lt}
use libzbc.Ata.Log.{zbc_ata_read_log}
use libzbc.Ata.Classify.{zbc_ata_classify, classify_page, apply_zoned}
use libzbc.Ata.Info.{
  zbc_ata_get_zoned_device_info, process_info, finish_info, set_domains, set_resources, first_flags,
}
use libzbc.Ata.Capacity.{zbc_ata_get_capacity, process_page, total_capacity, set_sizes}
use libzbc.Ata.Sat.{and_then, ready_step, last_steps, zbc_ata_get_dev_info, zbc_ata_test_sbc_sat}

-- After a success the device has the property.
abbrev Post : (Device → Type 0) → ℤ × Device → Type 0
Post P (ret, dev) = ret ≡ pos 0 → P dev

-- A step that returns a device with a code.
abbrev Step : Type 0 → Type 0
Step K = Sys K → (ℤ × Device) × Sys K

-- A step establishes a property.
abbrev Gives : {K : Type 0} → (Device → Type 0) → Step K → Type 0
Gives {K} P step = (s : Sys K) → Post P (step s).0

pub is_zero_lem : (r : ℤ) → is_zero r ≡ true → r ≡ pos 0
is_zero_lem (pos zero) h = refl
is_zero_lem (pos (suc n)) h = absurd (true≢false (sym h))
is_zero_lem (negsuc n) h = absurd (true≢false (sym h))

module _ {K : Type 0} where
  -- The rule for two steps.
  and_then-Gives :
      (P Q : Device → Type 0) (step : Step K) (next : Device → Step K)
      → Gives P step
      → ((d : Device) → P d → Gives Q (next d))
      → Gives Q (and_then step next)
  and_then-Gives P Q step next first second s = elim (Bool-cases (is_zero (step s).0.0)) [
    | inl ok ↦ rw ok (second (step s).0.1 (first s (is_zero_lem (step s).0.0 ok)) (step s).1)
    | inr bad ↦ rw bad (λ e. absurd (true≢false (sym (ap is_zero e) ∙ bad)))
  ]

-- A device with aligned reports that is zoned.
abbrev pub Zoned : Device → Type 0
Zoned dev = Aligned dev × (zbc_dev_is_zoned dev ≡ true)

-- The largest transfer is below 2 ^ 32 bytes too.
abbrev pub Limited : Device → Type 0
Limited dev = Zoned dev × (dev.zbd_info.zbd_max_rw_sectors < 2 ^ 23)

-- The classification keeps what the first lines set.
apply_zoned-Aligned : (dev : Device) (zoned : ℕ) → Aligned dev → Aligned (apply_zoned dev zoned).1
unfolding apply_zoned
apply_zoned-Aligned dev zoned h = ground arith

module _ {K : Type 0} (sg_io : Cmd → K → Reply × K) (memalign : ℕ → Bool) where
  classify-Aligned :
      (dev : Device) (s : Sys K) → Aligned dev → Aligned (zbc_ata_classify sg_io memalign dev s).0.1
  unfolding zbc_ata_classify classify_page
  classify-Aligned dev s h = ground arith

-- The zoned device information is a success only for a zoned device.
finish_info-zoned :
    (dev : Device) (buf : List ℕ) (info : DeviceInfo)
    → let (ret, info') = finish_info buf info in
      ret ≡ pos 0 → zbc_dev_is_zoned (record dev { zbd_info = info' }) ≡ true
unfolding finish_info set_resources zbc_dev_is_zoned
finish_info-zoned dev buf info = ground arith

process_info-zoned :
    (dev : Device) (buf : List ℕ) (info : DeviceInfo)
    → let (ret, info') = process_info buf info in
      ret ≡ pos 0 → zbc_dev_is_zoned (record dev { zbd_info = info' }) ≡ true
unfolding process_info
process_info-zoned dev buf info =
    let zoned = λ (r : ℤ × DeviceInfo).
      r.0 ≡ pos 0 → zbc_dev_is_zoned (record dev { zbd_info = r.1 }) ≡ true in
    let info' : DeviceInfo = record info { zbd_flags = first_flags buf info.zbd_flags } in
    let set' = set_domains buf info' in
    pick zoned (not (zbc_device_is_zdr info')) (finish_info buf info')
      (if not (info'.zbd_model == Model.standard)
        then (neg_einval, info')
        else finish_info buf set')
      (finish_info-zoned dev buf info')
      (pick zoned (not (info'.zbd_model == Model.standard)) (neg_einval, info')
        (finish_info buf set') (λ e. absurd (pos-ne neg_einval 0 refl e))
        (finish_info-zoned dev buf set'))

module _ {K : Type 0} (sg_io : Cmd → K → Reply × K) (memalign : ℕ → Bool) where
  info-Zoned :
      (dev : Device) → Aligned dev → Gives Zoned (zbc_ata_get_zoned_device_info sg_io memalign dev)
  unfolding zbc_ata_get_zoned_device_info
  info-Zoned dev h s =
      let log = zbc_ata_read_log sg_io memalign dev 0x30 0x09 s in
      let r = process_info log.0.1 dev.zbd_info in
      elim (Bool-cases (is_neg log.0.0)) [
        | inl bad ↦ rw bad (λ e. absurd (pos-ne log.0.0 0 bad e))
        | inr good ↦ rw good (λ e. (h, process_info-zoned dev log.0.1 dev.zbd_info e))
      ]

  sat-Zoned :
      (dev : Device) (s : Sys K)
      → Limited dev
      → Limited (zbc_ata_test_sbc_sat sg_io memalign dev s).0
  unfolding zbc_ata_test_sbc_sat zbc_dev_is_zoned
  sat-Zoned dev s h = ground arith

  module _ (page_size : ℕ) (file : Device → FileKind) where
    pub capacity-Zoned :
        (dev : Device) (s : Sys K)
        → Zoned dev
        → Zoned (zbc_ata_get_capacity sg_io memalign page_size file dev s).0.1
    unfolding zbc_ata_get_capacity process_page total_capacity zbc_sg_get_max_cmd_blocks set_sizes
        zbc_dev_is_zoned
    capacity-Zoned dev s h = ground arith

    blocks-Limited :
        (dev : Device) → Zoned dev → Limited (zbc_sg_get_max_cmd_blocks page_size file dev)
    unfolding zbc_sg_get_max_cmd_blocks zbc_dev_is_zoned
    blocks-Limited dev h = (h, max_rw_sectors_lt page_size (file dev))

    last-Limited :
        (dev : Device) → Zoned dev → Gives Limited (last_steps sg_io memalign page_size file dev)
    unfolding last_steps
    last-Limited dev h s e =
        let dev' = zbc_sg_get_max_cmd_blocks page_size file dev in
        let s' = (zbc_ata_read_log sg_io memalign dev 0x30 0x05 s).1 in
        elim (Bool-cases (zbc_test_mode dev')) [
          | inl t ↦ rw t (blocks-Limited dev h)
          | inr t ↦ rw t (sat-Zoned dev' s' (blocks-Limited dev h))
        ]

    -- When the ATA driver's device information succeeds, whatever the drive answers, the device is
    -- host managed or host aware, its reports are aligned to 512 bytes with the mask for that, and
    -- the largest transfer is below 2 ^ 32 bytes.
    pub get_dev_info-Limited :
        (dev dev' : Device) (s : Sys K)
        → (zbc_ata_get_dev_info sg_io memalign page_size file dev s).0 ≡ (pos 0, dev')
        → Limited dev'
    unfolding zbc_ata_get_dev_info
    get_dev_info-Limited dev dev' s e =
        let start : Device = record dev {
          zbd_report_bufsz_min = 512;
          zbd_report_bufsz_mask = 511;
        } in
        let last = last_steps sg_io memalign page_size file in
        let size = zbc_ata_get_capacity sg_io memalign page_size file in
        let info = zbc_ata_get_zoned_device_info sg_io memalign in
        let class = zbc_ata_classify sg_io memalign in
        let s4 = λ (d : Device). and_then (size d) last in
        let s3 = λ (d : Device). and_then (info d) s4 in
        let s2 = λ (d : Device). and_then (class d) s3 in
        let g4 = λ (d : Device) (h : Zoned d).
          and_then-Gives Zoned Limited (size d) last (λ s e. capacity-Zoned d s h) last-Limited in
        let g3 = λ (d : Device) (h : Aligned d).
          and_then-Gives Zoned Limited (info d) s4 (info-Zoned d h) g4 in
        let g2 = λ (d : Device) (h : Aligned d).
          and_then-Gives Aligned Limited (class d) s3 (λ s e. classify-Aligned sg_io memalign d s h)
            g3 in
        let all : Gives Limited (zbc_ata_get_dev_info sg_io memalign page_size file dev) =
          and_then-Gives Aligned Limited (ready_step sg_io memalign start) s2 (λ s e. (refl, refl))
            g2 in
        rw (← ap (λ (r : ℤ × Device). r.1) e) (all s (ap (λ (r : ℤ × Device). r.0) e))
