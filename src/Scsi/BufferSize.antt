-- ===== src/Scsi/BufferSize.antt =====
-- The size of the buffer of a zone report, for a device as the open leaves it.
use libzbc.Base.{
  ℕ, ◌+◌, ◌-◌, ◌*◌, ◌%◌, ◌^◌, ◌≤◌, ◌<◌, ◌≡◌, refl, arith, true, ◌⊎◌, inl, inr, ltb, if◌then◌else◌,
  has, bit_and, u32, u64,
}
use libzbc.Base.Bits.{bit_and_low, bit_and_high}
use libzbc.Device.{Device}
use libzbc.Scsi.ReportZones.{report_bufsz}
use libzbc.Ata.ReportZones.{ata_report_bufsz}

-- The report buffers have a size of 512 at least, and the mask for multiples of 512.
abbrev pub Aligned : Device → Type 0
Aligned dev = (dev.zbd_report_bufsz_min ≡ 512) × (dev.zbd_report_bufsz_mask ≡ 511)

-- The size wanted, brought to a multiple of 512.
abbrev round_up : ℕ → ℕ
round_up x =
    if ltb x 512 then 512 else if has x 511 then bit_and (u64 (x + 511)) (2 ^ 64 - 1 - 511) else x

round_up_lem :
    (x sectors : ℕ)
    → x ≤ sectors * 512
    → sectors < 2 ^ 23
    → (512 ≤ round_up x)
      × (round_up x % 512 ≡ 0)
      × ((round_up x ≡ 512) ⊎ (round_up x ≤ sectors * 512))
      × (x ≤ round_up x)
round_up_lem x sectors h small =
    let low : bit_and x 511 ≡ x % 512 = bit_and_low 9 x in
    let y = u64 (x + 511) in
    let high : bit_and y (2 ^ 64 - 1 - 511) ≡ y - y % 512 =
      bit_and_high 64 9 y (omega arith) (omega arith) in
    rw (low, high) (ground arith)

-- On a device whose report buffers are aligned to 512 bytes and whose largest transfer is below
-- 2 ^ 32 bytes, the buffer of a report of fewer than 2 ^ 26 - 1 zones is a multiple of 512 bytes of at
-- least 512, within the largest transfer unless it is 512, and has room for all the zones asked for
-- and the header, or is as large as the largest transfer. The two backends agree on it.
pub report_bufsz_bounds :
    (dev : Device) (n : ℕ)
    → Aligned dev
    → dev.zbd_info.zbd_max_rw_sectors < 2 ^ 23
    → n + 1 < 2 ^ 26
    → let b = ata_report_bufsz dev true n in
      let most = dev.zbd_info.zbd_max_rw_sectors * 512 in
      (report_bufsz dev true n ≡ b)
      × (512 ≤ b)
      × (b % 512 ≡ 0)
      × ((b ≡ 512) ⊎ (b ≤ most))
      × (((n + 1) * 64 ≤ b) ⊎ (most ≤ b))
unfolding ata_report_bufsz report_bufsz
report_bufsz_bounds dev n (least, mask) small few =
    let sectors = dev.zbd_info.zbd_max_rw_sectors in
    let most : u64 (sectors * 512) ≡ sectors * 512 = omega arith in
    let wanted : u32 (u32 (n + 1) * 64) ≡ (n + 1) * 64 = omega arith in
    let x = if ltb ((n + 1) * 64) (sectors * 512) then (n + 1) * 64 else sectors * 512 in
    let within : x ≤ sectors * 512 = ground arith in
    let (big, whole, top, up) = round_up_lem x sectors within small in
    rw (least, mask, most, wanted) (refl, big, whole, top, ground arith)

-- For any number of zones, the size is that of a block at least and below 2 ^ 32.
pub bufsz_fits :
    (dev : Device) (n : ℕ)
    → Aligned dev
    → dev.zbd_info.zbd_max_rw_sectors < 2 ^ 23
    → (512 ≤ report_bufsz dev true n) × (report_bufsz dev true n < 2 ^ 32)
unfolding report_bufsz
bufsz_fits dev n (least, mask) small =
    let sectors = dev.zbd_info.zbd_max_rw_sectors in
    let most : u64 (sectors * 512) ≡ sectors * 512 = omega arith in
    let wanted = u32 (u32 (n + 1) * 64) in
    let x = if ltb wanted (sectors * 512) then wanted else sectors * 512 in
    let within : x ≤ sectors * 512 = ground arith in
    let (big, whole, top, up) = round_up_lem x sectors within small in
    rw (least, mask, most) (big, within_top (round_up x) sectors small top)
  where
    within_top : (y sectors : ℕ) → sectors < 2 ^ 23 → (y ≡ 512) ⊎ (y ≤ sectors * 512) → y < 2 ^ 32
    within_top y sectors small (inl e) = omega arith
    within_top y sectors small (inr e) = omega arith
