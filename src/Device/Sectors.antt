-- ===== src/Device/Sectors.antt =====
-- Conversion between 512-byte sectors and logical blocks, and the alignment tests.
use libzbc.Base.{ℕ, ◌-◌, ◌*◌, ◌/◌, ◌%◌, ◌^◌, ◌<◌, ◌≡◌, sym, ap, ◌∙◌, arith}
use libzbc.Base.{Bool, true, bit_and, ◌==◌, ==→eq, if◌then◌else◌, u64}
use libzbc.Base.Bits.{bit_and_low}
use libzbc.Device.{DeviceInfo, Device}
use native.Mathlib.Nat.{div-add-mod'}

-- The multiplication and the shift are those of `uint64_t`.
abbrev pub zbc_lba2sect : DeviceInfo → ℕ → ℕ
zbc_lba2sect info lba = u64 (lba * info.zbd_lblock_size) / 512

abbrev pub zbc_sect2lba : DeviceInfo → ℕ → ℕ
zbc_sect2lba info sect = u64 (sect * 512) / info.zbd_lblock_size

unfoldable pub zbc_dev_sect2lba : Device → ℕ → ℕ
zbc_dev_sect2lba dev sect = if sect == 0 then sect else zbc_sect2lba dev.zbd_info sect

unfoldable pub zbc_dev_lba2sect : Device → ℕ → ℕ
zbc_dev_lba2sect dev lba = if lba == 0 then lba else zbc_lba2sect dev.zbd_info lba

unfoldable pub zbc_dev_sect_laligned : Device → ℕ → Bool
zbc_dev_sect_laligned dev sect = bit_and (u64 (sect * 512)) (dev.zbd_info.zbd_lblock_size - 1) == 0

unfoldable pub zbc_dev_sect_paligned : Device → ℕ → Bool
zbc_dev_sect_paligned dev sect = bit_and (u64 (sect * 512)) (dev.zbd_info.zbd_pblock_size - 1) == 0

-- On a device with logical blocks of `2 ^ k` bytes, the test for logical alignment accepts a sector
-- number below 2 ^ 55 exactly when its byte offset is a multiple of the block size.
pub laligned_iff :
    (dev : Device) (k sect : ℕ)
    → dev.zbd_info.zbd_lblock_size ≡ 2 ^ k
    → sect < 2 ^ 55
    → zbc_dev_sect_laligned dev sect ≡ (sect * 512 % 2 ^ k == 0)
unfolding zbc_dev_sect_laligned
laligned_iff dev k sect e h = rw (e, bit_and_low k) (ap (λ (t : ℕ). t % 2 ^ k == 0) fits)
  where
    fits : u64 (sect * 512) ≡ sect * 512
    fits = omega arith

-- On a device with logical blocks of `2 ^ k` bytes, an aligned sector number below 2 ^ 55 converts
-- to a logical block and back to itself.
pub lba2sect-sect2lba :
    (dev : Device) (k sect : ℕ)
    → dev.zbd_info.zbd_lblock_size ≡ 2 ^ k
    → sect < 2 ^ 55
    → zbc_dev_sect_laligned dev sect ≡ true
    → zbc_dev_lba2sect dev (zbc_dev_sect2lba dev sect) ≡ sect
unfolding zbc_dev_lba2sect zbc_dev_sect2lba
lba2sect-sect2lba dev k sect e h al = ground (arith, whole, no_wrap)
  where
    rest : sect * 512 % 2 ^ k ≡ 0
    rest = ==→eq _ _ (sym (laligned_iff dev k sect e h) ∙ al)

    no_wrap : u64 (sect * 512) ≡ sect * 512
    no_wrap = omega arith

    whole : sect * 512 / dev.zbd_info.zbd_lblock_size * dev.zbd_info.zbd_lblock_size ≡ sect * 512
    whole = rw e (omega (arith, rest, div-add-mod' (sect * 512) (2 ^ k)))
