-- ===== src/Ata/LbaFields.antt =====
-- The fields of the ATA pass-through blocks.
use libzbc.Base.{
  ℕ, ◌+◌, ◌*◌, ◌/◌, ◌%◌, ◌^◌, ◌≤◌, ◌<◌, ◌≡◌, refl, arith, Bool-cases, inl, inr, List, get_or, has,
  if◌then◌else◌, ◌==◌, u32,
}
use libzbc.Device.{op_all_zones}
use libzbc.Ata.{zbc_ata_put_lba, zbc_ata_set_lba}
use libzbc.Ata.ZoneOp.{zone_op_block}
use libzbc.Ata.ReportZones.{management_in}
use libzbc.Ata.Transfer.{dma_cdb}

-- The address that the six registers of a block stand for: bits 0 to 23 in bytes 8, 10 and 12, bits 24
-- to 47 in bytes 7, 9 and 11.
abbrev pub lba_field : List ℕ → ℕ
lba_field cdb =
    get_or cdb 8 0
    + 2 ^ 8 * get_or cdb 10 0
    + 2 ^ 16 * get_or cdb 12 0
    + 2 ^ 24 * get_or cdb 7 0
    + 2 ^ 32 * get_or cdb 9 0
    + 2 ^ 40 * get_or cdb 11 0

abbrev pub count_field : List ℕ → ℕ
count_field cdb = 256 * get_or cdb 5 0 + get_or cdb 6 0

-- The bytes of an address, put together again.
bytes_of_lba :
    (lba : ℕ)
    → lba % 256
        + 2 ^ 8 * (lba / 2 ^ 8 % 256)
        + 2 ^ 16 * (lba / 2 ^ 16 % 256)
        + 2 ^ 24 * (lba / 2 ^ 24 % 256)
        + 2 ^ 32 * (lba / 2 ^ 32 % 256)
        + 2 ^ 40 * (lba / 2 ^ 40 % 256)
      ≡ lba % 2 ^ 48
bytes_of_lba lba = omega arith

bytes_of_count : (count : ℕ) → 256 * (count / 256 % 256) + count % 256 ≡ count % 2 ^ 16
bytes_of_count count = omega arith

-- The block of an ATA zone operation is a pass-through block for ZAC MANAGEMENT OUT with the action
-- in its byte 4 and the zone count, reduced to 16 bits. For an operation on all zones byte 3 is 1 and
-- the address 0; for another byte 3 is 0 and the address is the one given, reduced to 48 bits.
pub ata_zone_op_fields :
    (af lba count flags : ℕ)
    → let cdb = zone_op_block af lba count flags in
      (get_or cdb 0 0 ≡ 0x85)
      × (get_or cdb 14 0 ≡ 0x9f)
      × (get_or cdb 4 0 ≡ af)
      × (count_field cdb ≡ count % 2 ^ 16)
      × (lba_field cdb ≡ (if has flags op_all_zones then 0 else lba % 2 ^ 48))
      × (get_or cdb 3 0 ≡ (if has flags op_all_zones then 1 else 0))
unfolding zone_op_block zbc_ata_put_lba zbc_ata_set_lba
ata_zone_op_fields af lba count flags = elim (Bool-cases (has flags op_all_zones)) [
  | inl h ↦ rw h (refl, refl, refl, bytes_of_count count, refl, refl)
  | inr h ↦ rw h (refl, refl, refl, bytes_of_count count, bytes_of_lba lba, refl)
]

pub management_in_lba :
    (features af lba bufsz : ℕ) → lba_field (management_in features af lba bufsz) ≡ lba % 2 ^ 48
unfolding management_in zbc_ata_put_lba zbc_ata_set_lba
management_in_lba features af lba bufsz = bytes_of_lba lba

-- The block of a ZAC MANAGEMENT IN command has its parameter, its action and the address, reduced to
-- 48 bits, and the size of the buffer in units of 512 bytes, when these are below 2 ^ 16.
pub management_in_fields :
    (features af lba bufsz : ℕ)
    → bufsz < 2 ^ 25
    → let cdb = management_in features af lba bufsz in
      (get_or cdb 0 0 ≡ 0x85)
      × (get_or cdb 14 0 ≡ 0x4a)
      × (get_or cdb 3 0 ≡ features)
      × (get_or cdb 4 0 ≡ af)
      × (lba_field cdb ≡ lba % 2 ^ 48)
      × (count_field cdb ≡ bufsz / 512)
unfolding management_in zbc_ata_put_lba zbc_ata_set_lba
management_in_fields features af lba bufsz h =
    (refl, refl, refl, refl, bytes_of_lba lba, omega (arith, bytes_of_count (bufsz / 512)))

-- The number of blocks that the count field of a DMA command stands for.
abbrev pub blocks_of : ℕ → ℕ
blocks_of n = if n == 0 then 65536 else n

blocks_of_low : (n : ℕ) → 0 < n → n ≤ 65536 → blocks_of (n % 2 ^ 16) ≡ n
blocks_of_low n h k = ground arith

-- The block of a DMA transfer of 1 to 65536 logical blocks has the direction and the command given,
-- the address, reduced to 48 bits, and a count field that stands for exactly the number of blocks,
-- where 0 stands for 65536.
pub dma_fields :
    (way command lba count : ℕ)
    → 0 < count
    → count ≤ 65536
    → let cdb = dma_cdb way command lba count in
      (get_or cdb 2 0 ≡ way)
      × (get_or cdb 14 0 ≡ command)
      × (lba_field cdb ≡ lba % 2 ^ 48)
      × (blocks_of (count_field cdb) ≡ count)
unfolding dma_cdb zbc_ata_put_lba zbc_ata_set_lba
dma_fields way command lba count h k =
    let low : u32 count ≡ count = omega arith in
    (refl, refl, bytes_of_lba lba, rw (low, bytes_of_count count) (blocks_of_low count h k))
