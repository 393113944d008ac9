-- ===== src/Scsi/ZoneOpFields.antt =====
-- The command block of a zone operation carries the request.
use libzbc.Base.{
  ℕ, ◌%◌, ◌^◌, ◌≤◌, ◌<◌, ◌≡◌, ◌∙◌, inl, inr, arith, Bool-cases, List, length, get_or, set, has,
  if◌then◌else◌, u16,
}
use libzbc.Bytes.{set_int64, set_int16, get_int64, get_int16}
use libzbc.Bytes.RoundTrip.{
  set_bytes_out, length-set_bytes, get_int64_lem, get_int64-set_int64, get_int16-set_int16,
}
use libzbc.Device.{op_all_zones}
use libzbc.Scsi.{no_cdb, zone_op_cdb}

module _ (cdb : List ℕ) (count : ℕ) where
  -- Writing the count moves no other byte.
  kept : (p : ℕ) → p < 12 → get_or (set_int16 cdb 12 count) p 0 ≡ get_or cdb p 0
  unfolding set_int16
  kept p h = set_bytes_out cdb 12 (u16 count) 2 p (inl h)

  kept_14 : get_or (set_int16 cdb 12 count) 14 0 ≡ get_or cdb 14 0
  unfolding set_int16
  kept_14 = set_bytes_out cdb 12 (u16 count) 2 14 (inr (omega arith))

  kept_lba : get_int64 (set_int16 cdb 12 count) 2 ≡ get_int64 cdb 2
  kept_lba = omega (
    arith,
    get_int64_lem (set_int16 cdb 12 count) 2,
    get_int64_lem cdb 2,
    kept 2 (omega arith),
    kept 3 (omega arith),
    kept 4 (omega arith),
    kept 5 (omega arith),
    kept 6 (omega arith),
    kept 7 (omega arith),
    kept 8 (omega arith),
    kept 9 (omega arith),
  )

module _ (cdb : List ℕ) (lba p : ℕ) where
  -- Writing the block address moves no byte outside it.
  before : p < 2 → get_or (set_int64 cdb 2 lba) p 0 ≡ get_or cdb p 0
  unfolding set_int64
  before h = set_bytes_out cdb 2 lba 8 p (inl h)

  behind : 10 ≤ p → get_or (set_int64 cdb 2 lba) p 0 ≡ get_or cdb p 0
  unfolding set_int64
  behind h = set_bytes_out cdb 2 lba 8 p (inr h)

length_block : (sa lba : ℕ) → length (set_int64 (set (set no_cdb 0 0x94) 1 sa) 2 lba) ≡ 32
unfolding set_int64
length_block sa lba = length-set_bytes (set (set no_cdb 0 0x94) 1 sa) 2 lba 8

-- The block of a zone operation has the operation code and the service action in its first bytes
-- and the zone count, reduced to 16 bits, at byte 12. For an operation on all zones byte 14 is 1
-- and the zone address 0; for another the zone address is the block given and byte 14 is 0.
pub zone_op_fields :
    (sa lba count flags : ℕ)
    → let cdb = zone_op_cdb sa lba count flags in
      (get_or cdb 0 0 ≡ 0x94)
      × (get_or cdb 1 0 ≡ sa)
      × (get_int16 cdb 12 ≡ count % 2 ^ 16)
      × (get_int64 cdb 2 ≡ (if has flags op_all_zones then 0 else lba % 2 ^ 64))
      × (get_or cdb 14 0 ≡ (if has flags op_all_zones then 1 else 0))
unfolding zone_op_cdb
zone_op_fields sa lba count flags =
    let block = set (set no_cdb 0 0x94) 1 sa in
    let all = set block 14 1 in
    let one = set_int64 block 2 lba in
    elim (Bool-cases (has flags op_all_zones)) [
      | inl h ↦ rw h (
        kept all count 0 (omega arith),
        kept all count 1 (omega arith),
        get_int16-set_int16 all 12 count (omega arith),
        kept_lba all count ∙ get_int64_lem all 2,
        kept_14 all count,
      )
      | inr h ↦ rw h (
        kept one count 0 (omega arith) ∙ before block lba 0 (omega arith),
        kept one count 1 (omega arith) ∙ before block lba 1 (omega arith),
        get_int16-set_int16 one 12 count (omega (arith, length_block sa lba)),
        kept_lba one count ∙ get_int64-set_int64 block 2 lba (omega arith),
        kept_14 one count ∙ behind block lba 14 (omega arith),
      )
    ]
