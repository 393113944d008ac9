-- ===== src/Scsi/ReportFields.antt =====
-- The command block of REPORT ZONES carries the request.
use libzbc.Base.{
  ℕ, ◌%◌, ◌^◌, ◌<◌, ◌≡◌, ◌∙◌, inl, arith, List, get_or, set, u32, bit_and, get_or-set_ne,
}
use libzbc.Bytes.{set_int64, set_int32, get_int64}
use libzbc.Bytes.RoundTrip.{set_bytes_out, get_int64_lem, get_int64-set_int64}
use libzbc.Scsi.{no_cdb}
use libzbc.Scsi.ReportZones.{report_zones_cdb}

module _ (cdb : List ℕ) (size v : ℕ) where
  -- The bytes before the size stay when it and the options are written.
  kept : (p : ℕ) → p < 10 → get_or (set (set_int32 cdb 10 size) 14 v) p 0 ≡ get_or cdb p 0
  unfolding set_int32
  kept p h =
      get_or-set_ne (set_int32 cdb 10 size) 14 p v 0 (omega arith)
      ∙ set_bytes_out cdb 10 (u32 size) 4 p (inl h)

  kept_lba : get_int64 (set (set_int32 cdb 10 size) 14 v) 2 ≡ get_int64 cdb 2
  kept_lba = omega (
    arith,
    get_int64_lem (set (set_int32 cdb 10 size) 14 v) 2,
    get_int64_lem cdb 2,
    kept 2 (omega arith),
    kept 3 (omega arith),
    kept 4 (omega arith),
    kept 5 (omega arith),
    kept 6 (omega arith),
    kept 7 (omega arith),
    kept 8 (omega arith),
    kept 9 (omega arith),
  )

pub report_zones_lba :
    (lba bufsz ro : ℕ) → get_int64 (report_zones_cdb lba bufsz ro) 2 ≡ lba % 2 ^ 64
unfolding report_zones_cdb
report_zones_lba lba bufsz ro =
    kept_lba (set_int64 (set (set no_cdb 0 0x95) 1 0x00) 2 lba) (u32 bufsz) (bit_and ro 0xbf)
    ∙ get_int64-set_int64 (set (set no_cdb 0 0x95) 1 0x00) 2 lba (omega arith)
