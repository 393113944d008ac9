-- ===== src/Device/ZoneType.antt =====
-- The values of enum zbc_zone_type, include/libzbc/zbc.h.
use libzbc.Base.{ℕ}

abbrev pub conventional : ℕ
conventional = 1

abbrev pub sequential_req : ℕ
sequential_req = 2

abbrev pub sequential_pref : ℕ
sequential_pref = 3

abbrev pub seq_or_bef_req : ℕ
seq_or_bef_req = 4

abbrev pub gap : ℕ
gap = 5
