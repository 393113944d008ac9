-- ===== src/Device/ZoneOp.antt =====
-- The values of enum zbc_zone_op, include/libzbc/zbc.h.
use libzbc.Base.{ℕ}

abbrev pub reset_zone : ℕ
reset_zone = 1

abbrev pub open_zone : ℕ
open_zone = 2

abbrev pub close_zone : ℕ
close_zone = 3

abbrev pub finish_zone : ℕ
finish_zone = 4
