-- ===== src/Device/ZoneCond.antt =====
-- The values of enum zbc_zone_condition, include/libzbc/zbc.h.
use libzbc.Base.{ℕ}

abbrev pub not_wp : ℕ
not_wp = 0x00

abbrev pub empty : ℕ
empty = 0x01

abbrev pub imp_open : ℕ
imp_open = 0x02

abbrev pub exp_open : ℕ
exp_open = 0x03

abbrev pub closed : ℕ
closed = 0x04

abbrev pub inactive : ℕ
inactive = 0x05

abbrev pub rdonly : ℕ
rdonly = 0x0d

abbrev pub full : ℕ
full = 0x0e

abbrev pub offline : ℕ
offline = 0x0f
