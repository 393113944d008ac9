-- ===== src/Device/Model.antt =====
-- The values of enum zbc_dev_model, include/libzbc/zbc.h.
use libzbc.Base.{ℕ}

abbrev pub drive_unknown : ℕ
drive_unknown = 0

abbrev pub host_aware : ℕ
host_aware = 1

abbrev pub host_managed : ℕ
host_managed = 2

abbrev pub device_managed : ℕ
device_managed = 3

abbrev pub standard : ℕ
standard = 4
