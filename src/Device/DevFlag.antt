-- ===== src/Device/DevFlag.antt =====
-- The values of enum zbc_dev_flags, those that the modelled code tests, include/libzbc/zbc.h.
use libzbc.Base.{ℕ}

abbrev pub unrestricted_read : ℕ
unrestricted_read = 0x1

abbrev pub zone_realms_support : ℕ
zone_realms_support = 0x2

abbrev pub zone_domains_support : ℕ
zone_domains_support = 0x4

abbrev pub report_realms_support : ℕ
report_realms_support = 0x20

abbrev pub zone_op_count_support : ℕ
zone_op_count_support = 0x40000

abbrev pub standard_rpt_realms : ℕ
standard_rpt_realms = 0x80000

abbrev pub urswrz_set_support : ℕ
urswrz_set_support = 0x8

abbrev pub maxact_set_support : ℕ
maxact_set_support = 0x10

abbrev pub za_control_support : ℕ
za_control_support = 0x80

abbrev pub nozsrc_support : ℕ
nozsrc_support = 0x100

abbrev pub conv_zone_support : ℕ
conv_zone_support = 0x200

abbrev pub seq_req_zone_support : ℕ
seq_req_zone_support = 0x400

abbrev pub seq_pref_zone_support : ℕ
seq_pref_zone_support = 0x800

abbrev pub sobr_zone_support : ℕ
sobr_zone_support = 0x1000

abbrev pub gap_zone_support : ℕ
gap_zone_support = 0x2000

abbrev pub conv_realms_shifting : ℕ
conv_realms_shifting = 0x4000

abbrev pub seq_req_realms_shifting : ℕ
seq_req_realms_shifting = 0x8000

abbrev pub seq_pref_realms_shifting : ℕ
seq_pref_realms_shifting = 0x10000

abbrev pub sobr_realms_shifting : ℕ
sobr_realms_shifting = 0x20000
