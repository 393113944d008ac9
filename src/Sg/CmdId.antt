-- ===== src/Sg/CmdId.antt =====
-- The command identifiers of lib/zbc_sg.h, ZBC_SG_TEST_UNIT_READY and those after it.
use libzbc.Base.{ℕ}

abbrev pub test_unit_ready : ℕ
test_unit_ready = 0

abbrev pub inquiry : ℕ
inquiry = 1

abbrev pub read_capacity : ℕ
read_capacity = 2

abbrev pub mode_sense : ℕ
mode_sense = 3

abbrev pub mode_select : ℕ
mode_select = 4

abbrev pub read : ℕ
read = 5

abbrev pub write : ℕ
write = 6

abbrev pub sync_cache : ℕ
sync_cache = 7

abbrev pub report_zones : ℕ
report_zones = 8

abbrev pub reset_zone : ℕ
reset_zone = 9

abbrev pub open_zone : ℕ
open_zone = 10

abbrev pub close_zone : ℕ
close_zone = 11

abbrev pub finish_zone : ℕ
finish_zone = 12

abbrev pub sequentialize_zone : ℕ
sequentialize_zone = 13

abbrev pub report_realms : ℕ
report_realms = 14

abbrev pub report_zone_domains : ℕ
report_zone_domains = 15

abbrev pub zone_activate_16 : ℕ
zone_activate_16 = 16

abbrev pub zone_query_16 : ℕ
zone_query_16 = 17

abbrev pub zone_activate_32 : ℕ
zone_activate_32 = 18

abbrev pub zone_query_32 : ℕ
zone_query_32 = 19

abbrev pub receive_diag_results : ℕ
receive_diag_results = 20

abbrev pub ata16 : ℕ
ata16 = 21
