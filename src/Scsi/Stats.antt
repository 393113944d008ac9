-- ===== src/Scsi/Stats.antt =====
-- zbc_scsi_get_stats of lib/zbc_scsi.c: RECEIVE DIAGNOSTIC RESULTS.
use libzbc.Base.{
  ℕ, zero, suc, ◌-◌, bit_and, Bool, not, ◌||◌, Option, none, some, List, ◌==◌, ltb, if◌then◌else◌,
  set, drop, ℤ, pos, is_zero, neg_eio,
}
use libzbc.Bytes.{get_int64, get_int16, set_int16}
use libzbc.Device.{Device}
use libzbc.Sg.{Cmd, zbc_sg_cmd_init}
use libzbc.Sg.CmdId as CmdId
use libzbc.Sg.Sense.{sb}
use libzbc.Sg.Exec.{Reply, Sys, zbc_sg_cmd_exec}
use libzbc.Scsi.{no_cdb}

-- struct zbc_zoned_blk_dev_stats
pub record Stats : Type 0 where
  pub max_open_zones : ℕ
  pub max_exp_open_seq_zones : ℕ
  pub max_imp_open_seq_zones : ℕ
  pub max_imp_open_sobr_zones : ℕ
  pub min_empty_zones : ℕ
  pub zones_emptied : ℕ
  pub max_non_seq_zones : ℕ
  pub subopt_write_cmds : ℕ
  pub cmds_above_opt_lim : ℕ
  pub failed_exp_opens : ℕ
  pub read_rule_fails : ℕ
  pub write_rule_fails : ℕ

abbrev pub no_stats : Stats
no_stats = record {
  max_open_zones = 0;
  max_exp_open_seq_zones = 0;
  max_imp_open_seq_zones = 0;
  max_imp_open_sobr_zones = 0;
  min_empty_zones = 0;
  zones_emptied = 0;
  max_non_seq_zones = 0;
  subopt_write_cmds = 0;
  cmds_above_opt_lim = 0;
  failed_exp_opens = 0;
  read_rule_fails = 0;
  write_rule_fails = 0;
}

-- The counter of a parameter code, set to a value.
unfoldable pub set_stat : ℕ → ℕ → Stats → Option Stats
set_stat pc val st =
    if pc == 0x00
    then some (record st { max_open_zones = val })
    else if pc == 0x01
    then some (record st { max_exp_open_seq_zones = val })
    else if pc == 0x02
    then some (record st { max_imp_open_seq_zones = val })
    else if pc == 0x03
    then some (record st { min_empty_zones = val })
    else if pc == 0x04
    then some (record st { max_non_seq_zones = val })
    else if pc == 0x05
    then some (record st { zones_emptied = val })
    else if pc == 0x06
    then some (record st { subopt_write_cmds = val })
    else if pc == 0x07
    then some (record st { cmds_above_opt_lim = val })
    else if pc == 0x08
    then some (record st { failed_exp_opens = val })
    else if pc == 0x09
    then some (record st { read_rule_fails = val })
    else if pc == 0x0a
    then some (record st { write_rule_fails = val })
    else if pc == 0x0b
    then some (record st { max_imp_open_sobr_zones = val })
    else none

-- The counters and the outcome of one round, before the next.
stat_round : Option Stats → Stats → ℤ × Stats → (Stats → ℤ × Stats) → ℤ × Stats
stat_round none st bad next = bad
stat_round (some st') st bad next = next st'

-- The loop over the parameters of 12 bytes, by the rounds left; the value is read at byte 8.
unfoldable pub stats_loop : ℕ → List ℕ → ℕ → Stats → ℤ × Stats
unfolding stat_round set_stat
stats_loop zero buf size st = (pos 0, st)
stats_loop (suc left) buf size st =
    if ltb size 12 || not (sb buf 3 == 8)
    then (neg_eio, st)
    else stat_round (set_stat (get_int16 buf 0) (get_int64 buf 8) st) st (neg_eio, st)
        (λ st'. stats_loop left (drop 12 buf) (size - 12) st')

-- What is made of the page. 0x14 with the SPF bit, and subpage 1.
unfoldable pub process_stats : List ℕ → ℤ × Stats
unfolding stats_loop
process_stats buf =
    if not (bit_and (sb buf 0) 0xbf == 0x14)
    then (neg_eio, no_stats)
    else if not (bit_and (sb buf 0) 0x40 == 0x40) || not (sb buf 1 == 0x01)
    then (neg_eio, no_stats)
    else stats_loop 11 (drop 4 buf) (get_int16 buf 2) no_stats

unfoldable pub stats_cdb : List ℕ
stats_cdb = set_int16 (set (set (set no_cdb 0 0x1c) 1 0x01) 2 0x14) 3 4096

module _ {K : Type 0} (sg_io : Cmd → K → Reply × K) (memalign : ℕ → Bool) (dev : Device) where
  unfoldable pub zbc_scsi_get_stats : Sys K → (ℤ × Stats) × Sys K
  unfolding process_stats
  zbc_scsi_get_stats s =
      let (init, cmd) = zbc_sg_cmd_init memalign dev CmdId.receive_diag_results 1 4096 in
      let ((ret, cmd'), s') = zbc_sg_cmd_exec sg_io (record cmd { cdb = stats_cdb }) s in
      if not (is_zero init)
      then ((init, no_stats), s)
      else if not (is_zero ret)
      then ((ret, no_stats), s')
      else (process_stats cmd'.buf, s')
