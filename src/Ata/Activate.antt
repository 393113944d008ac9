-- ===== src/Ata/Activate.antt =====
-- zbc_ata_zone_query_activate of lib/zbc_ata.c: ZONE ACTIVATE EXT and ZONE QUERY EXT. The reply is
-- read as far as the records asked for go, without regard to the bytes received.
use libzbc.Base.{
  ℕ, zero, suc, ◌+◌, ◌*◌, ◌/◌, bit_and, bit_or, Bool, not, ◌&&◌, ◌||◌, List, [], ◌∷◌, ltb,
  if◌then◌else◌,
}
use libzbc.Base.{u8, has, drop, pos, is_zero, neg_eio, neg_enotsup}
use libzbc.Device.{Device, ActvRes, ErrExt}
use libzbc.Device.Sectors.{zbc_dev_sect2lba, zbc_dev_lba2sect}
use libzbc.Device.Driver.{Filled}
use libzbc.Activation.{Request}
use libzbc.Sg.{Cmd, from_dev, zbc_sg_cmd_init, zbc_sg_align_bufsz}
use libzbc.Sg.CmdId as CmdId
use libzbc.Sg.Sense.{sb}
use libzbc.Sg.Exec.{Reply, Sys}
use libzbc.Ata.{zbc_ata_get_dword, zbc_ata_get_qword, zbc_ata_get_lba, exec_sensed}
use libzbc.Ata.ReportZones.{management_in}

-- The command block: the domain and the action, whose bit 7 stands for all zones.
unfoldable pub ata_activate_cdb : Bool → Request → ℕ → ℕ → List ℕ
ata_activate_cdb query q lba bufsz =
    let af = if query then 0x09 else 0x08 in
    management_in (u8 q.domain_id) (if q.all then bit_or af 0x80 else af) lba bufsz

module _ (dev : Device) where
  -- The activation result at the front of the buffer.
  unfoldable pub read_ata_result : List ℕ → ActvRes
  read_ata_result buf = record {
    zbe_start_zone = zbc_dev_lba2sect dev (zbc_ata_get_lba buf 16);
    zbe_nr_zones = zbc_ata_get_qword buf 8;
    zbe_domain = sb buf 2;
    zbe_type = bit_and (sb buf 0) 0x0f;
    zbe_condition = bit_and (sb buf 1 / 16) 0x0f;
  }

  -- The loop over the results, by those left.
  unfoldable pub read_ata_results : ℕ → List ℕ → List ActvRes
  read_ata_results zero buf = []
  read_ata_results (suc left) buf = read_ata_result buf ∷ read_ata_results left (drop 32 buf)

  -- The status bits: the byte, ACTIVATED, and ZIWUP valid.
  unfoldable pub ata_activation_status : List ℕ → ℕ
  ata_activation_status buf =
      let stat = sb buf 9 in
      let stat' = if has (sb buf 8) 0x01 then bit_or stat 0x8000 else stat in
      if has (sb buf 8) 0x40 then bit_or stat' 0x4000 else stat'

  -- The zones are not, or for a query will not be, activated.
  unfoldable pub ata_not_activated : Bool → List ℕ → Bool
  ata_not_activated query buf =
      let stat = ata_activation_status buf in
      (not (has stat 0x8000) && not query) || has stat 0x4000

  unfoldable pub ata_activation_error : Bool → List ℕ → ErrExt → ErrExt
  ata_activation_error query buf e =
      let stat = ata_activation_status buf in
      let e' = record e { err_za = stat } in
      if ata_not_activated query buf
      then (if has stat 0x4000
          then record e' { err_cbf = zbc_dev_lba2sect dev (zbc_ata_get_lba buf 24) }
          else e')
      else e

  -- The number of results read into an array of `nr` records.
  unfoldable pub ata_results_held : ℕ → List ℕ → ℕ
  ata_results_held nr buf = let got = zbc_ata_get_dword buf 4 / 32 in if ltb nr got then nr else got

  -- What is made of a reply. `recs` is false for a NULL array.
  unfoldable pub process_ata_results : Bool → Bool → ℕ → List ℕ → Filled ActvRes
  process_ata_results query recs nr buf =
      let ret = if ata_not_activated query buf then neg_eio else pos 0 in
      let held = ata_results_held nr buf in
      if not recs
      then record { ret = ret; stored = []; nr = zbc_ata_get_dword buf 0 / 32 }
      else record { ret = ret; stored = read_ata_results held (drop 64 buf); nr = held }

module _ {K : Type 0} (sg_io : Cmd → K → Reply × K) (memalign : ℕ → Bool) (dev : Device) where
  unfoldable pub zbc_ata_zone_activate_noaux :
      Bool → Request → Bool → ℕ → Sys K → Filled ActvRes × Sys K
  zbc_ata_zone_activate_noaux query q recs nr s =
      let bufsz = zbc_sg_align_bufsz dev (64 + nr * 32) in
      let (init, cmd) = zbc_sg_cmd_init memalign dev CmdId.ata16 0 bufsz in
      let cdb = ata_activate_cdb query q (zbc_dev_sect2lba dev q.sector) bufsz in
      let sent : Cmd = record cmd { timeout = 120000; dxfer_direction = from_dev; cdb = cdb } in
      let ((ret, cmd'), s') = exec_sensed sg_io memalign dev sent s in
      if not (is_zero init)
      then (record { ret = init; stored = []; nr = nr }, s)
      else if not (is_zero ret)
      then (record { ret = ret; stored = []; nr = 0 }, s')
      else (
        process_ata_results dev query recs nr cmd'.buf,
        record s' { zerrno = ata_activation_error dev query cmd'.buf s'.zerrno },
      )

  -- A number of zones for one request is not supported, unless it is for all zones.
  unfoldable pub zbc_ata_zone_query_activate :
      Bool → Request → Bool → ℕ → Sys K → Filled ActvRes × Sys K
  unfolding zbc_ata_zone_activate_noaux
  zbc_ata_zone_query_activate query q recs nr s =
      if q.zsrc && not q.all
      then (record { ret = neg_enotsup; stored = []; nr = nr }, s)
      else zbc_ata_zone_activate_noaux query q recs nr s
