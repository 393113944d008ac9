-- ===== src/Scsi/Activate.antt =====
-- zbc_scsi_zone_activate16 of lib/zbc_scsi.c: the 16-byte ZONE ACTIVATE and ZONE QUERY.
use libzbc.Base.{
  ℕ, zero, suc, ◌+◌, ◌-◌, ◌*◌, ◌/◌, bit_and, bit_or, Bool, not, ◌&&◌, ◌||◌, List, [], ◌∷◌, ltb,
  if◌then◌else◌,
}
use libzbc.Base.{u16, u32, has, set, drop, pos, is_zero, neg_eio, neg_einval}
use libzbc.Bytes.{get_int64, get_int48, get_int32, set_int48, set_int32, set_int16}
use libzbc.Device.{Device, ActvRes, ErrExt}
use libzbc.Device.Sectors.{zbc_dev_sect2lba, zbc_dev_lba2sect}
use libzbc.Device.Driver.{Filled}
use libzbc.Activation.{Request}
use libzbc.Sg.{Cmd, zbc_sg_cmd_init, zbc_sg_align_bufsz}
use libzbc.Sg.CmdId as CmdId
use libzbc.Sg.Sense.{sb}
use libzbc.Sg.Exec.{Reply, Sys, zbc_sg_cmd_exec}
use libzbc.Scsi.{no_cdb}

-- The command block. `bufsz` and `nr_zones` are reduced to the width of their fields.
unfoldable pub activate16_cdb : Bool → Request → ℕ → ℕ → List ℕ
activate16_cdb query q lba bufsz =
    let id = bit_and q.domain_id 0x3f in
    let id' = if q.all then bit_or id 0x80 else id in
    let cdb = set (set no_cdb 0 0x95) 1 (if query then 0x09 else 0x08) in
    let with_count = set_int16 (set cdb 2 (bit_or id' 0x40)) 13 (u16 q.nr_zones) in
    set_int32 (set_int48 (if q.zsrc then with_count else set cdb 2 id') 3 lba) 9 (u32 bufsz)

module _ (dev : Device) where
  -- The activation result at the front of the buffer.
  unfoldable pub read_result : List ℕ → ActvRes
  read_result buf = record {
    zbe_start_zone = zbc_dev_lba2sect dev (get_int64 buf 16);
    zbe_nr_zones = get_int64 buf 8;
    zbe_domain = sb buf 2;
    zbe_type = bit_and (sb buf 0) 0x0f;
    zbe_condition = bit_and (sb buf 1 / 16) 0x0f;
  }

  -- The loop over the results, by those left.
  unfoldable pub read_results : ℕ → List ℕ → List ActvRes
  read_results zero buf = []
  read_results (suc left) buf = read_result buf ∷ read_results left (drop 24 buf)

  -- The status bits: the byte, ACTIVATED, and ZIWUP valid.
  unfoldable pub activation_status : List ℕ → ℕ
  activation_status buf =
      let stat = sb buf 9 in
      let stat' = if has (sb buf 8) 0x01 then bit_or stat 0x8000 else stat in
      if has (sb buf 8) 0x40 then bit_or stat' 0x4000 else stat'

  -- The zones are not, or for a query will not be, activated.
  unfoldable pub not_activated : Bool → List ℕ → Bool
  not_activated query buf =
      let stat = activation_status buf in (not (has stat 0x8000) && not query) || has stat 0x4000

  unfoldable pub activation_error : Bool → List ℕ → ErrExt → ErrExt
  activation_error query buf e =
      let stat = activation_status buf in
      let e' = record e { err_za = stat } in
      if not_activated query buf
      then (if has stat 0x4000
          then record e' { err_cbf = zbc_dev_lba2sect dev (get_int48 buf 24) }
          else e')
      else e

  -- The number of results read into an array of `nr` records.
  unfoldable pub results_held : ℕ → ℕ → List ℕ → ℕ
  results_held nr bufsz buf =
      let got = get_int32 buf 4 / 24 in
      let asked = if ltb nr got then nr else got in
      let held = (bufsz - 64) / 24 in if ltb held asked then held else asked

  -- What is made of a reply of `bufsz` bytes. `recs` is false for a NULL array.
  unfoldable pub process_results : Bool → Bool → ℕ → ℕ → List ℕ → Filled ActvRes
  process_results query recs nr bufsz buf =
      let ret = if not_activated query buf then neg_eio else pos 0 in
      let held = results_held nr bufsz buf in
      if not recs
      then record { ret = ret; stored = []; nr = get_int32 buf 0 / 24 }
      else record { ret = ret; stored = read_results held (drop 64 buf); nr = held }

module _ {K : Type 0} (sg_io : Cmd → K → Reply × K) (memalign : ℕ → Bool) (dev : Device) where
  unfoldable pub zbc_scsi_zone_activate16 :
      Bool → Request → Bool → ℕ → Sys K → Filled ActvRes × Sys K
  zbc_scsi_zone_activate16 query q recs nr s =
      let lba = zbc_dev_sect2lba dev q.sector in
      let bufsz = zbc_sg_align_bufsz dev (64 + nr * 24) in
      let id = if query then CmdId.zone_query_16 else CmdId.zone_activate_16 in
      let (init, cmd) = zbc_sg_cmd_init memalign dev id 0 bufsz in
      let sent : Cmd = record cmd { timeout = 120000; cdb = activate16_cdb query q lba bufsz } in
      let ((ret, cmd'), s') = zbc_sg_cmd_exec sg_io sent s in
      if ltb 65535 nr || ltb 0xffffffffffff lba
      then (record { ret = neg_einval; stored = []; nr = nr }, s)
      else if not (is_zero init)
      then (record { ret = init; stored = []; nr = nr }, s)
      else if not (is_zero ret)
      then (record { ret = ret; stored = []; nr = 0 }, s')
      else if ltb cmd'.bufsz 64
      then (record { ret = neg_eio; stored = []; nr = 0 }, s')
      else (
        process_results dev query recs nr cmd'.bufsz cmd'.buf,
        record s' { zerrno = activation_error dev query cmd'.buf s'.zerrno },
      )
