-- ===== src/Scsi/Activate32.antt =====
-- zbc_scsi_zone_activate32 and zbc_scsi_zone_query_activate of lib/zbc_scsi.c.
use libzbc.Base.{
  ℕ, ◌+◌, ◌*◌, bit_or, Bool, not, ◌&&◌, List, [], ltb, if◌then◌else◌, u8, u32, set, is_zero,
  neg_eio,
}
use libzbc.Bytes.{set_int64, set_int32, set_int16}
use libzbc.Device.{Device, ActvRes}
use libzbc.Device.Sectors.{zbc_dev_sect2lba}
use libzbc.Device.Driver.{Filled}
use libzbc.Activation.{Request}
use libzbc.Sg.{Cmd, zbc_sg_cmd_init, zbc_sg_align_bufsz}
use libzbc.Sg.CmdId as CmdId
use libzbc.Sg.Exec.{Reply, Sys, zbc_sg_cmd_exec}
use libzbc.Scsi.{no_cdb}
use libzbc.Scsi.Activate.{process_results, activation_error, zbc_scsi_zone_activate16}

-- The command block. Byte 10 has ZSRC and ALL, byte 11 the domain.
unfoldable pub activate32_cdb : Bool → Request → ℕ → ℕ → List ℕ
activate32_cdb query q lba bufsz =
    let cdb = set_int16 (set (set no_cdb 0 0x7f) 7 0x18) 8 (if query then 0xf801 else 0xf800) in
    let counted = if q.zsrc then set_int32 cdb 20 (u32 q.nr_zones) else cdb in
    let flags = bit_or (if q.zsrc then 0x40 else 0) (if q.all then 0x80 else 0) in
    set_int32 (set_int64 (set (set counted 10 flags) 11 (u8 q.domain_id)) 12 lba) 28 (u32 bufsz)

module _ {K : Type 0} (sg_io : Cmd → K → Reply × K) (memalign : ℕ → Bool) (dev : Device) where
  unfoldable pub zbc_scsi_zone_activate32 :
      Bool → Request → Bool → ℕ → Sys K → Filled ActvRes × Sys K
  zbc_scsi_zone_activate32 query q recs nr s =
      let lba = zbc_dev_sect2lba dev q.sector in
      let bufsz = zbc_sg_align_bufsz dev (64 + nr * 24) in
      let id = if query then CmdId.zone_query_32 else CmdId.zone_activate_32 in
      let (init, cmd) = zbc_sg_cmd_init memalign dev id 0 bufsz in
      let sent : Cmd = record cmd { timeout = 120000; cdb = activate32_cdb query q lba bufsz } in
      let ((ret, cmd'), s') = zbc_sg_cmd_exec sg_io sent s in
      if not (is_zero init)
      then (record { ret = init; stored = []; nr = nr }, s)
      else if not (is_zero ret)
      then (record { ret = ret; stored = []; nr = 0 }, s')
      else if ltb cmd'.bufsz 64
      then (record { ret = neg_eio; stored = []; nr = 0 }, s')
      else (
        process_results dev query recs nr cmd'.bufsz cmd'.buf,
        record s' { zerrno = activation_error dev query cmd'.buf s'.zerrno },
      )

  -- A request for all zones has no count.
  unfoldable pub zbc_scsi_zone_query_activate :
      Bool → Request → Bool → ℕ → Sys K → Filled ActvRes × Sys K
  zbc_scsi_zone_query_activate query q recs nr s =
      let q' : Request = record q { zsrc = q.zsrc && not q.all } in
      if q.use_32_byte_cdb
      then zbc_scsi_zone_activate32 query q' recs nr s
      else zbc_scsi_zone_activate16 sg_io memalign dev query q' recs nr s
