-- ===== src/Scsi/Mode.antt =====
-- zbc_scsi_get_set_mode and zbc_scsi_dev_control of lib/zbc_scsi.c. `junk` is the page's array
-- before it is read.
use libzbc.Base.{
  ℕ, ◌+◌, ◌*◌, bit_and, bit_or, Bool, true, false, not, ◌||◌, List, ◌==◌, ltb, if◌then◌else◌,
}
use libzbc.Base.{u16, u32, set, take, drop, splice, replicate, ℤ, is_zero, neg_eio, neg_enomem}
use libzbc.Bytes.{get_int32, get_int16, set_int32, set_int16}
use libzbc.Device.{Device, DevControl}
use libzbc.Sg.{Cmd, zbc_sg_cmd_init}
use libzbc.Sg.CmdId as CmdId
use libzbc.Sg.Sense.{sb}
use libzbc.Sg.Exec.{Reply, Sys, zbc_sg_cmd_exec}
use libzbc.Scsi.{no_cdb}

-- What a call leaves: the code, the caller's buffer and the page length.
pub record ModePage : Type 0 where
  pub ret : ℤ
  pub page : List ℕ
  pub pg_len : ℕ

-- The size of the data, which a transfer may hold; 12 is ZBC_MODE_PAGE_OFFSET.
unfoldable pub mode_bufsz : Device → ℕ → ℕ
mode_bufsz dev buf_len =
    let bufsz = u32 (buf_len + 12) in
    let max_bufsz = u32 (dev.zbd_info.zbd_max_rw_sectors * 512) in
    if ltb max_bufsz bufsz then max_bufsz else bufsz

unfoldable pub mode_cdb : Bool → ℕ → ℕ → ℕ → List ℕ
mode_cdb select pg subpg bufsz =
    let cdb = set no_cdb 1 0x10 in
    let sense = set (set (set cdb 0 0x5a) 2 (bit_and pg 0x3f)) 3 subpg in
    set_int16 (if select then set cdb 0 0x55 else sense) 7 (u16 bufsz)

-- The data of a MODE SELECT: the page behind 12 bytes, of which those from byte 8 on are set.
unfoldable pub mode_data : ℕ → ℕ → List ℕ → ℕ → ℕ → List ℕ
mode_data pg subpg buf buf_len bufsz =
    let copied = splice (replicate bufsz 0) 12 (take buf_len buf) in
    set_int16 (set (set copied 8 (bit_or (bit_and pg 0x3f) 0x40)) 9 subpg) 10 (u16 buf_len)

-- What `zbc_scsi_dev_control` makes of the page: whether anything changes, and the page.
unfoldable pub update_page : DevControl → List ℕ → Bool × List ℕ
update_page ctl page =
    let zones = not (ctl.zbt_nr_zones == 0xffffffff) in
    let urswrz = not (ctl.zbt_urswrz == 0xff) in
    let activate = not (ctl.zbt_max_activate == 0xffff) in
    let page₁ = if zones then set_int32 page 0 ctl.zbt_nr_zones else page in
    let page₂ = if urswrz then set page₁ 6 ctl.zbt_urswrz else page₁ in
    let page₃ = if activate then set_int16 page₂ 12 ctl.zbt_max_activate else page₂ in
    (zones || urswrz || activate, page₃)

unfoldable pub read_control : List ℕ → DevControl
read_control page = record {
  zbt_nr_zones = get_int32 page 0;
  zbt_max_activate = get_int16 page 12;
  zbt_urswrz = sb page 6;
}

module _ {K : Type 0} (sg_io : Cmd → K → Reply × K) (calloc : ℕ → Bool) (dev : Device) where
  -- The data is in a buffer of the caller's, so that the set-up allocates none.
  unfoldable pub zbc_scsi_get_set_mode : ℕ → ℕ → List ℕ → ℕ → Bool → Sys K → ModePage × Sys K
  zbc_scsi_get_set_mode pg subpg buf buf_len select s =
      let bufsz = mode_bufsz dev buf_len in
      let id = if select then CmdId.mode_select else CmdId.mode_sense in
      let data_out = if select then mode_data pg subpg buf buf_len bufsz else replicate bufsz 0 in
      let (init, cmd) = zbc_sg_cmd_init calloc dev id 1 bufsz in
      let sent : Cmd = record cmd { cdb = mode_cdb select pg subpg bufsz; buf = data_out } in
      let ((ret, cmd'), s') = zbc_sg_cmd_exec sg_io sent s in
      let stated = get_int16 cmd'.buf 0 in
      let len = if ltb buf_len stated then buf_len else stated in
      if not (calloc bufsz)
      then (record { ret = neg_enomem; page = buf; pg_len = 0 }, s)
      else if not (is_zero init)
      then (record { ret = init; page = buf; pg_len = 0 }, s)
      else if not (is_zero ret) || select
      then (record { ret = ret; page = buf; pg_len = 0 }, s')
      else (
        record { ret = ret; page = splice buf 0 (take len (drop 12 cmd'.buf)); pg_len = len },
        s',
      )

  -- The outcome of `zbc_scsi_dev_control` once the page is read.
  unfoldable pub control_page : DevControl → Bool → ModePage → Sys K → (ℤ × DevControl) × Sys K
  control_page ctl select p s =
      let (update, page) = update_page ctl p.page in
      let (q, s') = zbc_scsi_get_set_mode 0x0a 0x0f page p.pg_len true s in
      if not (is_zero p.ret)
      then ((p.ret, ctl), s)
      else if ltb p.pg_len 8
      then ((neg_eio, ctl), s)
      else if not select
      then ((p.ret, read_control p.page), s)
      else if not update
      then ((p.ret, ctl), s)
      else ((q.ret, ctl), s')

  unfoldable pub zbc_scsi_dev_control :
      List ℕ → DevControl → Bool → Sys K → (ℤ × DevControl) × Sys K
  unfolding control_page
  zbc_scsi_dev_control junk ctl select s =
      let (p, s') = zbc_scsi_get_set_mode 0x0a 0x0f junk 256 false s in control_page ctl select p s'
