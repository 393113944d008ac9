-- ===== src/Ata/Log.antt =====
-- zbc_ata_read_log, zbc_ata_set_features, zbc_ata_dev_control and
-- zbc_ata_enable_sense_data_reporting of lib/zbc_ata.c.
use libzbc.Base.{
  ℕ, ◌/◌, ◌%◌, ◌^◌, bit_and, Bool, not, ◌||◌, List, ◌==◌, if◌then◌else◌, has, set, ℤ, pos, is_zero,
  is_neg, neg_enotsup,
}
use libzbc.Device.{Device, DevControl}
use libzbc.Device.DevFlag as DevFlag
use libzbc.Sg.{Cmd, none_dir, from_dev}
use libzbc.Sg.Exec.{Reply, Sys}
use libzbc.Ata.{
  ata_run, pass_through, put_count, dma_ext, no_data, zbc_ata_put_feat_lba, zbc_ata_get_qword,
}

-- The address of a buffer on the stack, which is not NULL.
abbrev pub stack_buf : ℕ
stack_buf = 1

unfoldable pub read_log_cdb : ℕ → ℕ → ℕ → List ℕ
read_log_cdb log page bufsz =
    let cdb = put_count (pass_through dma_ext 0x0e 0x47) (bufsz / 512) in
    set (set (set cdb 8 log) 9 (page / 256 % 256)) 10 (page % 256)

unfoldable pub set_features_cdb : ℕ → ℕ → ℕ → List ℕ
set_features_cdb feature lba count =
    zbc_ata_put_feat_lba (set (set (pass_through no_data 0 0xef) 4 feature) 6 (count % 256)) lba

module _ {K : Type 0} (sg_io : Cmd → K → Reply × K) (memalign : ℕ → Bool) where
  -- The code with what the buffer of 512 bytes holds.
  unfoldable pub zbc_ata_read_log : Device → ℕ → ℕ → Sys K → (ℤ × List ℕ) × Sys K
  zbc_ata_read_log dev log page s =
      let ((ret, cmd), s') =
        ata_run sg_io memalign dev stack_buf 512 from_dev (read_log_cdb log page 512) s in
      ((ret, cmd.buf), s')

  unfoldable pub zbc_ata_set_features : Device → ℕ → ℕ → ℕ → Sys K → ℤ × Sys K
  zbc_ata_set_features dev feature lba count s =
      let ((ret, cmd), s') =
        ata_run sg_io memalign dev 0 0 none_dir (set_features_cdb feature lba count) s in
      (ret, s')

  -- What `zbc_ata_dev_control` reports from the log.
  unfoldable pub get_control : Device → Sys K → (ℤ × DevControl) × Sys K
  get_control dev s =
      let none_set : DevControl = record {
        zbt_nr_zones = 0;
        zbt_max_activate = 0;
        zbt_urswrz = 0;
      } in
      let ((ret, buf), s') = zbc_ata_read_log dev 0x30 0x09 s in
      if is_neg ret then ((ret, none_set), s') else (
        (
          ret,
          record {
            zbt_nr_zones = bit_and (zbc_ata_get_qword buf 64) 0xffffff;
            zbt_max_activate = bit_and (zbc_ata_get_qword buf 56 / 2 ^ 32) 0xffff;
            zbt_urswrz = bit_and (zbc_ata_get_qword buf 8) 0x01;
          },
        ),
        s',
      )

  -- A setting: nothing when the field has the value for no change, -ENOTSUP when the device flag is
  -- not there, and the features otherwise. `next` is what follows a success.
  abbrev pub set_one : Device → Bool → ℕ → ℕ → ℕ → ℕ → (Sys K → ℤ × Sys K) → Sys K → ℤ × Sys K
  set_one dev unchanged flag feature lba count next s =
      let (ret, s') = zbc_ata_set_features dev feature lba count s in
      if unchanged
      then next s
      else if not (has dev.zbd_info.zbd_flags flag)
      then (neg_enotsup, s)
      else if not (is_zero ret)
      then (ret, s')
      else next s'

  -- The three settings, in their order.
  unfoldable pub set_control : Device → DevControl → Sys K → ℤ × Sys K
  set_control dev ctl =
      set_one dev (ctl.zbt_nr_zones == 0xffffffff) DevFlag.za_control_support 0x46 ctl.zbt_nr_zones
        0
        (set_one dev (ctl.zbt_urswrz == 0xff) DevFlag.urswrz_set_support 0x47 0 ctl.zbt_urswrz (
          set_one dev (ctl.zbt_max_activate == 0xffff) DevFlag.maxact_set_support 0x48
            ctl.zbt_max_activate 0 (λ s. (pos 0, s))))

  unfoldable pub zbc_ata_dev_control : Device → DevControl → Bool → Sys K → (ℤ × DevControl) × Sys K
  zbc_ata_dev_control dev ctl set' s =
      let (ret, s') = set_control dev ctl s in if set' then ((ret, ctl), s') else get_control dev s

  -- After the open; a failure is only reported.
  unfoldable pub zbc_ata_enable_sense_data_reporting : Device → Sys K → Sys K
  zbc_ata_enable_sense_data_reporting dev s =
      let ((ret, buf), s') = zbc_ata_read_log dev 0x30 0x04 s in
      let (ret', s'') = zbc_ata_set_features dev 0xc3 0 0x01 s' in
      if not (is_zero ret) || has (zbc_ata_get_qword buf 8) (2 ^ 10) then s' else s''
