-- ===== src/Open/File.antt =====
-- The opening and closing of a device file: zbc_scsi_open and zbc_scsi_close of lib/zbc_scsi.c,
-- zbc_ata_open and zbc_ata_close of lib/zbc_ata.c. The calls of the operating system are arguments
-- over the kernel's state `K`; they give an errno value or the result. The two files have the same
-- text but for what gets the information of the device.
use libzbc.Base.{
  ℕ, bit_and, bit_or, Bool, not, ◌||◌, Option, none, some, if◌then◌else◌, has, ◌⊎◌, inl, inr, ℤ,
  pos, is_zero, neg_enxio, neg_enomem,
}
use libzbc.Device.{Device, o_devtest}
use libzbc.Sg.{Cmd, o_direct}
use libzbc.Sg.Exec.{Reply, Sys, neg}
use libzbc.Sg.MaxBlocks.{FileKind}
use libzbc.Scsi.Characteristics.{zbc_scsi_get_dev_info}
use libzbc.Ata.Log.{zbc_ata_enable_sense_data_reporting}
use libzbc.Ata.Sat.{zbc_ata_get_dev_info}
use libzbc.Open.{Opening, opened, refused, trapped}

-- A device that calloc cleared, with the descriptor and the flags of the open.
unfoldable pub fresh_device : ℕ → ℕ → Device
fresh_device fd flags = record {
  zbd_info = record {
    zbd_type = 0;
    zbd_model = 0;
    zbd_flags = 0;
    zbd_sectors = 0;
    zbd_lblock_size = 0;
    zbd_lblocks = 0;
    zbd_pblock_size = 0;
    zbd_pblocks = 0;
    zbd_max_rw_sectors = 0;
    zbd_opt_nr_open_seq_pref = 0;
    zbd_opt_nr_non_seq_write_seq_pref = 0;
    zbd_max_nr_open_seq_req = 0;
    zbd_max_activation = 0;
    zbd_snoz = 0;
  };
  zbd_fd = fd;
  zbd_o_flags = bit_or (bit_and flags o_devtest) (if has flags o_direct then o_direct else 0);
  zbd_drv_flags = 0;
  zbd_report_bufsz_mask = 0;
  zbd_report_bufsz_min = 0;
}

-- `fstat` gives the mode, of which `is_device` says whether it is that of a character or block
-- device; `close` gives 0 or an errno value; `memory` and `strdup` say whether the two allocations
-- succeed.
module _ {P K : Type 0} (open_fd : P → ℕ → K → (ℕ ⊎ ℕ) × K) (fstat : ℕ → K → ℕ ⊎ ℕ)
    (is_device : ℕ → Bool) (close : ℕ → K → ℕ × K) (memory strdup : Bool) where
  -- The end of an open that failed behind the opening of the file.
  unfoldable pub give_up : ℕ → ℤ → Sys K → Opening × Sys K
  give_up fd ret s = (refused ret, record s { kernel = (close fd s.kernel).1 })

  -- The end of an open, by what came of the information of the device.
  unfoldable pub take_info : ℕ → Option (ℤ × Device) × Sys K → Opening × Sys K
  unfolding give_up
  take_info fd (none, s) = (trapped, s)
  take_info fd (some (ret, dev), s) = if is_zero ret then (opened dev, s) else give_up fd ret s

  module _ (get_info : Device → Sys K → Option (ℤ × Device) × Sys K) (flags : ℕ) where
    unfoldable pub check_file : ℕ → ℕ ⊎ ℕ → Sys K → Opening × Sys K
    unfolding give_up take_info fresh_device
    check_file fd (inl errno) s = give_up fd (neg errno) s
    check_file fd (inr mode) s =
        if not (is_device mode)
        then give_up fd neg_enxio s
        else if not memory || not strdup
        then give_up fd neg_enomem s
        else take_info fd (get_info (fresh_device fd flags) s)

    unfoldable pub with_file : (ℕ ⊎ ℕ) × K → Sys K → Opening × Sys K
    unfolding check_file
    with_file (inl errno, k) s = (refused (neg errno), record s { kernel = k })
    with_file (inr fd, k) s = check_file fd (fstat fd k) (record s { kernel = k })

  unfoldable pub close_device : Device → Sys K → ℤ × Sys K
  close_device dev s =
      let (errno, k) = close dev.zbd_fd s.kernel in (neg errno, record s { kernel = k })

  module _ (sg_io : Cmd → K → Reply × K) (memalign calloc : ℕ → Bool) (page_size : ℕ)
      (file : Device → FileKind) where
    -- 3 is ZBC_O_MODE_MASK.
    unfoldable pub zbc_scsi_open : P → ℕ → Sys K → Opening × Sys K
    unfolding with_file
    zbc_scsi_open filename flags s =
        with_file (zbc_scsi_get_dev_info sg_io memalign calloc page_size file) flags
          (open_fd filename (bit_and flags 3) s.kernel) s

    -- The information of an ATA device, whose failure is -ENXIO, and the reporting of sense data.
    unfoldable pub ata_info : Device → Sys K → Option (ℤ × Device) × Sys K
    ata_info dev s =
        let ((ret, dev'), s') = zbc_ata_get_dev_info sg_io memalign page_size file dev s in
        let s'' = zbc_ata_enable_sense_data_reporting sg_io memalign dev' s' in
        if is_zero ret then (some (pos 0, dev'), s'') else (some (neg_enxio, dev'), s')

    unfoldable pub zbc_ata_open : P → ℕ → Sys K → Opening × Sys K
    unfolding with_file ata_info
    zbc_ata_open filename flags s =
        with_file ata_info flags (open_fd filename (bit_and flags 3) s.kernel) s

  unfoldable pub zbc_scsi_close : Device → Sys K → ℤ × Sys K
  unfolding close_device
  zbc_scsi_close = close_device

  unfoldable pub zbc_ata_close : Device → Sys K → ℤ × Sys K
  unfolding close_device
  zbc_ata_close = close_device
