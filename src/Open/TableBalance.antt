-- ===== src/Open/TableBalance.antt =====
-- The descriptors that zbc_open, zbc_close and zbc_device_is_zoned leave open with the backends of
-- the library.
use libzbc.Base.{ℕ, ◌≡◌, arith, Bool, true, List, ◌⊎◌}
use libzbc.Device.{Device}
use libzbc.Sg.Exec.{Sys}
use libzbc.Sg.MaxBlocks.{FileKind}
use libzbc.Ata.ReportDomains.{zbc_ata_report_domains}
use libzbc.Open.{Backend, zbc_open, zbc_device_is_zoned}
use libzbc.Open.File.{zbc_scsi_close, zbc_ata_close}
use libzbc.Open.Kept.{exec-Kept, sense-Kept, domains-Kept}
use libzbc.Open.Descriptors.{Files, scsi_open-Balanced, ata_open-Balanced}
use libzbc.Open.Balance.{Tidy, AllTidy, HoldsOption, PathLeaves, open-Holds, is_zoned-Leaves}
use libzbc.Open.Table.{Realms, scsi_backend, ata_backend, zbc_drv}

module _ {P K : Type 0} (f : Files P K) (is_device : ℕ → Bool) (memory strdup : Bool)
    (memalign calloc : ℕ → Bool) (page_size : ℕ) (file : Device → FileKind) (junk : List ℕ)
    (scsi_realms ata_realms : Realms (Sys K)) where
  -- The open descriptors of a state.
  abbrev pub fds_of : Sys K → List ℕ
  fds_of s = f.fds s.kernel

  ata_domains-Asks :
      (dev : Device) (sector ro n : ℕ) (s : Sys K)
      → fds_of (zbc_ata_report_domains f.sg_io memalign dev sector ro true n s).1 ≡ fds_of s
  unfolding zbc_ata_report_domains
  ata_domains-Asks dev sector ro n s =
      grind
        (arith, exec-Kept f.sg_io memalign f.fds f.quiet, sense-Kept f.sg_io memalign f.fds f.quiet)

  abbrev scsi : Backend P (Sys K)
  scsi =
      scsi_backend f.open_fd f.fstat is_device f.close memory strdup f.sg_io memalign calloc
        page_size file junk scsi_realms ata_realms

  abbrev ata : Backend P (Sys K)
  ata =
      ata_backend f.open_fd f.fstat is_device f.close memory strdup f.sg_io memalign calloc
        page_size file junk scsi_realms ata_realms

  -- The table of the library.
  abbrev pub drivers : List (Backend P (Sys K))
  drivers =
      zbc_drv f.open_fd f.fstat is_device f.close memory strdup f.sg_io memalign calloc page_size
        file junk scsi_realms ata_realms

  scsi-Tidy : Tidy fds_of scsi
  unfolding scsi_backend zbc_scsi_close
  scsi-Tidy = record {
    asks = λ dev sector ro n s. domains-Kept f.sg_io memalign f.fds f.quiet dev sector ro true n s;
    opens = scsi_open-Balanced f is_device memory strdup memalign calloc page_size file;
    closes = λ dev rest s e. f.closes dev.zbd_fd rest s.kernel e;
  }

  ata-Tidy : Tidy fds_of ata
  unfolding ata_backend zbc_ata_close
  ata-Tidy = record {
    asks = ata_domains-Asks;
    opens = ata_open-Balanced f is_device memory strdup memalign calloc page_size file;
    closes = λ dev rest s e. f.closes dev.zbd_fd rest s.kernel e;
  }

  drivers-Tidy : AllTidy fds_of drivers
  unfolding zbc_drv
  drivers-Tidy = (scsi-Tidy, (ata-Tidy, tt))

  -- With a system in which open adds the descriptor it gives, close removes it and commands change
  -- none, whatever the drive answers: where zbc_open over the two backends stores no device, the
  -- open descriptors are those before the call, and where it stores one, that of the device is the
  -- only one more, also when the code is an error, and zbc_close then leaves those before the call.
  pub zbc_open-Balanced :
      (realpath : P → ℕ ⊎ P) (filename : P) (flags : ℕ) (s : Sys K)
      → let h = zbc_open drivers realpath calloc filename flags s in
        HoldsOption fds_of h.0 (fds_of s) h.1
  zbc_open-Balanced realpath filename flags s =
      open-Holds fds_of calloc drivers realpath filename flags s drivers-Tidy

  -- With such a system, zbc_device_is_zoned over the two backends leaves the open descriptors as they
  -- were where the path is not resolved, where both backends refuse the file and where one stops the
  -- search with an error. Where one accepts the device, it does so as well if the domain information
  -- can be read, and leaves exactly the descriptor of the device open too if it cannot. An
  -- open in which the computation of the capacity divides by zero is left out.
  pub is_zoned-Balanced :
      (realpath : P → ℕ ⊎ P) (filename : P) (s : Sys K)
      → PathLeaves fds_of calloc drivers
          (realpath filename)
          s
          (zbc_device_is_zoned drivers realpath calloc filename s)
  is_zoned-Balanced realpath filename s =
      is_zoned-Leaves fds_of calloc drivers realpath filename s drivers-Tidy
