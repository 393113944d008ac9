-- ===== src/Open/Table.antt =====
-- The tables zbc_scsi_drv of lib/zbc_scsi.c and zbc_ata_drv of lib/zbc_ata.c, and zbc_drv of
-- lib/zbc.c. The realm reports, which read the caller's array and may trap, are arguments here.
use libzbc.Base.{ℕ, Bool, true, List, [], ◌∷◌, ◌⊎◌, some}
use libzbc.Device.{Device, ZoneRealm}
use libzbc.Device.Driver.{Drv, Filled}
use libzbc.Sg.{Cmd}
use libzbc.Sg.Exec.{Reply, Sys}
use libzbc.Sg.MaxBlocks.{FileKind}
use libzbc.Scsi.{zbc_scsi_zone_op, zbc_scsi_preadv, zbc_scsi_pwritev, zbc_scsi_flush}
use libzbc.Scsi.Activate32.{zbc_scsi_zone_query_activate}
use libzbc.Scsi.Mode.{zbc_scsi_dev_control}
use libzbc.Scsi.ReportDomains.{zbc_scsi_report_domains}
use libzbc.Scsi.ReportZones.{zbc_scsi_report_zones}
use libzbc.Ata.Activate.{zbc_ata_zone_query_activate}
use libzbc.Ata.Log.{zbc_ata_dev_control}
use libzbc.Ata.ReportDomains.{zbc_ata_report_domains}
use libzbc.Ata.ReportZones.{zbc_ata_report_zones}
use libzbc.Ata.Transfer.{zbc_ata_preadv, zbc_ata_pwritev, zbc_ata_flush}
use libzbc.Ata.ZoneOp.{zbc_ata_zone_op}
use libzbc.Open.{Backend}
use libzbc.Open.File.{zbc_scsi_open, zbc_scsi_close, zbc_ata_open, zbc_ata_close}

-- A realm report.
abbrev pub Realms : Type 0 → Type 0
Realms S = Device → ℕ → ℕ → Bool → ℕ → S → Filled ZoneRealm × S

module _ {K : Type 0} (sg_io : Cmd → K → Reply × K) (memalign : ℕ → Bool) (junk : List ℕ)
    (realms : Realms (Sys K)) where
  unfoldable pub zbc_scsi_drv : Drv (Sys K)
  zbc_scsi_drv = record {
    zbd_report_zones = zbc_scsi_report_zones sg_io memalign;
    zbd_zone_op = zbc_scsi_zone_op sg_io memalign;
    zbd_report_domains =
        some (λ dev sector ro nr s. zbc_scsi_report_domains sg_io memalign dev sector ro true nr s);
    zbd_report_realms = realms;
    zbd_zone_query_actv = some (λ dev zsrc all cdb32 query sector nr_zones domain_id recs nr s.
        zbc_scsi_zone_query_activate sg_io memalign dev query
          (record {
            zsrc = zsrc;
            all = all;
            use_32_byte_cdb = cdb32;
            sector = sector;
            nr_zones = nr_zones;
            domain_id = domain_id;
          })
          recs nr s);
    zbd_dev_control =
        some (λ dev ctl set s. zbc_scsi_dev_control sg_io memalign dev junk ctl set s);
    zbd_preadv = zbc_scsi_preadv sg_io memalign;
    zbd_pwritev = zbc_scsi_pwritev sg_io memalign;
    zbd_flush = zbc_scsi_flush sg_io memalign;
  }

  unfoldable pub zbc_ata_drv : Drv (Sys K)
  zbc_ata_drv = record {
    zbd_report_zones = zbc_ata_report_zones sg_io memalign;
    zbd_zone_op = zbc_ata_zone_op sg_io memalign;
    zbd_report_domains =
        some (λ dev sector ro nr s. zbc_ata_report_domains sg_io memalign dev sector ro true nr s);
    zbd_report_realms = realms;
    zbd_zone_query_actv = some (λ dev zsrc all cdb32 query sector nr_zones domain_id recs nr s.
        zbc_ata_zone_query_activate sg_io memalign dev query
          (record {
            zsrc = zsrc;
            all = all;
            use_32_byte_cdb = cdb32;
            sector = sector;
            nr_zones = nr_zones;
            domain_id = domain_id;
          })
          recs nr s);
    zbd_dev_control = some (zbc_ata_dev_control sg_io memalign);
    zbd_preadv = zbc_ata_preadv sg_io memalign;
    zbd_pwritev = zbc_ata_pwritev sg_io memalign;
    zbd_flush = zbc_ata_flush sg_io memalign;
  }

-- The table zbc_drv of the two backends, over the calls of the system that Open/File takes.
module _ {P K : Type 0} (open_fd : P → ℕ → K → (ℕ ⊎ ℕ) × K) (fstat : ℕ → K → ℕ ⊎ ℕ)
    (is_device : ℕ → Bool) (close : ℕ → K → ℕ × K) (memory strdup : Bool)
    (sg_io : Cmd → K → Reply × K) (memalign calloc : ℕ → Bool) (page_size : ℕ)
    (file : Device → FileKind) (junk : List ℕ) (scsi_realms ata_realms : Realms (Sys K)) where
  unfoldable pub scsi_backend : Backend P (Sys K)
  unfolding zbc_scsi_drv
  scsi_backend = record {
    flag = 0x02000000;
    zbd_open =
        zbc_scsi_open open_fd fstat is_device close memory strdup sg_io memalign calloc page_size
          file;
    zbd_close = zbc_scsi_close open_fd fstat is_device close memory strdup;
    drv = zbc_scsi_drv sg_io memalign junk scsi_realms;
  }

  unfoldable pub ata_backend : Backend P (Sys K)
  unfolding zbc_ata_drv
  ata_backend = record {
    flag = 0x04000000;
    zbd_open =
        zbc_ata_open open_fd fstat is_device close memory strdup sg_io memalign calloc page_size
          file;
    zbd_close = zbc_ata_close open_fd fstat is_device close memory strdup;
    drv = zbc_ata_drv sg_io memalign junk ata_realms;
  }

  unfoldable pub zbc_drv : List (Backend P (Sys K))
  unfolding scsi_backend ata_backend
  zbc_drv = scsi_backend ∷ ata_backend ∷ []
