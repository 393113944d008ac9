-- ===== src/Examples/OpenWitnesses.antt =====
-- The device information of the SCSI backend at a concrete drive.
use libzbc.Base.{
  ℕ, ◌+◌, ◌≡◌, refl, Bool, true, List, [], ◌∷◌, pos, get_or, if◌then◌else◌, ◌==◌, none, some,
}
use libzbc.Device.{Device}
use libzbc.Sg.{Cmd}
use libzbc.Sg.Exec.{Reply, replied}
use libzbc.Sg.MaxBlocks.{FileKind, character}
use libzbc.Scsi.CapacityWire.{capacity_bytes}
use libzbc.Scsi.Characteristics.{zbc_scsi_get_dev_info}
use libzbc.Scsi.Opened.{scsi_dev_info-Limited}
use libzbc.Ata.Opened.{Limited}
use libzbc.Examples.{drive, drive_info, idle}
use libzbc.Sg.Exec.{
  zbc_sg_test_unit_ready, ready_loop, zbc_sg_cmd_exec, finish, check_status, wants_ata_status,
  failed, zbc_sg_cmd_driver_status,
}
use libzbc.Sg.{zbc_sg_cmd_init, zbc_sg_vcmd_init, init_cmd, zbc_sg_cmd_list}
use libzbc.Iov.{zbc_iov_count}
use libzbc.Scsi.Inquiry.{
  zbc_scsi_classify, zbc_scsi_inquiry, zbc_scsi_vpd_inquiry, zbc_scsi_vpd_page_supported,
  inquiry_cdb, vpd_cdb, has_page, listed_page, require_page, apply_zoned_field,
  characteristics_page,
}
use libzbc.Scsi.Characteristics.{
  zbc_scsi_get_zbd_characteristics, apply_page, extended, with_resources, size_steps,
}
use libzbc.Scsi.Capacity.{
  zbc_scsi_get_capacity, read_capacity, process_capacity, set_capacity, per_physical, capacity_cdb,
}
use libzbc.Bytes.{get_int64, get_int32, get_int16, set_int16, set_int32}
use libzbc.Device.{zbc_dev_is_zoned, zbc_test_mode}
use libzbc.Sg.MaxBlocks.{limits, max_rw_sectors, zbc_sg_get_max_cmd_blocks}

abbrev pub granted : ℕ → Bool
granted n = true

-- A host-managed drive: its inquiry data, the list of its pages, and the page 0xb1.
abbrev pub inquiry_data : ℕ → List ℕ
inquiry_data page = if page == 0xb1 then 0 ∷ 0xb1 ∷ 0 ∷ 0x3c ∷ [] else 0x14 ∷ 0 ∷ 0 ∷ 1 ∷ 0xb6 ∷ []

abbrev pub scsi_drive : Cmd → ℕ → Reply × ℕ
scsi_drive cmd sent =
    let payload =
      if get_or cmd.cdb 0 0 == 0x12
      then inquiry_data (get_or cmd.cdb 2 0)
      else capacity_bytes 999 512 3 [] in
    (replied 0 0 0 0 0 cmd.sense_buf payload, sent + 1)

abbrev pub some_file : Device → FileKind
some_file d = character none none

-- The drive as the open leaves it.
abbrev opened : Device
opened = record drive {
  zbd_info = record drive_info {
    zbd_sectors = 1000;
    zbd_lblocks = 1000;
    zbd_pblock_size = 4096;
    zbd_pblocks = 125;
    zbd_max_rw_sectors = 2048;
    zbd_max_nr_open_seq_req = 4294967295;
  };
}

opened_run :
    (zbc_scsi_get_dev_info scsi_drive granted granted 4096 some_file drive idle).0
    ≡ some (pos 0, opened)
unfolding zbc_scsi_get_dev_info zbc_sg_test_unit_ready ready_loop zbc_sg_cmd_exec finish
    check_status wants_ata_status failed zbc_sg_cmd_driver_status zbc_sg_cmd_init zbc_sg_vcmd_init
    init_cmd zbc_sg_cmd_list zbc_iov_count zbc_scsi_classify zbc_scsi_inquiry zbc_scsi_vpd_inquiry
    zbc_scsi_vpd_page_supported inquiry_cdb vpd_cdb has_page listed_page require_page
    apply_zoned_field characteristics_page zbc_scsi_get_zbd_characteristics apply_page extended
    with_resources size_steps zbc_scsi_get_capacity read_capacity process_capacity set_capacity
    per_physical capacity_cdb get_int64 get_int32 get_int16 set_int16 set_int32 zbc_dev_is_zoned
    zbc_test_mode limits max_rw_sectors zbc_sg_get_max_cmd_blocks
opened_run = refl

scsi_dev_info-Limited_example : Limited opened
scsi_dev_info-Limited_example =
    scsi_dev_info-Limited scsi_drive granted granted 4096 some_file drive opened idle opened_run
