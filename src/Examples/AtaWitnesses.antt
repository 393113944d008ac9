-- ===== src/Examples/AtaWitnesses.antt =====
-- The theorems on the ATA backend at concrete inputs.
use libzbc.Base.{
  ℕ, ◌+◌, ◌*◌, ◌%◌, ◌^◌, ◌≤◌, ◌≡◌, refl, arith, Bool, true, List, [], ◌∷◌, ◌++◌, pos, get_or,
  if◌then◌else◌, replicate, ◌⊎◌, ◌==◌, none,
}
use libzbc.Device.{Device, zbc_device_is_zdr}
use libzbc.Rw.Runs.{Honest}
use libzbc.Sg.{Cmd}
use libzbc.Sg.Exec.{Reply, replied}
use libzbc.Sg.MaxBlocks.{FileKind, character}
use libzbc.Scsi.BufferSize.{report_bufsz_bounds}
use libzbc.Scsi.ReportZones.{report_bufsz}
use libzbc.Ata.Honest.{ata_transfer-Honest}
use libzbc.Ata.LbaFields.{lba_field, count_field, blocks_of, dma_fields}
use libzbc.Ata.Opened.{Limited, get_dev_info-Limited}
use libzbc.Ata.ReportZones.{ata_report_bufsz}
use libzbc.Ata.Sat.{zbc_ata_test_sbc_sat, zbc_ata_get_dev_info}
use libzbc.Ata.SatNever.{sat_never_chosen}
use libzbc.Ata.Transfer.{zbc_ata_preadv, zbc_ata_pwritev, dma_cdb}
use libzbc.Examples.{drive, drive_info, always, idle}
use libzbc.Ata.Sat.{last_steps}
use libzbc.Sg.Exec.{
  zbc_sg_test_unit_ready, ready_loop, zbc_sg_cmd_exec, finish, check_status, wants_ata_status,
  failed, ata_failed, zbc_sg_cmd_driver_status,
}
use libzbc.Sg.{zbc_sg_cmd_init, zbc_sg_vcmd_init, init_cmd, zbc_sg_cmd_list}
use libzbc.Iov.{zbc_iov_count}
use libzbc.Ata.Classify.{
  zbc_ata_classify, zbc_ata_get_signature, apply_zoned, classify_page, zoned_field,
}
use libzbc.Sg.Sense.{is_descriptor_format}
use libzbc.Ata.Log.{zbc_ata_read_log, read_log_cdb}
use libzbc.Ata.Capacity.{
  page_block_size, page_per_physical, process_page, set_sizes, total_capacity, zbc_ata_get_capacity,
}
use libzbc.Ata.Info.{
  finish_info, first_flags, process_info, set_resources, version_flags,
  zbc_ata_get_zoned_device_info,
}
use libzbc.Ata.{zbc_ata_get_dword, zbc_ata_get_qword, zbc_ata_get_word}
use libzbc.Device.{zbc_dev_is_zdr, zbc_dev_is_zoned, zbc_test_mode}
use libzbc.Sg.MaxBlocks.{limits, max_rw_sectors, zbc_sg_get_max_cmd_blocks}

abbrev granted : ℕ → Bool
granted n = true

ata_transfer-Honest_example :
    Honest (zbc_ata_preadv (always []) granted) drive
    × Honest (zbc_ata_pwritev (always []) granted) drive
ata_transfer-Honest_example = ata_transfer-Honest (always []) (λ cmd k. omega arith) granted drive

-- A drive with unrestricted reads.
abbrev free_drive : Device
free_drive = record drive { zbd_info = record drive_info { zbd_flags = 1 } }

sat_never_chosen_example : (zbc_ata_test_sbc_sat (always []) granted free_drive idle).0 ≡ free_drive
unfolding zbc_device_is_zdr
sat_never_chosen_example =
    sat_never_chosen (always []) (λ cmd k. omega arith) granted free_drive idle refl

dma_fields_example :
    let cdb = dma_cdb 0x0e 0x25 1000 65536 in
    (get_or cdb 2 0 ≡ 0x0e)
    × (get_or cdb 14 0 ≡ 0x25)
    × (lba_field cdb ≡ 1000 % 2 ^ 48)
    × (blocks_of (count_field cdb) ≡ 65536)
dma_fields_example = dma_fields 0x0e 0x25 1000 65536 (omega arith) (omega arith)

report_bufsz_bounds_example :
    let b = ata_report_bufsz drive true 100 in
    let most = 16 * 512 in
    (report_bufsz drive true 100 ≡ b)
    × (512 ≤ b)
    × (b % 512 ≡ 0)
    × ((b ≡ 512) ⊎ (b ≤ most))
    × (((100 + 1) * 64 ≤ b) ⊎ (most ≤ b))
report_bufsz_bounds_example = report_bufsz_bounds drive 100 (refl, refl) (omega arith) (omega arith)

-- The sense data of a diagnosed host-managed drive: the signature 0xabcd and the status 0x50.
abbrev signed : List ℕ
signed = 0x72 ∷ replicate 16 0 ++ 0xcd ∷ 0 ∷ 0xab ∷ 0 ∷ 0x50 ∷ []

-- A log page with 1000 blocks and the two validity bits, and no bit of another page.
abbrev page : List ℕ
page = replicate 8 0 ++ 0xe8 ∷ 3 ∷ 0 ∷ 0 ∷ 0 ∷ 0 ∷ 0 ∷ 0x80 ∷ replicate 7 0 ++ 0x80 ∷ []

abbrev managed_drive : Cmd → ℕ → Reply × ℕ
managed_drive cmd sent =
    if get_or cmd.cdb 14 0 == 0x90
    then (replied 2 0 8 22 0 signed [], sent + 1)
    else (replied 0 0 0 0 0 cmd.sense_buf page, sent + 1)

abbrev some_file : Device → FileKind
some_file d = character none none

-- The drive as the open leaves it.
abbrev opened : Device
opened = record drive {
  zbd_info = record drive_info {
    zbd_type = 3;
    zbd_sectors = 1000;
    zbd_lblocks = 1000;
    zbd_pblocks = 1000;
    zbd_max_rw_sectors = 2048;
    zbd_max_nr_open_seq_req = 4294967295;
  };
}

opened_run :
    (zbc_ata_get_dev_info managed_drive granted 4096 some_file drive idle).0 ≡ (pos 0, opened)
unfolding zbc_ata_get_dev_info zbc_ata_test_sbc_sat zbc_device_is_zdr last_steps
    zbc_sg_test_unit_ready ready_loop zbc_sg_cmd_exec finish check_status wants_ata_status failed
    ata_failed zbc_sg_cmd_driver_status zbc_sg_cmd_init zbc_sg_vcmd_init init_cmd zbc_sg_cmd_list
    zbc_iov_count zbc_ata_classify zbc_ata_get_signature apply_zoned classify_page zoned_field
    is_descriptor_format zbc_ata_read_log read_log_cdb page_block_size page_per_physical
    process_page set_sizes total_capacity zbc_ata_get_capacity finish_info first_flags process_info
    set_resources version_flags zbc_ata_get_zoned_device_info zbc_ata_get_dword zbc_ata_get_qword
    zbc_ata_get_word zbc_dev_is_zdr zbc_dev_is_zoned zbc_test_mode limits max_rw_sectors
    zbc_sg_get_max_cmd_blocks
opened_run = refl

get_dev_info-Limited_example : Limited opened
get_dev_info-Limited_example =
    get_dev_info-Limited managed_drive granted 4096 some_file drive opened idle opened_run
