-- ===== src/Examples/ScsiWitnesses.antt =====
-- The theorems on the SCSI layers at concrete inputs.
use libzbc.Base.{
  ℕ, ◌%◌, ◌^◌, ◌*◌, ◌+◌, ◌≡◌, ◌≢◌, refl, arith, Bool, true, [], ◌∷◌, ◌++◌, pos, if◌then◌else◌,
  neg_eagain,
}
use libzbc.Base.{◌/◌, some, none, u32, u64}
use libzbc.Device.{Device}
use libzbc.Rw.Runs.{Honest}
use libzbc.Scsi.{zbc_scsi_preadv, zbc_scsi_pwritev}
use libzbc.Scsi.Honest.{scsi_transfer-Honest}
use libzbc.Device.{with_info}
use libzbc.Sg.MaxBlocks.{FileKind, character}
use libzbc.Scsi.Capacity.{zbc_scsi_get_capacity}
use libzbc.Scsi.CapacityWire.{capacity_bytes, get_capacity_reads, get_capacity_traps}
use libzbc.Examples.{drive_info}
use libzbc.Sg.Sense.{zbc_sg_set_sense, zbc_clear_errno}
use libzbc.Sg.Descriptors.{
  information, command_specific, other, bytes_of_descs, told_by, set_sense_descriptors,
}
use libzbc.Sg.Exec.{zbc_sg_test_unit_ready}
use libzbc.Sg.Ready.{Polls, test_unit_ready-Polls}
use libzbc.Examples.{drive, always, idle}

-- An allocator that never fails.
abbrev granted : ℕ → Bool
granted n = true

set_sense_descriptors_example :
    zbc_sg_set_sense
      ((if true then 0x73 else 0x72)
          ∷ 5
          ∷ 0x21
          ∷ 4
          ∷ 0
          ∷ 0
          ∷ 0
          ∷ 28
          ∷ bytes_of_descs (information true 24 ∷ other 3 (0 ∷ 0 ∷ []) ∷ command_specific 7 ∷ [])
        ++ [])
      64
    ≡ told_by
        (information true 24 ∷ other 3 (0 ∷ 0 ∷ []) ∷ command_specific 7 ∷ [])
        (record zbc_clear_errno { sk = 5 % 16; asc_ascq = 0x21 * 256 + 4 })
set_sense_descriptors_example =
    set_sense_descriptors true 5 0x21 4 64
      (information true 24 ∷ other 3 (0 ∷ 0 ∷ []) ∷ command_specific 7 ∷ []) []
      (tt, (omega arith, (tt, tt))) (omega arith) (omega arith)

test_unit_ready-Polls_example :
    let (ret, s') = zbc_sg_test_unit_ready (always []) granted drive idle in
    Polls (always []) granted drive 5 idle ret s' × (ret ≢ neg_eagain)
test_unit_ready-Polls_example = test_unit_ready-Polls (always []) granted drive idle

scsi_transfer-Honest_example :
    Honest (zbc_scsi_preadv (always []) granted) drive
    × Honest (zbc_scsi_pwritev (always []) granted) drive
scsi_transfer-Honest_example = scsi_transfer-Honest (always []) (λ cmd k. omega arith) granted drive

-- A character device whose limits are not known.
abbrev some_file : Device → FileKind
some_file d = character none none

get_capacity_reads_example :
    (zbc_scsi_get_capacity
      (always (capacity_bytes 1023 512 3 []))
      granted
      4096
      some_file
      drive
      idle).0
    ≡ some (
      pos 0,
      with_info drive (record drive_info {
        zbd_lblock_size = 512;
        zbd_lblocks = 1023 + 1;
        zbd_pblock_size = u32 (512 * 2 ^ 3);
        zbd_pblocks = (1023 + 1) / 2 ^ 3;
        zbd_sectors = u64 ((1023 + 1) * 512) / 512;
      }),
    )
get_capacity_reads_example =
    get_capacity_reads (always (capacity_bytes 1023 512 3 [])) granted 4096 some_file drive 1023 512
      3 [] idle refl refl (omega arith) (omega arith) (omega arith) (λ cmd e f. refl) (omega arith)

get_capacity_traps_example :
    (zbc_scsi_get_capacity
      (always (capacity_bytes 1023 512 4 []))
      granted
      4096
      some_file
      drive
      idle).0
    ≡ none
get_capacity_traps_example =
    get_capacity_traps (always (capacity_bytes 1023 512 4 [])) granted 4096 some_file drive 1023 512
      4 [] idle refl refl (omega arith) (omega arith) (omega arith) (λ cmd e f. refl) (omega arith)
      (omega arith)
