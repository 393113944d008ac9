-- ===== src/Examples/ActivateWitnesses.antt =====
-- The theorems on activation results and on the mode page at concrete inputs.
use libzbc.Base.{ℕ, ◌≡◌, refl, arith, true, false, List, [], ◌∷◌, map, pos}
use libzbc.Base.{◌%◌, ◌^◌, ◌==◌, not, replicate, get_or, if◌then◌else◌}
use libzbc.Bytes.{get_int32, get_int16}
use libzbc.Device.{DevControl}
use libzbc.Scsi.Mode.{update_page, read_control}
use libzbc.Scsi.ModeFields.{update_page_fields}
use libzbc.Scsi.Activate.{process_results}
use libzbc.Scsi.ActivateWire.{
  WireResult, IsWireResult, in_sectors_result, activation_bytes, process_results_reads,
}
use libzbc.Examples.{drive}

abbrev result_at : ℕ → WireResult
result_at block = record { type = 2; condition = 1; domain = 1; zones = 2; start = block }

result_at-IsWireResult : IsWireResult (result_at 16)
result_at-IsWireResult = record {
  type_fits = omega arith;
  condition_fits = omega arith;
  zones_fits = omega arith;
  start_fits = omega arith;
}

process_results_reads_example :
    (process_results drive false true 4 512 (activation_bytes 3 1 (result_at 16 ∷ []) [])
      ≡ record { ret = pos 0; stored = map (in_sectors_result drive) (result_at 16 ∷ []); nr = 1 })
    × (process_results drive false false 4 512 (activation_bytes 3 1 (result_at 16 ∷ []) [])
        ≡ record { ret = pos 0; stored = []; nr = 3 })
process_results_reads_example =
    process_results_reads drive false 4 3 1 512 (result_at 16 ∷ []) [] (result_at-IsWireResult, tt)
      (omega arith) (omega arith) refl

-- A page of zeros, and a request to change the last of its fields.
abbrev page : List ℕ
page = replicate 16 0

abbrev control : DevControl
control = record { zbt_nr_zones = 0xffffffff; zbt_max_activate = 20; zbt_urswrz = 0xff }

update_page_fields_example :
    let c = read_control (update_page control page).1 in
    (c.zbt_nr_zones
      ≡ (if not (0xffffffff == 0xffffffff) then 0xffffffff % 2 ^ 32 else get_int32 page 0))
    × (c.zbt_urswrz ≡ (if not (0xff == 0xff) then 0xff else get_or page 6 0))
    × (c.zbt_max_activate ≡ (if not (20 == 0xffff) then 20 % 2 ^ 16 else get_int16 page 12))
update_page_fields_example = update_page_fields control page (omega arith)
