-- ===== src/Examples/Witnesses.antt =====
-- The theorems at concrete inputs.
use libzbc.Base.{
  ℕ, ◌*◌, ◌/◌, ◌%◌, ◌^◌, ◌≤◌, ◌<◌, min, ◌≡◌, refl, ◌⊎◌, inl, arith, true, List, [], ◌∷◌, pos, some,
}
use libzbc.Base.{length, take, drop, replicate, All, is_neg, neg_einval}
use libzbc.Bytes.{
  get_int64, set_int64, get_int48, set_int48, get_int32, set_int32, get_int16, set_int16,
}
use libzbc.Bytes.RoundTrip.{int_fields_round_trip}
use libzbc.Device.{zbc_test_mode, zbc_zone_count_supported}
use libzbc.Device.Sectors.{zbc_dev_sect_laligned, zbc_dev_sect_paligned}
use libzbc.Device.Driver.{Iovec}
use libzbc.Zones.{no_zone, zbc_report_zones, zbc_zone_group_op}
use libzbc.Zones.Spec.{reported, from_sector}
use libzbc.Zones.Report.{report_zones_complete, report_zones_uninitialised}
use libzbc.Zones.GroupOp.{group_op_emulates, run_ops, starts}
use libzbc.Iov.{zbc_iov_count, zbc_iov_convert, zbc_map_iov}
use libzbc.Iov.Bytes.{range, bytes_of}
use libzbc.Iov.Convert.{iov_convert_slice}
use libzbc.Iov.Map.{Fits, map_iov_partition}
use libzbc.Rw.{zbc_do_preadv, zbc_do_pwritev}
use libzbc.Rw.Runs.{Run}
use libzbc.Rw.Transfer.{read_in_order, write_in_order}
use libzbc.Examples.{drive, drive_drv, drive_zones, zone_at, drive-Reports, move_two-Honest}

abbrev cdb : List ℕ
cdb = replicate 16 0

int_fields_round_trip_example :
    (get_int64 (set_int64 cdb 2 305419896) 2 ≡ 305419896 % 2 ^ 64)
    × (get_int48 (set_int48 cdb 2 305419896) 2 ≡ 305419896 % 2 ^ 48)
    × (get_int32 (set_int32 cdb 2 305419896) 2 ≡ 305419896 % 2 ^ 32)
    × (get_int16 (set_int16 cdb 2 305419896) 2 ≡ 305419896 % 2 ^ 16)
int_fields_round_trip_example = int_fields_round_trip cdb 2 305419896 (omega arith)

report_zones_complete_example :
    let r = (zbc_report_zones drive_drv (pos 7) drive 8 0 (some (replicate 4 no_zone)) 4 []).0 in
    (r.ret ≡ pos 0)
    × (r.nr ≡ min 4 (length (reported (λ z. true) drive_zones 8)))
    × (take r.nr r.stored ≡ take 4 (reported (λ z. true) drive_zones 8))
report_zones_complete_example =
    report_zones_complete drive-Reports (pos 7) 8 4 (replicate 4 no_zone) [] tt (omega arith)
      (omega arith) (omega arith) (omega arith)

report_zones_uninitialised_example :
    let (r, s') = zbc_report_zones drive_drv (pos 7) drive 8 0 (some []) 0 [] in
    (r.ret ≡ pos 7) × (r.stored ≡ []) × (s' ≡ [])
report_zones_uninitialised_example =
    report_zones_uninitialised drive_drv drive 0 (pos 7) 8 0 [] [] (inl (refl, omega arith))

group_op_emulates_example :
    zbc_zone_group_op drive_drv (pos 7) drive no_zone 8 2 1 0 []
    ≡ run_ops drive_drv drive 1 0
        (starts (take 2 (zone_at 8 ∷ zone_at 16 ∷ [])))
        (zbc_report_zones drive_drv (pos 7) drive 8 0 (some (no_zone ∷ [])) 1 []).1
unfolding zbc_dev_sect_laligned zbc_test_mode zbc_zone_count_supported from_sector
group_op_emulates_example =
    group_op_emulates drive-Reports (pos 7) no_zone 8 2 1 0 (zone_at 8) (zone_at 16 ∷ []) [] tt refl
      refl refl (omega arith) (omega arith) refl refl (omega arith) (refl, (refl, tt))

abbrev buffers : List Iovec
buffers = record { iov_base = 4096; iov_len = 3 } ∷ record { iov_base = 65536; iov_len = 5 } ∷ []

iov_convert_slice_example :
    let (vs, out) = zbc_iov_convert 4096 buffers 1 4 16 in
    let n = length (bytes_of 1 vs) in
    (bytes_of 1 vs ≡ take n (drop (1 * 512) (bytes_of 512 buffers)))
    × (n ≤ 4 * 512)
    × (length vs ≤ length buffers)
    × (out ≡ n / 512)
iov_convert_slice_example =
    iov_convert_slice 4096 buffers 1 4 16 (omega arith, (omega arith, tt)) (omega arith)
      (omega arith)

map_iov_partition_example :
    let (ret, vs) = zbc_map_iov 4096 7 true 4 2 in
    ((7 ≤ 4 * 2)
      × (ret ≡ pos (length vs))
      × (length vs ≤ 4)
      × All (Fits 2) vs
      × (bytes_of 512 vs ≡ range 4096 (7 * 512)))
    ⊎ ((4 * 2 < 7) × (ret ≡ neg_einval) × (vs ≡ []))
map_iov_partition_example = map_iov_partition 4096 7 4 2 (omega arith) (omega arith) (omega arith)

read_in_order_example :
    let (ret, s') = zbc_do_preadv 4096 drive_drv drive buffers 8 [] in
    Run drive_drv.zbd_preadv drive buffers 8 8 0 [] ret s' × ((ret ≡ pos 8) ⊎ (is_neg ret ≡ true))
unfolding zbc_iov_count zbc_test_mode zbc_dev_sect_laligned
read_in_order_example =
    read_in_order 4096 drive_drv drive buffers 8 [] move_two-Honest (omega arith, (omega arith, tt))
      (omega arith) (omega arith) (omega arith) refl refl refl (omega arith)

write_in_order_example :
    let (ret, s') = zbc_do_pwritev 4096 drive_drv drive buffers 8 [] in
    Run drive_drv.zbd_pwritev drive buffers 8 8 0 [] ret s' × ((ret ≡ pos 8) ⊎ (is_neg ret ≡ true))
unfolding zbc_iov_count zbc_test_mode zbc_dev_sect_paligned
write_in_order_example =
    write_in_order 4096 drive_drv drive buffers 8 [] move_two-Honest
      (omega arith, (omega arith, tt)) (omega arith) (omega arith) (omega arith) refl refl refl
      (omega arith)
