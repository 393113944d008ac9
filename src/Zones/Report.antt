-- ===== src/Zones/Report.antt =====
-- zbc_report_zones gathers a long report from partial ones.
use libzbc.Base.{ℕ, zero, suc, ◌^◌, ◌≤◌, ◌<◌, min, ◌≡◌, refl, ◌⊎◌, arith}
use libzbc.Base.{Bool, true, inl, inr, List, some, ℤ, pos}
use libzbc.Base.{length, take}
use libzbc.Base.{ge→ltb, gt→leb, &&-false}
use libzbc.Device.{Device, Zone, zbc_test_mode}
use libzbc.Device.Driver.{Drv}
use libzbc.Zones.{report_zones_loop, zbc_report_zones}
use libzbc.Zones.Spec.{Reports, reported}
use libzbc.Zones.Gather.{Inv, Done, loop-Done, loop-ok}

-- For a driver that reports the zones of the device, whatever partial reports it answers with, a
-- call with an array for 0 < n < 2 ^ 32 zones from a sector inside the capacity succeeds, sets
-- `*nr_zones` to the smaller of n and the number of zones to report, and stores exactly the first n
-- zones to report, in order. The uninitialised return code is never used then.
pub report_zones_complete :
    {S : Type 0} {drv : Drv S} {dev : Device} {ok : S → Type 0} {ro : ℕ} {p : Zone → Bool}
    {zs : List Zone}
    → Reports drv dev ok ro p zs
    → (junk : ℤ) (sector n : ℕ) (array : List Zone) (s : S) → ok s
    → sector < dev.zbd_info.zbd_sectors
    → 0 < n
    → n < 2 ^ 32
    → n ≤ length array
    → let r = (zbc_report_zones drv junk dev sector ro (some array) n s).0 in
      (r.ret ≡ pos 0)
      × (r.nr ≡ min n (length (reported p zs sector)))
      × (take r.nr r.stored ≡ take n (reported p zs sector))
unfolding zbc_report_zones
report_zones_complete {S} {drv} {dev} {ok} {ro} {p} {zs} d junk sector n array s g inside n_pos
      small room =
    let all : List Zone = reported p zs sector in
    let i : Inv d all sector 0 n array = record {
      room = room;
      small = small;
      below = omega arith;
      within = omega arith;
      inside = inside;
      held = refl;
      ahead = refl;
    } in
    let done : Done d all n (report_zones_loop drv dev ro n n sector 0 array junk s).0 =
      loop-Done d all n sector 0 n array junk s g i (omega arith) (inr n_pos) in
    rw (gt→leb dev.zbd_info.zbd_sectors sector inside, &&-false) (rw done.0 (refl, done.1, done.2))

-- Such a call leaves a state in which the promise holds.
pub report_zones-ok :
    {S : Type 0} {drv : Drv S} {dev : Device} {ok : S → Type 0} {ro : ℕ} {p : Zone → Bool}
    {zs : List Zone}
    → Reports drv dev ok ro p zs
    → (junk : ℤ) (sector n : ℕ) (array : List Zone) (s : S) → ok s
    → sector < dev.zbd_info.zbd_sectors
    → ok (zbc_report_zones drv junk dev sector ro (some array) n s).1
unfolding zbc_report_zones
report_zones-ok {S} {drv} {dev} {ok} {ro} {p} {zs} d junk sector n array s g inside =
    rw (gt→leb dev.zbd_info.zbd_sectors sector inside, &&-false)
      (loop-ok d (reported p zs sector) n sector 0 n array junk s g)

-- When the loop is not entered, since the array is for 0 zones of a sector inside the capacity, or
-- since the device is in test mode and the sector is not inside it, the driver is not called and
-- the code returned is the uninitialised variable `ret`.
pub report_zones_uninitialised :
    {S : Type 0} (drv : Drv S) (dev : Device) (ro : ℕ) (junk : ℤ) (sector n : ℕ) (array : List Zone)
    (s : S)
    → ((n ≡ 0) × (sector < dev.zbd_info.zbd_sectors))
      ⊎ ((zbc_test_mode dev ≡ true) × (dev.zbd_info.zbd_sectors ≤ sector))
    → let (r, s') = zbc_report_zones drv junk dev sector ro (some array) n s in
      (r.ret ≡ junk) × (r.stored ≡ array) × (s' ≡ s)
unfolding zbc_report_zones
report_zones_uninitialised drv dev ro junk sector zero array s (inl (e, h)) =
    rw (gt→leb dev.zbd_info.zbd_sectors sector h, &&-false) (refl, refl, refl)
report_zones_uninitialised drv dev ro junk sector (suc n) array s (inl (e, h)) =
    absurd (omega arith)
report_zones_uninitialised drv dev ro junk sector zero array s (inr (t, h)) =
    rw t (refl, refl, refl)
report_zones_uninitialised drv dev ro junk sector (suc n) array s (inr (t, h)) =
    rw (t, ge→ltb sector dev.zbd_info.zbd_sectors h, &&-false) (refl, refl, refl)
