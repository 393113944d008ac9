-- ===== src/Tools/OpRuns.antt =====
-- The tools that operate on zones, from the number of a zone on the command line to the commands that
-- the drive gets.
use libzbc.Base.{
  ℕ, zero, suc, ◌+◌, ◌^◌, ◌≤◌, ◌<◌, ◌≡◌, refl, sym, ap, ◌∙◌, arith, Bool, true, false, ◌||◌, List,
  [], ◌∷◌, All, some, if◌then◌else◌, ℤ, pos, is_zero, get_or, length, take, drop, has, lt→ltb,
  ge→ltb,
}
use mathlib.Core.Path.{subst}
use libzbc.Device.{Device, Zone, op_all_zones, zbc_test_mode, zbc_zone_count_supported}
use libzbc.Device.Sectors.{zbc_dev_sect_laligned}
use libzbc.Device.Driver.{Drv}
use libzbc.Tools.ZoneOp.{OpAsked, target, operate}
use libzbc.Zones.{no_zone, zbc_report_zones, zbc_list_zones}
use libzbc.Zones.GroupOp.{run_ops, starts, group_op_emulates, matching_all}
use libzbc.Zones.Listing.{Counts, listed_zones, list_zones_complete, list_zones-ok}
use libzbc.Zones.Suffix.{Covers-le}
use libzbc.Zones.Spec.{Covers, Reports, from_sector, reported}

-- The zones from a number on begin with the zone of that number.
drop-get_or :
    (n : ℕ) (zs : List Zone) → n < length zs → drop n zs ≡ get_or zs n no_zone ∷ drop (suc n) zs
drop-get_or n [] h = absurd (omega arith)
drop-get_or zero (z ∷ zs) h = refl
drop-get_or (suc n) (z ∷ zs) h = drop-get_or n zs (omega arith)

-- A zone starts inside what the zones cover.
start-inside :
    (a b n : ℕ) (zs : List Zone)
    → Covers a b zs
    → n < length zs
    → (a ≤ (get_or zs n no_zone).zbz_start) × ((get_or zs n no_zone).zbz_start < b)
start-inside a b n [] c h = absurd (omega arith)
start-inside a b zero (z ∷ zs) c h = omega (arith, c, Covers-le (a + z.zbz_length) b zs c.2)
start-inside a b (suc n) (z ∷ zs) c h =
    omega (arith, c, start-inside (a + z.zbz_length) b n zs c.2 (omega arith))

-- The zones from the start of a zone on.
from_start :
    (a b n : ℕ) (zs : List Zone)
    → Covers a b zs
    → n < length zs
    → from_sector (get_or zs n no_zone).zbz_start zs ≡ drop n zs
unfolding from_sector
from_start a b n [] c h = absurd (omega arith)
from_start a b zero (z ∷ zs) c h =
    rw (lt→ltb z.zbz_start (z.zbz_start + z.zbz_length) (omega (arith, c))) refl
from_start a b (suc n) (z ∷ zs) c h =
    let before = start-inside (a + z.zbz_length) b n zs c.2 (omega arith) in
    let start = (get_or zs n no_zone).zbz_start in
    rw (ge→ltb start (z.zbz_start + z.zbz_length) (omega (arith, c.0, before.0)))
      (from_start (a + z.zbz_length) b n zs c.2 (omega arith))

-- From sector 0 on, all zones are listed.
all_reported : (b : ℕ) (zs : List Zone) → Covers 0 b zs → reported (λ z. true) zs 0 ≡ zs
unfolding reported from_sector
all_reported b [] c = matching_all []
all_reported b (z ∷ zs) c =
    rw (lt→ltb 0 (z.zbz_start + z.zbz_length) (omega (arith, c))) (matching_all (z ∷ zs))

-- The list is that of the zones.
lists :
    {S : Type 0} {drv : Drv S} {dev : Device} {ok : S → Type 0} {zs : List Zone}
    → Reports drv dev ok 0 (λ z. true) zs
    → Counts drv dev ok 0 (λ z. true) zs
    → (calloc : ℕ → Bool) (junk : ℤ) (s : S) → ok s
    → 0 < length zs
    → length zs < 2 ^ 32
    → calloc (length zs) ≡ true
    → let ((ret, out), s') = zbc_list_zones drv junk dev calloc 0 0 s in
      (ret ≡ pos 0) × (listed_zones out ≡ zs) × ok s'
lists {S} {drv} {dev} {ok} {zs} d counts calloc junk s g some_zone small room =
    let e : zs ≡ reported (λ z. true) zs 0 =
      sym (all_reported dev.zbd_info.zbd_sectors zs d.covers) in
    let inside : 0 < dev.zbd_info.zbd_sectors =
      omega (arith, start-inside 0 dev.zbd_info.zbd_sectors 0 zs d.covers some_zone) in
    let some' = subst (λ l. 0 < length l) e some_zone in
    let room' = subst (λ l. calloc (length l) ≡ true) e room in
    let small' = subst (λ l. length l < 2 ^ 32) e small in
    let (done, all) = list_zones_complete 0 d counts calloc junk 0 s g inside some' room' small' in
    (done, all ∙ sym e, list_zones-ok 0 d counts calloc junk 0 s g inside some' room' small')

by_number :
    (a : OpAsked) (dev : Device) (zs : List Zone)
    → a.lba_unit ≡ false
    → a.sector_unit ≡ false
    → a.start < length zs
    → target a dev.zbd_info zs ≡ some (get_or zs a.start no_zone).zbz_start
unfolding target
by_number a dev zs lba sec inside = rw (lba, sec, lt→ltb a.start (length zs) inside) refl

-- The code of a tool.
abbrev pub status : {S : Type 0} → ℤ × S → ℤ × S
status r = (if is_zero r.0 then pos 0 else pos 1, r.1)

-- A drive without zone counts that reports and counts its zones in the states that `ok` names. From
-- such a state, and while the allocation of the list succeeds, the tool for the zone of a number and
-- a count of 2 or more, without -all, -lba and -sector: if there are as many zones from that one on,
-- all of one length, and the first starts at a logical block unless the device is in test mode, the drive gets, behind the
-- commands of the list and of one report, the operation once for each of these zones, in order, at
-- their start sectors; the commands stop at the first that fails. The code is 0 when all succeed,
-- and 1 otherwise. The operations may change the zones and leave those states.
pub operate-Runs :
    {S : Type 0} {drv : Drv S} {dev : Device} {ok : S → Type 0} {zs : List Zone}
    (d : Reports drv dev ok 0 (λ z. true) zs) (counts : Counts drv dev ok 0 (λ z. true) zs)
    (calloc : ℕ → Bool) (junk : ℤ) (junk_zone : Zone) (a : OpAsked) (op : ℕ) (s : S)
    → ok s
    → a.lba_unit ≡ false
    → a.sector_unit ≡ false
    → has a.flags op_all_zones ≡ false
    → zbc_zone_count_supported dev.zbd_info ≡ false
    → a.start < length zs
    → length zs < 2 ^ 32
    → calloc (length zs) ≡ true
    → let z = get_or zs a.start no_zone in
      let s₁ = (zbc_list_zones drv junk dev calloc 0 0 s).1 in
      let s₂ = (zbc_report_zones drv junk dev z.zbz_start 0 (some (junk_zone ∷ [])) 1 s₁).1 in
      (zbc_test_mode dev || zbc_dev_sect_laligned dev z.zbz_start) ≡ true
      → 2 ≤ a.zone_count
      → a.zone_count ≤ length (drop a.start zs)
      → All (λ y. y.zbz_length ≡ z.zbz_length) (take a.zone_count (drop a.start zs))
      → operate calloc junk junk_zone a op drv dev s
        ≡ status (run_ops drv dev op a.flags (starts (take a.zone_count (drop a.start zs))) s₂)
unfolding operate
operate-Runs {S} {drv} {dev} {ok} {zs} d counts calloc junk junk_zone a op s g lba sec one unsup
      inside small room al two enough same =
    let z = get_or zs a.start no_zone in
    let s₁ = (zbc_list_zones drv junk dev calloc 0 0 s).1 in
    let s₂ = (zbc_report_zones drv junk dev z.zbz_start 0 (some (junk_zone ∷ [])) 1 s₁).1 in
    let held = (start-inside 0 dev.zbd_info.zbd_sectors a.start zs d.covers inside).1 in
    let from = from_start 0 dev.zbd_info.zbd_sectors a.start zs d.covers inside in
    let first = drop-get_or a.start zs inside in
    let list = lists d counts calloc junk s g (omega arith) small room in
    let group =
      group_op_emulates d junk junk_zone z.zbz_start a.zone_count op a.flags z
        (drop (suc a.start) zs) s₁ list.2 al one unsup two held (from ∙ first) refl
        (subst (λ l. a.zone_count ≤ length l) first enough)
        (subst (λ l. All (λ y. y.zbz_length ≡ z.zbz_length) (take a.zone_count l)) first same) in
    rw (one, list.0, list.1, by_number a dev zs lba sec inside)
      (ap status (
        group ∙ ap (λ l. run_ops drv dev op a.flags (starts (take a.zone_count l)) s₂) (sym first)))
