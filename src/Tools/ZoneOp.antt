-- ===== src/Tools/ZoneOp.antt =====
-- tools/zone_op/zbc_zone_op.c, the operation on zones that the tools for the reset, the open, the
-- close and the finish of a zone share. `strtoll` and `strtol` give nothing when text is left behind
-- the number.
use Prim.Native.String.{String}
use text.Mathlib.Text.{◌==◌ as str_eq}
use libzbc.Base.{
  ℕ, ◌+◌, ◌^◌, ◌%◌, ◌-◌, bit_or, Bool, true, false, not, ◌&&◌, ◌||◌, Option, none, some, List, [],
  ◌∷◌, leb, ltb, if◌then◌else◌, u64, ℤ, pos, negsuc, is_zero, is_neg, pos_part, get_or, length, has,
  ◌⊎◌,
}
use libzbc.Device.{Device, Zone, DeviceInfo, op_all_zones}
use libzbc.Device.Sectors.{zbc_lba2sect}
use libzbc.Device.Driver.{Drv}
use libzbc.Open.{Backend, Handle, zbc_open, zbc_close}
use libzbc.Tools.Args.{to_u64, is_option}
use libzbc.Zones.{no_zone, zbc_list_zones, zbc_zone_group_op}
use libzbc.Zones.Listing.{listed_zones}

-- A long as an int.
unfoldable pub as_int : ℤ → ℤ
unfolding to_u64
as_int n =
    let bits = to_u64 n % 2 ^ 32 in
    if ltb bits (2 ^ 31) then pos bits else negsuc (2 ^ 32 - 1 - bits)

-- What the command line asks for.
pub record OpAsked : Type 0 where
  pub oflags : ℕ
  pub sector_unit : Bool
  pub lba_unit : Bool
  pub flags : ℕ
  pub path : String
  pub start : ℕ
  pub zone_count : ℕ

-- An option; nothing for one that ends the tool.
unfoldable pub op_option : String → OpAsked → Option OpAsked
op_option opt a =
    if str_eq opt "-v"
    then some a
    else if str_eq opt "-scsi"
    then some (record a { oflags = 0x02000000 })
    else if str_eq opt "-ata"
    then some (record a { oflags = 0x04000000 })
    else if str_eq opt "-sector"
    then some (record a { sector_unit = true })
    else if str_eq opt "-lba"
    then some (record a { lba_unit = true })
    else if str_eq opt "-all"
    then some (record a { flags = bit_or a.flags op_all_zones })
    else none

-- The options of a line, and what stands behind them.
unfoldable pub op_options : OpAsked → List String → Option (OpAsked × List String)
unfolding op_option
op_options a [] = some (a, [])
op_options a (arg ∷ more) =
    let next = elim (op_option arg a) as (λ x. Option (OpAsked × List String)) [
      | none ↦ none
      | some a' ↦ op_options a' more
    ] in
    if is_option arg then next else some (a, arg ∷ more)

module _ (strtoll strtol : String → Option ℤ) where
  -- The zone of the line and the number of zones.
  unfoldable pub op_start : Option ℤ → OpAsked → Option OpAsked
  op_start none a = none
  op_start (some n) a = if is_neg n then none else some (record a { start = pos_part n })

  unfoldable pub op_count : Option ℤ → OpAsked → Option OpAsked
  unfolding as_int
  op_count none a = none
  op_count (some n) a =
      if is_neg (as_int n) then none else some (record a { zone_count = pos_part (as_int n) })

  unfoldable pub op_operands : OpAsked → List String → Option OpAsked
  unfolding op_start op_count
  op_operands a [] = if has a.flags op_all_zones then some a else none
  op_operands a (zone ∷ []) = if has a.flags op_all_zones then none else op_start (strtoll zone) a
  op_operands a (zone ∷ count ∷ []) =
      if has a.flags op_all_zones
      then none
      else elim (op_start (strtoll zone) a) [ none ↦ none | some a' ↦ op_count (strtol count) a' ]
  op_operands a (zone ∷ count ∷ x ∷ rest) = none

  -- The device of the line, and the rest.
  unfoldable pub op_path : OpAsked → List String → Option OpAsked
  unfolding op_operands
  op_path a [] = none
  op_path a (path ∷ args) =
      if a.lba_unit && a.sector_unit then none else op_operands (record a { path = path }) args

  unfoldable pub parse_op : List String → Option OpAsked
  unfolding op_options op_path
  parse_op args =
      let nothing : OpAsked = record {
        oflags = 0;
        sector_unit = false;
        lba_unit = false;
        flags = 0;
        path = "";
        start = 0;
        zone_count = 0;
      } in
      elim (op_options nothing args) [ none ↦ none | some (a, rest) ↦ op_path a rest ]

-- Whether a zone of the list holds the sector.
unfoldable pub held : ℕ → List Zone → Bool
held sector [] = false
held sector (z ∷ zs) =
    (leb z.zbz_start sector && ltb sector (u64 (z.zbz_start + z.zbz_length))) || held sector zs

-- The sector to operate on, if the zone is found. A number with a unit stays the sector that it is.
unfoldable pub target : OpAsked → DeviceInfo → List Zone → Option ℕ
unfolding held
target a info zones =
    let sector = if a.lba_unit then zbc_lba2sect info a.start else a.start in
    if a.lba_unit || a.sector_unit
    then (if held sector zones then some sector else none)
    else if ltb a.start (length zones)
    then some (get_or zones a.start no_zone).zbz_start
    else none

module _ {S : Type 0} (calloc : ℕ → Bool) (junk : ℤ) (junk_zone : Zone) where
  -- The operation at a sector, and the code of the tool.
  unfoldable pub operate_at : OpAsked → ℕ → Drv S → Device → Option ℕ → S → ℤ × S
  operate_at a op drv dev none s = (pos 1, s)
  operate_at a op drv dev (some sector) s =
      let (ret, s') = zbc_zone_group_op drv junk dev junk_zone sector a.zone_count op a.flags s in
      (if is_zero ret then pos 0 else pos 1, s')

  -- From the open device on, up to its close.
  unfoldable pub operate : OpAsked → ℕ → Drv S → Device → S → ℤ × S
  unfolding operate_at target listed_zones
  operate a op drv dev s =
      let ((ret, out), s') = zbc_list_zones drv junk dev calloc 0 0 s in
      let zones = listed_zones out in
      let found = target a dev.zbd_info zones in
      if has a.flags op_all_zones
      then operate_at a op drv dev (some (2 ^ 64 - 1)) s
      else if not (is_zero ret)
      then (pos 1, s')
      else operate_at a op drv dev found s'

  unfoldable pub opened_op : OpAsked → ℕ → Option (Handle String S) → S → Option (ℤ × S)
  unfolding operate
  opened_op a op none s = none
  opened_op a op (some h) s = if not (is_zero h.ret) then some (pos 1, s) else elim h.pdev [
    | none ↦ none
    | some (b, dev) ↦ let (ret, s') = operate a op b.drv dev s in some (ret, (zbc_close b dev s').1)
  ]

  -- zbc_zone_op, with the arguments behind the name of the program. 2 is O_RDWR.
  unfoldable pub zbc_zone_op :
      List (Backend String S)
      → (String → ℕ ⊎ String)
      → (String → Option ℤ)
      → (String → Option ℤ)
      → ℕ
      → List String
      → S
      → Option (ℤ × S)
  unfolding parse_op opened_op
  zbc_zone_op drivers realpath strtoll strtol op args s = elim (parse_op strtoll strtol args) [
    | none ↦ some (pos 1, s)
    | some a ↦
        let (h, s') = zbc_open drivers realpath calloc a.path (bit_or a.oflags 2) s in
        opened_op a op h s'
  ]
