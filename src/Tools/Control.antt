-- ===== src/Tools/Control.antt =====
-- tools/dev_control/zbc_dev_control.c, the persistent settings of zone activation. The code's
-- `strtol` is the `atol` of the numbers; the settings and the device information that the tool prints are left out.
use Prim.Native.String.{String}
use text.Mathlib.Text.{◌==◌ as str_eq}
use libzbc.Base.{
  ℕ, ◌^◌, ◌%◌, Bool, true, false, not, ◌||◌, Option, none, some, List, [], ◌∷◌, if◌then◌else◌, ℤ,
  pos, is_zero, is_pos, pos_part, ◌⊎◌,
}
use libzbc.Activation.{zbc_zone_activation_ctl}
use libzbc.Device.{Device, DevControl, zbc_device_is_zdr}
use libzbc.Device.Driver.{Drv}
use libzbc.Open.{Backend, Handle, zbc_open, zbc_close}
use libzbc.Tools.Args.{Numbers, options}
use libzbc.Tools.ZoneOp.{as_int}

-- The settings that are asked for.
pub record ControlAsked : Type 0 where
  pub oflags : ℕ
  pub nz : Option ℕ
  pub urswrz : Option Bool
  pub max_activate : Option ℕ
  pub path : String

unfoldable pub control_plain : String → ControlAsked → Option ControlAsked
control_plain opt a =
    if str_eq opt "-v"
    then some a
    else if str_eq opt "-scsi"
    then some (record a { oflags = 0x02000000 })
    else if str_eq opt "-ata"
    then some (record a { oflags = 0x04000000 })
    else none

abbrev pub control_valued : String → Bool
control_valued opt = str_eq opt "-nz" || str_eq opt "-maxr" || str_eq opt "-ur"

unfoldable pub control_operands : ControlAsked → List String → Option ControlAsked
control_operands a (path ∷ []) = some (record a { path = path })
control_operands a [] = none
control_operands a (x ∷ y ∷ rest) = none

-- The record for the device; what is not asked for stands as the value for no change.
unfoldable pub control_of : ControlAsked → DevControl
control_of a = record {
  zbt_nr_zones = elim a.nz [ none ↦ 0xffffffff | some n ↦ n ];
  zbt_max_activate = elim a.max_activate [ none ↦ 0xffff | some n ↦ n % 2 ^ 16 ];
  zbt_urswrz = elim a.urswrz [ none ↦ 0xff | some b ↦ if b then 1 else 0 ];
}

-- Whether a setting is asked for.
unfoldable pub is_update : ControlAsked → Bool
is_update a =
    elim a.nz [ none ↦ false | some n ↦ true ]
    || elim a.urswrz [ none ↦ false | some b ↦ true ]
    || elim a.max_activate [ none ↦ false | some n ↦ true ]

-- The options with a value.
unfoldable pub control_with_value : Numbers → String → String → ControlAsked → Option ControlAsked
unfolding as_int
control_with_value num opt val a =
    let n = as_int (num.atol val) in
    if str_eq opt "-nz"
    then (if is_pos n then some (record a { nz = some (pos_part n) }) else none)
    else if str_eq opt "-maxr"
    then (if str_eq val "unlimited"
        then some (record a { max_activate = some 0xfffe })
        else if is_pos n
        then some (record a { max_activate = some (pos_part n) })
        else none)
    else if str_eq val "y"
    then some (record a { urswrz = some true })
    else if str_eq val "n"
    then some (record a { urswrz = some false })
    else none

unfoldable pub parse_control : Numbers → List String → Option ControlAsked
unfolding control_plain control_operands control_with_value
parse_control num args =
    options control_plain control_valued (control_with_value num) control_operands none
      (record { oflags = 0; nz = none; urswrz = none; max_activate = none; path = "" }) args

module _ {S : Type 0} (junk : DevControl) where
  -- On the open device, up to its close. `junk` is the record before the first call.
  unfoldable pub control_device : ControlAsked → Drv S → Device → S → ℤ × S
  unfolding is_update control_of
  control_device a drv dev s =
      let ((ret, ctl), s₁) = zbc_zone_activation_ctl drv dev junk false s in
      let ((set, ctl'), s₂) = zbc_zone_activation_ctl drv dev (control_of a) true s₁ in
      let ((again, last), s₃) = zbc_zone_activation_ctl drv dev ctl' false s₂ in
      if not (zbc_device_is_zdr dev.zbd_info)
      then (if is_update a then pos 1 else pos 0, s)
      else if not (is_zero ret)
      then (pos 1, s₁)
      else if not (is_update a)
      then (pos 0, s₁)
      else if not (is_zero set)
      then (pos 1, s₂)
      else (if is_zero again then pos 0 else pos 1, s₃)

  unfoldable pub opened_control : ControlAsked → Option (Handle String S) → S → Option (ℤ × S)
  unfolding control_device
  opened_control a none s = none
  opened_control a (some h) s = if not (is_zero h.ret) then some (pos 1, s) else elim h.pdev [
    | none ↦ none
    | some (b, dev) ↦
        let (ret, s') = control_device a b.drv dev s in some (ret, (zbc_close b dev s').1)
  ]

  -- main of the tool, with the arguments behind the name of the program.
  unfoldable pub dev_control :
      List (Backend String S)
      → (String → ℕ ⊎ String)
      → (ℕ → Bool)
      → Numbers
      → List String
      → S
      → Option (ℤ × S)
  unfolding parse_control opened_control
  dev_control drivers realpath calloc num args s = elim (parse_control num args) [
    | none ↦ some (pos 1, s)
    | some a ↦
        let (h, s') = zbc_open drivers realpath calloc a.path a.oflags s in opened_control a h s'
  ]
