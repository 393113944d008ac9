-- ===== src/Tools/WriteLine.antt =====
-- tools/write_zone/zbc_write_zone.c: the command line.
use Prim.Native.String.{String}
use text.Mathlib.Text.{◌==◌ as str_eq}
use libzbc.Base.{
  ℕ, bit_or, Bool, true, false, ◌||◌, Option, none, some, List, [], ◌∷◌, ◌==◌, if◌then◌else◌,
  is_neg, is_pos, pos_part,
}
use libzbc.Sg.{o_direct}
use libzbc.Tools.Args.{Numbers, to_u64, is_pattern, options}

-- What the command line asks for.
pub record WriteAsked : Type 0 where
  pub flags : ℕ
  pub oflags : ℕ
  pub vio : Bool
  pub iovcnt : ℕ
  pub ionum : ℕ
  pub ofst : ℕ
  pub flush : Bool
  pub floop : Bool
  pub file : Option String
  pub nz : ℕ
  pub path : String
  pub zidx : ℕ
  pub bufsize : ℕ

-- The options without a value; the last of -scsi and -ata counts.
unfoldable pub write_plain : String → WriteAsked → Option WriteAsked
write_plain opt a =
    if str_eq opt "-v"
    then some a
    else if str_eq opt "-scsi"
    then some (record a { oflags = 0x02000000 })
    else if str_eq opt "-ata"
    then some (record a { oflags = 0x04000000 })
    else if str_eq opt "-dio"
    then some (record a { flags = bit_or a.flags o_direct })
    else if str_eq opt "-s"
    then some (record a { flush = true })
    else if str_eq opt "-loop"
    then some (record a { floop = true })
    else none

abbrev pub write_valued : String → Bool
write_valued opt =
    str_eq opt "-p"
    || str_eq opt "-vio"
    || str_eq opt "-nio"
    || str_eq opt "-f"
    || str_eq opt "-ofst"
    || str_eq opt "-nz"

module _ (num : Numbers) where
  -- The three arguments behind the options; nothing for a command line that is refused.
  unfoldable pub write_operands : WriteAsked → List String → Option WriteAsked
  write_operands a (path ∷ zone ∷ size ∷ []) =
      let bufsize = to_u64 (num.atol size) in
      if is_neg (num.atoi zone) || (bufsize == 0)
      then none
      else some (record a { path = path; zidx = pos_part (num.atoi zone); bufsize = bufsize })
  write_operands a [] = none
  write_operands a (x ∷ []) = none
  write_operands a (x ∷ y ∷ []) = none
  write_operands a (x ∷ y ∷ z ∷ w ∷ rest) = none

  -- The options with a value.
  unfoldable pub write_with_value : String → String → WriteAsked → Option WriteAsked
  write_with_value opt val a =
      if str_eq opt "-p"
      then (if is_pattern (num.strtol val) then some a else none)
      else if str_eq opt "-vio"
      then (if is_pos (num.atoi val)
          then some (record a { vio = true; iovcnt = pos_part (num.atoi val) })
          else none)
      else if str_eq opt "-nio"
      then (if to_u64 (num.atoi val) == 0
          then none
          else some (record a { ionum = to_u64 (num.atoi val) }))
      else if str_eq opt "-f"
      then some (record a { file = some val })
      else if str_eq opt "-ofst"
      then (if is_neg (num.atoll val)
          then none
          else some (record a { ofst = pos_part (num.atoll val) }))
      else if is_neg (num.atoi val)
      then none
      else some (record a { nz = pos_part (num.atoi val) })

  -- 1 is O_WRONLY.
  unfoldable pub parse_write : List String → Option WriteAsked
  unfolding write_operands write_with_value write_plain
  parse_write args =
      options write_plain write_valued write_with_value write_operands none
        (record {
          flags = 1;
          oflags = 0;
          vio = false;
          iovcnt = 1;
          ionum = 0;
          ofst = 0;
          flush = false;
          floop = false;
          file = none;
          nz = 1;
          path = "";
          zidx = 0;
          bufsize = 0;
        })
        args
