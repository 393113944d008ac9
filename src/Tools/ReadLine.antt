-- ===== src/Tools/ReadLine.antt =====
-- tools/read_zone/zbc_read_zone.c: the command line.
use Prim.Native.String.{String}
use text.Mathlib.Text.{◌==◌ as str_eq}
use libzbc.Base.{
  ℕ, bit_or, Bool, true, false, ◌||◌, Option, none, some, List, [], ◌∷◌, ◌==◌, if◌then◌else◌,
  is_neg, is_pos, pos_part,
}
use libzbc.Sg.{o_direct}
use libzbc.Tools.Args.{Numbers, to_u64, is_pattern, options}

-- What the command line asks for. `file` says whether the zone is written to a file.
pub record ReadAsked : Type 0 where
  pub flags : ℕ
  pub oflags : ℕ
  pub vio : Bool
  pub iovcnt : ℕ
  pub ionum : ℕ
  pub ofst : ℕ
  pub file : Option String
  pub path : String
  pub zidx : ℕ
  pub bufsize : ℕ

abbrev nothing_asked : ReadAsked
nothing_asked = record {
  flags = 0;
  oflags = 0;
  vio = false;
  iovcnt = 1;
  ionum = 0;
  ofst = 0;
  file = none;
  path = "";
  zidx = 0;
  bufsize = 0;
}

-- The options without a value; the last of -scsi and -ata counts.
unfoldable pub read_plain : String → ReadAsked → Option ReadAsked
read_plain opt a =
    if str_eq opt "-v"
    then some a
    else if str_eq opt "-scsi"
    then some (record a { oflags = 0x02000000 })
    else if str_eq opt "-ata"
    then some (record a { oflags = 0x04000000 })
    else if str_eq opt "-dio"
    then some (record a { flags = bit_or a.flags o_direct })
    else none

abbrev pub read_valued : String → Bool
read_valued opt =
    str_eq opt "-p"
    || str_eq opt "-vio"
    || str_eq opt "-nio"
    || str_eq opt "-f"
    || str_eq opt "-ofst"

module _ (num : Numbers) where
  -- The three arguments behind the options; nothing for a command line that is refused.
  unfoldable pub read_operands : ReadAsked → List String → Option ReadAsked
  read_operands a (path ∷ zone ∷ size ∷ []) =
      let bufsize = to_u64 (num.atol size) in
      if is_neg (num.atoi zone) || (bufsize == 0)
      then none
      else some (record a { path = path; zidx = pos_part (num.atoi zone); bufsize = bufsize })
  read_operands a [] = none
  read_operands a (x ∷ []) = none
  read_operands a (x ∷ y ∷ []) = none
  read_operands a (x ∷ y ∷ z ∷ w ∷ rest) = none

  -- The options with a value.
  unfoldable pub read_with_value : String → String → ReadAsked → Option ReadAsked
  read_with_value opt val a =
      if str_eq opt "-p"
      then (if is_pattern (num.strtol val) then some a else none)
      else if str_eq opt "-vio"
      then (if is_pos (num.atoi val)
          then some (record a { vio = true; iovcnt = pos_part (num.atoi val) })
          else none)
      else if str_eq opt "-nio"
      then (if to_u64 (num.atoi val) == 0
          then none
          else some (record a { ionum = to_u64 (num.atoi val) }))
      else if str_eq opt "-f"
      then some (record a { file = some val })
      else if is_neg (num.atoll val)
      then none
      else some (record a { ofst = pos_part (num.atoll val) })

  unfoldable pub parse_read : List String → Option ReadAsked
  unfolding read_operands read_with_value read_plain
  parse_read args =
      options read_plain read_valued read_with_value read_operands none nothing_asked args
