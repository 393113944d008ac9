-- ===== src/Tools/ActivateLine.antt =====
-- tools/zone_activate/zbc_zone_activate.c: the command line and main.
use Prim.Native.String.{String}
use text.Mathlib.Text.{◌==◌ as str_eq}
use libzbc.Base.{
  ℕ, ◌+◌, bit_or, Bool, true, false, not, ◌&&◌, ◌||◌, Option, none, some, List, [], ◌∷◌, ◌==◌,
  if◌then◌else◌, u32, u64, has, ℤ, pos, is_zero, ◌⊎◌, take,
}
use libzbc.Device.{Device, Zone, ZoneDomain}
use libzbc.Device.Driver.{Drv}
use libzbc.Device.ZoneType as ZoneType
use libzbc.Domains.{zbc_list_domains}
use libzbc.Open.{Backend, Handle, zbc_open, zbc_close}
use libzbc.Tools.{array_in, count_in}
use libzbc.Tools.Activate.{CmdOptions, int_rounds, perform_activation, one_by_one}
use libzbc.Tools.Args.{Numbers, to_u64, is_option}

-- An option; nothing for one that is unknown. The number beside the options is that for zbc_open.
unfoldable pub activate_option : String → ℕ × CmdOptions → Option (ℕ × CmdOptions)
activate_option opt (oflags, o) =
    if str_eq opt "-v"
    then some (oflags, o)
    else if str_eq opt "-scsi"
    then some (0x02000000, o)
    else if str_eq opt "-ata"
    then some (0x04000000, o)
    else if str_eq opt "-lba"
    then some (oflags, record o { lba_units = true })
    else if str_eq opt "-q" || str_eq opt "--query"
    then some (oflags, record o { query = true; list = true })
    else if str_eq opt "-a"
    then some (oflags, record o { all = true })
    else if str_eq opt "-r"
    then some (oflags, record o { reset = true })
    else if str_eq opt "-n" || str_eq opt "--fsnoz"
    then some (oflags, record o { fsnoz = true })
    else if str_eq opt "-32"
    then some (oflags, record o { cdb32 = true })
    else if str_eq opt "-l"
    then some (oflags, record o { list = true })
    else if str_eq opt "-z"
    then some (oflags, record o { zone_addr = true })
    else none

-- The options, and what stands behind them.
unfoldable pub activate_options :
    ℕ × CmdOptions → List String → Option ((ℕ × CmdOptions) × List String)
unfolding activate_option
activate_options o [] = some (o, [])
activate_options o (arg ∷ more) =
    let next = elim (activate_option arg o) as (λ x. Option ((ℕ × CmdOptions) × List String)) [
      | none ↦ none
      | some o' ↦ activate_options o' more
    ] in
    if is_option arg then next else some (o, arg ∷ more)

unfoldable pub type_named : String → Option ℕ
type_named name =
    if str_eq name "conv"
    then some ZoneType.conventional
    else if str_eq name "sobr"
    then some ZoneType.seq_or_bef_req
    else if str_eq name "seq" || str_eq name "seqr"
    then some ZoneType.sequential_req
    else if str_eq name "seqp"
    then some ZoneType.sequential_pref
    else none

-- A line that is not refused.
pub record ActivateAsked : Type 0 where
  pub oflags : ℕ
  pub path : String
  pub opts : CmdOptions

module _ (num : Numbers) where
  -- A line with a type that has a name. A reset is left out with a query or with -z; with -a the two
  -- numbers are passed over.
  unfoldable pub with_type :
      ℕ → CmdOptions → String → String → String → Option ℕ → Option ActivateAsked
  with_type oflags o path start units none = none
  with_type oflags o path start units (some t) =
      let o' = record o { reset = o.reset && not (o.query || o.zone_addr); new_type = t } in
      some (record {
        oflags = oflags;
        path = path;
        opts = if o.all then record o' { zone_addr = true } else record o' {
          start = to_u64 (num.atol start);
          nr_units = u32 (to_u64 (num.atoi units));
        };
      })

  -- The device, the first realm or zone, the number of them and the type.
  unfoldable pub activate_operands : ℕ → CmdOptions → List String → Option ActivateAsked
  unfolding type_named with_type
  activate_operands oflags o (path ∷ start ∷ units ∷ name ∷ []) =
      with_type oflags o path start units (type_named name)
  activate_operands oflags o [] = none
  activate_operands oflags o (a ∷ []) = none
  activate_operands oflags o (a ∷ b ∷ []) = none
  activate_operands oflags o (a ∷ b ∷ c ∷ []) = none
  activate_operands oflags o (a ∷ b ∷ c ∷ d ∷ e ∷ more) = none

  abbrev pub with_options : Option ((ℕ × CmdOptions) × List String) → Option ActivateAsked
  with_options none = none
  with_options (some ((oflags, o), rest)) = activate_operands oflags o rest

  unfoldable pub parse_activate : List String → Option ActivateAsked
  unfolding activate_options activate_operands
  parse_activate args =
      let cleared : CmdOptions = record {
        start = 0;
        nr_units = 0;
        new_type = 0;
        domain_id = 0;
        lba_units = false;
        query = false;
        fsnoz = false;
        all = false;
        zone_addr = false;
        list = false;
        cdb32 = false;
        reset = false;
      } in
      with_options (activate_options (0, cleared) args)

-- The first domain of a type, and its number.
unfoldable pub domain_of : ℕ → ℕ → List ZoneDomain → Option (ℕ × ZoneDomain)
domain_of t i [] = none
domain_of t i (d ∷ ds) = if d.zbm_type == t then some (i, d) else domain_of t (i + 1) ds

module _ {S : Type 0} (calloc : ℕ → Bool) (junk_zone : Zone) (junk : ℤ) where
  abbrev pub code_of : Option ((ℤ × Bool) × S) → Option (ℤ × S)
  code_of none = none
  code_of (some ((ret, fsnoz), s)) = some (ret, s)

  -- In the domain of the type.
  unfoldable pub activate_in :
      CmdOptions → Option (ℕ × ZoneDomain) → Drv S → Device → S → Option (ℤ × S)
  unfolding int_rounds
  activate_in o none drv dev s = some (pos 1, s)
  activate_in o (some (id, d)) drv dev s =
      let o' = record o { domain_id = id } in
      let rounds = int_rounds o.start (u64 (o.start + o.nr_units)) in
      let each =
        one_by_one calloc junk_zone junk drv dev dev.zbd_info rounds (record o' { nr_units = 1 })
          (pos 0) s in
      if not (has d.zbm_flags 2)
      then some (pos 1, s)
      else if has d.zbm_flags 1 && not o.zone_addr
      then each
      else code_of (perform_activation calloc junk_zone junk drv dev dev.zbd_info o' s)

  unfoldable pub activate_device : CmdOptions → Backend String S → Device → S → Option (ℤ × S)
  unfolding domain_of activate_in one_by_one perform_activation
  activate_device o b dev s =
      let (l, s') = zbc_list_domains b.drv dev calloc 0 0 true true s in
      let found = domain_of o.new_type 0 (take (count_in l.count) (array_in l.array)) in
      let out = if is_zero l.ret then activate_in o found b.drv dev s' else some (pos 1, s') in
      elim out [ none ↦ none | some (ret, s'') ↦ some (ret, (zbc_close b dev s'').1) ]

  unfoldable pub opened_activate : CmdOptions → Option (Handle String S) → S → Option (ℤ × S)
  unfolding activate_device
  opened_activate o none s = none
  opened_activate o (some h) s =
      if not (is_zero h.ret)
      then some (pos 1, s)
      else elim h.pdev [ none ↦ none | some (b, dev) ↦ activate_device o b dev s ]

  -- main of the tool, with the arguments behind the name of the program. 2 is O_RDWR.
  unfoldable pub zone_activate :
      List (Backend String S) → (String → ℕ ⊎ String) → Numbers → List String → S → Option (ℤ × S)
  unfolding parse_activate opened_activate
  zone_activate drivers realpath num args s = elim (parse_activate num args) [
    | none ↦ some (pos 1, s)
    | some a ↦
        let (h, s') = zbc_open drivers realpath calloc a.path (bit_or a.oflags 2) s in
        opened_activate a.opts h s'
  ]
