-- ===== src/Tools/QueryLine.antt =====
-- The command line of the zone activation tool for a query: what is parsed, and what is sent.
use libzbc.Base.{
  ℕ, ◌≡◌, arith, Bool, true, false, List, [], ◌∷◌, Bool-cases, inl, inr, Option, none, some, has, ℤ,
}
use mathlib.Core.Path.{subst}
use libzbc.Device.{Device, Zone, ZoneDomain}
use libzbc.Device.DevFlag as DevFlag
use libzbc.Device.Driver.{Drv}
use libzbc.Tools.Activate.{CmdOptions}
use Prim.Native.String.{String}
use libzbc.Tools.Args.{Numbers}
use libzbc.Tools.ActivateLine.{
  activate_in, ActivateAsked, activate_operands, activate_options, with_type, with_options,
  type_named, parse_activate,
}
use libzbc.Tools.QueryRuns.{Keeps, Leaves, activate_in-Kept}

-- A line that asks for a query does not ask for a reset.
abbrev ParsedWell : Option ActivateAsked → Type 0
ParsedWell none = Unit
ParsedWell (some a) = a.opts.query ≡ true → a.opts.reset ≡ false

with_type-reset :
    (num : Numbers) (oflags : ℕ) (o : CmdOptions) (path start units : String) (t : Option ℕ)
    → ParsedWell (with_type num oflags o path start units t)
unfolding with_type
with_type-reset num oflags o path start units none = tt
with_type-reset num oflags o path start units (some t) = λ h. elim (Bool-cases o.all) [
  | inl all ↦ rw all (ground (arith, (rw all at h)))
  | inr few ↦ rw few (ground (arith, (rw few at h)))
]

-- What the operands of a line make of the flag for the reset.
operands-reset :
    (num : Numbers) (oflags : ℕ) (o : CmdOptions) (rest : List String)
    → ParsedWell (activate_operands num oflags o rest)
unfolding activate_operands
operands-reset num oflags o [] = tt
operands-reset num oflags o (a ∷ []) = tt
operands-reset num oflags o (a ∷ b ∷ []) = tt
operands-reset num oflags o (a ∷ b ∷ c ∷ []) = tt
operands-reset num oflags o (a ∷ b ∷ c ∷ d ∷ e ∷ more) = tt
operands-reset num oflags o (path ∷ start ∷ units ∷ name ∷ []) =
    with_type-reset num oflags o path start units (type_named name)

options-reset :
    (num : Numbers) (r : Option ((ℕ × CmdOptions) × List String)) → ParsedWell (with_options num r)
options-reset num none = tt
options-reset num (some ((oflags, o), rest)) = operands-reset num oflags o rest

-- A command line of zbc_zone_activate that is accepted and asks for a query of 32-byte commands (-q
-- and -32), without -n, with or without -r, on a device that takes a number of zones with the
-- command, from the choice of the domain on: whatever of the state the driver's reports of realms
-- and its queries keep, the tool keeps, for one request as well as for realms one by one, and on
-- each error path. So none of the tool's other commands, among them the reset of zones and the
-- setting of the number of zones, is sent.
pub activate_in-Leaves :
    {S V : Type 0} (view : S → V) (drv : Drv S) (dev : Device)
    → Keeps view drv dev
    → (calloc : ℕ → Bool) (junk_zone : Zone) (junk : ℤ) (num : Numbers) (args : List String)
      (a : ActivateAsked) (found : Option (ℕ × ZoneDomain)) (s : S)
    → has dev.zbd_info.zbd_flags DevFlag.nozsrc_support ≡ true
    → parse_activate num args ≡ some a
    → a.opts.query ≡ true
    → a.opts.fsnoz ≡ false
    → a.opts.cdb32 ≡ true
    → Leaves view (view s) (activate_in calloc junk_zone junk a.opts found drv dev s)
unfolding parse_activate
activate_in-Leaves view drv dev keeps calloc junk_zone junk num args a found s nozsrc e query fsnoz
      cdb32 =
    let parsed : ParsedWell (parse_activate num args) =
      options-reset num (activate_options _ args) in
    let well : ParsedWell (some a) = subst ParsedWell e parsed in
    activate_in-Kept view drv dev keeps calloc junk_zone junk a.opts found s nozsrc
      (record { query = query; reset = well query; fsnoz = fsnoz; cdb32 = cdb32 })
