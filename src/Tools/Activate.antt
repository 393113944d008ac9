-- ===== src/Tools/Activate.antt =====
-- tools/zone_activate/zbc_zone_activate.c: perform_activation, the activation of zones or realms.
-- Messages, and with them the printing of the results, are left out.
use libzbc.Base.{
  ℕ, zero, suc, ◌+◌, ◌-◌, ◌^◌, ◌%◌, Bool, true, false, not, ◌&&◌, ◌||◌, Option, none, some, List,
  [], ◌∷◌, ◌==◌, ltb, if◌then◌else◌, u32, u64, has, ℤ, pos, is_zero, is_neg, pos_part, get_or,
  length, take, drop,
}
use libzbc.Activation.{
  Request, zbc_zone_activate, zbc_zone_query, zbc_get_nr_actv_records, zbc_zone_activation_ctl,
}
use libzbc.Device.{Device, DeviceInfo, Zone, ZoneRealm, op_all_zones}
use libzbc.Device.DevFlag as DevFlag
use libzbc.Device.Driver.{Drv}
use libzbc.Device.Sectors.{zbc_lba2sect}
use libzbc.Device.ZoneOp.{reset_zone}
use libzbc.Realms.{
  no_realm, zbc_list_zone_realms, zbc_realm_item_by_type, zbc_realm_length, zbc_realm_start_lba,
}
use libzbc.Tools.{array_in, count_in}
use libzbc.Zones.{zbc_zone_group_op}

-- struct cmd_options
pub record CmdOptions : Type 0 where
  pub start : ℕ
  pub nr_units : ℕ
  pub new_type : ℕ
  pub domain_id : ℕ
  pub lba_units : Bool
  pub query : Bool
  pub fsnoz : Bool
  pub all : Bool
  pub zone_addr : Bool
  pub list : Bool
  pub cdb32 : Bool
  pub reset : Bool

-- A comparison of two int, as the bits of wider numbers.
unfoldable pub int_ltb : ℕ → ℕ → Bool
int_ltb a b = ltb ((a + 2 ^ 31) % 2 ^ 32) ((b + 2 ^ 31) % 2 ^ 32)

-- The rounds of a loop of an int from the one to the other.
unfoldable pub int_rounds : ℕ → ℕ → ℕ
int_rounds a b = (b + 2 ^ 31) % 2 ^ 32 - (a + 2 ^ 31) % 2 ^ 32

-- The zones to activate, and those to reset.
pub record Located : Type 0 where
  pub start : ℕ
  pub nr_units : ℕ
  pub domain_id : ℕ
  pub reset_start : ℕ
  pub reset_zones : ℕ

-- The lengths of the items of a domain, a uint32_t.
unfoldable pub lengths : ℕ → List ZoneRealm → ℕ → ℕ
lengths dom_id [] sum = sum
lengths dom_id (r ∷ rs) sum = lengths dom_id rs (u32 (sum + zbc_realm_length r dom_id))

module _ (dev : Device) (info : DeviceInfo) where
  -- The zones of the realms asked for; the outer empty option stands for a read behind the array,
  -- the inner one for the code 1.
  unfoldable pub locate : CmdOptions → List ZoneRealm → ℕ → Option (Option Located)
  unfolding int_ltb int_rounds lengths
  locate o realms nr_realms =
      let end = u64 (o.start + o.nr_units) in
      let r = get_or realms o.start no_realm in
      let asked = take (int_rounds o.start end) (drop o.start realms) in
      let at = λ (id : ℕ). zbc_lba2sect info (zbc_realm_start_lba dev r id) in
      let found = λ (id : ℕ).
        (if not (id == o.domain_id) || (lengths id asked 0 == 0)
          then none
          else some (record {
            start = at id;
            nr_units = lengths id asked 0;
            domain_id = id;
            reset_start = if o.reset then at r.zbr_dom_id else 2 ^ 64 - 1;
            reset_zones = if o.reset then lengths r.zbr_dom_id asked 0 else 0;
          })) in
      if int_ltb nr_realms end
      then some none
      else if not (ltb o.start (length realms))
      then none
      else elim (zbc_realm_item_by_type r o.new_type) as (λ x. Option (Option Located)) [
        | none ↦ some none
        | some ri ↦ some (found ri.zbi_dom_id)
      ]

  -- With -z, the zones are those of the line.
  unfoldable pub addressed : CmdOptions → Located
  addressed o = record {
    start = if o.lba_units then zbc_lba2sect info o.start else o.start;
    nr_units = o.nr_units;
    domain_id = o.domain_id;
    reset_start = 2 ^ 64 - 1;
    reset_zones = 0;
  }

  -- Whether the number of zones is set by a separate command.
  unfoldable pub decide_fsnoz : CmdOptions → ℕ → Bool
  decide_fsnoz o nr_units =
      if o.all
      then false
      else if not (has info.zbd_flags DevFlag.nozsrc_support)
      then true
      else if o.cdb32
      then o.fsnoz
      else if ltb 0xffff nr_units
      then true
      else o.fsnoz

module _ {S : Type 0} (calloc : ℕ → Bool) (junk_zone : Zone) (junk : ℤ) (drv : Drv S) (dev : Device)
    (info : DeviceInfo) where
  -- The query or the activation, behind the allocation of the records.
  unfoldable pub run_request : CmdOptions → Request → S → ℤ × S
  run_request o q s =
      let (nr, s₁) = zbc_get_nr_actv_records drv dev q s in
      let n = pos_part nr in
      let asked = zbc_zone_query drv dev q true n s₁ in
      let done = zbc_zone_activate drv dev q o.list n s₁ in
      let (r, s₂) = if o.query then asked else done in
      if is_neg nr || not (calloc n)
      then (pos 1, s₁)
      else (if is_zero r.ret then pos 0 else pos 1, s₂)

  -- The reset, whose code is lost, and the request.
  unfoldable pub reset_and_run : CmdOptions → Bool → Located → S → ℤ × S
  unfolding run_request
  reset_and_run o fsnoz l s =
      let (ignored, s') =
        zbc_zone_group_op drv junk dev junk_zone l.reset_start l.reset_zones reset_zone
          (if o.all then op_all_zones else 0) s in
      let q : Request = record {
        zsrc = not fsnoz;
        all = o.all;
        use_32_byte_cdb = o.cdb32;
        sector = l.start;
        nr_zones = if fsnoz then 0 else l.nr_units;
        domain_id = l.domain_id;
      } in
      run_request o q (if o.reset then s' else s)

  -- From the zones on: the code, and `opts->fsnoz`.
  unfoldable pub activate_located : CmdOptions → Located → S → (ℤ × Bool) × S
  unfolding decide_fsnoz reset_and_run
  activate_located o l s =
      let fsnoz = decide_fsnoz dev info o l.nr_units in
      let ((ret, ctl), s₁) =
        zbc_zone_activation_ctl drv dev
          (record { zbt_nr_zones = l.nr_units; zbt_max_activate = 0xffff; zbt_urswrz = 0xff }) true
          s in
      let (code, s₂) = reset_and_run o fsnoz l (if fsnoz then s₁ else s) in
      if fsnoz && not (has info.zbd_flags DevFlag.za_control_support)
      then ((pos 1, fsnoz), s)
      else if fsnoz && not (is_zero ret)
      then ((pos 1, fsnoz), s₁)
      else ((code, fsnoz), s₂)

  unfoldable pub with_located : CmdOptions → Option (Option Located) → S → Option ((ℤ × Bool) × S)
  with_located o none s = none
  with_located o (some none) s = some ((pos 1, o.fsnoz), s)
  with_located o (some (some l)) s = some (activate_located o l s)

  unfoldable pub perform_activation : CmdOptions → S → Option ((ℤ × Bool) × S)
  unfolding locate addressed activate_located with_located
  perform_activation o s =
      let ((ret, realms, nr), s') = zbc_list_zone_realms drv dev calloc 0 0 true s in
      let located = locate dev info o (take (count_in nr) (array_in realms)) (count_in nr) in
      if o.zone_addr
      then some (activate_located o (addressed dev info o) s)
      else if not (is_zero ret)
      then some ((pos 1, o.fsnoz), s')
      else with_located o located s'

  -- The loop over the realms of a domain with shifting boundaries, one by one, up to the first
  -- failure, with the code of the last.
  unfoldable pub one_by_one : ℕ → CmdOptions → ℤ → S → Option (ℤ × S)
  one_by_one zero o last s = some (last, s)
  one_by_one (suc rounds) o last s = elim (perform_activation o s) [
    | none ↦ none
    | some ((ret, fsnoz), s') ↦
        let next =
          one_by_one rounds (record o { start = u64 (o.start + 1); fsnoz = fsnoz }) ret s' in
        if not (is_zero ret) then some (ret, s') else next
  ]
