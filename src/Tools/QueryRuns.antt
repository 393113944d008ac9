-- ===== src/Tools/QueryRuns.antt =====
-- A query of the zone activation tool leaves the drive as it is.
use libzbc.Base.{
  ℕ, zero, suc, ◌+◌, ◌≡◌, refl, arith, Bool, true, false, pos, Bool-cases, inl, inr, not, ◌&&◌,
  Option, none, some, u64, has, take, ℤ, is_zero,
}
use mathlib.Core.Path.{subst}
use libzbc.Activation.{Request, call_actv, zbc_zone_query, zbc_get_nr_actv_records, query_actv}
use libzbc.Device.{Device, Zone, ZoneDomain}
use libzbc.Device.DevFlag as DevFlag
use libzbc.Device.Driver.{Drv}
use libzbc.Realms.{zbc_list_zone_realms, zbc_report_realms}
use libzbc.Tools.{array_in, count_in}
use libzbc.Tools.Activate.{
  CmdOptions, int_rounds, Located, run_request, reset_and_run, decide_fsnoz, activate_located,
  perform_activation, one_by_one, with_located, locate, addressed,
}
use libzbc.Tools.ActivateLine.{activate_in, code_of}

-- Reports of realms and queries keep what is seen of the state.
pub record Keeps {S V : Type 0} (view : S → V) (drv : Drv S) (dev : Device) : Type 0 where
  pub reports :
      (sector ro : ℕ) (realms : Bool) (nr : ℕ) (s : S)
      → view (drv.zbd_report_realms dev sector ro realms nr s).1 ≡ view s
  pub queries :
      (q : Request) (recs : Bool) (nr : ℕ) (s : S)
      → view (call_actv drv dev drv.zbd_zone_query_actv true q recs nr s).1 ≡ view s

-- A query of 32-byte commands without a separate count.
pub record IsQuery (o : CmdOptions) : Type 0 where
  pub query : o.query ≡ true
  pub reset : o.reset ≡ false
  pub fsnoz : o.fsnoz ≡ false
  pub cdb32 : o.cdb32 ≡ true

-- What an outcome leaves.
abbrev pub Leaves : {S V A : Type 0} → (S → V) → V → Option (A × S) → Type 0
Leaves view v none = Unit
Leaves view v (some (a, s)) = view s ≡ v

module _ {S V : Type 0} (view : S → V) (drv : Drv S) (dev : Device) (keeps : Keeps view drv dev)
    (calloc : ℕ → Bool) (junk_zone : Zone) (junk : ℤ) where
  query-Kept :
      (q : Request) (recs : Bool) (nr : ℕ) (s : S)
      → view (query_actv drv dev true q recs nr s).1 ≡ view s
  unfolding query_actv
  query-Kept q recs nr s = grind (arith, keeps.queries)

  records-Kept : (q : Request) (s : S) → view (zbc_get_nr_actv_records drv dev q s).1 ≡ view s
  unfolding zbc_get_nr_actv_records
  records-Kept q s = query-Kept q false 0 s

  report-Kept :
      (sector ro : ℕ) (realms : Bool) (nr : ℕ) (s : S)
      → view (zbc_report_realms drv dev sector ro realms nr s).1 ≡ view s
  unfolding zbc_report_realms
  report-Kept sector ro realms nr s = grind (arith, keeps.reports)

  list-Kept : (s : S) → view (zbc_list_zone_realms drv dev calloc 0 0 true s).1 ≡ view s
  unfolding zbc_list_zone_realms
  list-Kept s = grind (arith, report-Kept)

  request-Kept :
      (o : CmdOptions) (q : Request) (s : S)
      → o.query ≡ true
      → view (run_request calloc junk_zone junk drv dev dev.zbd_info o q s).1 ≡ view s
  unfolding run_request zbc_zone_query
  request-Kept o q s h = grind (arith, records-Kept, query-Kept)

  module _ (nozsrc : has dev.zbd_info.zbd_flags DevFlag.nozsrc_support ≡ true) where
    plain-fsnoz : (o : CmdOptions) (nr : ℕ) → IsQuery o → decide_fsnoz dev dev.zbd_info o nr ≡ false
    unfolding decide_fsnoz
    plain-fsnoz o nr h = grind (arith, nozsrc, h.fsnoz, h.cdb32)

    located-Kept :
        (o : CmdOptions) (l : Located) (s : S)
        → IsQuery o
        → let r = activate_located calloc junk_zone junk drv dev dev.zbd_info o l s in
          (r.0.1 ≡ false) × (view r.1 ≡ view s)
    unfolding activate_located reset_and_run
    located-Kept o l s h =
        rw (plain-fsnoz o l.nr_units h, h.reset) (refl, request-Kept o _ s h.query)

    -- The outcome, and the flag for a separate count.
    abbrev Plainly : V → Option ((ℤ × Bool) × S) → Type 0
    Plainly v none = Unit
    Plainly v (some ((ret, fsnoz), s)) = (fsnoz ≡ false) × (view s ≡ v)

    with_located-Kept :
        (o : CmdOptions) (s : S) (found : Option (Option Located))
        → IsQuery o
        → Plainly (view s) (with_located calloc junk_zone junk drv dev dev.zbd_info o found s)
    unfolding with_located
    with_located-Kept o s none h = tt
    with_located-Kept o s (some none) h = (h.fsnoz, refl)
    with_located-Kept o s (some (some l)) h = located-Kept o l s h

    perform-Kept :
        (o : CmdOptions) (s : S)
        → IsQuery o
        → Plainly (view s) (perform_activation calloc junk_zone junk drv dev dev.zbd_info o s)
    unfolding perform_activation
    perform-Kept o s h =
        let listed = zbc_list_zone_realms drv dev calloc 0 0 true s in
        let located =
          locate dev dev.zbd_info o (take (count_in listed.0.2) (array_in listed.0.1))
            (count_in listed.0.2) in
        elim (Bool-cases o.zone_addr) [
          | inl zones ↦ rw zones (located-Kept o (addressed dev dev.zbd_info o) s h)
          | inr realms ↦ elim (Bool-cases (is_zero listed.0.0)) [
            | inr bad ↦ rw (realms, bad) (h.fsnoz, list-Kept s)
            | inl ok ↦
                rw (realms, ok)
                  (subst
                    (λ v.
                      Plainly v (
                        with_located calloc junk_zone junk drv dev dev.zbd_info o located listed.1))
                    (list-Kept s) (with_located-Kept o listed.1 located h))
          ]
        ]

    -- A round in front of rounds that leave it.
    round-Kept :
        (rounds : ℕ) (o : CmdOptions) (last : ℤ) (s : S)
        → ((ret : ℤ) (s' : S)
            → Leaves view (view s') (
                one_by_one calloc junk_zone junk drv dev dev.zbd_info rounds
                  (record o { start = u64 (o.start + 1); fsnoz = false })
                  ret
                  s'))
        → (r : Option ((ℤ × Bool) × S))
        → perform_activation calloc junk_zone junk drv dev dev.zbd_info o s ≡ r
        → Plainly (view s) r
        → Leaves view
            (view s)
            (one_by_one calloc junk_zone junk drv dev dev.zbd_info (suc rounds) o last s)
    unfolding one_by_one
    round-Kept rounds o last s rest none e kept = rw (Leaves, e) tt
    round-Kept rounds o last s rest (some ((ret, fsnoz), s')) e kept =
        elim (Bool-cases (is_zero ret)) [
          | inr bad ↦ rw (Leaves, e, bad) kept.1
          | inl ok ↦
              let next =
                one_by_one calloc junk_zone junk drv dev dev.zbd_info rounds
                  (record o { start = u64 (o.start + 1); fsnoz = false }) ret s' in
              rw (Leaves, e, ok, kept.0) (subst (λ v. Leaves view v next) kept.1 (rest ret s'))
        ]

    one_by_one-Kept :
        (rounds : ℕ) (o : CmdOptions) (last : ℤ) (s : S)
        → IsQuery o
        → Leaves view
            (view s)
            (one_by_one calloc junk_zone junk drv dev dev.zbd_info rounds o last s)
    unfolding one_by_one
    one_by_one-Kept zero o last s h = refl
    one_by_one-Kept (suc rounds) o last s h =
        round-Kept rounds o last s
          (λ ret s'.
            one_by_one-Kept rounds (record o { start = u64 (o.start + 1); fsnoz = false }) ret s'
              (record { query = h.query; reset = h.reset; fsnoz = refl; cdb32 = h.cdb32 }))
          (perform_activation calloc junk_zone junk drv dev dev.zbd_info o s) refl
          (perform-Kept o s h)

    code_of-Kept :
        (v : V) (r : Option ((ℤ × Bool) × S))
        → Plainly v r
        → Leaves view v (code_of calloc junk_zone junk r)
    code_of-Kept v none h = tt
    code_of-Kept v (some ((ret, fsnoz), s)) h = h.1

pub activate_in-Kept :
    {S V : Type 0} (view : S → V) (drv : Drv S) (dev : Device)
    → Keeps view drv dev
    → (calloc : ℕ → Bool) (junk_zone : Zone) (junk : ℤ) (o : CmdOptions)
      (found : Option (ℕ × ZoneDomain)) (s : S)
    → has dev.zbd_info.zbd_flags DevFlag.nozsrc_support ≡ true
    → IsQuery o
    → Leaves view (view s) (activate_in calloc junk_zone junk o found drv dev s)
unfolding activate_in
activate_in-Kept view drv dev keeps calloc junk_zone junk o none s nozsrc h = refl
activate_in-Kept view drv dev keeps calloc junk_zone junk o (some (id, d)) s nozsrc h =
    let o' = record o { domain_id = id } in
    let rounds = int_rounds o.start (u64 (o.start + o.nr_units)) in
    let asked : IsQuery o' = record {
      query = h.query;
      reset = h.reset;
      fsnoz = h.fsnoz;
      cdb32 = h.cdb32;
    } in
    let single : IsQuery (record o' { nr_units = 1 }) = record {
      query = h.query;
      reset = h.reset;
      fsnoz = h.fsnoz;
      cdb32 = h.cdb32;
    } in
    elim (Bool-cases (has d.zbm_flags 2)) [
      | inr bad ↦ rw bad refl
      | inl ok ↦ elim (Bool-cases (has d.zbm_flags 1 && not o.zone_addr)) [
        | inl shifting ↦
            rw (ok, shifting)
              (one_by_one-Kept view drv dev keeps calloc junk_zone junk nozsrc rounds
                (record o' { nr_units = 1 }) (pos 0) s single)
        | inr fixed ↦
            rw (ok, fixed)
              (code_of-Kept view drv dev keeps calloc junk_zone junk nozsrc (view s)
                (perform_activation calloc junk_zone junk drv dev dev.zbd_info o' s)
                (perform-Kept view drv dev keeps calloc junk_zone junk nozsrc o' s asked))
      ]
    ]
