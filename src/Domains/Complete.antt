-- ===== src/Domains/Complete.antt =====
-- zbc_list_domains lists all domains, however many there are.
use libzbc.Base.{ℕ, ◌+◌, ◌≤◌, ◌<◌, ◌^◌, ◌≡◌, refl, sym, ap, ◌∙◌, ◌⊎◌, inl, inr, arith, Bool, true}
use libzbc.Base.{
  none, some, List, [], length, take, splice, replicate, ge→ltb, lt→ltb, take-splice,
  length-replicate, take_all, ℤ, pos,
}
use libzbc.Device.{Device, ZoneDomain, zbc_dev_is_zdr}
use libzbc.Device.Driver.{Drv}
use libzbc.Domains.{Listing, no_domain, zbc_report_domains, filled, listing, zbc_list_domains}
use native.Mathlib.Decide.{dec_lt}

-- The promise of a driver, for the two sizes of arrays that the library asks with, 6 and the number
-- of all domains to report: a report from the sector on gives that number, and stores as many of
-- them as the array has room for.
pub record ReportsDomains {S : Type 0} (drv : Drv S) (dev : Device) (sector ro : ℕ)
    (all : List ZoneDomain) : Type 0 where
  pub function : Device → ℕ → ℕ → ℕ → S → (ℤ × List ZoneDomain) × S
  pub in_table : drv.zbd_report_domains ≡ some function
  pub reports :
      (n : ℕ) (s : S)
      → (n ≡ 6) ⊎ (n ≡ length all)
      → (function dev sector ro n s).0 ≡ (pos (length all), take n all)

module _ {S : Type 0} {drv : Drv S} {dev : Device} {sector ro : ℕ} {all : List ZoneDomain}
    (d : ReportsDomains drv dev sector ro all) (zdr : zbc_dev_is_zdr dev ≡ true) where
  report_lem :
      (n : ℕ) (s : S)
      → (n ≡ 6) ⊎ (n ≡ length all)
      → (zbc_report_domains drv dev sector ro n s).0 ≡ (pos (length all), take n all)
  unfolding zbc_report_domains
  report_lem n s a = rw (zdr, d.in_table) (d.reports n s a)

  -- An array with room for all holds all.
  filled_lem :
      (n : ℕ) (s : S)
      → (n ≡ 6) ⊎ (n ≡ length all)
      → length all ≤ n
      → ((filled drv dev sector ro n s).0.0 ≡ pos (length all))
        × (take (length all) (filled drv dev sector ro n s).0.1 ≡ all)
  unfolding filled
  filled_lem n s a h =
      let e : 0 + length all ≡ length all = omega arith in
      rw (report_lem n s a, take_all n all h)
        (
          refl,
          ap (λ k. take k (splice (replicate n no_domain) 0 all)) (sym e)
              ∙ take-splice (replicate n no_domain) 0 all
                  (omega (arith, length-replicate n no_domain)),
        )

  first_lem : (s : S) → (filled drv dev sector ro 6 s).0.0 ≡ pos (length all)
  unfolding filled
  first_lem s = rw (report_lem 6 s (inl refl)) refl

-- The first `n` entries of the array that the outcome has.
unfoldable pub held : Listing ZoneDomain → ℕ → List ZoneDomain
held l n = elim l.array [ none ↦ [] | some a ↦ elim a [ none ↦ [] | some ds ↦ take n ds ] ]

-- On a device with domains or realms and a driver that reports its domains into arrays of those two
-- sizes, and while the two
-- allocations it makes succeed, zbc_list_domains succeeds, sets the count to the number of all
-- domains to report (a number below 2 ^ 31), and its array holds all of them, in order, whether or
-- not they fit the six entries of the first report.
pub list_domains_complete :
    {S : Type 0} {drv : Drv S} {dev : Device} {sector ro : ℕ} {all : List ZoneDomain}
    → ReportsDomains drv dev sector ro all
    → (calloc : ℕ → Bool) (s : S) → zbc_dev_is_zdr dev ≡ true
    → calloc 6 ≡ true
    → calloc (length all) ≡ true
    → length all < 2 ^ 31
    → let l = (zbc_list_domains drv dev calloc sector ro true true s).0 in
      (l.ret ≡ pos 0) × (l.count ≡ some (length all)) × (held l (length all) ≡ all)
unfolding zbc_list_domains listing held
list_domains_complete {S} {drv} {dev} {sector} {ro} {all} d calloc s zdr six room small =
    elim (dec_lt 6 (length all)) [
      | yes more ↦
          let s₁ = (filled drv dev sector ro 6 s).1 in
          let second = filled_lem d zdr (length all) s₁ (inr refl) (omega arith) in
          rw (zdr, six, first_lem d zdr s, lt→ltb 6 (length all) more, room, second.0)
            (refl, refl, second.1)
      | no few ↦
          let first = filled_lem d zdr 6 s (inl refl) (omega arith) in
          rw (zdr, six, first.0, ge→ltb 6 (length all) (omega arith)) (refl, refl, first.1)
    ]
