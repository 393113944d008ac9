-- ===== src/Open/Balance.antt =====
-- The descriptors that zbc_open and zbc_device_is_zoned of lib/zbc.c leave open, over any table of
-- backends that keep theirs in order.
use libzbc.Base.{
  ℕ, ◌≡◌, refl, sym, ap, ◌∙◌, arith, Bool, true, false, inl, inr, Bool-cases, List, [], ◌∷◌, ◌⊎◌, ℤ,
  pos, negsuc, Option, some, none, is_neg,
}
use mathlib.Core.Path.{subst}
use libzbc.Device.{Device, ZoneDomain}
use libzbc.Device.Driver.{Drv}
use libzbc.Domains.{call_domains, zbc_report_domains, filled, zbc_list_domains}
use libzbc.Open.{
  Backend, Opening, opened, refused, trapped, Found, accepted, stopped, exhausted, crashed, probed,
  scan, allows, neg_enodev, is_enxio, Handle, Tested, zbc_get_domain_info, finish_open, zbc_open,
  finish_test, zbc_device_is_zoned, zbc_close, open_path, test_path,
}
use libzbc.Open.Descriptors.{Balanced}

module _ {S : Type 0} (held : S → List ℕ) where
  -- The report of the domains is not what opens or closes a descriptor.
  abbrev pub Asks : Option (Device → ℕ → ℕ → ℕ → S → (ℤ × List ZoneDomain) × S) → Type 0
  Asks none = Unit
  Asks (some g) = (dev : Device) (sector ro n : ℕ) (s : S) → held (g dev sector ro n s).1 ≡ held s

  call-Asks :
      (drv : Drv S) (r : Option (Device → ℕ → ℕ → ℕ → S → (ℤ × List ZoneDomain) × S))
      → Asks r
      → (dev : Device) (sector ro n : ℕ) (s : S)
      → held (call_domains drv dev r sector ro n s).1 ≡ held s
  unfolding call_domains
  call-Asks drv none asks dev sector ro n s = refl
  call-Asks drv (some g) asks dev sector ro n s = asks dev sector ro n s

  filled-Asks :
      (drv : Drv S)
      → Asks drv.zbd_report_domains
      → (dev : Device) (sector ro n : ℕ) (s : S) → held (filled drv dev sector ro n s).1 ≡ held s
  unfolding filled zbc_report_domains
  filled-Asks drv asks dev sector ro n s =
      ground (arith, call-Asks drv drv.zbd_report_domains asks dev sector ro n s)

  list-Asks :
      (drv : Drv S)
      → Asks drv.zbd_report_domains
      → (calloc : ℕ → Bool) (dev : Device) (s : S)
      → held (zbc_list_domains drv dev calloc 0 0 true true s).1 ≡ held s
  unfolding zbc_list_domains
  list-Asks drv asks calloc dev s = grind (arith, filled-Asks drv asks)

  pub domain_info-Asks :
      (drv : Drv S)
      → Asks drv.zbd_report_domains
      → (calloc : ℕ → Bool) (dev : Device) (s : S)
      → let r = zbc_get_domain_info drv calloc dev s in
        (r.0.1.zbd_fd ≡ dev.zbd_fd) × (held r.1 ≡ held s)
  unfolding zbc_get_domain_info
  domain_info-Asks drv asks calloc dev s = ground (arith, list-Asks drv asks calloc dev s)

  -- A backend that leaves open what it should.
  pub record Tidy {P : Type 0} (b : Backend P S) : Type 0 where
    pub asks : Asks b.drv.zbd_report_domains
    pub opens :
        (path : P) (flags : ℕ) (s : S)
        → let o = b.zbd_open path flags s in Balanced o.0 (held s) (held o.1)
    pub closes :
        (dev : Device) (rest : List ℕ) (s : S)
        → held s ≡ dev.zbd_fd ∷ rest
        → held (b.zbd_close dev s).1 ≡ rest

  abbrev pub AllTidy : {P : Type 0} → List (Backend P S) → Type 0
  AllTidy [] = Unit
  AllTidy (b ∷ bs) = Tidy b × AllTidy bs

  abbrev Settled : {P : Type 0} → Found P S → List ℕ → List ℕ → Type 0
  Settled (accepted b dev) before after = Tidy b × (after ≡ dev.zbd_fd ∷ before)
  Settled (stopped ret) before after = after ≡ before
  Settled (exhausted ret) before after = after ≡ before
  Settled crashed before after = Unit

  probed-Settled :
      {P : Type 0} (b : Backend P S) (o : Opening) (before : List ℕ) (s : S) (rest : Found P S × S)
      → Tidy b
      → Balanced o before (held s)
      → (held s ≡ before → Settled rest.0 before (held rest.1))
      → let r = probed b o s rest in Settled r.0 before (held r.1)
  unfolding probed
  probed-Settled b (opened dev) before s rest tidy e next = (tidy, e)
  probed-Settled b (refused ret) before s rest tidy e next = elim (Bool-cases (is_enxio ret)) [
    | inl again ↦ rw again (next e)
    | inr other ↦ rw other e
  ]
  probed-Settled b trapped before s rest tidy e next = tt

  scan-Settled :
      {P : Type 0} (tried : Backend P S → Bool) (path : P) (flags : ℕ) (bs : List (Backend P S))
      (ret : ℤ) (before : List ℕ) (s : S)
      → AllTidy bs
      → held s ≡ before
      → let r = scan tried path flags bs ret s in Settled r.0 before (held r.1)
  unfolding scan
  scan-Settled tried path flags [] ret before s all e = e
  scan-Settled tried path flags (b ∷ bs) ret before s all e = elim (Bool-cases (tried b)) [
    | inr skip ↦ rw skip (scan-Settled tried path flags bs ret before s all.1 e)
    | inl try ↦
        let (o, s') = b.zbd_open path flags s in
        let left : Balanced o before (held s') =
          subst (λ xs. Balanced o xs (held s')) e (all.0.opens path flags s) in
        rw try (
          probed-Settled b o before s' (scan tried path flags bs (negsuc 5) s') all.0 left
            (scan-Settled tried path flags bs (negsuc 5) before s' all.1))
  ]

  -- What the caller of zbc_open holds: the descriptor of the device that is stored, or none.
  -- A later zbc_close leaves what was there before.
  abbrev pub Holds : {P : Type 0} → Option (Backend P S × Device) → List ℕ → S → Type 0
  Holds none before s = held s ≡ before
  Holds (some (b, dev)) before s =
      (held s ≡ dev.zbd_fd ∷ before) × (held (zbc_close b dev s).1 ≡ before)

  abbrev pub HoldsOption : {P : Type 0} → Option (Handle P S) → List ℕ → S → Type 0
  HoldsOption none before s = Unit
  HoldsOption (some h) before s = Holds h.pdev before s

  finish-Holds :
      {P : Type 0} (calloc : ℕ → Bool) (drivers : List (Backend P S)) (realpath : P → ℕ ⊎ P)
      (before : List ℕ) (r : Found P S × S)
      → Settled r.0 before (held r.1)
      → let h = finish_open drivers realpath calloc r in HoldsOption h.0 before h.1
  unfolding finish_open zbc_close
  finish-Holds calloc drivers realpath before (accepted b dev, s) (tidy, e) =
      let r = zbc_get_domain_info b.drv calloc dev s in
      let (fd, kept) = domain_info-Asks b.drv tidy.asks calloc dev s in
      let one : held r.1 ≡ r.0.1.zbd_fd ∷ before = kept ∙ e ∙ ap (λ n. n ∷ before) (sym fd) in
      (one, tidy.closes r.0.1 before r.1 one)
  finish-Holds calloc drivers realpath before (stopped ret, s) e = e
  finish-Holds calloc drivers realpath before (exhausted ret, s) e = e
  finish-Holds calloc drivers realpath before (crashed, s) e = tt

  open_path-Holds :
      {P : Type 0} (calloc : ℕ → Bool) (drivers : List (Backend P S)) (realpath : P → ℕ ⊎ P)
      → AllTidy drivers
      → (found : ℕ ⊎ P) (flags : ℕ) (s : S)
      → let h = open_path drivers realpath calloc found flags s in HoldsOption h.0 (held s) h.1
  open_path-Holds calloc drivers realpath all (inl errno) flags s = refl
  open_path-Holds calloc drivers realpath all (inr path) flags s =
      finish-Holds calloc drivers realpath (held s)
        (scan (allows flags) path flags drivers neg_enodev s)
        (scan-Settled (allows flags) path flags drivers neg_enodev (held s) s all refl)

  pub open-Holds :
      {P : Type 0} (calloc : ℕ → Bool) (drivers : List (Backend P S)) (realpath : P → ℕ ⊎ P)
      (filename : P) (flags : ℕ) (s : S)
      → AllTidy drivers
      → let h = zbc_open drivers realpath calloc filename flags s in HoldsOption h.0 (held s) h.1
  unfolding zbc_open
  open-Holds calloc drivers realpath filename flags s all =
      open_path-Holds calloc drivers realpath all (realpath filename) flags s

  -- What zbc_device_is_zoned leaves, by where the loop over the backends ends: the descriptors of
  -- before, but for an accepted device whose domain information fails, which stays open.
  abbrev pub Leaves :
      {P : Type 0} → (ℕ → Bool) → List ℕ → Found P S × S → Option Tested × S → Type 0
  Leaves calloc before (accepted b dev, s) t =
      let failed = is_neg (zbc_get_domain_info b.drv calloc dev s).0.0 in
      (failed ≡ false → held t.1 ≡ before) × (failed ≡ true → held t.1 ≡ dev.zbd_fd ∷ before)
  Leaves calloc before (stopped ret, s) t = held t.1 ≡ before
  Leaves calloc before (exhausted ret, s) t = held t.1 ≡ before
  Leaves calloc before (crashed, s) t = Unit

  -- The same for a path, resolved or not.
  abbrev pub PathLeaves :
      {P : Type 0} → (ℕ → Bool) → List (Backend P S) → ℕ ⊎ P → S → Option Tested × S → Type 0
  PathLeaves calloc drivers (inl errno) s t = held t.1 ≡ held s
  PathLeaves calloc drivers (inr path) s t =
      Leaves calloc (held s) (scan (λ b. true) path 0 drivers (pos 0) s) t

  test-Leaves :
      {P : Type 0} (calloc : ℕ → Bool) (drivers : List (Backend P S)) (realpath : P → ℕ ⊎ P)
      (before : List ℕ) (r : Found P S × S)
      → Settled r.0 before (held r.1)
      → Leaves calloc before r (finish_test drivers realpath calloc r)
  unfolding finish_test
  test-Leaves calloc drivers realpath before (accepted b dev, s) (tidy, e) =
      let r = zbc_get_domain_info b.drv calloc dev s in
      let (fd, kept) = domain_info-Asks b.drv tidy.asks calloc dev s in
      (
        λ good. rw good (tidy.closes r.0.1 before r.1 (kept ∙ e ∙ ap (λ n. n ∷ before) (sym fd))),
        λ bad. rw bad (kept ∙ e),
      )
  test-Leaves calloc drivers realpath before (stopped ret, s) e = e
  test-Leaves calloc drivers realpath before (exhausted ret, s) e = e
  test-Leaves calloc drivers realpath before (crashed, s) e = tt

  test_path-Leaves :
      {P : Type 0} (calloc : ℕ → Bool) (drivers : List (Backend P S)) (realpath : P → ℕ ⊎ P)
      → AllTidy drivers
      → (found : ℕ ⊎ P) (s : S)
      → PathLeaves calloc drivers found s (test_path drivers realpath calloc found s)
  test_path-Leaves calloc drivers realpath all (inl errno) s = refl
  test_path-Leaves calloc drivers realpath all (inr path) s =
      test-Leaves calloc drivers realpath (held s) (scan (λ b. true) path 0 drivers (pos 0) s)
        (scan-Settled (λ b. true) path 0 drivers (pos 0) (held s) s all refl)

  pub is_zoned-Leaves :
      {P : Type 0} (calloc : ℕ → Bool) (drivers : List (Backend P S)) (realpath : P → ℕ ⊎ P)
      (filename : P) (s : S)
      → AllTidy drivers
      → PathLeaves calloc drivers
          (realpath filename)
          s
          (zbc_device_is_zoned drivers realpath calloc filename s)
  unfolding zbc_device_is_zoned
  is_zoned-Leaves calloc drivers realpath filename s all =
      test_path-Leaves calloc drivers realpath all (realpath filename) s
