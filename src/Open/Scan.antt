-- ===== src/Open/Scan.antt =====
-- Which backend zbc_open and zbc_device_is_zoned of lib/zbc.c settle on.
use libzbc.Base.{
  ℕ, Bool, true, false, none, some, List, [], ◌∷◌, ◌++◌, ◌≡◌, refl, ◌⊎◌, inr, ℤ, pos, negsuc,
  is_neg,
}
use libzbc.Device.{Device}
use libzbc.Open.{
  Backend, Opening, opened, refused, probed, scan, allows, neg_enodev, is_enxio,
  zbc_get_domain_info, finish_open, zbc_open, finish_test, zbc_device_is_zoned,
}

-- The loop passes over these backends: each is one that is not tried, or it answers -ENXIO. The
-- numbers are the code and the state before and after.
pub data Passes {P S : Type 0} (tried : Backend P S → Bool) (path : P) (flags : ℕ)
    : List (Backend P S) → ℤ → S → ℤ → S → Type 0 where
  done : {r : ℤ} {s : S} → Passes tried path flags [] r s r s
  untried :
      {b : Backend P S} {bs : List (Backend P S)} {r r' : ℤ} {s s' : S}
      → tried b ≡ false
      → Passes tried path flags bs r s r' s'
      → Passes tried path flags (b ∷ bs) r s r' s'
  answers :
      {b : Backend P S} {bs : List (Backend P S)} {r r' : ℤ} {s s₁ s' : S}
      → tried b ≡ true
      → b.zbd_open path flags s ≡ (refused (negsuc 5), s₁)
      → Passes tried path flags bs (negsuc 5) s₁ r' s'
      → Passes tried path flags (b ∷ bs) r s r' s'

module _ {P S : Type 0} (tried : Backend P S → Bool) (path : P) (flags : ℕ) where
  scan-Passes :
      (after : List (Backend P S)) {bs : List (Backend P S)} {r r' : ℤ} {s s' : S}
      → Passes tried path flags bs r s r' s'
      → scan tried path flags (bs ++ after) r s ≡ scan tried path flags after r' s'
  unfolding scan probed
  scan-Passes after done = refl
  scan-Passes after (untried no_try p) = rw no_try (scan-Passes after p)
  scan-Passes after (answers try e p) = rw (try, e) (scan-Passes after p)

  scan_settles :
      (b : Backend P S) (bs : List (Backend P S)) (o : Opening) (r : ℤ) (s s' : S)
      → tried b ≡ true
      → b.zbd_open path flags s ≡ (o, s')
      → scan tried path flags (b ∷ bs) r s ≡ probed b o s' (scan tried path flags bs (negsuc 5) s')
  unfolding scan
  scan_settles b bs o r s s' try e = rw (try, e) refl

module _ {P S : Type 0} (realpath : P → ℕ ⊎ P) (calloc : ℕ → Bool) where
  -- Where the path resolves, the backends in front of `b` in the table are not allowed by the flags
  -- or answer -ENXIO, and `b` is allowed and accepts the device, zbc_open stores the device of `b`,
  -- its domain information taken, whatever backends follow, and returns the code of
  -- zbc_get_domain_info.
  pub open_first_accepts :
      (before after : List (Backend P S)) (b : Backend P S) (filename path : P) (flags : ℕ)
      (dev : Device) (r : ℤ) (s s₁ s₂ : S)
      → realpath filename ≡ inr path
      → Passes (allows flags) path flags before neg_enodev s r s₁
      → allows flags b ≡ true
      → b.zbd_open path flags s₁ ≡ (opened dev, s₂)
      → let info = zbc_get_domain_info b.drv calloc dev s₂ in
        zbc_open (before ++ (b ∷ after)) realpath calloc filename flags s
        ≡ (some (record { ret = info.0.0; pdev = some (b, info.0.1) }), info.1)
  unfolding zbc_open finish_open probed
  open_first_accepts before after b filename path flags dev r s s₁ s₂ found p try e =
      rw
        (
          found,
          scan-Passes (allows flags) path flags (b ∷ after) p,
          scan_settles (allows flags) path flags b after (opened dev) r s₁ s₂ try e,
        )
        refl

  -- Where the path resolves, the backends in front of `b` in the table are not allowed by the flags
  -- or answer -ENXIO, and `b` is allowed and answers another error, zbc_open returns that error and
  -- stores no device, and calls no backend behind `b`.
  pub open_first_error :
      (before after : List (Backend P S)) (b : Backend P S) (filename path : P) (flags : ℕ)
      (r ret : ℤ) (s s₁ s₂ : S)
      → realpath filename ≡ inr path
      → Passes (allows flags) path flags before neg_enodev s r s₁
      → allows flags b ≡ true
      → b.zbd_open path flags s₁ ≡ (refused ret, s₂)
      → is_enxio ret ≡ false
      → zbc_open (before ++ (b ∷ after)) realpath calloc filename flags s
        ≡ (some (record { ret = ret; pdev = none }), s₂)
  unfolding zbc_open finish_open probed
  open_first_error before after b filename path flags r ret s s₁ s₂ found p try e other =
      rw
        (
          found,
          scan-Passes (allows flags) path flags (b ∷ after) p,
          scan_settles (allows flags) path flags b after (refused ret) r s₁ s₂ try e,
          other,
        )
        refl

  -- Where the path resolves, the backends in front of `b` in the table answer -ENXIO, `b` accepts
  -- the device and the domain information is got, zbc_device_is_zoned returns 1 with the
  -- information that results, and the device is closed after.
  pub is_zoned_first_accepts :
      (before after : List (Backend P S)) (b : Backend P S) (filename path : P) (dev : Device)
      (r : ℤ) (s s₁ s₂ : S)
      → realpath filename ≡ inr path
      → Passes (λ b. true) path 0 before (pos 0) s r s₁
      → b.zbd_open path 0 s₁ ≡ (opened dev, s₂)
      → is_neg (zbc_get_domain_info b.drv calloc dev s₂).0.0 ≡ false
      → let info = zbc_get_domain_info b.drv calloc dev s₂ in
        zbc_device_is_zoned (before ++ (b ∷ after)) realpath calloc filename s ≡ (
          some (record { ret = pos 1; info = some info.0.1.zbd_info }),
          (b.zbd_close info.0.1 info.1).1,
        )
  unfolding zbc_device_is_zoned finish_test probed
  is_zoned_first_accepts before after b filename path dev r s s₁ s₂ found p e good =
      rw
        (
          found,
          scan-Passes (λ b. true) path 0 (b ∷ after) p,
          scan_settles (λ b. true) path 0 b after (opened dev) r s₁ s₂ refl e,
          good,
        )
        refl
