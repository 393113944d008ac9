-- ===== src/Zones/Suffix.antt =====
-- A report that starts where the zone reported last ends goes on with the next zone to report.
use libzbc.Base.{ℕ, zero, suc, ◌+◌, ◌≤◌, ◌<◌, ◌≡◌, refl, arith, Bool, Bool-cases}
use libzbc.Base.{List, [], ◌∷◌, inl, inr, ltb, length, get_or, drop, ge→ltb, lt→ltb}
use mathlib.Core.Path.{subst}
use libzbc.Device.{Zone}
use libzbc.Zones.{no_zone}
use libzbc.Zones.Spec.{Covers, from_sector, matching, reported}

-- The first sector behind a zone.
abbrev pub zone_end : Zone → ℕ
zone_end z = z.zbz_start + z.zbz_length

-- The zones begin where they say, and none is empty.
pub Covers-le : (a b : ℕ) (zs : List Zone) → Covers a b zs → a ≤ b
Covers-le a b [] c = omega arith
Covers-le a b (z ∷ zs) c = omega (arith, Covers-le (a + z.zbz_length) b zs c.2)

module _ (p : Zone → Bool) where
  -- A zone to report ends behind the start of the first zone, and not behind the end.
  pub matching_end :
      (a b : ℕ) (zs : List Zone) (m : ℕ)
      → Covers a b zs
      → m < length (matching p zs)
      → (a < zone_end (get_or (matching p zs) m no_zone))
        × (zone_end (get_or (matching p zs) m no_zone) ≤ b)
  unfolding matching
  matching_end a b [] m c h = absurd (omega arith)
  matching_end a b (z ∷ zs) m c h = elim (Bool-cases (p z)) [
    | inl e ↦
        rw e (at m (λ k lt. later (matching_end (a + z.zbz_length) b zs k c.2 lt)) (rw e at h))
    | inr e ↦ rw e (later (matching_end (a + z.zbz_length) b zs m c.2 (rw e at h)))
  ]
    where
      later : {x : ℕ} → (a + z.zbz_length < x) × (x ≤ b) → (a < x) × (x ≤ b)
      later h = omega arith

      at :
          (k : ℕ)
          → ((j : ℕ)
              → j < length (matching p zs)
              → (a < zone_end (get_or (matching p zs) j no_zone))
                × (zone_end (get_or (matching p zs) j no_zone) ≤ b))
          → k < length (z ∷ matching p zs)
          → (a < zone_end (get_or (z ∷ matching p zs) k no_zone))
            × (zone_end (get_or (z ∷ matching p zs) k no_zone) ≤ b)
      at zero ih lt = omega (arith, Covers-le (a + z.zbz_length) b zs c.2)
      at (suc k) ih lt = ih k (omega arith)

-- Behind the end of the first zone nothing is left out.
from_sector-zone_end : (a b : ℕ) (zs : List Zone) → Covers a b zs → from_sector a zs ≡ zs
unfolding from_sector
from_sector-zone_end a b [] c = refl
from_sector-zone_end a b (z ∷ zs) c = rw (lt→ltb a (zone_end z) (omega arith))

from_sector_skip :
    (t : ℕ) (z : Zone) (zs : List Zone) → zone_end z ≤ t → from_sector t (z ∷ zs) ≡ from_sector t zs
unfolding from_sector
from_sector_skip t z zs h = rw (ge→ltb t (zone_end z) h)

module _ (p : Zone → Bool) where
  -- From the end of zone `m` to report on, the zones to report are those behind it.
  matching_after :
      (a b : ℕ) (zs : List Zone) (m : ℕ)
      → Covers a b zs
      → m < length (matching p zs)
      → matching p (from_sector (zone_end (get_or (matching p zs) m no_zone)) zs)
        ≡ drop (suc m) (matching p zs)
  unfolding matching
  matching_after a b [] m c h = absurd (omega arith)
  matching_after a b (z ∷ zs) m c h = elim (Bool-cases (p z)) [
    | inl e ↦ rw e (at m (λ k lt. matching_after (a + z.zbz_length) b zs k c.2 lt) (rw e at h))
    | inr e ↦ rw e (skip m (rw e at h) (matching_after (a + z.zbz_length) b zs m c.2 (rw e at h)))
  ]
    where
      skip :
          (k : ℕ) {l : List Zone}
          → k < length (matching p zs)
          → matching p (from_sector (zone_end (get_or (matching p zs) k no_zone)) zs) ≡ l
          → matching p (from_sector (zone_end (get_or (matching p zs) k no_zone)) (z ∷ zs)) ≡ l
      skip k lt ih =
          rw
            (from_sector_skip (zone_end (get_or (matching p zs) k no_zone)) z zs
              (omega (arith, matching_end p (a + z.zbz_length) b zs k c.2 lt)))
            ih

      first : Covers (zone_end z) b zs
      first =
          let e : a + z.zbz_length ≡ zone_end z = omega arith in subst (λ t. Covers t b zs) e c.2

      at :
          (k : ℕ)
          → ((j : ℕ)
              → j < length (matching p zs)
              → matching p (from_sector (zone_end (get_or (matching p zs) j no_zone)) zs)
                ≡ drop (suc j) (matching p zs))
          → k < length (z ∷ matching p zs)
          → matching p (from_sector (zone_end (get_or (z ∷ matching p zs) k no_zone)) (z ∷ zs))
            ≡ drop k (matching p zs)
      at zero ih lt = rw (
        from_sector_skip (zone_end z) z zs (omega arith),
        from_sector-zone_end (zone_end z) b zs first,
      )
      at (suc k) ih lt = skip k (omega arith) (ih k (omega arith))

  -- What follows zone `m` of the list `l` in the zones from `a` to `b`.
  abbrev Continues : ℕ → ℕ → List Zone → ℕ → List Zone → Type 0
  Continues a b zs m l =
      (zone_end (get_or l m no_zone) ≤ b)
      × (a < zone_end (get_or l m no_zone))
      × (matching p (from_sector (zone_end (get_or l m no_zone)) zs) ≡ drop (suc m) l)

  Continues-skip :
      (a b : ℕ) (z : Zone) (zs : List Zone) (m : ℕ) (l : List Zone)
      → z.zbz_start ≡ a
      → Continues (a + z.zbz_length) b zs m l
      → Continues a b (z ∷ zs) m l
  Continues-skip a b z zs m l e ih = (
    ih.0,
    omega (arith, ih.1),
    rw (from_sector_skip (zone_end (get_or l m no_zone)) z zs (omega (arith, ih.1))) ih.2,
  )

  matching_from_after :
      (a b s : ℕ) (zs : List Zone) (m : ℕ)
      → Covers a b zs
      → m < length (matching p (from_sector s zs))
      → Continues a b zs m (matching p (from_sector s zs))
  matching_from_after a b s [] m c h = absurd (none_left h)
    where
      none_left : m < length (matching p (from_sector s [])) → ⊥
      none_left h = unfold matching from_sector in omega arith
  matching_from_after a b s (z ∷ zs) m c h = elim (Bool-cases (ltb s (zone_end z))) [
    | inl e ↦
        let hit : from_sector s (z ∷ zs) ≡ z ∷ zs = unfold from_sector in rw e in
        rw hit (
          let lt : m < length (matching p (z ∷ zs)) = rw hit at h in
          (
            (matching_end p a b (z ∷ zs) m c lt).1,
            (matching_end p a b (z ∷ zs) m c lt).0,
            matching_after a b (z ∷ zs) m c lt,
          ))
    | inr e ↦
        let miss : from_sector s (z ∷ zs) ≡ from_sector s zs = unfold from_sector in rw e in
        rw miss (
          Continues-skip a b z zs m (matching p (from_sector s zs)) c.0
            (matching_from_after (a + z.zbz_length) b s zs m c.2 (rw miss at h)))
  ]

  -- The same for a report that starts at any sector.
  pub reported_after :
      (b s : ℕ) (zs : List Zone) (m : ℕ)
      → Covers 0 b zs
      → m < length (reported p zs s)
      → (zone_end (get_or (reported p zs s) m no_zone) ≤ b)
        × (reported p zs (zone_end (get_or (reported p zs s) m no_zone))
            ≡ drop (suc m) (reported p zs s))
  unfolding reported
  reported_after b s zs m c h = let (le, lt, e) = matching_from_after 0 b s zs m c h in (le, e)

-- At the capacity there is nothing left to report.
from_sector_capacity : (a b : ℕ) (zs : List Zone) → Covers a b zs → from_sector b zs ≡ []
unfolding from_sector
from_sector_capacity a b [] c = refl
from_sector_capacity a b (z ∷ zs) c =
    rw (ge→ltb b (zone_end z) (omega (arith, Covers-le (a + z.zbz_length) b zs c.2)))
      (from_sector_capacity (a + z.zbz_length) b zs c.2)

pub reported_capacity :
    (p : Zone → Bool) (a b : ℕ) (zs : List Zone) → Covers a b zs → reported p zs b ≡ []
unfolding reported
reported_capacity p a b zs c = rw (from_sector_capacity a b zs c)
