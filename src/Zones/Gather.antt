-- ===== src/Zones/Gather.antt =====
-- The loop of zbc_report_zones gathers the zones to report, partial report by partial report.
use libzbc.Base.{ℕ, zero, suc, ◌+◌, ◌-◌, ◌^◌, ◌≤◌, ◌<◌, min, ◌≡◌, refl, sym, ap, ◌∙◌, ◌⊎◌, arith}
use libzbc.Base.{Bool, true, false, Bool-cases, inl, inr, List, [], ◌++◌, bit_or, ℤ, pos}
use libzbc.Base.{
  u32, u64, length, take, drop, get_or, splice, length-splice, take-splice, get_or-take,
}
use libzbc.Base.{
  get_or-drop, take_all, ge→ltb, lt→ltb, ltb→lt, ltb, is_zero, &&-false, leb, ◌==◌, leb→le, leb→gt,
  ==→eq, take-append-take, drop-drop, length-drop, length-take,
}
use native.Mathlib.Decide.{dec_lt}
use libzbc.Device.{Device, Zone, ro_partial, zbc_rz_ro_mask}
use libzbc.Device.Driver.{Drv, Filled}
use libzbc.Zones.{no_zone, end_of, report_zones_loop}
use libzbc.Zones.Spec.{Reports, reported}
use libzbc.Zones.Suffix.{zone_end, reported_after, reported_capacity}

mod_small : (a : ℕ) → a < 2 ^ 64 → u64 a ≡ a
mod_small a h = omega arith

module _ {S : Type 0} {drv : Drv S} {dev : Device} {ok : S → Type 0} {ro : ℕ} {p : Zone → Bool}
    {zs : List Zone} (d : Reports drv dev ok ro p zs) (all : List Zone) where
  -- The invariant of the loop: the array begins with the first `k` zones to report, and what a
  -- report from `sector` on would give is the rest.
  pub record Inv (sector k n : ℕ) (zones : List Zone) : Type 0 where
    pub room : n ≤ length zones
    pub small : n < 2 ^ 32
    pub below : k ≤ n
    pub within : k ≤ length all
    pub inside : sector < dev.zbd_info.zbd_sectors
    pub held : take k zones ≡ take k all
    pub ahead : reported p zs sector ≡ drop k all

  abbrev reply : ℕ → ℕ → S → Filled Zone
  reply sector n s =
      (drv.zbd_report_zones dev sector (bit_or (zbc_rz_ro_mask ro) ro_partial) true n s).0

  module _ {sector k n : ℕ} {zones : List Zone} (i : Inv sector k n zones) (s : S) (g : ok s) where
    abbrev r : Filled Zone
    r = reply sector (n - k) s

    nr_le : (r.nr ≤ n - k) × (r.nr ≤ length all - k)
    nr_le = (
      (d.fits sector (n - k) s g i.inside).0,
      omega (arith, (d.fits sector (n - k) s g i.inside).1, ap length i.ahead, length-drop k all),
    )

    length-stored : length r.stored ≡ r.nr
    length-stored = omega (
      arith,
      ap length (d.stores sector (n - k) s g i.inside),
      length-take r.nr (reported p zs sector),
      d.fits sector (n - k) s g i.inside,
    )

    now_held : take (k + r.nr) (splice zones k r.stored) ≡ take (k + r.nr) all
    now_held =
        ap (λ t. take (k + t) (splice zones k r.stored)) (sym length-stored)
        ∙ take-splice zones k r.stored (omega (arith, length-stored, nr_le, i.room))
        ∙ ap (λ l. l ++ r.stored) i.held
        ∙ ap (λ l. take k all ++ l) (d.stores sector (n - k) s g i.inside ∙ ap (take r.nr) i.ahead)
        ∙ take-append-take k r.nr all

    last_lem :
        0 < r.nr
        → get_or (splice zones k r.stored) (k + r.nr - 1) no_zone
          ≡ get_or (reported p zs sector) (r.nr - 1) no_zone
    last_lem h =
        let at : k + (r.nr - 1) ≡ k + r.nr - 1 = omega arith in
        sym (get_or-take (k + r.nr) (splice zones k r.stored) (k + r.nr - 1) no_zone (omega arith))
        ∙ ap (λ l. get_or l (k + r.nr - 1) no_zone) now_held
        ∙ get_or-take (k + r.nr) all (k + r.nr - 1) no_zone (omega arith)
        ∙ ap (λ j. get_or all j no_zone) (sym at)
        ∙ sym (get_or-drop k all (r.nr - 1) no_zone)
        ∙ ap (λ l. get_or l (r.nr - 1) no_zone) (sym i.ahead)

    -- The next sector, as the code computes it.
    abbrev next : ℕ
    next = end_of (get_or (splice zones k r.stored) (u32 (k + r.nr) - 1) no_zone)

    some_pos : (r.nr == 0) ≡ false → 0 < r.nr
    some_pos e = ground arith

    no_wrap : u32 (k + r.nr) ≡ k + r.nr
    no_wrap = omega (arith, nr_le, i.below, i.small)

    after :
        0 < r.nr → (next ≤ dev.zbd_info.zbd_sectors) × (reported p zs next ≡ drop (k + r.nr) all)
    after h =
        let (le, e) =
          reported_after p dev.zbd_info.zbd_sectors sector zs (r.nr - 1) d.covers
            (omega (arith, (d.fits sector (n - k) s g i.inside).1)) in
        let z : Zone = get_or (reported p zs sector) (r.nr - 1) no_zone in
        let there : next ≡ zone_end z =
          ap (λ j. end_of (get_or (splice zones k r.stored) (j - 1) no_zone)) no_wrap
          ∙ ap end_of (last_lem h)
          ∙ mod_small (zone_end z) (omega (arith, le, d.capacity)) in
        let count : suc (r.nr - 1) ≡ r.nr = omega arith in
        rw there (
          le,
          e
              ∙ ap (λ j. drop j (reported p zs sector)) count
              ∙ ap (drop r.nr) i.ahead
              ∙ drop-drop k r.nr all,
        )

    next-Inv :
        0 < r.nr
        → next < dev.zbd_info.zbd_sectors
        → Inv next (u32 (k + r.nr)) n (splice zones k r.stored)
    next-Inv h lt = record {
      room = omega (arith, i.room, length-splice zones k r.stored);
      small = i.small;
      below = omega (arith, nr_le, i.below);
      within = omega (arith, nr_le, i.within);
      inside = lt;
      held = rw no_wrap now_held;
      ahead = (after h).1 ∙ ap (λ j. drop j all) (sym no_wrap);
    }

    -- With no zone reported, or the end reached, all zones to report are in the array.
    complete : drop (k + r.nr) all ≡ [] → length all ≡ k + r.nr
    complete e = omega (arith, ap length e, length-drop (k + r.nr) all, nr_le, i.within)

    none_left : r.nr ≡ 0 → (k < n) → length all ≡ k
    none_left e lt = elim (dec_lt 0 (length all - k)) [
      | yes more ↦ absurd (
          omega (
            arith,
            e,
            d.progress sector (n - k) s g i.inside (omega arith)
                (omega (arith, more, ap length i.ahead, length-drop k all)),
          ))
      | no none ↦ omega (arith, i.within)
    ]

    -- The two ways the loop ends with the report complete.
    empty_held : r.nr ≡ 0 → k < n → take k (splice zones k r.stored) ≡ take n all
    empty_held e lt =
        let len : length all ≡ k = none_left e lt in
        let same : k + r.nr ≡ k = omega arith in
        ap (λ j. take j (splice zones k r.stored)) (sym same)
        ∙ now_held
        ∙ take_all (k + r.nr) all (omega arith)
        ∙ sym (take_all n all (omega arith))

    nothing_ahead : 0 < r.nr → dev.zbd_info.zbd_sectors ≤ next → length all ≡ k + r.nr
    nothing_ahead h last =
        let at_end : next ≡ dev.zbd_info.zbd_sectors = omega (arith, (after h).0) in
        complete (
          sym (after h).1
          ∙ ap (reported p zs) at_end
          ∙ reported_capacity p 0 dev.zbd_info.zbd_sectors zs d.covers)

    full_held : length all ≡ k + r.nr → take (u32 (k + r.nr)) (splice zones k r.stored) ≡ take n all
    full_held len =
        rw no_wrap (now_held ∙ take_all (k + r.nr) all (omega arith))
        ∙ sym (take_all n all (omega (arith, nr_le, i.below)))

  -- What a finished loop leaves.
  abbrev pub Done : ℕ → Filled Zone → Type 0
  Done n r = (r.ret ≡ pos 0) × (r.nr ≡ min n (length all)) × (take r.nr r.stored ≡ take n all)

  pub loop-Done :
      (rounds sector k n : ℕ) (zones : List Zone) (ret : ℤ) (s : S)
      → ok s
      → Inv sector k n zones
      → n ≤ k + rounds
      → (ret ≡ pos 0) ⊎ (k < n)
      → Done n (report_zones_loop drv dev ro n rounds sector k zones ret s).0
  unfolding report_zones_loop
  loop-Done zero sector k n zones ret s g i h (inl e) =
      let full : k ≡ n = omega (arith, i.below) in
      (e, omega (arith, i.within), i.held ∙ ap (λ j. take j all) full)
  loop-Done zero sector k n zones ret s g i h (inr lt) = absurd (omega arith)
  loop-Done (suc rounds) sector k n zones ret s g i h e = elim (dec_lt k n) [
    | no ge ↦ rw (ge→ltb k n (omega arith)) (
        let full : k ≡ n = omega (arith, i.below) in
        (came e ge, omega (arith, i.within), i.held ∙ ap (λ j. take j all) full))
    | yes lt ↦
        rw
          (
            lt→ltb k n lt,
            lt→ltb sector dev.zbd_info.zbd_sectors i.inside,
            d.succeeds sector (n - k) s g i.inside,
          )
          (elim (Bool-cases ((r i s g).nr == 0)) [
            | inl z ↦ rw z (
                let e0 = ==→eq (r i s g).nr 0 z in
                (refl, omega (arith, none_left i s g e0 lt), empty_held i s g e0 lt))
            | inr some' ↦ rw some' (elim (Bool-cases (leb dev.zbd_info.zbd_sectors (next i s g))) [
              | inl last ↦ rw last (
                  let len = nothing_ahead i s g (some_pos i s g some') (leb→le _ _ last) in
                  (refl, omega (arith, len, no_wrap i s g, nr_le i s g), full_held i s g len))
              | inr more ↦ rw more (
                  loop-Done rounds (next i s g) (u32 (k + (r i s g).nr)) n
                    (splice zones k (r i s g).stored) (pos 0)
                    (drv.zbd_report_zones dev sector (bit_or (zbc_rz_ro_mask ro) ro_partial) true
                      (n - k) s).1
                    (d.stays sector (n - k) s g i.inside)
                    (next-Inv i s g (some_pos i s g some') (leb→gt _ _ more))
                    (omega (arith, some_pos i s g some', no_wrap i s g)) (inl refl))
            ])
          ])
  ]
    where
      came : (ret ≡ pos 0) ⊎ (k < n) → ¬ (k < n) → ret ≡ pos 0
      came (inl e) ge = e
      came (inr lt) ge = absurd (ge lt)

  -- The loop leaves a state in which the promise holds.
  pub loop-ok :
      (rounds sector k n : ℕ) (zones : List Zone) (ret : ℤ) (s : S)
      → ok s
      → ok (report_zones_loop drv dev ro n rounds sector k zones ret s).1
  unfolding report_zones_loop
  loop-ok zero sector k n zones ret s g = g
  loop-ok (suc rounds) sector k n zones ret s g =
      elim (Bool-cases (ltb sector dev.zbd_info.zbd_sectors)) [
        | inr out ↦ rw (out, &&-false) g
        | inl lt ↦
            let sent =
              drv.zbd_report_zones dev sector (bit_or (zbc_rz_ro_mask ro) ro_partial) true (n - k)
                s in
            let g' : ok sent.1 =
              d.stays sector (n - k) s g (ltb→lt sector dev.zbd_info.zbd_sectors lt) in
            let array = splice zones k sent.0.stored in
            let last = end_of (get_or array (u32 (k + sent.0.nr) - 1) no_zone) in
            let rest = loop-ok rounds last (u32 (k + sent.0.nr)) n array sent.0.ret sent.1 g' in
            elim (Bool-cases (ltb k n)) [
              | inr full ↦ rw (lt, full) g
              | inl more ↦ elim (Bool-cases (is_zero sent.0.ret)) [
                | inr bad ↦ rw (lt, more, bad) g'
                | inl good ↦ elim (Bool-cases (sent.0.nr == 0)) [
                  | inl none ↦ rw (lt, more, good, none) g'
                  | inr some' ↦ elim (Bool-cases (leb dev.zbd_info.zbd_sectors last)) [
                    | inl end ↦ rw (lt, more, good, some', end) g'
                    | inr on ↦ rw (lt, more, good, some', on) rest
                  ]
                ]
              ]
            ]
      ]
