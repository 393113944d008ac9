-- ===== src/Scsi/ModeFields.antt =====
-- The update of the zone domains mode page changes the fields asked for and no other.
use libzbc.Base.{
  ℕ, ◌+◌, ◌%◌, ◌^◌, ◌≤◌, ◌<◌, ◌≡◌, ◌≢◌, refl, ap, ◌∙◌, inl, inr, arith, Bool, true, false, not,
  ◌==◌, List, length, length-set, get_or, set, get_or-set_self, get_or-set_ne, u16, u32,
  if◌then◌else◌,
}
use libzbc.Bytes.{set_int32, set_int16, get_int32, get_int16}
use libzbc.Bytes.RoundTrip.{
  set_bytes_out, length-set_bytes, get_int32_lem, get_int16_lem, get_int32-set_int32,
  get_int16-set_int16,
}
use libzbc.Device.{DevControl}
use libzbc.Scsi.Mode.{update_page, read_control}

-- Two pages agree where it counts when the bytes of the fields do.
same_32 :
    (p q : List ℕ)
    → ((i : ℕ) → i < 4 → get_or p (0 + i) 0 ≡ get_or q (0 + i) 0)
    → get_int32 p 0 ≡ get_int32 q 0
same_32 p q h = omega (
  arith,
  get_int32_lem p 0,
  get_int32_lem q 0,
  h 0 (omega arith),
  h 1 (omega arith),
  h 2 (omega arith),
  h 3 (omega arith),
)

same_16 :
    (p q : List ℕ)
    → ((i : ℕ) → i < 2 → get_or p (12 + i) 0 ≡ get_or q (12 + i) 0)
    → get_int16 p 12 ≡ get_int16 q 12
same_16 p q h =
    omega (arith, get_int16_lem p 12, get_int16_lem q 12, h 0 (omega arith), h 1 (omega arith))

-- The three updates, each made or not.
module _ (b : Bool) (p : List ℕ) (v : ℕ) where
  abbrev with_zones : List ℕ
  with_zones = if b then set_int32 p 0 v else p

  abbrev with_urswrz : List ℕ
  with_urswrz = if b then set p 6 v else p

  abbrev with_activate : List ℕ
  with_activate = if b then set_int16 p 12 v else p

zones_out : (b : Bool) (p : List ℕ) (v i : ℕ) → 4 ≤ i → get_or (with_zones b p v) i 0 ≡ get_or p i 0
unfolding set_int32
zones_out true p v i h = set_bytes_out p 0 (u32 v) 4 i (inr (omega arith))
zones_out false p v i h = refl

urswrz_out :
    (b : Bool) (p : List ℕ) (v i : ℕ)
    → ◌≢◌ {A = ℕ} 6 i
    → get_or (with_urswrz b p v) i 0 ≡ get_or p i 0
urswrz_out true p v i h = get_or-set_ne p 6 i v 0 h
urswrz_out false p v i h = refl

activate_out :
    (b : Bool) (p : List ℕ) (v i : ℕ) → i < 12 → get_or (with_activate b p v) i 0 ≡ get_or p i 0
unfolding set_int16
activate_out true p v i h = set_bytes_out p 12 (u16 v) 2 i (inl h)
activate_out false p v i h = refl

zones_in :
    (b : Bool) (p : List ℕ) (v : ℕ)
    → 4 ≤ length p
    → get_int32 (with_zones b p v) 0 ≡ (if b then v % 2 ^ 32 else get_int32 p 0)
zones_in true p v h = get_int32-set_int32 p 0 v (omega arith)
zones_in false p v h = refl

urswrz_in :
    (b : Bool) (p : List ℕ) (v : ℕ)
    → 6 < length p
    → get_or (with_urswrz b p v) 6 0 ≡ (if b then v else get_or p 6 0)
urswrz_in true p v h = get_or-set_self p 6 v 0 h
urswrz_in false p v h = refl

activate_in :
    (b : Bool) (p : List ℕ) (v : ℕ)
    → 14 ≤ length p
    → get_int16 (with_activate b p v) 12 ≡ (if b then v % 2 ^ 16 else get_int16 p 12)
activate_in true p v h = get_int16-set_int16 p 12 v (omega arith)
activate_in false p v h = refl

zones_length : (b : Bool) (p : List ℕ) (v : ℕ) → length (with_zones b p v) ≡ length p
unfolding set_int32
zones_length true p v = length-set_bytes p 0 (u32 v) 4
zones_length false p v = refl

urswrz_length : (b : Bool) (p : List ℕ) (v : ℕ) → length (with_urswrz b p v) ≡ length p
urswrz_length true p v = length-set p 6 v
urswrz_length false p v = refl

-- On a page of 14 bytes or more, what is read of the updated page is, field by field, the value
-- given, reduced to the field's width, or the field of the old page where the value given has all
-- bits set.
pub update_page_fields :
    (ctl : DevControl) (page : List ℕ)
    → 14 ≤ length page
    → let c = read_control (update_page ctl page).1 in
      (c.zbt_nr_zones ≡ (
        if not (ctl.zbt_nr_zones == 0xffffffff)
        then ctl.zbt_nr_zones % 2 ^ 32
        else get_int32 page 0))
      × (c.zbt_urswrz ≡ (if not (ctl.zbt_urswrz == 0xff) then ctl.zbt_urswrz else get_or page 6 0))
      × (c.zbt_max_activate ≡ (
          if not (ctl.zbt_max_activate == 0xffff)
          then ctl.zbt_max_activate % 2 ^ 16
          else get_int16 page 12))
unfolding update_page read_control
update_page_fields ctl page h =
    let zb = not (ctl.zbt_nr_zones == 0xffffffff) in
    let ub = not (ctl.zbt_urswrz == 0xff) in
    let ab = not (ctl.zbt_max_activate == 0xffff) in
    let p₁ = with_zones zb page ctl.zbt_nr_zones in
    let p₂ = with_urswrz ub p₁ ctl.zbt_urswrz in
    let p₃ = with_activate ab p₂ ctl.zbt_max_activate in
    let l₁ = zones_length zb page ctl.zbt_nr_zones in
    let l₂ = urswrz_length ub p₁ ctl.zbt_urswrz in
    (
      same_32 p₃ p₁ (λ i k.
            activate_out ab p₂ ctl.zbt_max_activate (0 + i) (omega arith)
            ∙ urswrz_out ub p₁ ctl.zbt_urswrz (0 + i) (λ e. omega (arith, e)))
          ∙ zones_in zb page ctl.zbt_nr_zones (omega arith),
      activate_out ab p₂ ctl.zbt_max_activate 6 (omega arith)
          ∙ urswrz_in ub p₁ ctl.zbt_urswrz (omega arith)
          ∙ ap (λ (t : ℕ). if ub then ctl.zbt_urswrz else t)
              (zones_out zb page ctl.zbt_nr_zones 6 (omega arith)),
      activate_in ab p₂ ctl.zbt_max_activate (omega arith)
          ∙ ap (λ (t : ℕ). if ab then ctl.zbt_max_activate % 2 ^ 16 else t)
              (same_16 p₂ page (λ i k.
                urswrz_out ub p₁ ctl.zbt_urswrz (12 + i) (λ e. omega (arith, e))
                ∙ zones_out zb page ctl.zbt_nr_zones (12 + i) (omega arith))),
    )
