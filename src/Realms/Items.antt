-- ===== src/Realms/Items.antt =====
-- The items of a realm by zone type.
use libzbc.Base.{
  ℕ, zero, suc, ◌+◌, ◌<◌, ◌^◌, ◌≡◌, ◌≢◌, arith, inl, inr, Bool, false, Bool-cases, Option, none,
  some, has, ◌==◌, ==→eq,
}
use libzbc.Device.{RealmItem, ZoneRealm}
use libzbc.Realms.{item, as_type_loop, by_type_loop, zbc_realm_item_by_type, zbc_realm_actv_as_type}
use mathlib.Core.Path.{subst}
use native.Mathlib.Decide.{dec_lt}

-- The item that a zone type has in a realm, and whether the realm can be activated as it: those of
-- the first item of the type, by its flag, or none if no item of the realm's domains has the type.
pub data OfType (r : ZoneRealm) (zt : ℕ) : Option RealmItem → Bool → Type 0 where
  absent : ((j : ℕ) → j < r.zbr_nr_domains → zt ≢ (item r j).zbi_type) → OfType r zt none false
  first :
      (i : ℕ)
      → i < r.zbr_nr_domains
      → zt ≡ (item r i).zbi_type
      → ((j : ℕ) → j < i → zt ≢ (item r j).zbi_type)
      → OfType r zt (some (item r i)) (has r.zbr_actv_flags (2 ^ i))

ne_of : (a b : ℕ) → (a == b) ≡ false → a ≢ b
ne_of a b h e = ground arith

module _ (r : ZoneRealm) (zt : ℕ) where
  -- None of the items before the index has the type.
  abbrev Passed : ℕ → Type 0
  Passed i = (j : ℕ) → j < i → zt ≢ (item r j).zbi_type

  pass : (i : ℕ) → Passed i → zt ≢ (item r i).zbi_type → Passed (suc i)
  pass i p ne j h = elim (dec_lt j i) [
    | yes lt ↦ p j lt
    | no ge ↦ let e : i ≡ j = omega arith in subst (λ k. zt ≢ (item r k).zbi_type) e ne
  ]

  loop-OfType :
      (left i : ℕ)
      → i + left ≡ r.zbr_nr_domains
      → Passed i
      → OfType r zt (by_type_loop r zt left i) (as_type_loop r zt left i)
  unfolding by_type_loop as_type_loop
  loop-OfType zero i e p = absent (λ j h. p j (omega arith))
  loop-OfType (suc left) i e p = elim (Bool-cases (zt == (item r i).zbi_type)) [
    | inl h ↦ rw h (first i (omega arith) (==→eq zt (item r i).zbi_type h) p)
    | inr h ↦ rw h (loop-OfType left (suc i) (omega arith) (pass i p (ne_of _ _ h)))
  ]

-- For every realm and zone type, zbc_realm_item_by_type gives the first item of the type among those
-- of the realm's domains and zbc_realm_actv_as_type the activation flag at that item's index; if no
-- item has the type they give NULL and false.
pub realm_item-OfType :
    (r : ZoneRealm) (zt : ℕ)
    → OfType r zt (zbc_realm_item_by_type r zt) (zbc_realm_actv_as_type r zt)
unfolding zbc_realm_item_by_type zbc_realm_actv_as_type
realm_item-OfType r zt =
    loop-OfType r zt r.zbr_nr_domains 0 (omega arith) (λ j h. absurd (omega arith))
