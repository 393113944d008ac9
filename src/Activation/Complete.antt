-- ===== src/Activation/Complete.antt =====
-- zbc_zone_query_list lists all activation results.
use libzbc.Base.{ℕ, ◌+◌, ◌<◌, ◌^◌, ◌≡◌, refl, sym, ap, ◌∙◌, arith, Bool, true, false}
use libzbc.Base.{
  Option, none, some, List, [], length, take, splice, replicate, take-splice, length-replicate,
  lt→ltb, pos,
}
use libzbc.Device.{Device, ActvRes, zbc_dev_is_zdr}
use libzbc.Device.Driver.{Drv, Filled}
use libzbc.Activation.{
  Request, no_record, query_actv, call_actv, to_int, zbc_get_nr_actv_records, zbc_zone_query_list,
}

-- The promise of a driver for a request: a query with no array gives the number of the results, and a
-- query into an array with room for them stores them.
pub record Answers {S : Type 0} (drv : Drv S) (dev : Device) (q : Request) (results : List ActvRes)
    : Type 0 where
  pub function : Device → Bool → Bool → Bool → Bool → ℕ → ℕ → ℕ → Bool → ℕ → S → Filled ActvRes × S
  pub in_table : drv.zbd_zone_query_actv ≡ some function
  pub counts :
      (s : S)
      → let r =
          (function dev q.zsrc q.all q.use_32_byte_cdb true q.sector q.nr_zones q.domain_id false 0
            s).0 in
        (r.ret ≡ pos 0) × (r.nr ≡ length results)
  pub stores :
      (s : S)
      → let r =
          (function dev q.zsrc q.all q.use_32_byte_cdb true q.sector q.nr_zones q.domain_id true
            (length results)
            s).0 in
        (r.ret ≡ pos 0) × (r.nr ≡ length results) × (r.stored ≡ results)

-- The entries of the array that is stored, if one is, up to the count stored.
unfoldable pub listed : Option (List ActvRes × ℕ) → List ActvRes
listed none = []
listed (some (rs, n)) = take n rs

module _ {S : Type 0} {drv : Drv S} {dev : Device} {q : Request} {results : List ActvRes}
    (d : Answers drv dev q results) where
  -- On a device with domains or realms, with a driver that answers the query with less than 2 ^ 31
  -- results, and while the allocation succeeds, zbc_get_nr_actv_records gives their number, and
  -- zbc_zone_query_list succeeds and stores exactly the results, in order, with their number.
  pub query_list_complete :
      (calloc : ℕ → Bool) (s : S)
      → zbc_dev_is_zdr dev ≡ true
      → calloc (length results) ≡ true
      → length results < 2 ^ 31
      → let (ret, out) = (zbc_zone_query_list drv dev calloc q s).0 in
        ((zbc_get_nr_actv_records drv dev q s).0 ≡ pos (length results))
        × (ret ≡ pos 0)
        × (listed out ≡ results)
  unfolding zbc_zone_query_list zbc_get_nr_actv_records query_actv call_actv to_int listed
  query_list_complete calloc s zdr room small =
      let first = d.counts s in
      let s₁ =
        (d.function dev q.zsrc q.all q.use_32_byte_cdb true q.sector q.nr_zones q.domain_id false 0
          s).1 in
      let second = d.stores s₁ in
      let e : 0 + length results ≡ length results = omega arith in
      rw
        (
          zdr,
          d.in_table,
          first.0,
          first.1,
          lt→ltb (length results) (2 ^ 31) small,
          room,
          second.0,
          second.1,
          second.2,
        )
        (
          refl,
          refl,
          ap (λ k. take k (splice (replicate (length results) no_record) 0 results)) (sym e)
              ∙ take-splice (replicate (length results) no_record) 0 results
                  (omega (arith, length-replicate (length results) no_record)),
        )
