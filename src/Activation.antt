-- ===== src/Activation.antt =====
-- Zone activation in lib/zbc.c: zbc_zone_activate, zbc_zone_query, zbc_get_nr_actv_records,
-- zbc_zone_query_list and zbc_zone_activation_ctl.
pub mod Complete
use libzbc.Base.{
  ℕ, ◌+◌, ◌-◌, ◌%◌, ◌^◌, Bool, true, false, not, Option, none, some, List, [], ltb, if◌then◌else◌,
}
use libzbc.Base.{
  u32, splice, replicate, ℤ, pos, negsuc, is_neg, is_zero, pos_part, neg_enomem, neg_enotsup,
}
use libzbc.Device.{Device, ActvRes, DevControl, zbc_dev_is_zdr}
use libzbc.Device.Driver.{Drv, Filled}

-- Memory that calloc cleared.
abbrev pub no_record : ActvRes
no_record = record {
  zbe_start_zone = 0;
  zbe_nr_zones = 0;
  zbe_domain = 0;
  zbe_type = 0;
  zbe_condition = 0;
}

-- What a caller asks for: `zsrc`, `all`, `use_32_byte_cdb`, `sector`, `nr_zones`, `domain_id`.
pub record Request : Type 0 where
  pub zsrc : Bool
  pub all : Bool
  pub use_32_byte_cdb : Bool
  pub sector : ℕ
  pub nr_zones : ℕ
  pub domain_id : ℕ

-- A `uint32_t` as an `int`.
unfoldable pub to_int : ℕ → ℤ
to_int n = if ltb n (2 ^ 31) then pos n else negsuc (2 ^ 32 - n - 1)

module _ {S : Type 0} (drv : Drv S) (dev : Device) where
  -- The driver's function. The first Boolean is that for a query; the other says whether the array
  -- is not NULL.
  unfoldable pub call_actv :
      Option (Device → Bool → Bool → Bool → Bool → ℕ → ℕ → ℕ → Bool → ℕ → S → Filled ActvRes × S)
      → Bool
      → Request
      → Bool
      → ℕ
      → S
      → Filled ActvRes × S
  call_actv none query q recs nr s = (record { ret = neg_enotsup; stored = []; nr = nr }, s)
  call_actv (some f) query q recs nr s =
      f dev q.zsrc q.all q.use_32_byte_cdb query q.sector q.nr_zones q.domain_id recs nr s

  -- Behind the guards that the functions share.
  unfoldable pub query_actv : Bool → Request → Bool → ℕ → S → Filled ActvRes × S
  unfolding call_actv
  query_actv query q recs nr s =
      if not (zbc_dev_is_zdr dev)
      then (record { ret = neg_enotsup; stored = []; nr = nr }, s)
      else call_actv drv.zbd_zone_query_actv query q recs nr s

  unfoldable pub zbc_zone_activate : Request → Bool → ℕ → S → Filled ActvRes × S
  unfolding query_actv
  zbc_zone_activate = query_actv false

  unfoldable pub zbc_zone_query : Request → Bool → ℕ → S → Filled ActvRes × S
  unfolding query_actv
  zbc_zone_query = query_actv true

  unfoldable pub zbc_get_nr_actv_records : Request → S → ℤ × S
  unfolding query_actv to_int
  zbc_get_nr_actv_records q s =
      let (r, s') = query_actv true q false 0 s in
      (if is_zero r.ret then to_int r.nr else r.ret, s')

  -- The code, and the array and the count that are stored, if they are. `calloc` says whether the
  -- allocation of that many records succeeds.
  unfoldable pub zbc_zone_query_list :
      (ℕ → Bool) → Request → S → (ℤ × Option (List ActvRes × ℕ)) × S
  unfolding query_actv
  zbc_zone_query_list calloc q s =
      let (ret, s₁) = zbc_get_nr_actv_records q s in
      let n = pos_part ret in
      let (r, s₂) = query_actv true q true n s₁ in
      if not (zbc_dev_is_zdr dev)
      then ((neg_enotsup, none), s)
      else if is_neg ret
      then ((ret, none), s₁)
      else if not (calloc n)
      then ((neg_enomem, none), s₁)
      else ((r.ret, some (splice (replicate n no_record) 0 r.stored, r.nr)), s₂)

  call_control :
      Option (Device → DevControl → Bool → S → (ℤ × DevControl) × S)
      → DevControl
      → Bool
      → S
      → (ℤ × DevControl) × S
  call_control none ctl set s = ((neg_enotsup, ctl), s)
  call_control (some f) ctl set s = f dev ctl set s

  unfoldable pub zbc_zone_activation_ctl : DevControl → Bool → S → (ℤ × DevControl) × S
  unfolding call_control
  zbc_zone_activation_ctl ctl set s =
      if not (zbc_dev_is_zdr dev)
      then ((neg_enotsup, ctl), s)
      else call_control drv.zbd_dev_control ctl set s
