-- ===== src/Realms.antt =====
-- Zone realms: zbc_report_realms, zbc_list_zone_realms and the sector helpers of lib/zbc.c, and
-- the functions on a realm of include/libzbc/zbc.h.
pub mod Items
use libzbc.Base.{
  ℕ, zero, suc, ◌+◌, ◌-◌, ◌*◌, ◌/◌, ◌%◌, ◌^◌, bit_and, Bool, true, false, not, ◌&&◌, ◌||◌, Option,
  none, some, List, [], ◌∷◌, ◌==◌, if◌then◌else◌,
}
use libzbc.Base.{
  u64, sub64, has, get_or, splice, replicate, ℤ, pos, is_neg, is_zero, neg_einval, neg_enomem,
  neg_enotsup, neg_enxio,
}
use libzbc.Device.{Device, RealmItem, ZoneRealm, zbc_dev_is_zdr}
use libzbc.Device.ZoneType as ZoneType
use libzbc.Device.DevFlag as DevFlag
use libzbc.Device.Sectors.{zbc_dev_sect2lba, zbc_dev_lba2sect}
use libzbc.Device.Driver.{Drv, Filled}

abbrev pub no_item : RealmItem
no_item = record {
  zbi_start_sector = 0;
  zbi_end_sector = 0;
  zbi_length = 0;
  zbi_dom_id = 0;
  zbi_type = 0;
}

-- Memory that calloc cleared. A realm has an item for each zone type.
abbrev pub no_realm : ZoneRealm
no_realm = record {
  zbr_number = 0;
  zbr_dom_id = 0;
  zbr_type = 0;
  zbr_actv_flags = 0;
  zbr_nr_domains = 0;
  zbr_restr = 0;
  zbr_ri = replicate 4 no_item;
}

-- The item of a domain: an empty one above the fourth, where C reads behind the array.
abbrev pub item : ZoneRealm → ℕ → RealmItem
item r dom_id = get_or r.zbr_ri dom_id no_item

unfoldable pub zbc_realm_start_sector : ZoneRealm → ℕ → ℕ
zbc_realm_start_sector r dom_id = (item r dom_id).zbi_start_sector

unfoldable pub zbc_realm_end_sector : ZoneRealm → ℕ → ℕ
zbc_realm_end_sector r dom_id = (item r dom_id).zbi_end_sector

unfoldable pub zbc_realm_sector_length : ZoneRealm → ℕ → ℕ
zbc_realm_sector_length r dom_id =
    u64 (sub64 (zbc_realm_end_sector r dom_id) (zbc_realm_start_sector r dom_id) + 1)

unfoldable pub zbc_realm_start_lba : Device → ZoneRealm → ℕ → ℕ
zbc_realm_start_lba dev r dom_id = zbc_dev_sect2lba dev (zbc_realm_start_sector r dom_id)

unfoldable pub zbc_realm_end_lba : Device → ZoneRealm → ℕ → ℕ
zbc_realm_end_lba dev r dom_id = zbc_dev_sect2lba dev (zbc_realm_end_sector r dom_id)

unfoldable pub zbc_realm_high_sector : Device → ZoneRealm → ℕ → ℕ
zbc_realm_high_sector dev r dom_id =
    sub64 (zbc_dev_lba2sect dev (u64 (zbc_realm_end_lba dev r dom_id + 1))) 1

unfoldable pub zbc_realm_lblock_length : Device → ZoneRealm → ℕ → ℕ
zbc_realm_lblock_length dev r dom_id =
    u64 (sub64 (zbc_realm_end_lba dev r dom_id) (zbc_realm_start_lba dev r dom_id) + 1)

unfoldable pub zbc_realm_activation_allowed : ZoneRealm → Bool
zbc_realm_activation_allowed r = not (has r.zbr_restr 0x01)

unfoldable pub zbc_realm_wp_reset_allowed : ZoneRealm → Bool
zbc_realm_wp_reset_allowed r = not (has r.zbr_restr 0x02)

unfoldable pub zbc_realm_actv_as_dom_id : ZoneRealm → ℕ → Bool
zbc_realm_actv_as_dom_id r dom_id = has r.zbr_actv_flags (2 ^ dom_id)

-- The loops over the items, by those left, at index `i`.
unfoldable pub as_type_loop : ZoneRealm → ℕ → ℕ → ℕ → Bool
as_type_loop r zt zero i = false
as_type_loop r zt (suc left) i =
    let rest = as_type_loop r zt left (suc i) in
    if zt == (item r i).zbi_type then has r.zbr_actv_flags (2 ^ i) else rest

unfoldable pub zbc_realm_actv_as_type : ZoneRealm → ℕ → Bool
unfolding as_type_loop
zbc_realm_actv_as_type r zt = as_type_loop r zt r.zbr_nr_domains 0

unfoldable pub by_type_loop : ZoneRealm → ℕ → ℕ → ℕ → Option RealmItem
by_type_loop r zt zero i = none
by_type_loop r zt (suc left) i =
    let rest = by_type_loop r zt left (suc i) in
    if zt == (item r i).zbi_type then some (item r i) else rest

unfoldable pub zbc_realm_item_by_type : ZoneRealm → ℕ → Option RealmItem
unfolding by_type_loop
zbc_realm_item_by_type r zt = by_type_loop r zt r.zbr_nr_domains 0

-- The two loops that look for an item of either of two types that can be activated.
unfoldable pub actv_as_loop : ZoneRealm → ℕ → ℕ → ℕ → ℕ → Bool
actv_as_loop r a b zero i = false
actv_as_loop r a b (suc left) i =
    let t = (item r i).zbi_type in
    let rest = actv_as_loop r a b left (suc i) in
    if ((t == a) || (t == b)) && has r.zbr_actv_flags (2 ^ i) then true else rest

unfoldable pub zbc_zone_realm_actv_as_conv : ZoneRealm → Bool
unfolding actv_as_loop
zbc_zone_realm_actv_as_conv r =
    actv_as_loop r ZoneType.conventional ZoneType.seq_or_bef_req r.zbr_nr_domains 0

unfoldable pub zbc_zone_realm_actv_as_seq : ZoneRealm → Bool
unfolding actv_as_loop
zbc_zone_realm_actv_as_seq r =
    actv_as_loop r ZoneType.sequential_req ZoneType.sequential_pref r.zbr_nr_domains 0

unfoldable pub zbc_realm_length : ZoneRealm → ℕ → ℕ
zbc_realm_length r dom_id = (item r dom_id).zbi_length

unfoldable pub zbc_realm_zone_type : ZoneRealm → ℕ → ℕ
zbc_realm_zone_type r dom_id = (item r dom_id).zbi_type

unfoldable pub zbc_zone_realm_sobr : ZoneRealm → Bool
zbc_zone_realm_sobr r = r.zbr_type == ZoneType.seq_or_bef_req

unfoldable pub zbc_zone_realm_sequential : ZoneRealm → Bool
zbc_zone_realm_sequential r = r.zbr_type == ZoneType.sequential_req

unfoldable pub zbc_zone_realm_seq_pref : ZoneRealm → Bool
zbc_zone_realm_seq_pref r = r.zbr_type == ZoneType.sequential_pref

module _ {S : Type 0} (drv : Drv S) (dev : Device) where
  -- `realms` is false for a NULL array.
  unfoldable pub zbc_report_realms : ℕ → ℕ → Bool → ℕ → S → Filled ZoneRealm × S
  zbc_report_realms sector ro realms nr_realms s =
      let nr = if realms then nr_realms else 0 in
      if not (zbc_dev_is_zdr dev)
      then (record { ret = neg_enotsup; stored = []; nr = nr_realms }, s)
      else if has dev.zbd_info.zbd_flags DevFlag.report_realms_support
      then drv.zbd_report_realms dev sector ro realms nr s
      else (record { ret = neg_enxio; stored = []; nr = nr }, s)

  -- The code, and what is stored through the pointers: the array, or NULL, and the count. The Boolean
  -- says whether the array's pointer is not NULL; `zbc_report_nr_realms` asks from sector 0 for all.
  unfoldable pub zbc_list_zone_realms :
      (ℕ → Bool) → ℕ → ℕ → Bool → S → (ℤ × Option (Option (List ZoneRealm)) × Option ℕ) × S
  zbc_list_zone_realms calloc sector ro prealms s =
      let (r, s₁) = zbc_report_realms 0 0 false 0 s in
      let (q, s₂) = zbc_report_realms sector ro true r.nr s₁ in
      if not prealms
      then ((neg_einval, none, none), s)
      else if not (zbc_dev_is_zdr dev)
      then ((neg_enotsup, some none, none), s)
      else if is_neg r.ret
      then ((r.ret, some none, none), s₁)
      else if not (calloc r.nr)
      then ((neg_enomem, some none, none), s₁)
      else if not (is_zero q.ret)
      then ((q.ret, some none, none), s₂)
      else ((pos 0, some (some (splice (replicate r.nr no_realm) 0 q.stored)), some q.nr), s₂)
