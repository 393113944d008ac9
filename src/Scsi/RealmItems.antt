-- ===== src/Scsi/RealmItems.antt =====
-- The reading of zone realm descriptors, the same text in zbc_scsi_report_realms of lib/zbc_scsi.c
-- and zbc_ata_report_realms of lib/zbc_ata.c but for the readers of integers, which are arguments.
-- The realms are those of the caller's array, whose other fields stay. A number is a uint16_t and a
-- restriction a uint8_t there.
use libzbc.Base.{
  ℕ, zero, suc, ◌+◌, ◌/◌, ◌^◌, bit_or, List, [], ◌∷◌, ◌++◌, ◌==◌, ltb, if◌then◌else◌, u8, u16, u32,
  u64, sub64, get_or, set, take, drop, replicate,
}
use libzbc.Device.{Device, ZoneDomain, ZoneRealm, RealmItem}
use libzbc.Device.Sectors.{zbc_dev_lba2sect}
use libzbc.Domains.{no_domain}
use libzbc.Realms.{no_item, no_realm}
use libzbc.Sg.Sense.{sb}

-- The number of domains that is kept, ZBC_NR_ZONE_TYPES at most.
abbrev pub kept_domains : ℕ → ℕ
kept_domains n = if ltb 4 n then 4 else n

-- The array of the domains, which calloc cleared.
abbrev pub domain_array : List ZoneDomain → List ZoneDomain
domain_array ds = take 4 (ds ++ replicate 4 no_domain)

-- zbc_zone_domain_zone_size, and 0 for a domain without zones.
unfoldable pub zone_size_of : ZoneDomain → ℕ
zone_size_of d =
    if d.zbm_nr_zones == 0
    then 0
    else u32 (sub64 (u64 (d.zbm_end_sector + 1)) d.zbm_start_sector / d.zbm_nr_zones)

module _ (dev : Device) (get64 : List ℕ → ℕ → ℕ) (domains : List ZoneDomain) where
  -- The item of domain `j` from the start and the end at `ptr`.
  unfoldable pub fill_item : ℕ → List ℕ → RealmItem → RealmItem
  fill_item j ptr it =
      let d = get_or domains j no_domain in
      let first = zbc_dev_lba2sect dev (get64 ptr 0) in
      let last = zbc_dev_lba2sect dev (get64 ptr 8) in
      let size = zone_size_of d in
      record {
        zbi_start_sector = first;
        zbi_end_sector = last;
        zbi_length = if size == 0 then it.zbi_length else u32 (sub64 (u64 (last + 1)) first / size);
        zbi_dom_id = j;
        zbi_type = d.zbm_type;
      }

  -- One round of the loop over the domains: an item without an end is not of the realm.
  unfoldable pub fill_round : ℕ → List ℕ → ZoneRealm → ZoneRealm
  fill_round j ptr r =
      let it = get_or r.zbr_ri j no_item in
      if zbc_dev_lba2sect dev (get64 ptr 8) == 0
      then record r { zbr_ri = set r.zbr_ri j (record it { zbi_end_sector = 0 }) }
      else record r {
        zbr_actv_flags = bit_or r.zbr_actv_flags (2 ^ j);
        zbr_ri = set r.zbr_ri j (fill_item j ptr it);
      }

  -- The loop, by the domains left.
  unfoldable pub fill_loop : ℕ → ℕ → List ℕ → ZoneRealm → ZoneRealm
  unfolding fill_round
  fill_loop zero j ptr r = r
  fill_loop (suc left) j ptr r = fill_loop left (j + 1) (drop 16 ptr) (fill_round j ptr r)

  -- The type of a realm, when its domain is one of the array.
  unfoldable pub realm_type : ℕ → ZoneRealm → ℕ
  realm_type dom_id r =
      if ltb dom_id 4 then (get_or domains dom_id no_domain).zbm_type else r.zbr_type

  -- A descriptor of the standard layout.
  unfoldable pub fill_realm :
      (List ℕ → ℕ → ℕ) → (List ℕ → ℕ → ℕ) → ℕ → List ℕ → ZoneRealm → ZoneRealm
  unfolding fill_loop realm_type
  fill_realm get32 get16 nr_domains buf r =
      let dom_id = sb buf 7 in
      fill_loop nr_domains 0 (drop 16 buf) (record r {
        zbr_number = u16 (get32 buf 0);
        zbr_restr = u8 (get16 buf 4);
        zbr_dom_id = dom_id;
        zbr_type = realm_type dom_id r;
        zbr_nr_domains = nr_domains;
      })

  -- The loop over the descriptors of `desc_len` bytes, by those left, with the realms of the array.
  -- An item is read at its place whatever `desc_len` is; behind the bytes received it is 0 here.
  unfoldable pub fill_realms :
      (List ℕ → ℕ → ℕ) → (List ℕ → ℕ → ℕ) → ℕ → ℕ → ℕ → List ℕ → List ZoneRealm → List ZoneRealm
  fill_realms get32 get16 nr_domains desc_len zero buf realms = []
  fill_realms get32 get16 nr_domains desc_len (suc left) buf realms =
      fill_realm get32 get16 nr_domains buf (get_or realms 0 no_realm)
      ∷ fill_realms get32 get16 nr_domains desc_len left (drop desc_len buf) (drop 1 realms)
