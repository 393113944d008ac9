-- ===== src/Examples/ListWitnesses.antt =====
-- The theorems on lists of zones, domains, realms and activation results at concrete inputs.
use libzbc.Base.{ℕ, ◌≡◌, refl, arith, Bool, true, false, [], take, some, pos, if◌then◌else◌}
use libzbc.Device.{zbc_dev_is_zoned, zbc_dev_is_zdr}
use libzbc.Zones.{zbc_list_zones}
use libzbc.Zones.Spec.{reported, from_sector, matching}
use libzbc.Zones.Listing.{listed_zones, list_zones_complete}
use libzbc.Domains.{zbc_list_domains}
use libzbc.Domains.Complete.{ReportsDomains, held, list_domains_complete}
use libzbc.Realms.{zbc_realm_item_by_type, zbc_realm_actv_as_type}
use libzbc.Realms.Items.{OfType, realm_item-OfType}
use libzbc.Activation.{Request, zbc_zone_query_list, zbc_get_nr_actv_records}
use libzbc.Activation.Complete.{Answers, listed, query_list_complete}
use libzbc.Examples.{
  drive, zdr_drive, drive_drv, every, drive_zones, drive_domains, drive_results, drive-Reports,
  realm_at,
}

-- An allocator that never fails.
abbrev granted : ℕ → Bool
granted n = true

drive-ReportsDomains : ReportsDomains drive_drv zdr_drive 0 0 drive_domains
drive-ReportsDomains = record {
  function = λ dev sector ro n log. ((pos 7, take n drive_domains), log);
  in_table = refl;
  reports = λ n s h. refl;
}

abbrev request : Request
request = record {
  zsrc = false;
  all = false;
  use_32_byte_cdb = false;
  sector = 0;
  nr_zones = 2;
  domain_id = 1;
}

drive-Answers : Answers drive_drv zdr_drive request drive_results
drive-Answers = record {
  function = λ dev zsrc all cdb32 query sector n id array nr log.
      (record { ret = pos 0; stored = if array then drive_results else []; nr = 2 }, log);
  in_table = refl;
  counts = λ s. (refl, refl);
  stores = λ s. (refl, refl, refl);
}

list_zones_complete_example :
    let (ret, out) = (zbc_list_zones drive_drv (pos 7) drive granted 8 0 []).0 in
    (ret ≡ pos 0) × (listed_zones out ≡ reported every drive_zones 8)
unfolding reported from_sector matching
list_zones_complete_example =
    list_zones_complete 0 drive-Reports (λ sector s g h. (refl, refl, tt)) granted (pos 7) 8 [] tt
      (omega arith) (omega arith) refl (omega arith)

list_domains_complete_example :
    let l = (zbc_list_domains drive_drv zdr_drive granted 0 0 true true []).0 in
    (l.ret ≡ pos 0) × (l.count ≡ some 7) × (held l 7 ≡ drive_domains)
unfolding zbc_dev_is_zdr zbc_dev_is_zoned
list_domains_complete_example =
    list_domains_complete drive-ReportsDomains granted [] refl refl refl (omega arith)

query_list_complete_example :
    let (ret, out) = (zbc_zone_query_list drive_drv zdr_drive granted request []).0 in
    ((zbc_get_nr_actv_records drive_drv zdr_drive request []).0 ≡ pos 2)
    × (ret ≡ pos 0)
    × (listed out ≡ drive_results)
unfolding zbc_dev_is_zdr zbc_dev_is_zoned
query_list_complete_example = query_list_complete drive-Answers granted [] refl refl (omega arith)

realm_item-OfType_example :
    OfType
      (realm_at 1)
      0
      (zbc_realm_item_by_type (realm_at 1) 0)
      (zbc_realm_actv_as_type (realm_at 1) 0)
realm_item-OfType_example = realm_item-OfType (realm_at 1) 0
