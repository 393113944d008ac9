-- ===== src/Domains.antt =====
-- Zone domains in lib/zbc.c: zbc_report_domains, zbc_list_domains and the sector helpers.
pub mod Complete
use libzbc.Base.{
  ℕ, ◌+◌, ◌-◌, ◌*◌, ◌/◌, ◌%◌, ◌^◌, Bool, not, Option, none, some, List, [], ltb, if◌then◌else◌,
}
use libzbc.Base.{
  u64, sub64, splice, replicate, ℤ, pos, is_neg, pos_part, neg_einval, neg_enomem, neg_enotsup,
}
use libzbc.Device.{Device, ZoneDomain, zbc_dev_is_zdr}
use libzbc.Device.Sectors.{zbc_dev_sect2lba, zbc_dev_lba2sect}
use libzbc.Device.Driver.{Drv}

-- Memory that calloc cleared.
abbrev pub no_domain : ZoneDomain
no_domain = record {
  zbm_start_sector = 0;
  zbm_end_sector = 0;
  zbm_nr_zones = 0;
  zbm_id = 0;
  zbm_type = 0;
  zbm_flags = 0;
}

-- The outcome of a call that allocates an array: the code, and what is stored through the two
-- pointers, if anything; a NULL array is the inner empty option.
pub record Listing (A : Type 0) : Type 0 where
  pub ret : ℤ
  pub array : Option (Option (List A))
  pub count : Option ℕ

unfoldable pub empty_with : {A : Type 0} → ℤ → Listing A
empty_with ret = record { ret = ret; array = some none; count = some 0 }

module _ {S : Type 0} (drv : Drv S) (dev : Device) where
  unfoldable pub call_domains :
      Option (Device → ℕ → ℕ → ℕ → S → (ℤ × List ZoneDomain) × S)
      → ℕ
      → ℕ
      → ℕ
      → S
      → (ℤ × List ZoneDomain) × S
  call_domains none sector ro nr_domains s = ((neg_enotsup, []), s)
  call_domains (some f) sector ro nr_domains s = f dev sector ro nr_domains s

  -- The code, and what is stored from the array's start on.
  unfoldable pub zbc_report_domains : ℕ → ℕ → ℕ → S → (ℤ × List ZoneDomain) × S
  unfolding call_domains
  zbc_report_domains sector ro nr_domains s =
      if not (zbc_dev_is_zdr dev)
      then ((neg_enotsup, []), s)
      else call_domains drv.zbd_report_domains sector ro nr_domains s

  -- A report into a cleared array of `n` domains.
  unfoldable pub filled : ℕ → ℕ → ℕ → S → (ℤ × List ZoneDomain) × S
  filled sector ro n s =
      let ((ret, ds), s') = zbc_report_domains sector ro n s in
      ((ret, splice (replicate n no_domain) 0 ds), s')

  -- The outcome once a report has succeeded.
  unfoldable pub listing : ℤ × List ZoneDomain → Listing ZoneDomain
  listing (ret, ds) = record { ret = pos 0; array = some (some ds); count = some (pos_part ret) }

  -- `calloc` says whether the allocation of that many domains succeeds. The Booleans say whether
  -- the two pointers are not NULL. 6 is ZBC_EST_ALLOC_DOMAINS.
  unfoldable pub zbc_list_domains : (ℕ → Bool) → ℕ → ℕ → Bool → Bool → S → Listing ZoneDomain × S
  unfolding empty_with filled listing
  zbc_list_domains calloc sector ro pdomains pnr_domains s =
      let (first, s₁) = filled sector ro 6 s in
      let n = pos_part first.0 in
      let (second, s₂) = filled sector ro n s₁ in
      if not pdomains
      then (record { ret = neg_einval; array = none; count = none }, s)
      else if not pnr_domains
      then (record { ret = neg_einval; array = some none; count = none }, s)
      else if not (zbc_dev_is_zdr dev)
      then (empty_with neg_enotsup, s)
      else if not (calloc 6)
      then (empty_with neg_enomem, s)
      else if is_neg first.0
      then (empty_with first.0, s₁)
      else if not (ltb 6 n)
      then (listing first, s₁)
      else if not (calloc n)
      then (empty_with neg_enomem, s₁)
      else if is_neg second.0
      then (empty_with second.0, s₂)
      else (listing second, s₂)

unfoldable pub zbc_zone_domain_start_lba : Device → ZoneDomain → ℕ
zbc_zone_domain_start_lba dev d = zbc_dev_sect2lba dev d.zbm_start_sector

unfoldable pub zbc_zone_domain_end_lba : Device → ZoneDomain → ℕ
zbc_zone_domain_end_lba dev d = zbc_dev_sect2lba dev d.zbm_end_sector

unfoldable pub zbc_zone_domain_high_sect : Device → ZoneDomain → ℕ
unfolding zbc_zone_domain_end_lba
zbc_zone_domain_high_sect dev d =
    sub64 (zbc_dev_lba2sect dev (u64 (zbc_zone_domain_end_lba dev d + 1))) 1
