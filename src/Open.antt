-- ===== src/Open.antt =====
-- The opening of a device in lib/zbc.c: zbc_get_domain_info, zbc_device_is_zoned, zbc_open,
-- zbc_close. The table zbc_drv is an argument, a list of backends, and so is realpath.
pub mod Scan
pub mod File
pub mod Kept
pub mod Steps
pub mod Table
pub mod Stats
pub mod TableBalance
pub mod Balance
pub mod Descriptors
pub mod ScsiSteps
use libzbc.Base.{
  ℕ, ◌+◌, bit_and, bit_or, Bool, true, false, not, ◌&&◌, ◌||◌, Option, none, some, List, [], ◌∷◌,
  ◌==◌, if◌then◌else◌, u16, has, take, ◌⊎◌, inl, inr, ℤ, pos, negsuc, is_neg,
}
use libzbc.Device.{Device, DeviceInfo, ZoneDomain, with_info}
use libzbc.Device.DevFlag as DevFlag
use libzbc.Device.ZoneType as ZoneType
use libzbc.Device.Driver.{Drv}
use libzbc.Domains.{zbc_list_domains}
use libzbc.Sg.Exec.{neg}

abbrev pub neg_enodev : ℤ
neg_enodev = negsuc 18

abbrev pub is_enxio : ℤ → Bool
is_enxio (pos n) = false
is_enxio (negsuc n) = n == 5

-- Whether the code is that errno value, negated.
abbrev is_errno : ℕ → ℤ → Bool
is_errno e (pos n) = false
is_errno e (negsuc n) = n + 1 == e

-- ZBC_O_DRV_MASK, the flags of the SCSI and of the ATA backend
abbrev drv_mask : ℕ
drv_mask = 0x06000000

-- What a backend's open function comes to: 0 with the device stored, another code, or a division by
-- zero on the way.
pub data Opening : Type 0 where
  opened : Device → Opening
  refused : ℤ → Opening
  trapped : Opening

-- A backend: the part of struct zbc_drv that opens and closes, and the table of the other functions.
pub record Backend (P S : Type 0) : Type 0 where
  pub flag : ℕ
  pub zbd_open : P → ℕ → S → Opening × S
  pub zbd_close : Device → S → ℤ × S
  pub drv : Drv S

-- Where the loop over the backends ends: at one that accepts the device, at a code other than
-- -ENXIO, at the end of the table with the last code, or in a trap.
pub data Found (P S : Type 0) : Type 0 where
  accepted : Backend P S → Device → Found P S
  stopped : ℤ → Found P S
  exhausted : ℤ → Found P S
  crashed : Found P S

-- The flag that a domain with shifting realm boundaries stands for.
unfoldable pub shifting_flag : ZoneDomain → ℕ
shifting_flag d =
    if not (has (u16 d.zbm_flags) 0x2 && has (u16 d.zbm_flags) 0x1)
    then 0
    else if d.zbm_type == ZoneType.conventional
    then DevFlag.conv_realms_shifting
    else if d.zbm_type == ZoneType.sequential_req
    then DevFlag.seq_req_realms_shifting
    else if d.zbm_type == ZoneType.sequential_pref
    then DevFlag.seq_pref_realms_shifting
    else if d.zbm_type == ZoneType.seq_or_bef_req
    then DevFlag.sobr_realms_shifting
    else 0

unfoldable pub shifting_flags : ℕ → List ZoneDomain → ℕ
unfolding shifting_flag
shifting_flags flags [] = flags
shifting_flags flags (d ∷ ds) = shifting_flags (bit_or flags (shifting_flag d)) ds

-- The domains of a listing that succeeded.
abbrev got_domains : Option (Option (List ZoneDomain)) → Option ℕ → List ZoneDomain
got_domains (some (some ds)) (some n) = take n ds
got_domains (some (some ds)) none = []
got_domains (some none) count = []
got_domains none count = []

unfoldable pub zbc_get_domain_info :
    {S : Type 0} → Drv S → (ℕ → Bool) → Device → S → (ℤ × Device) × S
unfolding shifting_flags
zbc_get_domain_info drv calloc dev s =
    let (l, s') = zbc_list_domains drv dev calloc 0 0 true true s in
    let flags = shifting_flags dev.zbd_info.zbd_flags (got_domains l.array l.count) in
    if not (has dev.zbd_info.zbd_flags DevFlag.zone_realms_support)
    then ((pos 0, dev), s)
    else if is_neg l.ret
    then ((l.ret, dev), s')
    else ((pos 0, with_info dev (record dev.zbd_info { zbd_flags = flags })), s')

-- What the caller of zbc_open gets; `pdev` is what is stored through the pointer.
pub record Handle (P S : Type 0) : Type 0 where
  pub ret : ℤ
  pub pdev : Option (Backend P S × Device)

-- What the caller of zbc_device_is_zoned gets.
pub record Tested : Type 0 where
  pub ret : ℤ
  pub info : Option DeviceInfo

module _ {P S : Type 0} where
  -- One round of the loop, with what the rounds behind it come to.
  unfoldable pub probed : Backend P S → Opening → S → Found P S × S → Found P S × S
  probed b (opened dev) s rest = (accepted b dev, s)
  probed b (refused ret) s rest = if is_enxio ret then rest else (stopped ret, s)
  probed b trapped s rest = (crashed, s)

  -- The loop over the backends that are left, with the code of the last one tried.
  unfoldable pub scan : (Backend P S → Bool) → P → ℕ → List (Backend P S) → ℤ → S → Found P S × S
  unfolding probed
  scan tried path flags [] ret s = (exhausted ret, s)
  scan tried path flags (b ∷ bs) ret s =
      let (o, s') = b.zbd_open path flags s in
      let skipped = scan tried path flags bs ret s in
      let rest = scan tried path flags bs (negsuc 5) s' in
      if tried b then probed b o s' rest else skipped

  -- The backends that the flags of zbc_open allow.
  unfoldable pub allows : ℕ → Backend P S → Bool
  allows flags b =
      let allowed = bit_and flags drv_mask in
      has b.flag (if allowed == 0 then drv_mask else allowed)

  module _ (drivers : List (Backend P S)) (realpath : P → ℕ ⊎ P) (calloc : ℕ → Bool) where
    unfoldable pub finish_open : Found P S × S → Option (Handle P S) × S
    finish_open (accepted b dev, s) =
        let ((ret, dev'), s') = zbc_get_domain_info b.drv calloc dev s in
        (some (record { ret = ret; pdev = some (b, dev') }), s')
    finish_open (stopped ret, s) = (some (record { ret = ret; pdev = none }), s)
    finish_open (exhausted ret, s) = (some (record { ret = ret; pdev = none }), s)
    finish_open (crashed, s) = (none, s)

    abbrev open_path : ℕ ⊎ P → ℕ → S → Option (Handle P S) × S
    open_path (inl errno) flags s = (some (record { ret = neg errno; pdev = none }), s)
    open_path (inr path) flags s = finish_open (scan (allows flags) path flags drivers neg_enodev s)

    -- `realpath` gives an errno value or the path. A device that is stored stays open, also when
    -- the code is an error of zbc_get_domain_info.
    unfoldable pub zbc_open : P → ℕ → S → Option (Handle P S) × S
    unfolding scan allows finish_open
    zbc_open filename flags s = open_path (realpath filename) flags s

    unfoldable pub finish_test : Found P S × S → Option Tested × S
    finish_test (accepted b dev, s) =
        let ((ret, dev'), s') = zbc_get_domain_info b.drv calloc dev s in
        let (closed, s'') = b.zbd_close dev' s' in
        if is_neg ret
        then (some (record { ret = pos 0; info = none }), s')
        else (some (record { ret = pos 1; info = some dev'.zbd_info }), s'')
    finish_test (stopped ret, s) = (some (record { ret = ret; info = none }), s)
    finish_test (exhausted ret, s) =
        let kept = is_errno 1 ret || is_errno 13 ret in
        (some (record { ret = if kept then ret else pos 0; info = none }), s)
    finish_test (crashed, s) = (none, s)

    abbrev test_path : ℕ ⊎ P → S → Option Tested × S
    test_path (inl errno) s = (some (record { ret = neg errno; info = none }), s)
    test_path (inr path) s = finish_test (scan (λ b. true) path 0 drivers (pos 0) s)

    -- The caller's `info` is not NULL.
    unfoldable pub zbc_device_is_zoned : P → S → Option Tested × S
    unfolding scan finish_test
    zbc_device_is_zoned filename s = test_path (realpath filename) s

unfoldable pub zbc_close : {P S : Type 0} → Backend P S → Device → S → ℤ × S
zbc_close b dev s = b.zbd_close dev s

unfoldable pub zbc_get_device_info : Device → DeviceInfo
zbc_get_device_info dev = dev.zbd_info

unfoldable pub zbc_flush : {S : Type 0} → Drv S → Device → S → ℤ × S
zbc_flush drv dev s = drv.zbd_flush dev s
