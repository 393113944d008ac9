-- ===== src/Names.antt =====
-- The names that lib/zbc.c gives to the values of the enumerations, the log level and the copy of
-- the thread's error. What sprintf makes of a number in "0x%02X" is the argument `hex`.
use Prim.Native.String.{String, ◌++◌}
use text.Mathlib.Text.{◌==◌ as str_eq}
use libzbc.Base.{ℕ, Option, none, some, List, [], ◌∷◌, ◌==◌, if◌then◌else◌, take}
use libzbc.Device.Model as Model
use libzbc.Device.ZoneCond as ZoneCond
use libzbc.Device.ZoneType as ZoneType
use libzbc.Scsi.Inquiry.{type_scsi}
use libzbc.Ata.Classify.{type_ata}

unfoldable pub zbc_device_type_str : ℕ → String
zbc_device_type_str type =
    if type == type_scsi
    then "SCSI ZBC device"
    else if type == type_ata
    then "ATA ZAC device"
    else "Unknown-device-type"

unfoldable pub zbc_device_model_str : ℕ → String
zbc_device_model_str model =
    if model == Model.host_aware
    then "Host-aware"
    else if model == Model.host_managed
    then "Host-managed"
    else if model == Model.device_managed
    then "Device-managed"
    else if model == Model.standard
    then "Standard block device"
    else "Unknown-device-model"

unfoldable pub zbc_zone_type_str : ℕ → String
zbc_zone_type_str type =
    if type == ZoneType.conventional
    then "Conventional"
    else if type == ZoneType.sequential_req
    then "Sequential-write-required"
    else if type == ZoneType.sequential_pref
    then "Sequential-write-preferred"
    else if type == ZoneType.seq_or_bef_req
    then "Sequential-or-before-required"
    else if type == ZoneType.gap
    then "Gap"
    else "Unknown-zone-type"

unfoldable pub zbc_zone_condition_str : ℕ → String
zbc_zone_condition_str cond =
    if cond == ZoneCond.not_wp
    then "Not-write-pointer"
    else if cond == ZoneCond.empty
    then "Empty"
    else if cond == ZoneCond.imp_open
    then "Implicit-open"
    else if cond == ZoneCond.exp_open
    then "Explicit-open"
    else if cond == ZoneCond.closed
    then "Closed"
    else if cond == ZoneCond.inactive
    then "Inactive"
    else if cond == ZoneCond.rdonly
    then "Read-only"
    else if cond == ZoneCond.full
    then "Full"
    else if cond == ZoneCond.offline
    then "Offline"
    else "Unknown-zone-condition"

-- The tables of codes and names, up to the entry that ends each.
unfoldable pub zbc_sg_sk_list : List (ℕ × String)
zbc_sg_sk_list =
    (0x2, "Not-ready")
    ∷ (0x3, "Medium-error")
    ∷ (0x5, "Illegal-request")
    ∷ (0x7, "Data-protect")
    ∷ (0x4, "Hardware-error")
    ∷ (0xb, "Aborted-command")
    ∷ (0x3, "Medium-error")
    ∷ []

unfoldable pub zbc_sg_asc_ascq_list : List (ℕ × String)
zbc_sg_asc_ascq_list =
    (0x2400, "Invalid-field-in-cdb")
    ∷ (0x2100, "Logical-block-address-out-of-range")
    ∷ (0x2104, "Unaligned-write-command")
    ∷ (0x2105, "Write-boundary-violation")
    ∷ (0x2106, "Attempt-to-read-invalid-data")
    ∷ (0x2107, "Read-boundary-violation")
    ∷ (0x2708, "Zone-is-read-only")
    ∷ (0x2c0e, "Zone-is-offline")
    ∷ (0x550e, "Insufficient-zone-resources")
    ∷ (0x2c12, "Zone-is-inactive")
    ∷ (0x2109, "Attempt-to-access-GAP-zone")
    ∷ (0x1100, "Read-error")
    ∷ (0x0c00, "Write-error")
    ∷ (0x0404, "Format-in-progress")
    ∷ (0x4400, "Internal-target-failure")
    ∷ (0x2000, "Invalid-command-operation-code")
    ∷ (0x2600, "Invalid-field-in-parameter-list")
    ∷ (0x1a00, "Parameter-list-length-error")
    ∷ (0x2a16, "Zone-reset-wp-recommended")
    ∷ []

-- The loop over a table.
unfoldable pub name_of : List (ℕ × String) → ℕ → String → String
name_of [] code unknown = unknown
name_of ((k, name) ∷ rest) code unknown = if code == k then name else name_of rest code unknown

unfoldable pub zbc_sk_str : (ℕ → String) → ℕ → String
unfolding name_of zbc_sg_sk_list
zbc_sk_str hex sk = name_of zbc_sg_sk_list sk ("Unknown-sense-key 0x" ++ hex sk)

unfoldable pub zbc_asc_ascq_str : (ℕ → String) → ℕ → String
unfolding name_of zbc_sg_asc_ascq_list
zbc_asc_ascq_str hex code =
    name_of zbc_sg_asc_ascq_list code ("Unknown-additional-sense-code-qualifier 0x" ++ hex code)

-- The level after the call, from the level before. A NULL argument is the empty option.
unfoldable pub zbc_set_log_level : Option String → ℕ → ℕ
zbc_set_log_level none level = 2
zbc_set_log_level (some name) level =
    if str_eq name "none"
    then 0
    else if str_eq name "warning"
    then 1
    else if str_eq name "error"
    then 2
    else if str_eq name "info"
    then 3
    else if str_eq name "debug"
    then 4
    else level

-- The bytes copied of the bytes of `zerrno`.
unfoldable pub zbc_errno_ext : List ℕ → ℕ → List ℕ
zbc_errno_ext zerrno size = take size zerrno
