-- ===== src/Utils.antt =====
-- lib/zbc_utils.c: the values of sysfs attributes. The system's files are an argument: what a read
-- of a path gives, or nothing where the file cannot be opened.
use Prim.Native.String.{String, ◌++◌}
use libzbc.Base.{
  ℕ, zero, suc, ◌-◌, Bool, ◌||◌, Option, none, some, List, [], ◌∷◌, ◌==◌, if◌then◌else◌, get_or,
  set, ℤ, pos, negsuc,
}

-- A space, a tab, a carriage return or a line feed.
abbrev is_white : ℕ → Bool
is_white c = (c == 32) || (c == 9) || (c == 13) || (c == 10)

-- The loop that clears white space from index `len` down, without index 0: the index at the end and
-- the buffer.
unfoldable pub trim_loop : ℕ → List ℕ → ℕ × List ℕ
trim_loop zero buf = (0, buf)
trim_loop (suc i) buf =
    let rest = trim_loop i (set buf (suc i) 0) in
    if is_white (get_or buf (suc i) 0) then rest else (suc i, buf)

-- The length of the text in a buffer, up to a byte that is 0.
unfoldable pub strlen : List ℕ → ℕ
strlen [] = 0
strlen (c ∷ cs) = if c == 0 then 0 else suc (strlen cs)

-- The first line of the file, with its end, as fgets reads it: nothing at the end of the file.
unfoldable pub zbc_read_str : Option (List ℕ) → ℕ × List ℕ
unfolding trim_loop strlen
zbc_read_str none = (0, [])
zbc_read_str (some line) = trim_loop (strlen line - 1) line

-- `file` is what the open gives: nothing, or the first line if there is one.
unfoldable pub zbc_get_sysfs_val_str : Option (Option (List ℕ)) → ℤ × List ℕ
unfolding zbc_read_str
zbc_get_sysfs_val_str none = (negsuc 0, [])
zbc_get_sysfs_val_str (some line) =
    let (len, str) = zbc_read_str line in (if len == 0 then negsuc 0 else pos 0, str)

-- What fscanf reads, if it reads a number; the code, and what is stored.
unfoldable pub zbc_get_sysfs_val_ull : Option (Option ℕ) → ℤ × Option ℕ
zbc_get_sysfs_val_ull none = (negsuc 0, none)
zbc_get_sysfs_val_ull (some val) = (pos 0, val)

-- `base` is basename of the device's name; the allocation of asprintf succeeds.
unfoldable pub zbc_sysfs_path : String → String → String → String
zbc_sysfs_path base group attr = "/sys/block/" ++ base ++ "/" ++ group ++ "/" ++ attr

module _ (basename : String → String) (number : String → Option (Option ℕ))
    (text : String → Option (Option (List ℕ))) where
  unfoldable pub zbc_get_sysfs_group_val_ull : String → String → String → ℤ × Option ℕ
  unfolding zbc_get_sysfs_val_ull
  zbc_get_sysfs_group_val_ull dev_name group attr =
      zbc_get_sysfs_val_ull (number (zbc_sysfs_path (basename dev_name) group attr))

  unfoldable pub zbc_get_sysfs_group_val_str : String → String → String → ℤ × List ℕ
  unfolding zbc_get_sysfs_val_str
  zbc_get_sysfs_group_val_str dev_name group attr =
      zbc_get_sysfs_val_str (text (zbc_sysfs_path (basename dev_name) group attr))

  abbrev pub zbc_get_sysfs_queue_val_ull : String → String → ℤ × Option ℕ
  zbc_get_sysfs_queue_val_ull dev_name = zbc_get_sysfs_group_val_ull dev_name "queue"

  abbrev pub zbc_get_sysfs_queue_str : String → String → ℤ × List ℕ
  zbc_get_sysfs_queue_str dev_name = zbc_get_sysfs_group_val_str dev_name "queue"

  abbrev pub zbc_get_sysfs_device_val_ull : String → String → ℤ × Option ℕ
  zbc_get_sysfs_device_val_ull dev_name = zbc_get_sysfs_group_val_ull dev_name "device"

  abbrev pub zbc_get_sysfs_device_str : String → String → ℤ × List ℕ
  zbc_get_sysfs_device_str dev_name = zbc_get_sysfs_group_val_str dev_name "device"
