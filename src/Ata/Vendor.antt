-- ===== src/Ata/Vendor.antt =====
-- zbc_ata_strcpy and zbc_ata_vendor_id of lib/zbc_ata.c: the vendor string as the bytes up to the 0
-- at its end.
use libzbc.Base.{
  ℕ, zero, suc, ◌-◌, ◌/◌, Bool, List, [], ◌∷◌, ◌==◌, if◌then◌else◌, is_zero, get_or, drop, ◌++◌,
}
use libzbc.Device.{Device}
use libzbc.Sg.{Cmd}
use libzbc.Sg.Exec.{Reply, Sys}
use libzbc.Ata.Log.{zbc_ata_read_log}

-- The loop over the words that are left, whose bytes are swapped, up to a byte that is 0; the buffer
-- from the next word on.
unfoldable pub swapped : ℕ → List ℕ → List ℕ
swapped zero buf = []
swapped (suc len) buf =
    let a = get_or buf 0 0 in
    let b = get_or buf 1 0 in
    let rest = swapped len (drop 2 buf) in
    if b == 0 then [] else if a == 0 then b ∷ [] else b ∷ a ∷ rest

-- With the space at the end.
unfoldable pub zbc_ata_strcpy : List ℕ → ℕ → ℕ → List ℕ
unfolding swapped
zbc_ata_strcpy buf buf_len skip = swapped ((buf_len - skip) / 2) (drop skip buf) ++ (32 ∷ [])

module _ {K : Type 0} (sg_io : Cmd → K → Reply × K) (memalign : ℕ → Bool) where
  -- "UNKNOWN" when the log cannot be read; otherwise "ATA ", the model number and the revision.
  unfoldable pub zbc_ata_vendor_id : Device → Sys K → List ℕ × Sys K
  unfolding zbc_ata_strcpy
  zbc_ata_vendor_id dev s =
      let ((ret, buf), s') = zbc_ata_read_log sg_io memalign dev 0x30 0x05 s in
      (
        if is_zero ret
            then (65 ∷ 84 ∷ 65 ∷ 32 ∷ [])
              ++ zbc_ata_strcpy (drop 48 buf) 16 0
              ++ zbc_ata_strcpy (drop 32 buf) 8 4
            else 85 ∷ 78 ∷ 75 ∷ 78 ∷ 79 ∷ 87 ∷ 78 ∷ [],
        s',
      )
