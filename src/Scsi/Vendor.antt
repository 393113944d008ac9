-- ===== src/Scsi/Vendor.antt =====
-- The vendor string of zbc_scsi_classify, lib/zbc_scsi.c, from the standard inquiry data: the bytes
-- up to the 0 at its end. The device information of Scsi/Inquiry does not keep it.
use libzbc.Base.{
  ℕ, zero, suc, Bool, ◌&&◌, ◌||◌, List, [], ◌∷◌, ◌==◌, leb, if◌then◌else◌, take, drop, get_or, ◌++◌,
}

-- A letter or a digit.
abbrev pub isalnum : ℕ → Bool
isalnum c = (leb 48 c && leb c 57) || (leb 65 c && leb c 90) || (leb 97 c && leb c 122)

-- The loop down to the last letter or digit: how many bytes are copied.
unfoldable pub copied_length : ℕ → List ℕ → ℕ
copied_length zero buf = 0
copied_length (suc i) buf =
    let shorter = copied_length i buf in if isalnum (get_or buf i 0) then suc i else shorter

unfoldable pub zbc_scsi_str : List ℕ → ℕ → List ℕ
unfolding copied_length
zbc_scsi_str buf len = take (copied_length len buf) buf

-- The text in a buffer, up to a byte that is 0.
unfoldable pub text_in : List ℕ → List ℕ
text_in [] = []
text_in (c ∷ cs) = if c == 0 then [] else c ∷ text_in cs

-- Vendor, product and revision, with a space between them.
unfoldable pub scsi_vendor_id : List ℕ → List ℕ
unfolding zbc_scsi_str text_in
scsi_vendor_id buf =
    text_in (zbc_scsi_str (drop 8 buf) 8)
    ++ (32 ∷ text_in (zbc_scsi_str (drop 16 buf) 16))
    ++ (32 ∷ text_in (zbc_scsi_str (drop 32 buf) 4))
