-- ===== src/Sg/Descriptors.antt =====
-- Sense data in descriptor format, as a drive writes it and as zbc_sg_set_sense reads it.
use libzbc.Base.{ℕ, zero, suc, ◌+◌, ◌-◌, ◌*◌, ◌%◌, ◌^◌, ◌≤◌, ◌<◌, ◌≡◌, refl, ap, ◌∙◌, arith}
use libzbc.Base.{
  Bool, true, false, List, [], ◌∷◌, ◌++◌, length, length-append, drop, drop-append_ge, All,
  ==zero_false, le→leb, get_or, ge→ltb, sub64, bit_and, if◌then◌else◌, ◌==◌,
}
use mathlib.Core.List.{append_assoc}
use libzbc.Base.Bits.{bit_and_low}
use libzbc.Bytes.Stored.{be64, get_int64_stored}
use libzbc.Device.{ErrExt}
use libzbc.Sg.Sense.{zbc_clear_errno, read_desc, is_descriptor_format, walk, zbc_sg_set_sense}

-- A sense data descriptor: the information field with its valid bit, the command-specific
-- information, or one that the library passes over.
pub data SenseDesc : Type 0 where
  information : Bool → ℕ → SenseDesc
  command_specific : ℕ → SenseDesc
  other : ℕ → List ℕ → SenseDesc

abbrev pub bytes_of_desc : SenseDesc → List ℕ
bytes_of_desc (information valid v) = 0 ∷ 10 ∷ (if valid then 0x80 else 0) ∷ 0 ∷ be64 v
bytes_of_desc (command_specific v) = 1 ∷ 10 ∷ 0 ∷ 0 ∷ be64 v
bytes_of_desc (other kind body) = kind ∷ length body ∷ body

abbrev pub bytes_of_descs : List SenseDesc → List ℕ
bytes_of_descs [] = []
bytes_of_descs (d ∷ ds) = bytes_of_desc d ++ bytes_of_descs ds

-- What a descriptor says of the error; a later one replaces an earlier one.
abbrev pub told : SenseDesc → ErrExt → ErrExt
told (information true v) e = record e { err_info = v % 2 ^ 64 }
told (information false v) e = e
told (command_specific v) e = record e { err_csinfo = v % 2 ^ 64 }
told (other kind body) e = e

abbrev pub told_by : List SenseDesc → ErrExt → ErrExt
told_by [] e = e
told_by (d ∷ ds) e = told_by ds (told d e)

-- The kinds 0 and 1 have the layout above.
abbrev pub IsDesc : SenseDesc → Type 0
IsDesc (information valid v) = Unit {0}
IsDesc (command_specific v) = Unit {0}
IsDesc (other kind body) = 2 ≤ kind

read_desc_lem :
    (d : SenseDesc) (rest : List ℕ) (n : ℕ) (e : ErrExt)
    → IsDesc d
    → length (bytes_of_desc d) ≤ n
    → read_desc (bytes_of_desc d ++ rest) n e ≡ told d e
unfolding read_desc
read_desc_lem (information true v) rest n e k h =
    rw (le→leb 12 n h, get_int64_stored (bytes_of_desc (information true v) ++ rest) 4 v refl) refl
read_desc_lem (information false v) rest n e k h = rw (le→leb 12 n h) refl
read_desc_lem (command_specific v) rest n e k h =
    rw (le→leb 12 n h, get_int64_stored (bytes_of_desc (command_specific v) ++ rest) 4 v refl) refl
read_desc_lem (other kind body) rest n e k h =
    rw (==zero_false kind (omega arith), not_one kind k) refl
  where
    not_one : (kind : ℕ) → 2 ≤ kind → (kind == 1) ≡ false
    not_one kind k = ground arith

-- The length that a descriptor states.
stated :
    (d : SenseDesc) (rest : List ℕ)
    → 2 + get_or (bytes_of_desc d ++ rest) 1 0 ≡ length (bytes_of_desc d)
stated (information valid v) rest = refl
stated (command_specific v) rest = refl
stated (other kind body) rest = omega arith

behind :
    (d : SenseDesc) (rest : List ℕ)
    → drop (length (bytes_of_desc d)) (bytes_of_desc d ++ rest) ≡ rest
behind d rest =
    let e : length (bytes_of_desc d) - length (bytes_of_desc d) ≡ 0 = omega arith in
    drop-append_ge (length (bytes_of_desc d)) (bytes_of_desc d) rest (omega arith)
    ∙ ap (λ k. drop k rest) e

walk_lem :
    (ds : List SenseDesc) (rounds : ℕ) (rest : List ℕ) (e : ErrExt)
    → All IsDesc ds
    → length (bytes_of_descs ds) ≤ rounds
    → length (bytes_of_descs ds) < 256
    → walk rounds (bytes_of_descs ds ++ rest) (length (bytes_of_descs ds)) e ≡ told_by ds e
unfolding walk
walk_lem [] zero rest e k h small = refl
walk_lem [] (suc rounds) rest e k h small = refl
walk_lem (d ∷ ds) zero rest e k h small =
    absurd (omega (arith, length-append (bytes_of_desc d) (bytes_of_descs ds), stated d []))
walk_lem (d ∷ ds) (suc rounds) rest e k h small =
    let bs = bytes_of_descs ds in
    let n = length (bytes_of_desc d ++ bs) in
    let parts : n ≡ length (bytes_of_desc d) + length bs = length-append (bytes_of_desc d) bs in
    let two : 2 ≤ length (bytes_of_desc d) = omega (arith, stated d []) in
    let left : sub64 n (length (bytes_of_desc d)) ≡ length bs = omega arith in
    rw
      (
        append_assoc (bytes_of_desc d) bs rest,
        ==zero_false n (omega arith),
        stated d (bs ++ rest),
        behind d (bs ++ rest),
        read_desc_lem d (bs ++ rest) n e k.0 (omega arith),
        left,
      )
      (walk_lem ds rounds rest (told d e) k.1 (omega arith) (omega arith))

-- Sense data in descriptor format, of a current or a deferred error, with the descriptors `ds`, which
-- take the 56 bytes at most that the 64 bytes of `sense_buf` have room for, and with whatever bytes
-- behind them, as a drive writes it: the sense key, the two code bytes, and of
-- the descriptors the last valid information and the last command-specific information reach
-- `zerrno`, and the other fields are cleared.
pub set_sense_descriptors :
    (deferred : Bool) (key asc ascq sb_len : ℕ) (ds : List SenseDesc) (rest : List ℕ)
    → All IsDesc ds
    → length (bytes_of_descs ds) ≤ 56
    → 8 ≤ sb_len
    → zbc_sg_set_sense
        ((if deferred then 0x73 else 0x72)
            ∷ key
            ∷ asc
            ∷ ascq
            ∷ 0
            ∷ 0
            ∷ 0
            ∷ length (bytes_of_descs ds)
            ∷ bytes_of_descs ds
          ++ rest)
        sb_len
      ≡ told_by ds (record zbc_clear_errno { sk = key % 16; asc_ascq = asc * 256 + ascq })
unfolding zbc_sg_set_sense is_descriptor_format
set_sense_descriptors true key asc ascq sb_len ds rest k small len =
    let low : bit_and key 15 ≡ key % 16 = bit_and_low 4 key in
    rw (ge→ltb sb_len 8 len, low)
      (walk_lem ds (length (bytes_of_descs ds)) rest _ k (omega arith) (omega arith))
set_sense_descriptors false key asc ascq sb_len ds rest k small len =
    let low : bit_and key 15 ≡ key % 16 = bit_and_low 4 key in
    rw (ge→ltb sb_len 8 len, low)
      (walk_lem ds (length (bytes_of_descs ds)) rest _ k (omega arith) (omega arith))
