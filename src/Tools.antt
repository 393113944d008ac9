-- ===== src/Tools.antt =====
-- The command line tools, tools/: what the reading and the writing of a zone share. A tool runs over
-- the library's functions and the table of backends; the conversions of the C library from texts to
-- numbers are arguments. Messages and times are left out.
pub mod Args
pub mod Chunks
pub mod ReadLine
pub mod ReadZone
pub mod ReadRuns
pub mod WriteLine
pub mod WriteZone
pub mod WriteMain
pub mod WriteRuns
pub mod ZoneOp
pub mod OpRuns
pub mod Activate
pub mod ActivateLine
pub mod QueryRuns
pub mod QueryLine
pub mod Control
use libzbc.Base.{
  ℕ, ◌+◌, ◌-◌, ◌*◌, ◌/◌, ◌^◌, ◌%◌, Bool, true, Option, none, some, [], List, ltb, if◌then◌else◌,
  u64, sub64, ℤ, is_neg,
}
use libzbc.Device.Driver.{Iovec}
use libzbc.Iov.{zbc_map_iov}

-- What a call that lists has stored through its pointers.
abbrev pub array_in : {A : Type 0} → Option (Option (List A)) → List A
array_in none = []
array_in (some none) = []
array_in (some (some xs)) = xs

abbrev pub count_in : Option ℕ → ℕ
count_in none = 0
count_in (some n) = n

-- A comparison of two long long, as their bits.
unfoldable pub signed_ltb : ℕ → ℕ → Bool
signed_ltb a b = ltb ((a + 2 ^ 63) % 2 ^ 64) ((b + 2 ^ 63) % 2 ^ 64)

-- How a zone is gone through: the first sector, the end of the part, as the bits of a long long,
-- and the sizes in bytes. `buf` is the address of the buffer, and `ionum` is 0 for no limit.
pub record Plan : Type 0 where
  pub start : ℕ
  pub max : ℕ
  pub bufsize : ℕ
  pub iovcnt : ℕ
  pub vio : Bool
  pub ionum : ℕ
  pub buf : ℕ

-- `bufsize * iovcnt`, a size_t.
unfoldable pub iosize : Plan → ℕ
iosize p = u64 (p.bufsize * p.iovcnt)

-- The number of sectors of the next command, as the bits of an ssize_t.
unfoldable pub chunk : Plan → ℕ → ℕ
unfolding signed_ltb iosize
chunk p ofst =
    let c = iosize p / 512 in if signed_ltb p.max (u64 (ofst + c)) then sub64 p.max ofst else c

-- One command of the tool, by the function for one buffer or the one for a vector. The mapping of
-- the buffer that fails is a negative code too.
unfoldable pub move :
    {S : Type 0}
    → (ℕ → ℕ → ℕ → S → ℤ × S)
    → (Option (List Iovec) → ℕ → S → ℤ × S)
    → Plan
    → ℕ
    → ℕ
    → S
    → ℤ × S
move single vector p sectors sector s =
    let (n, vs) = zbc_map_iov p.buf sectors true p.iovcnt (p.bufsize / 512) in
    if p.vio
    then (if is_neg n then (n, s) else vector (some vs) sector s)
    else single p.buf sectors sector s

-- The end of a loop: the code, the offset in the zone, the bytes and the commands.
pub record Tally : Type 0 where
  pub ret : ℤ
  pub ofst : ℕ
  pub bcount : ℕ
  pub iocount : ℕ
