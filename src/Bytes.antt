-- ===== src/Bytes.antt =====
-- Big-endian fields of command descriptor blocks and replies: lib/zbc_sg.c, lib/zbc_sg.h.
-- A buffer is the list of its bytes, and `&buf[off]` is the pair of the buffer and `off`. The host
-- is little-endian, the first branch of the code's `#if`; on a big-endian host the other branch
-- writes the same bytes.
pub mod RoundTrip
pub mod Stored
use libzbc.Base.{ℕ, zero, suc, ◌+◌, ◌-◌, ◌*◌, ◌/◌, ◌%◌, ◌^◌, List, [], ◌∷◌}
use libzbc.Base.{get_or, set, replicate, u16, u32}

-- Byte `i` of a little-endian integer in memory.
abbrev pub byte_of : ℕ → ℕ → ℕ
byte_of val i = val / 256 ^ i % 256

-- The body of the loop of `zbc_sg_set_bytes`: the least significant byte is stored last.
abbrev pub put_byte : List ℕ → ℕ → ℕ → ℕ → ℕ → List ℕ
put_byte cmd off val bytes i = set cmd (off + (bytes - i - 1)) (byte_of val i)

-- The rounds left of the loop of `zbc_sg_set_bytes`, from `i = bytes - left` on.
pub set_bytes_loop : List ℕ → ℕ → ℕ → ℕ → ℕ → List ℕ
set_bytes_loop cmd off val bytes zero = cmd
set_bytes_loop cmd off val bytes (suc left) =
    set_bytes_loop (put_byte cmd off val bytes (bytes - suc left)) off val bytes left

pub set_bytes : List ℕ → ℕ → ℕ → ℕ → List ℕ
unfolding set_bytes_loop
set_bytes cmd off val bytes = set_bytes_loop cmd off val bytes bytes

unfoldable pub set_int64 : List ℕ → ℕ → ℕ → List ℕ
unfolding set_bytes
set_int64 buf off val = set_bytes buf off val 8

unfoldable pub set_int48 : List ℕ → ℕ → ℕ → List ℕ
unfolding set_bytes
set_int48 buf off val = set_bytes buf off (val % 2 ^ 48) 6

unfoldable pub set_int32 : List ℕ → ℕ → ℕ → List ℕ
unfolding set_bytes
set_int32 buf off val = set_bytes buf off (u32 val) 4

unfoldable pub set_int16 : List ℕ → ℕ → ℕ → List ℕ
unfolding set_bytes
set_int16 buf off val = set_bytes buf off (u16 val) 2

-- The loop of `zbc_sg_get_bytes` over the 8 bytes of the union, cleared at first.
pub get_bytes_loop : List ℕ → List ℕ → ℕ → ℕ → ℕ → List ℕ
get_bytes_loop conv val off bytes zero = conv
get_bytes_loop conv val off bytes (suc left) =
    let i = bytes - suc left in
    get_bytes_loop (set conv (bytes - i - 1) (get_or val (off + i) 0)) val off bytes left

pub get_bytes : List ℕ → ℕ → ℕ → List ℕ
unfolding get_bytes_loop
get_bytes val off bytes = get_bytes_loop (replicate 8 0) val off bytes bytes

-- The integer that little-endian memory holds.
abbrev pub of_bytes : List ℕ → ℕ
of_bytes [] = 0
of_bytes (b ∷ bs) = b + 256 * of_bytes bs

unfoldable pub get_int64 : List ℕ → ℕ → ℕ
unfolding get_bytes
get_int64 buf off = of_bytes (get_bytes buf off 8)

unfoldable pub get_int48 : List ℕ → ℕ → ℕ
unfolding get_bytes
get_int48 buf off = of_bytes (get_bytes buf off 6) % 2 ^ 48

unfoldable pub get_int32 : List ℕ → ℕ → ℕ
unfolding get_bytes
get_int32 buf off = u32 (of_bytes (get_bytes buf off 4))

unfoldable pub get_int16 : List ℕ → ℕ → ℕ
unfolding get_bytes
get_int16 buf off = u16 (of_bytes (get_bytes buf off 2))
