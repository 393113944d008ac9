-- ===== src/Sg/Sense.antt =====
-- zbc_sg_set_sense of lib/zbc_sg.c: the thread's error `zerrno` from the sense data of a command.
use libzbc.Base.{ℕ, zero, suc, ◌+◌, ◌*◌, bit_and, Bool, not, ◌&&◌, ◌||◌, List}
use libzbc.Base.{◌==◌, ltb, leb, if◌then◌else◌, has, get_or, drop, sub64}
use libzbc.Bytes.{get_int64, get_int32}
use libzbc.Device.{ErrExt}

-- `zbc_clear_errno`
abbrev pub zbc_clear_errno : ErrExt
zbc_clear_errno = record {
  sk = 0;
  asc_ascq = 0;
  err_info = 0;
  err_csinfo = 0;
  err_cbf = 0;
  err_za = 0;
}

-- A byte of the sense buffer.
abbrev pub sb : List ℕ → ℕ → ℕ
sb buf i = get_or buf i 0

-- What a round of the walk reads of the descriptor at the front of `desc`.
unfoldable pub read_desc : List ℕ → ℕ → ErrExt → ErrExt
read_desc desc nbytes e =
    if (sb desc 0 == 0) && leb 12 nbytes && has (sb desc 2) 0x80
    then record e { err_info = get_int64 desc 4 }
    else if (sb desc 0 == 1) && leb 12 nbytes
    then record e { err_csinfo = get_int64 desc 4 }
    else e

-- The walk over the descriptors. Each takes two bytes at least; `nbytes` is a byte of the sense data
-- at first. The walk leaves the 64 bytes of `sense_buf`, where bytes here are 0, when that byte is more
-- than 56, or when the subtraction wraps for a malformed descriptor. The
-- rounds bound the walk: those given are enough as long as it does not wrap.
unfoldable pub walk : ℕ → List ℕ → ℕ → ErrExt → ErrExt
walk zero desc nbytes e = e
walk (suc rounds) desc nbytes e =
    let len = 2 + sb desc 1 in
    let rest = walk rounds (drop len desc) (sub64 nbytes len) (read_desc desc nbytes e) in
    if nbytes == 0 then e else rest

unfoldable pub is_descriptor_format : List ℕ → Bool
is_descriptor_format buf = (bit_and (sb buf 0) 0x7f == 0x72) || (bit_and (sb buf 0) 0x7f == 0x73)

unfoldable pub is_fixed_format : List ℕ → Bool
is_fixed_format buf = (bit_and (sb buf 0) 0x7f == 0x70) || (bit_and (sb buf 0) 0x7f == 0x71)

-- With a command; with none the error is only cleared.
unfoldable pub zbc_sg_set_sense : List ℕ → ℕ → ErrExt
zbc_sg_set_sense buf sb_len =
    let desc_errno = record zbc_clear_errno {
      sk = bit_and (sb buf 1) 0x0f;
      asc_ascq = sb buf 2 * 256 + sb buf 3;
    } in
    let fixed_errno = record zbc_clear_errno {
      sk = bit_and (sb buf 2) 0x0f;
      asc_ascq = sb buf 12 * 256 + sb buf 13;
    } in
    let walked = walk (sb buf 7) (drop 8 buf) (sb buf 7) desc_errno in
    if is_descriptor_format buf
    then (if ltb sb_len 8 then zbc_clear_errno else walked)
    else if not (is_fixed_format buf) || ltb sb_len 14
    then zbc_clear_errno
    else record fixed_errno { err_info = get_int32 buf 3; err_csinfo = get_int32 buf 8 }
