-- ===== src/Rw.antt =====
-- Reads and writes of lib/zbc.c: zbc_do_preadv, zbc_do_pwritev and the four calls around them. The
-- two functions differ in the driver's function and in the block size of the alignment test. Their
-- branch for a transfer of no sector in test mode is left out: the guard before it returned -EINVAL.
pub mod Runs
pub mod AtMost
pub mod Transfer
use libzbc.Base.{ℕ, zero, suc, ◌+◌, ◌-◌, ◌*◌, ◌%◌, ◌^◌, Bool, not, ◌&&◌, ◌||◌, Option, none, some}
use libzbc.Base.{List, [], ◌∷◌, ◌==◌, ltb, leb, if◌then◌else◌, u64, sub64, ℤ, pos, is_pos, is_zero}
use libzbc.Base.{pos_part, neg_einval, neg_eio}
use libzbc.Device.{Device, zbc_test_mode}
use libzbc.Device.Sectors.{zbc_dev_sect_laligned, zbc_dev_sect_paligned}
use libzbc.Device.Driver.{Drv, Iovec}
use libzbc.Iov.{zbc_iov_count, zbc_iov_convert}

-- SSIZE_MAX
abbrev pub ssize_max : ℕ
ssize_max = 2 ^ 63 - 1

-- How many of `count` sectors lie inside the device.
unfoldable pub clip_count : Device → ℕ → ℕ → ℕ
clip_count dev count offset =
    if ltb dev.zbd_info.zbd_sectors (u64 (offset + count))
    then sub64 dev.zbd_info.zbd_sectors offset
    else count

module _ {S : Type 0} (page_size : ℕ) (io : Device → List Iovec → ℕ → S → ℤ × S) (dev : Device)
    (iov : List Iovec) where
  -- The `while` loop, from `rd_iov_offset` (`wr_iov_offset`) equal to `done` on. Each round moves a
  -- sector at least, so that `count` rounds are enough; when none is left the test is false.
  pub rw_loop : ℕ → ℕ → ℕ → ℕ → S → ℤ × S
  rw_loop count zero done offset s = (pos count, s)
  rw_loop count (suc rounds) done offset s =
      let (vs, sectors) =
        zbc_iov_convert page_size iov done (count - done) dev.zbd_info.zbd_max_rw_sectors in
      let (ret, s') = io dev vs offset s in
      let rest =
        rw_loop count rounds (u64 (done + pos_part ret)) (u64 (offset + pos_part ret)) s' in
      if not (ltb done count)
      then (pos count, s)
      else if is_pos ret
      then rest
      else (if is_zero ret then neg_eio else ret, s')

  -- What both functions do, with the alignment test as an argument.
  unfoldable pub do_rw : (ℕ → Bool) → ℕ → S → ℤ × S
  do_rw aligned offset s =
      let count = zbc_iov_count iov in
      let clipped = clip_count dev count offset in
      if ltb ssize_max (u64 (count * 512))
      then (neg_einval, s)
      else if zbc_test_mode dev
      then (if count == 0 then (neg_einval, s) else rw_loop count count 0 offset s)
      else if not (aligned count) || not (aligned offset)
      then (neg_eio, s)
      else if (clipped == 0) || leb dev.zbd_info.zbd_sectors offset
      then (pos 0, s)
      else rw_loop clipped clipped 0 offset s

module _ {S : Type 0} (page_size : ℕ) (drv : Drv S) (dev : Device) where
  unfoldable pub zbc_do_preadv : List Iovec → ℕ → S → ℤ × S
  unfolding do_rw
  zbc_do_preadv iov = do_rw page_size drv.zbd_preadv dev iov (zbc_dev_sect_laligned dev)

  unfoldable pub zbc_do_pwritev : List Iovec → ℕ → S → ℤ × S
  unfolding do_rw
  zbc_do_pwritev iov = do_rw page_size drv.zbd_pwritev dev iov (zbc_dev_sect_paligned dev)

  unfoldable pub zbc_pread : ℕ → ℕ → ℕ → S → ℤ × S
  zbc_pread buf count = zbc_do_preadv (record { iov_base = buf; iov_len = count } ∷ [])

  -- The option is the vector, or NULL; its count is that of the list.
  unfoldable pub zbc_preadv : Option (List Iovec) → ℕ → S → ℤ × S
  zbc_preadv none offset s = (neg_einval, s)
  zbc_preadv (some []) offset s = (neg_einval, s)
  zbc_preadv (some (v ∷ vs)) offset s = zbc_do_preadv (v ∷ vs) offset s

  unfoldable pub zbc_pwrite : ℕ → ℕ → ℕ → S → ℤ × S
  zbc_pwrite buf count = zbc_do_pwritev (record { iov_base = buf; iov_len = count } ∷ [])

  unfoldable pub zbc_pwritev : Option (List Iovec) → ℕ → S → ℤ × S
  zbc_pwritev none offset s = (neg_einval, s)
  zbc_pwritev (some []) offset s = (neg_einval, s)
  zbc_pwritev (some (v ∷ vs)) offset s = zbc_do_pwritev (v ∷ vs) offset s
