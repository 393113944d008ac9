-- ===== src/Rw/Transfer.antt =====
-- A read or a write moves its sectors in order, in as many commands as it takes.
use libzbc.Base.{ℕ, ◌-◌, ◌^◌, ◌<◌, min, ◌≡◌, ◌⊎◌}
use libzbc.Base.{true, false, List, All, pos}
use libzbc.Base.{is_neg}
use libzbc.Device.{Device, zbc_test_mode}
use libzbc.Device.Sectors.{zbc_dev_sect_laligned, zbc_dev_sect_paligned}
use libzbc.Device.Driver.{Drv, Iovec}
use libzbc.Iov.{zbc_iov_count}
use libzbc.Iov.Convert.{IsSmall}
use libzbc.Rw.{zbc_do_preadv, zbc_do_pwritev}
use libzbc.Rw.Runs.{Honest, Run, do_rw-Run}

-- A vector read outside test mode of whole logical blocks that starts inside the device, of less than
-- 2 ^ 54 sectors, over a driver that never moves more than it is given: it is a sequence of
-- driver calls for consecutive parts of the vector at the matching sectors, up to the smaller of
-- the vector's and the device's end; the result is that number of sectors, or a negative code that
-- the driver's first failing call gives (-EIO for a call that moved none).
pub read_in_order :
    {S : Type 0} (page_size : ℕ) (drv : Drv S) (dev : Device) (iov : List Iovec) (offset : ℕ)
    (s : S)
    → Honest drv.zbd_preadv dev
    → All IsSmall iov
    → dev.zbd_info.zbd_sectors < 2 ^ 63
    → zbc_iov_count iov < 2 ^ 54
    → 0 < zbc_iov_count iov
    → zbc_test_mode dev ≡ false
    → zbc_dev_sect_laligned dev (zbc_iov_count iov) ≡ true
    → zbc_dev_sect_laligned dev offset ≡ true
    → offset < dev.zbd_info.zbd_sectors
    → let count = min (zbc_iov_count iov) (dev.zbd_info.zbd_sectors - offset) in
      let (ret, s') = zbc_do_preadv page_size drv dev iov offset s in
      Run drv.zbd_preadv dev iov offset count 0 s ret s' × ((ret ≡ pos count) ⊎ (is_neg ret ≡ true))
unfolding zbc_do_preadv
read_in_order page_size drv dev iov offset =
    do_rw-Run page_size drv.zbd_preadv dev iov (zbc_dev_sect_laligned dev) offset

-- A vector write outside test mode of whole physical blocks that starts inside the device, of less than
-- 2 ^ 54 sectors, over a driver that never moves more than it is given: it is a sequence of
-- driver calls for consecutive parts of the vector at the matching sectors, up to the smaller of
-- the vector's and the device's end; the result is that number of sectors, or a negative code that
-- the driver's first failing call gives (-EIO for a call that moved none).
pub write_in_order :
    {S : Type 0} (page_size : ℕ) (drv : Drv S) (dev : Device) (iov : List Iovec) (offset : ℕ)
    (s : S)
    → Honest drv.zbd_pwritev dev
    → All IsSmall iov
    → dev.zbd_info.zbd_sectors < 2 ^ 63
    → zbc_iov_count iov < 2 ^ 54
    → 0 < zbc_iov_count iov
    → zbc_test_mode dev ≡ false
    → zbc_dev_sect_paligned dev (zbc_iov_count iov) ≡ true
    → zbc_dev_sect_paligned dev offset ≡ true
    → offset < dev.zbd_info.zbd_sectors
    → let count = min (zbc_iov_count iov) (dev.zbd_info.zbd_sectors - offset) in
      let (ret, s') = zbc_do_pwritev page_size drv dev iov offset s in
      Run drv.zbd_pwritev dev iov offset count 0 s ret s'
      × ((ret ≡ pos count) ⊎ (is_neg ret ≡ true))
unfolding zbc_do_pwritev
write_in_order page_size drv dev iov offset =
    do_rw-Run page_size drv.zbd_pwritev dev iov (zbc_dev_sect_paligned dev) offset
