-- ===== src/Open/Stats.antt =====
-- zbc_get_zbd_stats of lib/zbc.c, over the function zbd_get_stats of the driver's table, which is an
-- argument.
use libzbc.Base.{Option, none, some, ℤ, neg_enxio}
use libzbc.Device.{Device}
use libzbc.Scsi.Stats.{Stats}

-- `stats` is what the caller's structure holds.
unfoldable pub zbc_get_zbd_stats :
    {S : Type 0}
    → Option (Device → Stats → S → (ℤ × Stats) × S)
    → Device
    → Stats
    → S
    → (ℤ × Stats) × S
zbc_get_zbd_stats none dev stats s = ((neg_enxio, stats), s)
zbc_get_zbd_stats (some f) dev stats s = f dev stats s
