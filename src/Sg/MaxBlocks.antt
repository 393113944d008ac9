-- ===== src/Sg/MaxBlocks.antt =====
-- zbc_sg_get_max_cmd_blocks of lib/zbc_sg.c, with zbc_sg_get_max_segments and
-- zbc_sg_get_max_bytes. What the system says of the device file is a parameter.
use libzbc.Base.{
  ℕ, ◌*◌, ◌/◌, ◌^◌, ◌<◌, arith, ◌||◌, Option, none, some, ◌==◌, ltb, if◌then◌else◌, u32, u64,
}
use libzbc.Device.{Device}

-- The file: its state cannot be read; a character device, with what the ioctls for the number of
-- segments and for the bytes return; a block device, with the sysfs attributes max_segments and
-- max_sectors_kb; another file. `none` is a failure.
pub data FileKind : Type 0 where
  stat_failed : FileKind
  character : (segments bytes : Option ℕ) → FileKind
  block : (segments kilobytes : Option ℕ) → FileKind
  other_file : FileKind

abbrev or_else : Option ℕ → ℕ → ℕ
or_else none d = d
or_else (some n) d = n

-- `max_segs` and `max_bytes`, both an unsigned int.
unfoldable pub limits : FileKind → ℕ × ℕ
limits stat_failed = (256, 0)
limits (character segments bytes) = (u32 (or_else segments 256), u32 (or_else bytes 0))
limits (block segments kilobytes) =
    (u32 (or_else segments 256), u32 (u64 (or_else kilobytes 0 * 1024)))
limits other_file = (256, 0)

-- PAGE_SIZE is a `long`, and the segments are of one page.
unfoldable pub max_rw_sectors : ℕ → FileKind → ℕ
unfolding limits
max_rw_sectors page_size file =
    let (max_segs, max_bytes) = limits file in
    let most = max_segs * page_size in
    (if (max_bytes == 0) || ltb most max_bytes then u32 most else max_bytes) / 512

unfoldable pub zbc_sg_get_max_cmd_blocks : ℕ → (Device → FileKind) → Device → Device
unfolding max_rw_sectors
zbc_sg_get_max_cmd_blocks page_size file dev = record dev {
  zbd_info = record dev.zbd_info { zbd_max_rw_sectors = max_rw_sectors page_size (file dev) };
}

-- Whatever the system says of the file, the largest transfer that is set is below 2 ^ 32 bytes.
pub max_rw_sectors_lt : (page_size : ℕ) (file : FileKind) → max_rw_sectors page_size file < 2 ^ 23
unfolding max_rw_sectors limits
max_rw_sectors_lt page_size stat_failed = ground arith
max_rw_sectors_lt page_size (character segments bytes) = ground arith
max_rw_sectors_lt page_size (block segments kilobytes) = ground arith
max_rw_sectors_lt page_size other_file = ground arith
