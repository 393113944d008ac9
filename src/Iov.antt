-- ===== src/Iov.antt =====
-- Vector buffers: zbc_iov_count of lib/zbc.h, zbc_iov_convert and zbc_map_iov of lib/zbc.c.
-- A caller's vector has its lengths in sectors, a converted one in bytes. An address is a number.
-- `page_size` is PAGE_SIZE, which `sysconf` gives.
pub mod Bytes
pub mod Convert
pub mod Map
use libzbc.Base.{ℕ, zero, suc, ◌+◌, ◌-◌, ◌*◌, ◌/◌, ◌%◌, ◌^◌, bit_and, Bool, not, ◌&&◌, ◌||◌}
use libzbc.Base.{List, [], ◌∷◌, ◌==◌, ltb, leb, if◌then◌else◌, u32, u64, ℤ, pos, negsuc, neg_einval}
use libzbc.Base.{length}
use libzbc.Device.Driver.{Iovec}

unfoldable pub zbc_iov_count : List Iovec → ℕ
zbc_iov_count [] = 0
zbc_iov_count (v ∷ vs) = u64 (v.iov_len + zbc_iov_count vs)

-- One entry of the converted vector: where it starts, its bytes, the pages charged for it.
pub record Entry : Type 0 where
  pub base : ℕ
  pub bytes : ℕ
  pub pages : ℕ

module _ (page_size max_pages size : ℕ) where
  -- The pages that `bytes` bytes from `base` on may touch.
  unfoldable pub pages_for : ℕ → ℕ → ℕ
  pages_for base bytes =
      let np = u32 ((bytes + (page_size - 1)) / page_size) in
      if bit_and base (page_size - 1) == 0 then np else u32 (np + 1)

  -- The bytes that `np` pages hold for certain.
  unfoldable pub page_room : ℕ → ℕ → ℕ
  page_room base np =
      if bit_and base (page_size - 1) == 0 then np * page_size else (np - 1) * page_size

  -- The part of a round of the `for` loop that cuts the rest of a buffer, `rest` bytes from `base`
  -- on, to the size wanted and to the pages left.
  unfoldable pub cut_entry : ℕ → ℕ → ℕ → ℕ → Entry
  cut_entry base rest count nr_pages =
      let bytes = if ltb size (u64 (count + rest)) then size - count else rest in
      let np = pages_for base bytes in
      let left = max_pages - nr_pages in
      let room = page_room base left in
      if ltb max_pages (u32 (nr_pages + np))
      then record { base = base; bytes = if ltb room bytes then room else bytes; pages = left }
      else record { base = base; bytes = bytes; pages = np }

  -- The `for` loop of `zbc_iov_convert` from a buffer on: the entries and the final `count`.
  pub convert_loop : List Iovec → ℕ → ℕ → ℕ → List Iovec × ℕ
  convert_loop [] offset count nr_pages = ([], count)
  convert_loop (v ∷ vs) offset count nr_pages =
      let len = u64 (v.iov_len * 512) in
      let skipped = convert_loop vs (offset - len) count nr_pages in
      let e = cut_entry (v.iov_base + offset) (len - offset) count nr_pages in
      let (rest, total) = convert_loop vs 0 (u64 (count + e.bytes)) (u32 (nr_pages + e.pages)) in
      if not (ltb count size && ltb nr_pages max_pages)
      then ([], count)
      else if leb len offset
      then skipped
      else (record { iov_base = e.base; iov_len = e.bytes } ∷ rest, total)

-- The converted vector, and what `*sectors` is set to.
unfoldable pub zbc_iov_convert : ℕ → List Iovec → ℕ → ℕ → ℕ → List Iovec × ℕ
zbc_iov_convert page_size iov sector_offset sectors max_sectors =
    let (vs, count) =
      convert_loop page_size (u32 (u64 (max_sectors * 512) / page_size)) (u64 (sectors * 512)) iov
        (u64 (sector_offset * 512)) 0 0 in
    (vs, count / 512)

-- The `while` loop of `zbc_map_iov`: each round maps a sector at least, so that as many rounds as
-- there are sectors are enough.
unfoldable pub map_iov_loop : ℕ → ℕ → ℕ → ℕ → List Iovec
map_iov_loop zero iovlen buf sectors = []
map_iov_loop (suc rounds) iovlen buf sectors =
    let len = if ltb iovlen sectors then iovlen else sectors in
    let rest = map_iov_loop rounds iovlen (buf + len * 512) (sectors - len) in
    if sectors == 0 then [] else record { iov_base = buf; iov_len = len } ∷ rest

-- The code and the entries written. `iov` is false for a NULL vector, a NULL buffer is address 0,
-- and a count that is not positive is 0.
unfoldable pub zbc_map_iov : ℕ → ℕ → Bool → ℕ → ℕ → ℤ × List Iovec
zbc_map_iov buf sectors iov iovcnt iovlen =
    let vs = map_iov_loop sectors iovlen buf sectors in
    if (buf == 0)
      || (sectors == 0)
      || not iov
      || (iovcnt == 0)
      || ltb (u64 (iovcnt * iovlen)) sectors
    then (neg_einval, [])
    else (pos (length vs), vs)
