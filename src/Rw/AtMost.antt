-- ===== src/Rw/AtMost.antt =====
-- A read or a write of lib/zbc.c never reports more sectors than the vector holds, whatever the
-- driver answers.
use libzbc.Base.{
  ℕ, zero, suc, ◌+◌, ◌-◌, ◌*◌, ◌^◌, ◌≤◌, ◌<◌, ◌≡◌, inl, inr, arith, Bool, true, false, Bool-cases,
  some, List, [], ◌∷◌, u64, if◌then◌else◌, ℤ, pos, negsuc, is_pos, is_zero, is_neg, pos_part,
  neg_eio, ltb,
}
use mathlib.Core.Bool.{true≢false}
use native.Mathlib.Nat.{mod-le, mul-zero}
use libzbc.Device.{Device}
use libzbc.Device.Sectors.{zbc_dev_sect_laligned, zbc_dev_sect_paligned}
use libzbc.Device.Driver.{Drv, Iovec}
use libzbc.Iov.{zbc_iov_count, zbc_iov_convert, map_iov_loop, zbc_map_iov}
use libzbc.Rw.{
  rw_loop, clip_count, do_rw, zbc_do_preadv, zbc_do_pwritev, zbc_pread, zbc_preadv, zbc_pwrite,
  zbc_pwritev,
}

-- A code, or a number of sectors up to `m`.
abbrev pub AtMost : ℕ → ℤ → Type 0
AtMost m (pos n) = n ≤ m
AtMost m (negsuc n) = Unit

stopped : (m : ℕ) (r : ℤ) → is_pos r ≡ false → AtMost m (if is_zero r then neg_eio else r)
stopped m (pos zero) h = tt
stopped m (pos (suc n)) h = absurd (true≢false h)
stopped m (negsuc n) h = tt

pub AtMost-le : (a b : ℕ) (r : ℤ) → a ≤ b → AtMost a r → AtMost b r
AtMost-le a b (pos n) h k = omega arith
AtMost-le a b (negsuc n) h k = tt

one-le : (buf count : ℕ) → zbc_iov_count (record { iov_base = buf; iov_len = count } ∷ []) ≤ count
unfolding zbc_iov_count
one-le buf count = omega (arith, mod-le count (2 ^ 64))

pub iov_count-lt : (vs : List Iovec) → zbc_iov_count vs < 2 ^ 64
unfolding zbc_iov_count
iov_count-lt [] = omega arith
iov_count-lt (v ∷ vs) = omega arith

module _ {S : Type 0} (page_size : ℕ) (io : Device → List Iovec → ℕ → S → ℤ × S) (dev : Device)
    (iov : List Iovec) where
  rw_loop-AtMost :
      (m count rounds done offset : ℕ) (s : S)
      → count ≤ m
      → AtMost m (rw_loop page_size io dev iov count rounds done offset s).0
  unfolding rw_loop
  rw_loop-AtMost m count zero done offset s h = h
  rw_loop-AtMost m count (suc rounds) done offset s h = elim (Bool-cases (ltb done count)) [
    | inr all ↦ rw all h
    | inl more ↦
        let vs =
          (zbc_iov_convert page_size iov done (count - done) dev.zbd_info.zbd_max_rw_sectors).0 in
        let out = io dev vs offset s in
        elim (Bool-cases (is_pos out.0)) [
          | inl go ↦
              rw (more, go)
                (rw_loop-AtMost m count rounds (u64 (done + pos_part out.0))
                  (u64 (offset + pos_part out.0)) out.1 h)
          | inr stop ↦ rw (more, stop) (stopped m out.0 stop)
        ]
  ]

  clip-le :
      (count offset : ℕ)
      → dev.zbd_info.zbd_sectors < 2 ^ 64
      → count < 2 ^ 64
      → offset < dev.zbd_info.zbd_sectors
      → clip_count dev count offset ≤ count
  unfolding clip_count
  clip-le count offset top small inside = ground arith

  do_rw-AtMost :
      (aligned : ℕ → Bool) (offset : ℕ) (s : S)
      → dev.zbd_info.zbd_sectors < 2 ^ 64
      → AtMost (zbc_iov_count iov) (do_rw page_size io dev iov aligned offset s).0
  unfolding do_rw
  do_rw-AtMost aligned offset s top =
      let count = zbc_iov_count iov in
      let clipped = clip_count dev count offset in
      ground (
        arith,
        iov_count-lt iov,
        clip-le count offset top,
        rw_loop-AtMost count count count 0 offset s,
        rw_loop-AtMost count clipped clipped 0 offset s,
      )

-- The vector of zbc_map_iov holds the sectors that it was made for.
map_loop-count :
    (rounds iovlen buf sectors : ℕ)
    → 0 < iovlen
    → sectors ≤ rounds
    → sectors < 2 ^ 64
    → zbc_iov_count (map_iov_loop rounds iovlen buf sectors) ≡ sectors
unfolding map_iov_loop zbc_iov_count
map_loop-count zero iovlen buf sectors p h k = omega arith
map_loop-count (suc rounds) iovlen buf sectors p h k =
    let len = if ltb iovlen sectors then iovlen else sectors in
    ground (arith, map_loop-count rounds iovlen (buf + len * 512) (sectors - len))

pub map_iov-count :
    (buf sectors iovcnt iovlen : ℕ)
    → sectors < 2 ^ 64
    → is_neg (zbc_map_iov buf sectors true iovcnt iovlen).0 ≡ false
    → zbc_iov_count (zbc_map_iov buf sectors true iovcnt iovlen).1 ≡ sectors
unfolding zbc_map_iov
map_iov-count buf sectors zero iovlen small ok = ground arith
map_iov-count buf sectors (suc n) zero small ok = ground (arith, mul-zero n)
map_iov-count buf sectors (suc n) (suc l) small ok =
    ground (arith, map_loop-count sectors (suc l) buf sectors)

module _ {S : Type 0} (page_size : ℕ) (drv : Drv S) (dev : Device)
    (top : dev.zbd_info.zbd_sectors < 2 ^ 64) where
  pub preadv-AtMost :
      (vs : List Iovec) (offset : ℕ) (s : S)
      → AtMost (zbc_iov_count vs) (zbc_preadv page_size drv dev (some vs) offset s).0
  unfolding zbc_preadv zbc_do_preadv
  preadv-AtMost [] offset s = tt
  preadv-AtMost (v ∷ vs) offset s =
      do_rw-AtMost page_size drv.zbd_preadv dev (v ∷ vs) (zbc_dev_sect_laligned dev) offset s top

  pub pread-AtMost :
      (buf count offset : ℕ) (s : S)
      → AtMost count (zbc_pread page_size drv dev buf count offset s).0
  unfolding zbc_pread zbc_do_preadv
  pread-AtMost buf count offset s =
      let vs : List Iovec = record { iov_base = buf; iov_len = count } ∷ [] in
      AtMost-le (zbc_iov_count vs) count (zbc_do_preadv page_size drv dev vs offset s).0
        (one-le buf count)
        (do_rw-AtMost page_size drv.zbd_preadv dev vs (zbc_dev_sect_laligned dev) offset s top)

  pub pwritev-AtMost :
      (vs : List Iovec) (offset : ℕ) (s : S)
      → AtMost (zbc_iov_count vs) (zbc_pwritev page_size drv dev (some vs) offset s).0
  unfolding zbc_pwritev zbc_do_pwritev
  pwritev-AtMost [] offset s = tt
  pwritev-AtMost (v ∷ vs) offset s =
      do_rw-AtMost page_size drv.zbd_pwritev dev (v ∷ vs) (zbc_dev_sect_paligned dev) offset s top

  pub pwrite-AtMost :
      (buf count offset : ℕ) (s : S)
      → AtMost count (zbc_pwrite page_size drv dev buf count offset s).0
  unfolding zbc_pwrite zbc_do_pwritev
  pwrite-AtMost buf count offset s =
      let vs : List Iovec = record { iov_base = buf; iov_len = count } ∷ [] in
      AtMost-le (zbc_iov_count vs) count (zbc_do_pwritev page_size drv dev vs offset s).0
        (one-le buf count)
        (do_rw-AtMost page_size drv.zbd_pwritev dev vs (zbc_dev_sect_paligned dev) offset s top)
