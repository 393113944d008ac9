-- ===== src/Rw/Runs.antt =====
-- The runs of driver calls that a read or a write is.
use libzbc.Base.{
  ℕ, zero, suc, ◌+◌, ◌-◌, ◌*◌, ◌^◌, ◌≤◌, ◌<◌, min, ◌≡◌, refl, sym, ap, ◌⊎◌, inl, inr, arith,
}
use libzbc.Base.{
  Bool, true, false, Bool-cases, List, length, All, take, drop, if◌then◌else◌, u64, ℤ, pos, negsuc,
}
use libzbc.Base.{is_pos, is_zero, is_neg, pos_part, neg_eio, lt→ltb, ge→ltb, ==zero_false, gt→leb}
use libzbc.Device.{Device, zbc_test_mode}
use libzbc.Device.Driver.{Iovec}
use libzbc.Iov.{zbc_iov_count, zbc_iov_convert}
use libzbc.Iov.Bytes.{bytes_of}
use libzbc.Iov.Convert.{IsSmall, iov_convert_slice}
use libzbc.Rw.{ssize_max, rw_loop, clip_count, do_rw}
use mathlib.Core.Path.{subst}
use mathlib.Core.Bool.{true≢false}
use native.Mathlib.Decide.{dec_lt}

-- A driver never moves more sectors than the vector it is given holds.
abbrev pub Honest : {S : Type 0} → (Device → List Iovec → ℕ → S → ℤ × S) → Device → Type 0
Honest {S} io dev =
    (vs : List Iovec) (offset n : ℕ) (s : S)
    → (io dev vs offset s).0 ≡ pos n
    → n * 512 ≤ length (bytes_of 1 vs)

-- The vector is the part of the caller's from sector `done` on, within `count` sectors.
abbrev pub IsPart : List Iovec → ℕ → ℕ → List Iovec → Type 0
IsPart iov count done vs =
    let n = length (bytes_of 1 vs) in
    (bytes_of 1 vs ≡ take n (drop (done * 512) (bytes_of 512 iov))) × (n ≤ (count - done) * 512)

-- The code for a driver's result that is not positive.
abbrev pub failure : ℤ → ℤ
failure ret = if is_zero ret then neg_eio else ret

-- The runs that move `count` sectors from device sector `start` on, with `done` of them moved: one
-- command after the other, each for the sectors that follow, to the last sector or a failure.
pub data Run {S : Type 0} (io : Device → List Iovec → ℕ → S → ℤ × S) (dev : Device)
    (iov : List Iovec) (start count : ℕ) : ℕ → S → ℤ → S → Type 0 where
  finished : {s : S} → Run io dev iov start count count s (pos count) s
  moved :
      {done n : ℕ} {s s' s'' : S} {ret : ℤ} (vs : List Iovec)
      → done < count
      → IsPart iov count done vs
      → io dev vs (start + done) s ≡ (pos n, s')
      → 0 < n
      → done + n ≤ count
      → Run io dev iov start count (done + n) s' ret s''
      → Run io dev iov start count done s ret s''
  failed :
      {done : ℕ} {s s' : S} {ret : ℤ} (vs : List Iovec)
      → done < count
      → IsPart iov count done vs
      → io dev vs (start + done) s ≡ (ret, s')
      → is_pos ret ≡ false
      → Run io dev iov start count done s (failure ret) s'

pub is_pos_lem : (r : ℤ) → is_pos r ≡ true → (r ≡ pos (pos_part r)) × (0 < pos_part r)
is_pos_lem (pos zero) h = absurd (true≢false (sym h))
is_pos_lem (pos (suc n)) h = (refl, omega arith)
is_pos_lem (negsuc n) h = absurd (true≢false (sym h))

failure-is_neg : (r : ℤ) → is_pos r ≡ false → is_neg (failure r) ≡ true
failure-is_neg (pos zero) h = refl
failure-is_neg (pos (suc n)) h = absurd (true≢false h)
failure-is_neg (negsuc n) h = refl

module _ {S : Type 0} {io : Device → List Iovec → ℕ → S → ℤ × S} {dev : Device} {iov : List Iovec}
    {start count : ℕ} where
  -- A run moves all sectors or gives an error.
  Run-total :
      {done : ℕ} {s s' : S} {ret : ℤ}
      → Run io dev iov start count done s ret s'
      → (ret ≡ pos count) ⊎ (is_neg ret ≡ true)
  Run-total finished = inl refl
  Run-total (moved vs h part e p le r) = Run-total r
  Run-total (failed {ret = ret} vs h part e p) = inr (failure-is_neg ret p)

module _ {S : Type 0} (page_size : ℕ) (io : Device → List Iovec → ℕ → S → ℤ × S) (dev : Device)
    (iov : List Iovec) (start count : ℕ) (honest : Honest io dev) (sm : All IsSmall iov)
    (c : count < 2 ^ 54) (fits : start + count < 2 ^ 64) where
  abbrev part : ℕ → List Iovec
  part done = (zbc_iov_convert page_size iov done (count - done) dev.zbd_info.zbd_max_rw_sectors).0

  part-IsPart : (done : ℕ) → done < count → IsPart iov count done (part done)
  part-IsPart done h =
      let (slice, most, rest, out) =
        iov_convert_slice page_size iov done (count - done) dev.zbd_info.zbd_max_rw_sectors sm
          (omega arith) (omega arith) in
      (slice, most)

  loop-Run :
      (rounds done : ℕ) (s : S)
      → done ≤ count
      → count ≤ done + rounds
      → let r = rw_loop page_size io dev iov count rounds done (start + done) s in
        Run io dev iov start count done s r.0 r.1
  unfolding rw_loop
  loop-Run zero done s h k =
      let e : count ≡ done = omega arith in
      subst (λ d. Run io dev iov start count d s (pos count) s) e finished
  loop-Run (suc rounds) done s h k = elim (dec_lt done count) [
    | no ge ↦ rw (ge→ltb done count (omega arith)) (
        let e : count ≡ done = omega arith in
        subst (λ d. Run io dev iov start count d s (pos count) s) e finished)
    | yes lt ↦
        let out = io dev (part done) (start + done) s in
        rw (lt→ltb done count lt) (elim (Bool-cases (is_pos out.0)) [
          | inr stop ↦ rw stop (failed (part done) lt (part-IsPart done lt) refl stop)
          | inl go ↦ rw go (
              let (e, n_pos) = is_pos_lem out.0 go in
              let n = pos_part out.0 in
              let less : n * 512 ≤ length (bytes_of 1 (part done)) =
                honest (part done) (start + done) n s e in
              let le : done + n ≤ count = omega (arith, less, (part-IsPart done lt).1) in
              let d : u64 (done + n) ≡ done + n = omega arith in
              let o : u64 (start + done + n) ≡ start + (done + n) = omega arith in
              rw (d, o)
                (moved (part done) lt (part-IsPart done lt) (ap (λ r. (r, out.1)) e) n_pos le
                  (loop-Run rounds (done + n) out.1 le (omega arith))))
        ])
  ]

clip_lem :
    (dev : Device) (count offset : ℕ)
    → dev.zbd_info.zbd_sectors < 2 ^ 63
    → count < 2 ^ 54
    → offset < dev.zbd_info.zbd_sectors
    → clip_count dev count offset ≡ min count (dev.zbd_info.zbd_sectors - offset)
unfolding clip_count
clip_lem dev count offset top small inside = ground arith

-- The runs of both functions, inside the device and with its alignment.
pub do_rw-Run :
    {S : Type 0} (page_size : ℕ) (io : Device → List Iovec → ℕ → S → ℤ × S) (dev : Device)
    (iov : List Iovec) (aligned : ℕ → Bool) (offset : ℕ) (s : S)
    → Honest io dev
    → All IsSmall iov
    → dev.zbd_info.zbd_sectors < 2 ^ 63
    → zbc_iov_count iov < 2 ^ 54
    → 0 < zbc_iov_count iov
    → zbc_test_mode dev ≡ false
    → aligned (zbc_iov_count iov) ≡ true
    → aligned offset ≡ true
    → offset < dev.zbd_info.zbd_sectors
    → let count = min (zbc_iov_count iov) (dev.zbd_info.zbd_sectors - offset) in
      let (ret, s') = do_rw page_size io dev iov aligned offset s in
      Run io dev iov offset count 0 s ret s' × ((ret ≡ pos count) ⊎ (is_neg ret ≡ true))
unfolding do_rw
do_rw-Run page_size io dev iov aligned offset s honest sm top small nonempty real al al' inside =
    let count = min (zbc_iov_count iov) (dev.zbd_info.zbd_sectors - offset) in
    let clip : clip_count dev (zbc_iov_count iov) offset ≡ count =
      clip_lem dev (zbc_iov_count iov) offset top small inside in
    let start : offset + 0 ≡ offset = omega arith in
    let run =
      loop-Run page_size io dev iov offset count honest sm (omega arith) (omega arith) count 0 s
        (omega arith) (omega arith) in
    let here : (c : ℕ)
        → c ≡ count
        → 0 < c
        → Run io dev iov offset count 0 s (rw_loop page_size io dev iov c c 0 offset s).0
            (rw_loop page_size io dev iov c c 0 offset s).1 =
      λ c e p.
        subst
          (λ c.
            let r = rw_loop page_size io dev iov c c 0 offset s in
            Run io dev iov offset count 0 s r.0 r.1)
          (sym e)
          (subst
            (λ o.
              let r = rw_loop page_size io dev iov count count 0 o s in
              Run io dev iov offset count 0 s r.0 r.1)
            start run) in
    let out = here (clip_count dev (zbc_iov_count iov) offset) clip (omega arith) in
    rw
      (
        ge→ltb ssize_max (u64 (zbc_iov_count iov * 512)) (omega arith),
        real,
        al,
        al',
        ==zero_false (clip_count dev (zbc_iov_count iov) offset) (omega arith),
        gt→leb dev.zbd_info.zbd_sectors offset inside,
      )
      (out, Run-total out)
