-- ===== src/Tools/Chunks.antt =====
-- The size of the next command of a tool, and what the command reports.
use libzbc.Base.{
  ℕ, ◌+◌, ◌-◌, ◌*◌, ◌/◌, ◌^◌, ◌≤◌, ◌<◌, ◌≡◌, sym, inl, inr, arith, true, Bool-cases, Option, some,
  List, u64, sub64, ltb, ℤ, pos, negsuc, is_neg,
}
use mathlib.Core.Bool.{true≢false}
use libzbc.Device.Driver.{Iovec}
use libzbc.Iov.{zbc_iov_count, zbc_map_iov}
use libzbc.Rw.AtMost.{AtMost, AtMost-le, map_iov-count}
use libzbc.Tools.{Plan, iosize, signed_ltb, chunk, move}

-- The part of the zone is one that an address reaches, and a command takes a sector at least.
pub record IsPlan (p : Plan) : Type 0 where
  pub short : p.max < 2 ^ 62
  pub sized : 512 ≤ iosize p

signed_lem : (a b : ℕ) → a < 2 ^ 63 → b < 2 ^ 63 → signed_ltb a b ≡ ltb a b
unfolding signed_ltb
signed_lem a b h k = ground arith

iosize-lt : (p : Plan) → iosize p < 2 ^ 64
unfolding iosize
iosize-lt p = omega arith

-- Inside the part, the sectors fit into it and are those of the buffer at most; there are none
-- only at the end.
pub chunk_bounds :
    (p : Plan) (ofst : ℕ)
    → IsPlan p
    → ofst ≤ p.max
    → (ofst + chunk p ofst ≤ p.max)
      × (chunk p ofst * 512 ≤ iosize p)
      × (chunk p ofst ≡ 0 → ofst ≡ p.max)
unfolding chunk
chunk_bounds p ofst h inside =
    let c = iosize p / 512 in
    let small : iosize p < 2 ^ 64 = iosize-lt p in
    let e : u64 (ofst + c) ≡ ofst + c = omega (arith, h.short) in
    let d : sub64 p.max ofst ≡ p.max - ofst = omega (arith, h.short) in
    let t : signed_ltb p.max (ofst + c) ≡ ltb p.max (ofst + c) =
      signed_lem p.max (ofst + c) (omega (arith, h.short)) (omega (arith, h.short)) in
    rw (e, d, t) (ground (arith, h.sized))

negative : (m : ℕ) (r : ℤ) → is_neg r ≡ true → AtMost m r
negative m (pos n) h = absurd (true≢false (sym h))
negative m (negsuc n) h = tt

module _ {S : Type 0} (single : ℕ → ℕ → ℕ → S → ℤ × S)
    (vector : Option (List Iovec) → ℕ → S → ℤ × S)
    (one : (buf count offset : ℕ) (s : S) → AtMost count (single buf count offset s).0)
    (many : (vs : List Iovec) (offset : ℕ) (s : S)
      → AtMost (zbc_iov_count vs) (vector (some vs) offset s).0) where
  -- A command reports no more sectors than it was for.
  pub move-AtMost :
      (p : Plan) (sectors sector : ℕ) (s : S)
      → sectors < 2 ^ 64
      → AtMost sectors (move single vector p sectors sector s).0
  unfolding move
  move-AtMost p sectors sector s small =
      let m = zbc_map_iov p.buf sectors true p.iovcnt (p.bufsize / 512) in
      elim (Bool-cases p.vio) [
        | inr plain ↦ rw plain (one p.buf sectors sector s)
        | inl vio ↦ elim (Bool-cases (is_neg m.0)) [
          | inl bad ↦ rw (vio, bad) (negative sectors m.0 bad)
          | inr ok ↦
              rw (vio, ok)
                (AtMost-le (zbc_iov_count m.1) sectors (vector (some m.1) sector s).0
                  (omega (arith, map_iov-count p.buf sectors p.iovcnt (p.bufsize / 512) small ok))
                  (many m.1 sector s))
        ]
      ]
