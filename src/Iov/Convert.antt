-- ===== src/Iov/Convert.antt =====
-- zbc_iov_convert cuts a slice out of a caller's vector.
use libzbc.Base.{ℕ, ◌+◌, ◌-◌, ◌*◌, ◌/◌, ◌^◌, ◌≤◌, ◌<◌, ◌≡◌, refl, sym, ap, ◌∙◌, ◌⊎◌, arith}
use libzbc.Base.{inl, inr, List, [], ◌∷◌, ◌++◌, Bool-cases, &&-false, u32, u64}
use libzbc.Base.{length, length-append, take, drop, All, leb, leb→le, leb→gt, ge→ltb, lt→ltb}
use libzbc.Device.Driver.{Iovec}
use libzbc.Iov.{Entry, cut_entry, convert_loop, zbc_iov_convert}
use libzbc.Iov.Bytes.{
  range, bytes_of, bytes_of-nil, length-range, drop_past, slice_inside, slice_across,
}
use mathlib.Core.List.{append-nil}
use native.Mathlib.Decide.{dec_lt}

-- Buffers that end below 2 ^ 63 bytes, as every buffer of a process does.
abbrev pub IsSmall : Iovec → Type 0
IsSmall v = v.iov_len < 2 ^ 54

module _ (page_size max_pages size : ℕ) (small : size < 2 ^ 63)
    (pages_small : max_pages < 2 ^ 32) where
  -- What an entry takes of the rest of a buffer; it stops short of the end only where the loop ends.
  pub record Cut (rest count nr_pages : ℕ) (base : ℕ) (e : Entry) : Type 0 where
    pub from : e.base ≡ base
    pub inside : e.bytes ≤ rest
    pub sized : count + e.bytes ≤ size
    pub paged : u32 (nr_pages + e.pages) ≤ max_pages
    pub short : e.bytes < rest → (size ≤ count + e.bytes) ⊎ (max_pages ≤ u32 (nr_pages + e.pages))

  pub cut_entry-Cut :
      (base rest count nr_pages : ℕ)
      → rest < 2 ^ 63
      → count ≤ size
      → nr_pages ≤ max_pages
      → Cut rest count nr_pages base (cut_entry page_size max_pages size base rest count nr_pages)
  unfolding cut_entry
  cut_entry-Cut base rest count nr_pages h c n = ground arith

  -- Once the size or the pages are used up, the loop adds nothing.
  loop_stops :
      (vs : List Iovec) (offset count nr_pages : ℕ)
      → (size ≤ count) ⊎ (max_pages ≤ nr_pages)
      → convert_loop page_size max_pages size vs offset count nr_pages ≡ ([], count)
  unfolding convert_loop
  loop_stops [] offset count nr_pages h = refl
  loop_stops (v ∷ vs) offset count nr_pages (inl h) = rw (ge→ltb count size h)
  loop_stops (v ∷ vs) offset count nr_pages (inr h) = rw (ge→ltb nr_pages max_pages h, &&-false)

  -- The loop's result is the next bytes of the vector from `offset` on.
  pub record Sliced (vs : List Iovec) (offset count : ℕ) (r : List Iovec × ℕ) : Type 0 where
    pub grows : count ≤ r.1
    pub bounded : r.1 ≤ size
    pub slice : bytes_of 1 r.0 ≡ take (r.1 - count) (drop offset (bytes_of 512 vs))
    pub full : length (bytes_of 1 r.0) ≡ r.1 - count
    pub entries : length r.0 ≤ length vs

  nothing : (vs : List Iovec) (offset count : ℕ) → count ≤ size → Sliced vs offset count ([], count)
  unfolding bytes_of
  nothing vs offset count c =
      let z : 0 ≡ count - count = omega arith in
      record { grows = omega arith; bounded = c; slice = rw (← z); full = z; entries = omega arith }

  skip-Sliced :
      (v : Iovec) (vs : List Iovec) (offset count : ℕ) (r : List Iovec × ℕ)
      → IsSmall v
      → v.iov_len * 512 ≤ offset
      → Sliced vs (offset - u64 (v.iov_len * 512)) count r
      → Sliced (v ∷ vs) offset count r
  unfolding bytes_of
  skip-Sliced v vs offset count r sm past h =
      let len : u64 (v.iov_len * 512) ≡ v.iov_len * 512 = omega arith in
      record {
        grows = h.grows;
        bounded = h.bounded;
        slice =
            h.slice
            ∙ ap (λ k. take (r.1 - count) (drop (offset - k) (bytes_of 512 vs))) len
            ∙ ap (take (r.1 - count))
                (sym (drop_past v.iov_base (v.iov_len * 512) offset (bytes_of 512 vs) past));
        full = h.full;
        entries = omega (arith, h.entries);
      }

  module _ (v : Iovec) (vs : List Iovec) (offset count nr_pages : ℕ) (e : Entry)
      (r : List Iovec × ℕ) (sm : IsSmall v) (inside_v : offset < v.iov_len * 512)
      (cut : Cut (u64 (v.iov_len * 512) - offset) count nr_pages (v.iov_base + offset) e)
      (c : count ≤ size) (h : Sliced vs 0 (u64 (count + e.bytes)) r) where
    no_wrap : u64 (count + e.bytes) ≡ count + e.bytes
    no_wrap = omega (arith, cut.sized)

    rest_of_v : u64 (v.iov_len * 512) - offset ≡ v.iov_len * 512 - offset
    rest_of_v = omega arith

    total : r.1 - count ≡ e.bytes + (r.1 - u64 (count + e.bytes))
    total = omega (arith, no_wrap, h.grows)

    ended : r ≡ ([], u64 (count + e.bytes)) → e.bytes ≡ r.1 - count
    ended q = omega (arith, ap (λ (q : List Iovec × ℕ). q.1) q, no_wrap)

    -- The slice of the entry and of what follows it.
    slice_of :
        (e.bytes < u64 (v.iov_len * 512) - offset → r ≡ ([], u64 (count + e.bytes)))
        → range (v.iov_base + offset) e.bytes ++ bytes_of 1 r.0
          ≡ take (r.1 - count) (drop offset (range v.iov_base (v.iov_len * 512) ++ bytes_of 512 vs))
    slice_of stops = elim (dec_lt e.bytes (u64 (v.iov_len * 512) - offset)) [
      | yes lt ↦
          ap (λ l. range (v.iov_base + offset) e.bytes ++ l)
            (ap (λ (q : List Iovec × ℕ). bytes_of 1 q.0) (stops lt) ∙ bytes_of-nil 1)
          ∙ append-nil (range (v.iov_base + offset) e.bytes)
          ∙ sym (
              slice_inside v.iov_base (v.iov_len * 512) offset (bytes_of 512 vs) e.bytes
                (omega (arith, rest_of_v)))
          ∙ ap (λ k. take k (drop offset (range v.iov_base (v.iov_len * 512) ++ bytes_of 512 vs)))
              (ended (stops lt))
      | no ge ↦
          ap (λ l. range (v.iov_base + offset) e.bytes ++ l) h.slice
          ∙ sym (
              slice_across v.iov_base (v.iov_len * 512) offset (bytes_of 512 vs) e.bytes
                (r.1 - u64 (count + e.bytes)) (omega (arith, cut.inside, rest_of_v)))
          ∙ ap (λ k. take k (drop offset (range v.iov_base (v.iov_len * 512) ++ bytes_of 512 vs)))
              (sym total)
    ]

    take-Sliced :
        (e.bytes < u64 (v.iov_len * 512) - offset → r ≡ ([], u64 (count + e.bytes)))
        → Sliced (v ∷ vs) offset count (record { iov_base = e.base; iov_len = e.bytes } ∷ r.0, r.1)
    unfolding bytes_of
    take-Sliced stops =
        let one : e.bytes * 1 ≡ e.bytes = omega arith in
        record {
          grows = omega (arith, h.grows, no_wrap);
          bounded = h.bounded;
          slice = rw (one, cut.from) (slice_of stops);
          full = rw one (
              length-append (range e.base e.bytes) (bytes_of 1 r.0)
              ∙ omega (arith, length-range e.base e.bytes, h.full, total));
          entries = omega (arith, h.entries);
        }

  pub loop-Sliced :
      (vs : List Iovec) (offset count nr_pages : ℕ)
      → All IsSmall vs
      → count ≤ size
      → nr_pages ≤ max_pages
      → Sliced vs offset count (convert_loop page_size max_pages size vs offset count nr_pages)
  unfolding convert_loop
  loop-Sliced [] offset count nr_pages sm c n = nothing [] offset count c
  loop-Sliced (v ∷ vs) offset count nr_pages sm c n = elim (dec_lt count size) [
    | no ge ↦ rw (ge→ltb count size (omega arith)) (nothing (v ∷ vs) offset count c)
    | yes lt ↦ elim (dec_lt nr_pages max_pages) [
      | no ge ↦
          rw (ge→ltb nr_pages max_pages (omega arith), &&-false) (nothing (v ∷ vs) offset count c)
      | yes lt' ↦
          rw (lt→ltb count size lt, lt→ltb nr_pages max_pages lt')
            (elim (Bool-cases (leb (u64 (v.iov_len * 512)) offset)) [
              | inl past ↦ rw past (
                  skip-Sliced v vs offset count _ sm.0 (omega (arith, leb→le _ _ past))
                    (loop-Sliced vs (offset - u64 (v.iov_len * 512)) count nr_pages sm.1 c n))
              | inr not_past ↦ rw not_past (
                  let e : Entry =
                    cut_entry page_size max_pages size (v.iov_base + offset)
                      (u64 (v.iov_len * 512) - offset) count nr_pages in
                  let cut : Cut (u64 (v.iov_len * 512) - offset) count nr_pages
                      (v.iov_base + offset) e =
                    cut_entry-Cut (v.iov_base + offset) (u64 (v.iov_len * 512) - offset) count
                      nr_pages (omega arith) c n in
                  take-Sliced v vs offset count nr_pages e
                    (convert_loop page_size max_pages size vs 0 (u64 (count + e.bytes))
                      (u32 (nr_pages + e.pages)))
                    sm.0 (omega (arith, leb→gt _ _ not_past)) cut c
                    (loop-Sliced vs 0 (u64 (count + e.bytes)) (u32 (nr_pages + e.pages)) sm.1
                      (omega (arith, cut.sized)) cut.paged)
                    (λ short.
                      loop_stops vs 0 (u64 (count + e.bytes)) (u32 (nr_pages + e.pages))
                        (stopped count e cut (cut.short short))))
            ])
    ]
  ]
    where
      stopped :
          {rest b : ℕ} (count : ℕ) (e : Entry)
          → Cut rest count nr_pages b e
          → (size ≤ count + e.bytes) ⊎ (max_pages ≤ u32 (nr_pages + e.pages))
          → (size ≤ u64 (count + e.bytes)) ⊎ (max_pages ≤ u32 (nr_pages + e.pages))
      stopped count e cut (inl h) = inl (omega (arith, cut.sized))
      stopped count e cut (inr h) = inr h

-- For a vector of buffers below 2 ^ 63 bytes, the converted vector stands for exactly the bytes of
-- the caller's vector from the sector offset on, as many as it holds, in order; these are at most
-- the sectors asked for, the vector has no more entries than the caller's, and the number of sectors
-- returned is that of its bytes.
pub iov_convert_slice :
    (page_size : ℕ) (iov : List Iovec) (sector_offset sectors max_sectors : ℕ)
    → All IsSmall iov
    → sector_offset < 2 ^ 54
    → sectors < 2 ^ 54
    → let (vs, out) = zbc_iov_convert page_size iov sector_offset sectors max_sectors in
      let n = length (bytes_of 1 vs) in
      (bytes_of 1 vs ≡ take n (drop (sector_offset * 512) (bytes_of 512 iov)))
      × (n ≤ sectors * 512)
      × (length vs ≤ length iov)
      × (out ≡ n / 512)
unfolding zbc_iov_convert
iov_convert_slice page_size iov sector_offset sectors max_sectors sm so ss =
    let size = u64 (sectors * 512) in
    let pages = u32 (u64 (max_sectors * 512) / page_size) in
    let start : u64 (sector_offset * 512) ≡ sector_offset * 512 = omega arith in
    let h =
      loop-Sliced page_size pages size (omega arith) (omega arith) iov (u64 (sector_offset * 512)) 0
        0 sm (omega arith) (omega arith) in
    let r = convert_loop page_size pages size iov (u64 (sector_offset * 512)) 0 0 in
    let whole : r.1 - 0 ≡ length (bytes_of 1 r.0) = sym h.full in
    (
      h.slice
          ∙ ap (λ k. take k (drop (u64 (sector_offset * 512)) (bytes_of 512 iov))) whole
          ∙ ap (λ o. take (length (bytes_of 1 r.0)) (drop o (bytes_of 512 iov))) start,
      omega (arith, h.full, h.bounded),
      h.entries,
      ap (λ k. k / 512) (let e : r.1 ≡ r.1 - 0 = omega arith in e ∙ whole),
    )
