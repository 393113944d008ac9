-- ===== src/Tools/ReadRuns.antt =====
-- The loop of zbc_read_zone ends, and goes through the zone in order.
use libzbc.Base.{
  ℕ, zero, suc, ◌+◌, ◌*◌, ◌^◌, ◌≤◌, ◌<◌, ◌≡◌, refl, ap, ◌⊎◌, inl, inr, arith, Bool, true, false,
  Bool-cases, not, ◌&&◌, Option, none, some, u64, leb, ◌==◌, ℤ, pos, negsuc, is_neg, is_pos,
  pos_part,
}
use libzbc.Device.{Device}
use libzbc.Device.Driver.{Drv}
use libzbc.Rw.Runs.{is_pos_lem}
use libzbc.Rw.{zbc_pread, zbc_preadv}
use libzbc.Rw.AtMost.{AtMost, pread-AtMost, preadv-AtMost}
use libzbc.Tools.{Plan, chunk, move, Tally}
use libzbc.Tools.Chunks.{IsPlan, chunk_bounds, move-AtMost}
use libzbc.Tools.ReadZone.{to_file, read_loop}

pub at_most : (m : ℕ) (r : ℤ) → AtMost m r → pos_part r ≤ m
at_most m (pos n) h = h
at_most m (negsuc n) h = omega arith

module _ {S : Type 0} (page_size : ℕ) (drv : Drv S) (dev : Device) (aborted : S → Bool)
    (write : Option (ℕ → S → ℤ × S)) (p : Plan) where
  -- The command of a round.
  abbrev pub read_at : ℕ → S → ℤ × S
  read_at ofst =
      move (zbc_pread page_size drv dev) (zbc_preadv page_size drv dev) p (chunk p ofst)
        (u64 (p.start + ofst))

  abbrev pub save : ℕ → S → ℤ × S
  save n s = to_file page_size drv dev aborted write p write (n * 512) s

  -- Rounds one after the other: each reads sectors from the offset on, as many as the buffer and the
  -- part of the zone hold at most, and saves as many.
  pub data Copied : ℕ → S → ℕ → S → Type 0 where
    here : {o : ℕ} {s : S} → Copied o s o s
    round :
        {o n o' : ℕ} {s s₁ s₂ s' : S} {w : ℤ}
        → read_at o s ≡ (pos n, s₁)
        → 0 < n
        → n ≤ chunk p o
        → save n s₁ ≡ (w, s₂)
        → is_neg w ≡ false
        → Copied (o + n) s₂ o' s'
        → Copied o s o' s'

  -- Why the loop has ended without an error.
  abbrev pub Reason : Tally → S → Type 0
  Reason t s = (aborted s ≡ true) ⊎ (t.ofst ≡ p.max) ⊎ ((0 < p.ionum) × (p.ionum ≤ t.iocount))

  -- What an outcome is, of a loop from offset `o` with `b` bytes counted.
  abbrev pub Ended : ℕ → ℕ → S → Option (Tally × S) → Type 0
  Ended o b s none = ⊥
  Ended o b s (some (t, s')) =
      (t.ret ≡ pos 1)
      ⊎ ((t.ret ≡ pos 0)
          × (t.ofst ≤ p.max)
          × Copied o s t.ofst s'
          × (t.bcount + o * 512 ≡ b + t.ofst * 512)
          × Reason t s')

  module _ (top : dev.zbd_info.zbd_sectors < 2 ^ 64) (plan : IsPlan p) where
    read_at-AtMost : (o : ℕ) (s : S) → o ≤ p.max → AtMost (chunk p o) (read_at o s).0
    read_at-AtMost o s inside =
        move-AtMost (zbc_pread page_size drv dev) (zbc_preadv page_size drv dev)
          (pread-AtMost page_size drv dev top) (preadv-AtMost page_size drv dev top) p (chunk p o)
          (u64 (p.start + o)) s (omega (arith, plan.short, (chunk_bounds p o plan inside).0))

    -- A round in front of a loop that has ended.
    round-Ended :
        (o b n : ℕ) (s s₁ s₂ : S) (w : ℤ)
        → read_at o s ≡ (pos n, s₁)
        → 0 < n
        → n ≤ chunk p o
        → save n s₁ ≡ (w, s₂)
        → is_neg w ≡ false
        → (r : Option (Tally × S)) → Ended (o + n) (b + n * 512) s₂ r
        → Ended o b s r
    round-Ended o b n s s₁ s₂ w e p_n le f ok none h = absurd h
    round-Ended o b n s s₁ s₂ w e p_n le f ok (some (t, s')) (inl bad) = inl bad
    round-Ended o b n s s₁ s₂ w e p_n le f ok (some (t, s')) (inr (r, i, run, count, why)) =
        inr (r, i, round e p_n le f ok run, (omega arith), why)

    loop-Ended :
        (rounds o b i : ℕ) (s : S)
        → o ≤ p.max
        → p.max < o + rounds
        → Ended o b s (read_loop page_size drv dev aborted write p rounds o b i s)
    unfolding read_loop
    loop-Ended zero o b i s inside enough = absurd (omega arith)
    loop-Ended (suc rounds) o b i s inside enough =
        let (fits, sized, last) = chunk_bounds p o plan inside in
        let out = read_at o s in
        let n = pos_part out.0 in
        let saved = save n out.1 in
        elim (Bool-cases (aborted s)) [
          | inl stop ↦ rw stop (inr (refl, inside, here, refl, inl stop))
          | inr on ↦ elim (Bool-cases (chunk p o == 0)) [
            | inl end ↦
                rw (on, end) (inr (refl, inside, here, refl, inr (inl (last (ground arith)))))
            | inr more ↦ elim (Bool-cases (is_pos out.0)) [
              | inr bad ↦ rw (on, more, bad) (inl refl)
              | inl good ↦
                  let (e, n_pos) = is_pos_lem out.0 good in
                  let le : n ≤ chunk p o = at_most (chunk p o) out.0 (read_at-AtMost o s inside) in
                  let both : out ≡ (pos n, out.1) = ap (λ r. (r, out.1)) e in
                  elim (Bool-cases (is_neg saved.0)) [
                    | inl lost ↦ rw (on, more, good, lost) (inl refl)
                    | inr kept ↦ elim (Bool-cases (not (p.ionum == 0) && leb p.ionum (i + 1))) [
                      | inl limit ↦
                          rw (on, more, good, kept, limit)
                            (inr (
                              refl,
                              (omega arith),
                              round both n_pos le refl kept here,
                              (omega arith),
                              inr (inr (ground arith)),
                            ))
                      | inr further ↦
                          rw (on, more, good, kept, further)
                            (round-Ended o b n s out.1 saved.1 saved.0 both n_pos le refl kept
                              (read_loop page_size drv dev aborted write p rounds (o + n)
                                (b + n * 512) (i + 1) saved.1)
                              (loop-Ended rounds (o + n) (b + n * 512) (i + 1) saved.1 (omega arith)
                                (omega arith)))
                    ]
                  ]
            ]
          ]
        ]

-- The loop of zbc_read_zone with the rounds that the tool has, on any driver and any device, from an
-- offset inside a part of fewer than 2 ^ 62 sectors, with a buffer of 512 bytes or more: it ends. It
-- ends with the code 1, or with 0 after rounds that read consecutive sectors from the offset on,
-- each no more than were asked for and none behind the part, and save as many bytes; the bytes
-- counted are those of the sectors read. With 0, a signal has come, the end of the part is
-- reached, or the limit on the number of commands is.
pub read_loop-Ended :
    {S : Type 0} (page_size : ℕ) (drv : Drv S) (dev : Device) (aborted : S → Bool)
    (write : Option (ℕ → S → ℤ × S)) (p : Plan) (ofst : ℕ) (s : S)
    → dev.zbd_info.zbd_sectors < 2 ^ 64
    → IsPlan p
    → ofst ≤ p.max
    → Ended page_size drv dev aborted write p ofst 0 s
        (read_loop page_size drv dev aborted write p (suc p.max) ofst 0 0 s)
read_loop-Ended page_size drv dev aborted write p ofst s top plan inside =
    loop-Ended page_size drv dev aborted write p top plan (suc p.max) ofst 0 0 s inside
      (omega arith)
