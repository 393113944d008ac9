-- ===== src/Tools/WriteRuns.antt =====
-- The loop of zbc_write_zone over one zone ends, and goes through the zone in order; what the tool
-- returns.
use libzbc.Base.{
  ℕ, zero, suc, ◌+◌, ◌*◌, ◌^◌, ◌≤◌, ◌<◌, ◌≡◌, refl, ap, inl, inr, arith, Bool, true, false,
  Bool-cases, not, ◌&&◌, Option, none, some, u64, leb, ◌==◌, ℤ, pos, is_pos, pos_part,
}
use libzbc.Device.{Device}
use libzbc.Device.Driver.{Drv}
use libzbc.Rw.Runs.{is_pos_lem}
use libzbc.Rw.{zbc_pwrite, zbc_pwritev}
use libzbc.Rw.AtMost.{AtMost, pwrite-AtMost, pwritev-AtMost}
use libzbc.Tools.{Plan, iosize, chunk, move, Tally}
use libzbc.Tools.Chunks.{IsPlan, chunk_bounds, move-AtMost}
use libzbc.Tools.ReadRuns.{at_most}
use libzbc.Tools.WriteZone.{Input, Filling, broken, ended, ready, fill, write_chunk, write_loop}

module _ {S : Type 0} (page_size : ℕ) (drv : Drv S) (dev : Device) (aborted : S → Bool)
    (input : Option (Input S)) (floop : Bool) (p : Plan) where
  -- The command of a round.
  abbrev pub write_at : ℕ → S → ℤ × S
  write_at ofst =
      move (zbc_pwrite page_size drv dev) (zbc_pwritev page_size drv dev) p (chunk p ofst)
        (u64 (p.start + ofst))

  -- Rounds one after the other: each takes a buffer from the input and writes sectors from the
  -- offset on, as many as the buffer and the part of the zone hold at most.
  pub data Written : ℕ → S → ℕ → S → Type 0 where
    here : {o : ℕ} {s : S} → Written o s o s
    no_more :
        {o : ℕ} {s s' : S} (last : ℤ)
        → (fill input floop (iosize p) last s).1 ≡ s'
        → Written o s o s'
    round :
        {o n o' : ℕ} {s s₁ s₂ s' : S} (last code : ℤ)
        → fill input floop (iosize p) last s ≡ (ready code, s₁)
        → write_at o s₁ ≡ (pos n, s₂)
        → 0 < n
        → n ≤ chunk p o
        → Written (o + n) s₂ o' s'
        → Written o s o' s'

  -- What an outcome is, of a loop from offset `o` with `b` bytes counted: the tool ends with the code
  -- 1, or the zone was written in order.
  abbrev pub Ended : ℕ → ℕ → S → Option ((Bool × Tally) × S) → Type 0
  Ended o b s none = ⊥
  Ended o b s (some ((true, t), s')) = t.ret ≡ pos 1
  Ended o b s (some ((false, t), s')) =
      (t.ofst ≤ p.max) × Written o s t.ofst s' × (t.bcount + o * 512 ≡ b + t.ofst * 512)

  module _ (top : dev.zbd_info.zbd_sectors < 2 ^ 64) (plan : IsPlan p) where
    write_at-AtMost : (o : ℕ) (s : S) → o ≤ p.max → AtMost (chunk p o) (write_at o s).0
    write_at-AtMost o s inside =
        move-AtMost (zbc_pwrite page_size drv dev) (zbc_pwritev page_size drv dev)
          (pwrite-AtMost page_size drv dev top) (pwritev-AtMost page_size drv dev top) p (chunk p o)
          (u64 (p.start + o)) s (omega (arith, plan.short, (chunk_bounds p o plan inside).0))

    -- A round in front of a loop that has ended.
    round-Ended :
        (o b n : ℕ) (s s₁ s₂ : S) (last code : ℤ)
        → fill input floop (iosize p) last s ≡ (ready code, s₁)
        → write_at o s₁ ≡ (pos n, s₂)
        → 0 < n
        → n ≤ chunk p o
        → (r : Option ((Bool × Tally) × S)) → Ended (o + n) (b + n * 512) s₂ r
        → Ended o b s r
    round-Ended o b n s s₁ s₂ last code f e p_n le none h = absurd h
    round-Ended o b n s s₁ s₂ last code f e p_n le (some ((true, t), s')) h = h
    round-Ended o b n s s₁ s₂ last code f e p_n le (some ((false, t), s')) (i, run, count) =
        (i, round last code f e p_n le run, (omega arith))

    stopped-Ended :
        (rounds : ℕ) (last : ℤ) (o b i : ℕ) (s : S)
        → aborted s ≡ true
        → o ≤ p.max
        → Ended o b s
            (write_loop page_size drv dev aborted input floop false p (suc rounds) last o b i s)
    unfolding write_loop
    stopped-Ended rounds last o b i s stop inside = rw stop (inside, here, refl)

    -- A round, from what comes of the input on, in front of loops that have ended.
    filled-Ended :
        (rounds : ℕ) (last : ℤ) (o b i : ℕ) (s : S)
        → aborted s ≡ false
        → o ≤ p.max
        → ((ret : ℤ) (n : ℕ) (s₂ : S)
            → 0 < n
            → o + n ≤ p.max
            → Ended (o + n) (b + n * 512) s₂ (
                write_loop page_size drv dev aborted input floop false p rounds ret
                  (o + n)
                  (b + n * 512)
                  (i + 1)
                  s₂))
        → (f : Filling) → (fill input floop (iosize p) last s).0 ≡ f
        → Ended o b s
            (write_loop page_size drv dev aborted input floop false p (suc rounds) last o b i s)
    unfolding write_loop write_chunk
    filled-Ended rounds last o b i s on inside rest broken f =
        rw (on, f) (inside, no_more last refl, refl)
    filled-Ended rounds last o b i s on inside rest (ended code) f =
        rw (on, f) (inside, no_more last refl, refl)
    filled-Ended rounds last o b i s on inside rest (ready code) f =
        let s₁ = (fill input floop (iosize p) last s).1 in
        let out = write_at o s₁ in
        let n = pos_part out.0 in
        elim (Bool-cases (chunk p o == 0)) [
          | inl end ↦ rw (on, f, end) (inside, no_more last refl, refl)
          | inr more ↦ elim (Bool-cases (is_pos out.0)) [
            | inr bad ↦ rw (on, f, more, bad) refl
            | inl good ↦
                let (e, n_pos) = is_pos_lem out.0 good in
                let le : n ≤ chunk p o = at_most (chunk p o) out.0 (write_at-AtMost o s₁ inside) in
                let both : out ≡ (pos n, out.1) = ap (λ r. (r, out.1)) e in
                let took : fill input floop (iosize p) last s ≡ (ready code, s₁) =
                  ap (λ r. (r, s₁)) f in
                let fits : o + n ≤ p.max = omega (arith, (chunk_bounds p o plan inside).0) in
                elim (Bool-cases (not (p.ionum == 0) && leb p.ionum (i + 1))) [
                  | inl limit ↦
                      rw (on, f, more, good, limit)
                        (fits, round last code took both n_pos le here, (omega arith))
                  | inr further ↦
                      rw (on, f, more, good, further)
                        (round-Ended o b n s s₁ out.1 last code took both n_pos le
                          (write_loop page_size drv dev aborted input floop false p rounds out.0
                            (o + n) (b + n * 512) (i + 1) out.1)
                          (rest out.0 n out.1 n_pos fits))
                ]
          ]
        ]

    loop-Ended :
        (rounds : ℕ) (last : ℤ) (o b i : ℕ) (s : S)
        → o ≤ p.max
        → p.max < o + rounds
        → Ended o b s (write_loop page_size drv dev aborted input floop false p rounds last o b i s)
    loop-Ended zero last o b i s inside enough = absurd (omega arith)
    loop-Ended (suc rounds) last o b i s inside enough = elim (Bool-cases (aborted s)) [
      | inl stop ↦ stopped-Ended rounds last o b i s stop inside
      | inr on ↦
          let filled = fill input floop (iosize p) last s in
          filled-Ended rounds last o b i s on inside
            (λ ret n s₂ p_n fits.
              loop-Ended rounds ret (o + n) (b + n * 512) (i + 1) s₂ fits (omega arith))
            filled.0 refl
    ]

-- The loop of zbc_write_zone over one zone that is not full, with the rounds that the tool has, on
-- any driver, any device and any input, from an offset inside a part of fewer than 2 ^ 62 sectors,
-- with a buffer of 512 bytes or more: it ends. It leaves for the end of the tool with the code 1, or
-- has gone through rounds that each take a buffer from the input and write consecutive sectors
-- from the offset on, each no more than were asked for and none behind the part, and may then have
-- read the input once more; the bytes counted are those of the sectors written.
pub write_loop-Ended :
    {S : Type 0} (page_size : ℕ) (drv : Drv S) (dev : Device) (aborted : S → Bool)
    (input : Option (Input S)) (floop : Bool) (p : Plan) (last : ℤ) (ofst : ℕ) (s : S)
    → dev.zbd_info.zbd_sectors < 2 ^ 64
    → IsPlan p
    → ofst ≤ p.max
    → Ended page_size drv dev aborted input floop p ofst 0 s
        (write_loop page_size drv dev aborted input floop false p (suc p.max) last ofst 0 0 s)
write_loop-Ended page_size drv dev aborted input floop p last ofst s top plan inside =
    loop-Ended page_size drv dev aborted input floop p top plan (suc p.max) last ofst 0 0 s inside
      (omega arith)
