-- ===== src/Tools/WriteZone.antt =====
-- tools/write_zone/zbc_write_zone.c: the loops over the zones and over a zone. The content of the
-- buffer is not followed: what is read of the input is the number of bytes.
use libzbc.Base.{
  ℕ, zero, suc, ◌+◌, ◌*◌, Bool, true, false, not, ◌&&◌, Option, none, some, List, [], ◌∷◌, ◌==◌,
  ltb, leb, if◌then◌else◌, u64, sub64, ℤ, pos, is_neg, is_pos, pos_part,
}
use libzbc.Device.{Device, Zone, zbc_zone_sequential}
use libzbc.Device.ZoneTests.{zbc_zone_full}
use libzbc.Device.Driver.{Drv}
use libzbc.Rw.{zbc_pwrite, zbc_pwritev}
use libzbc.Tools.{Plan, iosize, signed_ltb, chunk, move, Tally}
use libzbc.Tools.WriteLine.{WriteAsked}

-- Where the writing of a zone ends, from its start.
unfoldable pub write_max : Zone → ℕ
write_max z =
    if zbc_zone_sequential z
    then (if zbc_zone_full z
        then 0
        else if ltb z.zbz_start z.zbz_write_pointer
        then sub64 z.zbz_write_pointer z.zbz_start
        else z.zbz_length)
    else z.zbz_length

-- The input: what a read of that many bytes gives, and the return to its start.
pub record Input (S : Type 0) : Type 0 where
  pub read : ℕ → S → ℤ × S
  pub rewind : S → S

-- What comes of the input of a round: a read error, the end of the file, or a buffer to write, with
-- the code of the last read.
pub data Filling : Type 0 where
  broken : Filling
  ended : ℤ → Filling
  ready : ℤ → Filling

-- The buffer of a round. The second read of -loop is into the start of the buffer again, and a
-- buffer that it leaves empty is the end of the file.
unfoldable pub fill : {S : Type 0} → Option (Input S) → Bool → ℕ → ℤ → S → Filling × S
fill none floop size ret s = (ready ret, s)
fill (some f) floop size ret s =
    let (first, s₁) = f.read size s in
    let (second, s₂) = f.read size (f.rewind s₁) in
    let got = pos_part first in
    if is_neg first
    then (broken, s₁)
    else if ltb got size && floop
    then (if is_neg second
        then (broken, s₂)
        else if got + pos_part second == 0
        then (ended second, s₂)
        else (ready second, s₂))
    else if got == 0
    then (ended first, s₁)
    else (ready first, s₁)

-- The number of sectors of the next command, as the bits of an ssize_t. `full` is for a sequential
-- zone that is full.
unfoldable pub write_chunk : Bool → Plan → ℕ → ℕ
write_chunk full p ofst =
    if full then (if signed_ltb p.max ofst then sub64 p.max ofst else 0) else chunk p ofst

-- The plan for a zone.
abbrev pub plan_for : WriteAsked → Zone → Plan
plan_for a z = record {
  start = z.zbz_start;
  max = write_max z;
  bufsize = a.bufsize;
  iovcnt = a.iovcnt;
  vio = a.vio;
  ionum = a.ionum;
  buf = 1;
}

module _ {S : Type 0} (page_size : ℕ) (drv : Drv S) (dev : Device) (aborted : S → Bool)
    (input : Option (Input S)) (floop : Bool) where
  -- The `while` loop over a zone, by the rounds left, with the code of the last call: whether it
  -- leaves for the label `out`, and the tally. Nothing stands for rounds that are used up.
  unfoldable pub write_loop : Bool → Plan → ℕ → ℤ → ℕ → ℕ → ℕ → S → Option ((Bool × Tally) × S)
  write_loop full p zero last ofst bcount iocount s = none
  write_loop full p (suc rounds) last ofst bcount iocount s =
      let at = λ (out : Bool) (r : ℤ) (o b i : ℕ).
        let r : Bool × Tally = (out, record { ret = r; ofst = o; bcount = b; iocount = i }) in r in
      let (filling, s₁) = fill input floop (iosize p) last s in
      let c = write_chunk full p ofst in
      let (ret, s₂) =
        move (zbc_pwrite page_size drv dev) (zbc_pwritev page_size drv dev) p c
          (u64 (p.start + ofst)) s₁ in
      let n = pos_part ret in
      let next = write_loop full p rounds ret (ofst + n) (bcount + n * 512) (iocount + 1) s₂ in
      let written =
        if not (is_pos ret)
        then some (at true (pos 1) ofst bcount iocount, s₂)
        else if not (p.ionum == 0) && leb p.ionum (iocount + 1)
        then some (at false ret (ofst + n) (bcount + n * 512) (iocount + 1), s₂)
        else next in
      if aborted s
      then some (at false last ofst bcount iocount, s)
      else elim filling as (λ x. Option ((Bool × Tally) × S)) [
        | broken ↦ some (at false (pos 1) ofst bcount iocount, s₁)
        | ended code ↦ some (at false code ofst bcount iocount, s₁)
        | ready code ↦ if c == 0 then some (at false code ofst bcount iocount, s₁) else written
      ]

  -- The `for` loop over the zones.
  unfoldable pub write_zones : WriteAsked → List Zone → ℤ → ℕ → ℕ → S → Option ((Bool × Tally) × S)
  write_zones a [] last bcount iocount s =
      some ((false, record { ret = last; ofst = 0; bcount = bcount; iocount = iocount }), s)
  write_zones a (z ∷ zs) last bcount iocount s =
      let full = zbc_zone_sequential z && zbc_zone_full z in
      let p = plan_for a z in
      let loop = write_loop full p (suc p.max) last a.ofst bcount iocount s in
      if aborted s
      then some ((false, record { ret = last; ofst = 0; bcount = bcount; iocount = iocount }), s)
      else elim loop as (λ x. Option ((Bool × Tally) × S)) [
        | none ↦ none
        | some ((true, t), s') ↦ some ((true, t), s')
        | some ((false, t), s') ↦ write_zones a zs t.ret t.bcount t.iocount s'
      ]
