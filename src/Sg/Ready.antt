-- ===== src/Sg/Ready.antt =====
-- zbc_sg_test_unit_ready sends its command up to five times.
use libzbc.Base.{ℕ, zero, suc, ◌≡◌, ◌≢◌, refl, sym, ap, ◌∙◌, inl, inr, arith}
use libzbc.Base.{
  Bool, true, false, Bool-cases, not, ◌&&◌, ◌||◌, ◌==◌, set, ℤ, pos, negsuc, is_zero, is_eagain,
  is_neg, if◌then◌else◌, neg_eio, neg_eagain,
}
use mathlib.Core.Bool.{true≢false}
use libzbc.Device.{Device}
use libzbc.Sg.{Cmd, zbc_sg_cmd_init}
use libzbc.Sg.CmdId as CmdId
use libzbc.Sg.Sense.{sb}
use libzbc.Sg.Exec.{Reply, Sys, zbc_sg_cmd_exec, ready_loop, zbc_sg_test_unit_ready}

is_zero_lem : (r : ℤ) → is_zero r ≡ true → r ≡ pos 0
is_zero_lem (pos zero) h = refl
is_zero_lem (pos (suc n)) h = absurd (true≢false (sym h))
is_zero_lem (negsuc n) h = absurd (true≢false (sym h))

or_false : (a b : Bool) → (a || b) ≡ false → b ≡ false
or_false true b h = absurd (true≢false h)
or_false false b h = h

-- One less than the errno.
errno_less : ℤ → ℕ
errno_less (pos n) = 0
errno_less (negsuc n) = n

four_ne : ◌≢◌ {A = ℕ} 4 10
four_ne e = omega (arith, e)

other : (n : ℕ) → (n == 10) ≡ false → n ≢ 10
other n h e = ground arith

module _ {K : Type 0} (sg_io : Cmd → K → Reply × K) (memalign : ℕ → Bool) (dev : Device) where
  -- The command that is sent, and what comes back.
  abbrev probe : Sys K → (ℤ × Cmd) × Sys K
  probe s =
      let cmd = (zbc_sg_cmd_init memalign dev CmdId.test_unit_ready 0 0).1 in
      zbc_sg_cmd_exec sg_io (record cmd { cdb = set cmd.cdb 0 0 }) s

  -- The failures after which the command is sent again.
  abbrev wants_retry : ℤ × Cmd → Bool
  wants_retry (ret, cmd) =
      ((cmd.host_status == 11) || (not (cmd.sb_len_wr == 0) && (sb cmd.sense_buf 2 == 6)))
      || is_eagain ret

  -- The runs with `n` commands left to send: each that fails and asks for it is followed by another.
  pub data Polls : ℕ → Sys K → ℤ → Sys K → Type 0 where
    ready : {n : ℕ} {s : Sys K} → (probe s).0.0 ≡ pos 0 → Polls (suc n) s (pos 0) (probe s).1
    fails :
        {n : ℕ} {s : Sys K}
        → is_zero (probe s).0.0 ≡ false
        → wants_retry (probe s).0 ≡ false
        → Polls (suc n) s (probe s).0.0 (probe s).1
    again :
        {n : ℕ} {s s' : Sys K} {ret : ℤ}
        → is_zero (probe s).0.0 ≡ false
        → wants_retry (probe s).0 ≡ true
        → Polls n (probe s).1 ret s'
        → Polls (suc n) s ret s'
    gives_up : {s : Sys K} → Polls 0 s neg_eio s

  -- The last step of the function.
  abbrev settle : ℤ → ℤ
  settle ret = if is_eagain ret then neg_eio else ret

  settle-ne : (ret : ℤ) → settle ret ≢ neg_eagain
  unfolding errno_less
  settle-ne (pos n) e = absurd (true≢false (sym (ap is_neg e)))
  settle-ne (negsuc n) e = elim (Bool-cases (n == 10)) [
    | inl h ↦ absurd (
        four_ne (
          sym (ap (λ (b : Bool). errno_less (if b then neg_eio else negsuc n)) h)
          ∙ ap errno_less e))
    | inr h ↦ absurd (
        other n h (
          sym (ap (λ (b : Bool). errno_less (if b then neg_eio else negsuc n)) h)
          ∙ ap errno_less e))
  ]

  loop-Polls :
      (n : ℕ) (s : Sys K)
      → let (ret, s') = ready_loop sg_io memalign dev n s in Polls n s (settle ret) s'
  unfolding ready_loop
  loop-Polls zero s = gives_up
  loop-Polls (suc n) s = elim (Bool-cases (is_zero (probe s).0.0)) [
    | inl z ↦ let e = is_zero_lem (probe s).0.0 z in rw (z, e) (ready e)
    | inr nz ↦ elim (Bool-cases (wants_retry (probe s).0)) [
      | inl w ↦ rw (nz, w) (again nz w (loop-Polls n (probe s).1))
      | inr w ↦
          let e : is_eagain (probe s).0.0 ≡ false = or_false _ _ w in rw (nz, w, e) (fails nz w)
    ]
  ]

  -- The function sends the command five times at most, so four times again. It sends it again only
  -- after a failure with the host status 11, with sense data whose byte 2 is 6 (the key UNIT ATTENTION
  -- in the fixed format, but not in the descriptor format), or with the code -EAGAIN, and returns the
  -- code of the last one, or -EIO when the fifth also failed so; it never returns -EAGAIN.
  pub test_unit_ready-Polls :
      (s : Sys K)
      → let (ret, s') = zbc_sg_test_unit_ready sg_io memalign dev s in
        Polls 5 s ret s' × (ret ≢ neg_eagain)
  unfolding zbc_sg_test_unit_ready
  test_unit_ready-Polls s = (loop-Polls 5 s, settle-ne (ready_loop sg_io memalign dev 5 s).0)
