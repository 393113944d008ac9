-- ===== src/Scsi/Honest.antt =====
-- The transfers of the SCSI backend keep the promise that lib/zbc.c relies on.
use libzbc.Base.{
  ℕ, zero, suc, ◌*◌, ◌/◌, ◌^◌, ◌≤◌, ◌<◌, ◌≡◌, refl, sym, ap, ◌∙◌, ◌⊎◌, inl, inr, arith,
}
use libzbc.Base.{
  Bool, true, false, Bool-cases, not, ◌&&◌, List, [], ◌∷◌, length, length-append, sub64, ℤ, pos,
  negsuc, is_zero, is_neg, pos_part,
}
use mathlib.Core.Bool.{true≢false}
use libzbc.Base.{if◌then◌else◌, ◌==◌, neg_etimedout, neg_eio}
use libzbc.Device.{Device, ErrExt}
use libzbc.Sg.Sense.{zbc_clear_errno}
use libzbc.Device.Driver.{Iovec}
use libzbc.Iov.{zbc_iov_count}
use libzbc.Iov.Bytes.{range, bytes_of, length-range}
use libzbc.Rw.Runs.{Honest}
use libzbc.Sg.{Cmd, init_cmd, zbc_sg_vcmd_init}
use libzbc.Sg.Exec.{
  Reply, refused, replied, Sys, finish, check_status, wants_ata_status, ata_failed, failed,
  zbc_sg_cmd_exec,
}
use libzbc.Base.{get_or, ◌≢◌, neg_einval, neg_enomem}
use libzbc.Device.Sectors.{zbc_dev_sect2lba}
use libzbc.Sg.CmdId as CmdId
use libzbc.Sg.{no_vec}
use libzbc.Scsi.{rw_cdb, transfer, zbc_scsi_preadv, zbc_scsi_pwritev}

-- The residue that a reply states.
abbrev pub resid_of : Reply → ℕ
resid_of (refused errno) = 0
resid_of (replied status host_status driver_status sb_len_wr resid sense payload) = resid

-- The kernel never states a residue above the size of the transfer.
abbrev pub Bounded : {K : Type 0} → (Cmd → K → Reply × K) → Type 0
Bounded {K} sg_io = (cmd : Cmd) (k : K) → resid_of (sg_io cmd k).0 ≤ cmd.dxfer_len

pub count_le : (vs : List Iovec) → zbc_iov_count vs ≤ length (bytes_of 1 vs)
unfolding zbc_iov_count bytes_of
count_le [] = omega arith
count_le (v ∷ vs) = omega (
  arith,
  count_le vs,
  length-append (range v.iov_base (v.iov_len * 1)) (bytes_of 1 vs),
  length-range v.iov_base (v.iov_len * 1),
)

pub count_small : (vs : List Iovec) → zbc_iov_count vs < 2 ^ 64
unfolding zbc_iov_count
count_small [] = omega arith
count_small (v ∷ vs) = omega arith

-- An outcome is a success with the residue as it was, or an error.
abbrev pub Settled : ℕ → ℤ × Cmd → Type 0
Settled resid (ret, cmd) = ((ret ≡ pos 0) × (cmd.resid ≡ resid)) ⊎ (is_neg ret ≡ true)

pick-is_neg :
    (b : Bool) (x y : ℤ) → is_neg x ≡ true → is_neg y ≡ true → is_neg (if b then x else y) ≡ true
pick-is_neg true x y h k = h
pick-is_neg false x y h k = k

check_status-Settled : (cmd : Cmd) (e : ErrExt) → Settled cmd.resid (check_status cmd e).0
unfolding check_status
check_status-Settled cmd e = elim (Bool-cases (wants_ata_status cmd)) [
  | inl w ↦ rw w (elim (Bool-cases (ata_failed cmd)) [
    | inl f ↦ rw f (inr refl)
    | inr f ↦ rw f (elim (Bool-cases (failed (record cmd { status = 0 }))) [
      | inl g ↦ rw g (inr (pick-is_neg (cmd.host_status == 3) neg_etimedout neg_eio refl refl))
      | inr g ↦ rw g (inl (refl, refl))
    ])
  ])
  | inr w ↦ rw w (elim (Bool-cases (failed cmd)) [
    | inl g ↦ rw g (inr (pick-is_neg (cmd.host_status == 3) neg_etimedout neg_eio refl refl))
    | inr g ↦ rw g (inl (refl, refl))
  ])
]

finish-Settled :
    {K : Type 0} (sg_io : Cmd → K → Reply × K) (cmd : Cmd) (reply : Reply) (e : ErrExt)
    → cmd.resid ≡ 0
    → Settled (resid_of reply) (finish sg_io cmd reply e).0
unfolding finish
finish-Settled sg_io cmd (refused zero) e h = inl (refl, h)
finish-Settled sg_io cmd (refused (suc n)) e h = inr refl
finish-Settled sg_io cmd (replied status host_status driver_status sb_len_wr resid sense payload) e
      h =
    check_status-Settled _ zbc_clear_errno

-- The set-up refuses with an error; a command that it sets up is for the vector's bytes.
abbrev pub Ready : ℕ → ℤ × Cmd → Type 0
Ready size (ret, cmd) =
    ((ret ≡ pos 0) ⊎ (is_neg ret ≡ true)) × (cmd.resid ≡ 0) × (cmd.dxfer_len ≡ size)

pick-Ready :
    (a b : Bool) (cmd : Cmd) (size : ℕ)
    → cmd.resid ≡ 0
    → cmd.dxfer_len ≡ size
    → Ready size (if a then (neg_einval, cmd) else if b then (neg_enomem, cmd) else (pos 0, cmd))
pick-Ready true b cmd size h k = (inr refl, h, k)
pick-Ready false true cmd size h k = (inr refl, h, k)
pick-Ready false false cmd size h k = (inl refl, h, k)

init_cmd_sizes :
    (dev : Device) (id : ℕ) (iov : List Iovec) (b : Bool)
    → ((init_cmd dev id iov b).resid ≡ 0) × ((init_cmd dev id iov b).dxfer_len ≡ zbc_iov_count iov)
unfolding init_cmd
init_cmd_sizes dev id iov b = (refl, refl)

pub vcmd_init-Ready :
    (memalign : ℕ → Bool) (dev : Device) (id : ℕ) (iov : List Iovec)
    → Ready (zbc_iov_count iov) (zbc_sg_vcmd_init memalign dev id iov)
unfolding zbc_sg_vcmd_init
vcmd_init-Ready memalign dev id iov =
    let bufsz = zbc_iov_count iov in
    let needed = ((get_or iov 0 no_vec).iov_base == 0) && not (bufsz == 0) in
    let h = init_cmd_sizes dev id iov needed in
    pick-Ready (needed && not (length iov == 1)) (needed && not (memalign bufsz))
      (init_cmd dev id iov needed) bufsz h.0 h.1

-- The code that a transfer makes of the codes of the set-up and of the command.
abbrev pub outcome : {K : Type 0} → ℤ → ℤ → ℕ → ℕ → Sys K → Sys K → ℤ × Sys K
outcome init ret sz resid s s' =
    if not (is_zero init)
    then (init, s)
    else (if is_zero ret then pos (sub64 sz resid / 512) else ret, s')

pub pos-ne : (r : ℤ) (n : ℕ) → is_neg r ≡ true → r ≢ pos n
pos-ne r n h e = true≢false (sym h ∙ ap is_neg e)

pub is_zero_neg : (r : ℤ) → is_neg r ≡ true → is_zero r ≡ false
is_zero_neg (pos n) h = absurd (true≢false (sym h))
is_zero_neg (negsuc n) h = refl

pub outcome_le :
    {K : Type 0} (init ret : ℤ) (sz resid n : ℕ) (s s' : Sys K)
    → (init ≡ pos 0) ⊎ (is_neg init ≡ true)
    → ((ret ≡ pos 0) × (resid ≤ sz)) ⊎ (is_neg ret ≡ true)
    → sz < 2 ^ 64
    → (outcome init ret sz resid s s').0 ≡ pos n
    → n * 512 ≤ sz
outcome_le init ret sz resid n s s' (inr bad) r top e =
    absurd (pos-ne init n bad (rw (is_zero_neg init bad) at e))
outcome_le init ret sz resid n s s' (inl ok) (inr bad) top e =
    absurd (pos-ne ret n bad (rw (ok, is_zero_neg ret bad) at e))
outcome_le init ret sz resid n s s' (inl ok) (inl (zero_ret, le)) top e =
    let moved : pos (sub64 sz resid / 512) ≡ pos n = rw (ok, zero_ret) at e in
    omega (arith, ap pos_part moved)

pub exec-Settled :
    {K : Type 0} (sg_io : Cmd → K → Reply × K) (cmd : Cmd) (s : Sys K)
    → cmd.resid ≡ 0
    → Settled (resid_of (sg_io cmd s.kernel).0) (zbc_sg_cmd_exec sg_io cmd s).0
unfolding zbc_sg_cmd_exec
exec-Settled sg_io cmd s h = finish-Settled sg_io cmd (sg_io cmd s.kernel).0 s.zerrno h

-- A settled outcome whose residue is within the size.
pub within :
    (resid sz : ℕ) (r : ℤ × Cmd)
    → resid ≤ sz
    → Settled resid r
    → ((r.0 ≡ pos 0) × (r.1.resid ≤ sz)) ⊎ (is_neg r.0 ≡ true)
within resid sz r h (inl (e, k)) = inl (e, omega arith)
within resid sz r h (inr k) = inr k

module _ {K : Type 0} (sg_io : Cmd → K → Reply × K) (bounded : Bounded sg_io)
    (memalign : ℕ → Bool) where
  transfer_le :
      (dev : Device) (id opcode : ℕ) (iov : List Iovec) (offset n : ℕ) (s : Sys K)
      → (transfer sg_io memalign dev id opcode iov offset s).0 ≡ pos n
      → n * 512 ≤ length (bytes_of 1 iov)
  unfolding transfer
  transfer_le dev id opcode iov offset n s e =
      let sz = zbc_iov_count iov in
      let init = zbc_sg_vcmd_init memalign dev id iov in
      let ready = vcmd_init-Ready memalign dev id iov in
      let cdb = rw_cdb opcode (zbc_dev_sect2lba dev offset) (zbc_dev_sect2lba dev (sz / 512)) in
      let cmd : Cmd = record init.1 { cdb = cdb } in
      let out = zbc_sg_cmd_exec sg_io cmd s in
      let fits : resid_of (sg_io cmd s.kernel).0 ≤ sz =
        omega (arith, bounded cmd s.kernel, ready.2) in
      let le : n * 512 ≤ sz =
        outcome_le init.0 out.0.0 sz out.0.1.resid n s out.1 ready.0
          (within (resid_of (sg_io cmd s.kernel).0) sz out.0 fits
            (exec-Settled sg_io cmd s ready.1))
          (count_small iov) e in
      omega (arith, le, count_le iov)

  -- With a kernel that never states a residue above the size of a transfer, the reads and the writes
  -- of the SCSI backend never report more sectors than the vector holds, whatever the drive answers,
  -- for any device and allocator. This is what read_in_order and write_in_order ask of a driver.
  pub scsi_transfer-Honest :
      (dev : Device)
      → Honest (zbc_scsi_preadv sg_io memalign) dev × Honest (zbc_scsi_pwritev sg_io memalign) dev
  unfolding zbc_scsi_preadv zbc_scsi_pwritev
  scsi_transfer-Honest dev = (
    (λ vs offset n s e. transfer_le dev CmdId.read 0x88 vs offset n s e),
    (λ vs offset n s e. transfer_le dev CmdId.write 0x8a vs offset n s e),
  )
