-- ===== src/Scsi/CapacityWire.antt =====
-- The capacity of a drive from its reply to READ CAPACITY 16.
use libzbc.Base.{ℕ, zero, suc, ◌+◌, ◌-◌, ◌*◌, ◌/◌, ◌%◌, ◌^◌, ◌≤◌, ◌<◌, ◌≡◌, refl, ◌∙◌, arith}
use libzbc.Base.{
  Bool, true, false, Bool-cases, inl, inr, not, ◌&&◌, none, some, List, ◌∷◌, ◌++◌, ==zero_false,
  u32, u64, has, pos,
}
use libzbc.Base.Bits.{bit_and_low, pow-pos}
use libzbc.Bytes.{get_int64, get_int32}
use libzbc.Bytes.Stored.{be64, be32, get_int64_stored, get_int32_stored}
use libzbc.Sg.MaxBlocks.{FileKind}
use libzbc.Device.{Device, with_info, zbc_test_mode, zbc_dev_is_zoned}
use libzbc.Sg.{Cmd}
use libzbc.Sg.CmdId as CmdId
use libzbc.Sg.Exec.{Reply, Sys}
use libzbc.Scsi.{run}
use libzbc.Scsi.Run.{Completes, run_ok}
use libzbc.Scsi.Inquiry.{is_ata}
use libzbc.Scsi.Capacity.{
  capacity_cdb, per_physical, set_capacity, process_capacity, read_capacity, zbc_scsi_get_capacity,
}
use native.Mathlib.Nat.{pow-suc}

-- The reply of a drive: the highest block, the block size, a byte whose RC_BASIS is 1, and the
-- exponent of the number of logical blocks in a physical one.
abbrev pub capacity_bytes : ℕ → ℕ → ℕ → List ℕ → List ℕ
capacity_bytes highest size exponent rest = be64 highest ++ be32 size ++ 0x10 ∷ exponent ∷ rest

low_bits : (e : ℕ) → per_physical e ≡ 2 ^ e % 16
unfolding per_physical
low_bits e = bit_and_low 4 (2 ^ e)

per_physical_small : (e : ℕ) → e < 4 → per_physical e ≡ 2 ^ e
per_physical_small zero h = low_bits 0
per_physical_small (suc zero) h = low_bits 1
per_physical_small (suc (suc zero)) h = low_bits 2
per_physical_small (suc (suc (suc zero))) h = low_bits 3
per_physical_small (suc (suc (suc (suc e)))) h = absurd (omega arith)

times_16 : (e : ℕ) → 2 ^ suc (suc (suc (suc e))) % 16 ≡ 0
times_16 e =
    omega (
      arith,
      pow-suc 2 (suc (suc (suc e))),
      pow-suc 2 (suc (suc e)),
      pow-suc 2 (suc e),
      pow-suc 2 e,
    )

per_physical_large : (e : ℕ) → 4 ≤ e → per_physical e ≡ 0
per_physical_large zero h = absurd (omega arith)
per_physical_large (suc zero) h = absurd (omega arith)
per_physical_large (suc (suc zero)) h = absurd (omega arith)
per_physical_large (suc (suc (suc zero))) h = absurd (omega arith)
per_physical_large (suc (suc (suc (suc e)))) h = low_bits (suc (suc (suc (suc e)))) ∙ times_16 e

two_pos : (e : ℕ) → 0 < 2 ^ e
two_pos = pow-pos

module _ {K : Type 0} (sg_io : Cmd → K → Reply × K) (memalign : ℕ → Bool) (page_size : ℕ)
    (file : Device → FileKind) (dev : Device) (highest size exponent : ℕ) (rest : List ℕ)
    (s : Sys K) (direct : (has dev.zbd_drv_flags is_ata && not (zbc_test_mode dev)) ≡ false)
    (room : memalign 32 ≡ true) (size_pos : 0 < size) (size_fits : size < 2 ^ 32)
    (below : highest < 2 ^ 64 - 1)
    (answers : Completes sg_io capacity_cdb 32 s.kernel 0
      (capacity_bytes highest size exponent rest)) where
  abbrev sized : Device
  sized = with_info dev (record dev.zbd_info { zbd_lblock_size = size })

  process_lem :
      (t : Sys K)
      → (process_capacity sg_io memalign dev (capacity_bytes highest size exponent rest) t).0
        ≡ set_capacity sized highest (per_physical exponent)
  unfolding process_capacity
  process_lem t =
      let buf = capacity_bytes highest size exponent rest in
      let l : get_int32 buf 8 ≡ size = omega (arith, get_int32_stored buf 8 size refl) in
      let m : get_int64 buf 0 ≡ highest = omega (arith, get_int64_stored buf 0 highest refl) in
      rw (l, m, ==zero_false size size_pos)
        (elim (Bool-cases (zbc_dev_is_zoned sized)) [ inl z ↦ rw z refl | inr z ↦ rw z refl ])

  capacity_lem :
      (zbc_scsi_get_capacity sg_io memalign page_size file dev s).0
      ≡ set_capacity sized highest (per_physical exponent)
  unfolding zbc_scsi_get_capacity read_capacity
  capacity_lem =
      let (ret, sz, buf) =
        run_ok sg_io s memalign dev CmdId.read_capacity 32 capacity_cdb 0
          (capacity_bytes highest size exponent rest) room (omega arith) (omega arith) refl
          answers in
      rw (direct, ret, buf)
        (process_lem (run sg_io memalign dev CmdId.read_capacity 32 capacity_cdb s).1)

  -- For a drive that is not asked through its ATA log and completes READ CAPACITY with a full reply of
  -- 32 bytes, for which the allocation of the buffer succeeds, with a block size below 2 ^ 32 that is
  -- not 0 and a highest block below 2 ^ 64 - 1 in its reply and the capacity in RC_BASIS 1, and with
  -- at most 8 logical blocks in a physical one: the call succeeds and sets the block sizes, the two numbers of blocks and the
  -- number of sectors from the reply.
  pub get_capacity_reads :
      exponent < 4
      → (zbc_scsi_get_capacity sg_io memalign page_size file dev s).0
        ≡ some (
          pos 0,
          with_info dev (record dev.zbd_info {
            zbd_lblock_size = size;
            zbd_lblocks = highest + 1;
            zbd_pblock_size = u32 (size * 2 ^ exponent);
            zbd_pblocks = (highest + 1) / 2 ^ exponent;
            zbd_sectors = u64 ((highest + 1) * size) / 512;
          }),
        )
  unfolding set_capacity
  get_capacity_reads small =
      let n : u64 (highest + 1) ≡ highest + 1 = omega arith in
      capacity_lem
      ∙ rw
          (
            per_physical_small exponent small,
            n,
            ==zero_false (highest + 1) (omega arith),
            ==zero_false (2 ^ exponent) (two_pos exponent),
          )
          refl

  -- For a drive that is not asked through its ATA log and completes READ CAPACITY with a full reply of
  -- 32 bytes, for which the allocation of the buffer succeeds, with a block size below 2 ^ 32 that is
  -- not 0, a highest block below 2 ^ 64 - 1 and RC_BASIS 1, but with 16 logical blocks or more in a
  -- physical one, where the int holds the shifted 1: the number of logical blocks in a physical one is computed as 0, and the call divides
  -- by zero.
  pub get_capacity_traps :
      4 ≤ exponent
      → exponent < 31
      → (zbc_scsi_get_capacity sg_io memalign page_size file dev s).0 ≡ none
  unfolding set_capacity
  get_capacity_traps large fits =
      let n : u64 (highest + 1) ≡ highest + 1 = omega arith in
      capacity_lem
      ∙ rw (per_physical_large exponent large, n, ==zero_false (highest + 1) (omega arith)) refl
