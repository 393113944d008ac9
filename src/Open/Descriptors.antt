-- ===== src/Open/Descriptors.antt =====
-- The descriptors that the opens of the two backends leave open: zbc_scsi_open, zbc_ata_open and
-- their closes.
use libzbc.Base.{
  ℕ, ◌≡◌, refl, ◌∙◌, arith, Bool, true, List, ◌∷◌, ◌⊎◌, inl, inr, ℤ, bit_and, Option, some, none,
}
use libzbc.Device.{Device}
use libzbc.Sg.{Cmd}
use libzbc.Sg.Exec.{Reply, Sys}
use libzbc.Sg.MaxBlocks.{FileKind}
use libzbc.Scsi.Characteristics.{zbc_scsi_get_dev_info}
use libzbc.Ata.Sat.{zbc_ata_get_dev_info}
use libzbc.Open.{Opening, opened, refused, trapped}
use libzbc.Open.File.{
  give_up, take_info, check_file, with_file, fresh_device, ata_info, zbc_scsi_open, zbc_ata_open,
}
use libzbc.Open.Steps.{ata_dev_info-Stays, sense_reporting-Kept}
use libzbc.Open.ScsiSteps.{SameFd, AfterOption, scsi_dev_info-AfterOption}

-- What an open(2) leaves: one descriptor more, or none.
abbrev pub Opened : ℕ ⊎ ℕ → List ℕ → List ℕ → Type 0
Opened (inl errno) before after = after ≡ before
Opened (inr fd) before after = after ≡ fd ∷ before

-- What an open function leaves: the descriptor of the device, or none.
abbrev pub Balanced : Opening → List ℕ → List ℕ → Type 0
Balanced (opened dev) before after = after ≡ dev.zbd_fd ∷ before
Balanced (refused ret) before after = after ≡ before
Balanced trapped before after = Unit

-- The calls of the system, with the descriptors of the process that are open, the last first.
pub record Files (P K : Type 0) : Type 0 where
  pub open_fd : P → ℕ → K → (ℕ ⊎ ℕ) × K
  pub fstat : ℕ → K → ℕ ⊎ ℕ
  pub close : ℕ → K → ℕ × K
  pub sg_io : Cmd → K → Reply × K
  pub fds : K → List ℕ
  pub opens :
      (path : P) (flags : ℕ) (k : K) → let r = open_fd path flags k in Opened r.0 (fds k) (fds r.1)
  pub closes : (fd : ℕ) (rest : List ℕ) (k : K) → fds k ≡ fd ∷ rest → fds (close fd k).1 ≡ rest
  pub quiet : (cmd : Cmd) (k : K) → fds (sg_io cmd k).1 ≡ fds k

own : (fd flags : ℕ) → (fresh_device fd flags).zbd_fd ≡ fd
unfolding fresh_device
own fd flags = refl

module _ {P K : Type 0} (f : Files P K) (is_device : ℕ → Bool) (memory strdup : Bool) where
  -- The information of the device changes neither the descriptors nor the device's own.
  abbrev Quiet : (Device → Sys K → Option (ℤ × Device) × Sys K) → Type 0
  Quiet info =
      (dev : Device) (s : Sys K) → AfterOption f.sg_io (λ n. true) f.fds f.quiet dev s (info dev s)

  take_info-Balanced :
      (fd : ℕ) (before : List ℕ) (dev : Device) (r : Option (ℤ × Device) × Sys K)
      → dev.zbd_fd ≡ fd
      → SameFd dev r.0
      → f.fds r.1.kernel ≡ fd ∷ before
      → let o = take_info f.open_fd f.fstat is_device f.close memory strdup fd r in
        Balanced o.0 before (f.fds o.1.kernel)
  unfolding take_info give_up
  take_info-Balanced fd before dev (none, s) same own held = tt
  take_info-Balanced fd before dev (some (ret, d), s) same own held =
      ground (arith, f.closes fd before s.kernel)

  check-Balanced :
      (info : Device → Sys K → Option (ℤ × Device) × Sys K)
      → Quiet info
      → (flags fd : ℕ) (mode : ℕ ⊎ ℕ) (before : List ℕ) (s : Sys K) → f.fds s.kernel ≡ fd ∷ before
      → let o = check_file f.open_fd f.fstat is_device f.close memory strdup info flags fd mode s in
        Balanced o.0 before (f.fds o.1.kernel)
  unfolding check_file give_up
  check-Balanced info quiet flags fd (inl errno) before s held = f.closes fd before s.kernel held
  check-Balanced info quiet flags fd (inr mode) before s held =
      let dev = fresh_device fd flags in
      let (same, kept) = quiet dev s in
      ground (
        arith,
        f.closes fd before s.kernel held,
        take_info-Balanced fd before dev (info dev s) (own fd flags) same (kept ∙ held),
      )

  file-Balanced :
      (info : Device → Sys K → Option (ℤ × Device) × Sys K)
      → Quiet info
      → (flags : ℕ) (r : (ℕ ⊎ ℕ) × K) (s : Sys K) → Opened r.0 (f.fds s.kernel) (f.fds r.1)
      → let o = with_file f.open_fd f.fstat is_device f.close memory strdup info flags r s in
        Balanced o.0 (f.fds s.kernel) (f.fds o.1.kernel)
  unfolding with_file
  file-Balanced info quiet flags (inl errno, k) s held = held
  file-Balanced info quiet flags (inr fd, k) s held =
      check-Balanced info quiet flags fd (f.fstat fd k) (f.fds s.kernel) (record s { kernel = k })
        held

  module _ (memalign calloc : ℕ → Bool) (page_size : ℕ) (file : Device → FileKind) where
    scsi_info-Quiet : Quiet (zbc_scsi_get_dev_info f.sg_io memalign calloc page_size file)
    scsi_info-Quiet dev s =
        scsi_dev_info-AfterOption f.sg_io memalign f.fds f.quiet calloc page_size file dev s

    abbrev ata_info_of : Device → Sys K → Option (ℤ × Device) × Sys K
    ata_info_of =
        ata_info f.open_fd f.fstat is_device f.close memory strdup f.sg_io memalign calloc page_size
          file

    ata_info-Quiet : Quiet ata_info_of
    unfolding ata_info
    ata_info-Quiet dev s =
        let r = zbc_ata_get_dev_info f.sg_io memalign page_size file dev s in
        ground (
          arith,
          ata_dev_info-Stays f.sg_io memalign f.fds f.quiet page_size file dev s,
          sense_reporting-Kept f.sg_io memalign f.fds f.quiet r.0.1 r.1,
        )

    pub scsi_open-Balanced :
        (path : P) (flags : ℕ) (s : Sys K)
        → let o =
            zbc_scsi_open f.open_fd f.fstat is_device f.close memory strdup f.sg_io memalign calloc
              page_size file path flags s in
          Balanced o.0 (f.fds s.kernel) (f.fds o.1.kernel)
    unfolding zbc_scsi_open
    scsi_open-Balanced path flags s =
        file-Balanced (zbc_scsi_get_dev_info f.sg_io memalign calloc page_size file) scsi_info-Quiet
          flags (f.open_fd path (bit_and flags 3) s.kernel) s
          (f.opens path (bit_and flags 3) s.kernel)

    pub ata_open-Balanced :
        (path : P) (flags : ℕ) (s : Sys K)
        → let o =
            zbc_ata_open f.open_fd f.fstat is_device f.close memory strdup f.sg_io memalign calloc
              page_size file path flags s in
          Balanced o.0 (f.fds s.kernel) (f.fds o.1.kernel)
    unfolding zbc_ata_open
    ata_open-Balanced path flags s =
        file-Balanced ata_info_of ata_info-Quiet flags (f.open_fd path (bit_and flags 3) s.kernel) s
          (f.opens path (bit_and flags 3) s.kernel)
