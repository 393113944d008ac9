-- ===== src/Examples/BalanceWitnesses.antt =====
-- The theorems on descriptors in a system with one drive, which answers the SCSI open.
use libzbc.Base.{ℕ, refl, ap, Bool, true, List, [], ◌∷◌, drop, length, ◌⊎◌, inr, pos}
use libzbc.Sg.Sense.{zbc_clear_errno}
use libzbc.Sg.Exec.{Sys}
use libzbc.Open.{zbc_open, zbc_device_is_zoned}
use libzbc.Open.Balance.{HoldsOption, PathLeaves}
use libzbc.Open.Descriptors.{Files}
use libzbc.Open.Table.{Realms}
use libzbc.Open.TableBalance.{fds_of, drivers, zbc_open-Balanced, is_zoned-Balanced}
use libzbc.Examples.OpenWitnesses.{scsi_drive, some_file, granted}

-- The kernel's state is the list of the open descriptors; every path is that of the drive.
abbrev one_drive : Files ℕ (List ℕ)
one_drive = record {
  open_fd = λ path flags k. (inr (length k), length k ∷ k);
  fstat = λ fd k. inr 0;
  close = λ fd k. (0, drop 1 k);
  sg_io = λ cmd k. ((scsi_drive cmd 0).0, k);
  fds = λ k. k;
  opens = λ path flags k. refl;
  closes = λ fd rest k e. ap (drop 1) e;
  quiet = λ cmd k. refl;
}

abbrev a_device : ℕ → Bool
a_device mode = true

abbrev no_answer : Realms (Sys (List ℕ))
no_answer dev sector ro array nr s = (record { ret = pos 0; stored = []; nr = 0 }, s)

abbrev start : Sys (List ℕ)
start = record { zerrno = zbc_clear_errno; kernel = 2 ∷ 1 ∷ 0 ∷ [] }

abbrev resolve : ℕ → ℕ ⊎ ℕ
resolve path = inr path

zbc_open-Balanced_example :
    let fds =
      fds_of one_drive a_device true true granted granted 4096 some_file [] no_answer no_answer in
    let h =
      zbc_open
        (drivers one_drive a_device true true granted granted 4096 some_file [] no_answer no_answer)
        resolve
        granted
        7
        0
        start in
    HoldsOption fds h.0 (fds start) h.1
zbc_open-Balanced_example =
    zbc_open-Balanced one_drive a_device true true granted granted 4096 some_file [] no_answer
      no_answer resolve 7 0 start

is_zoned-Balanced_example :
    let table =
      drivers one_drive a_device true true granted granted 4096 some_file [] no_answer no_answer in
    PathLeaves
      (fds_of one_drive a_device true true granted granted 4096 some_file [] no_answer no_answer)
      granted
      table
      (inr 7)
      start
      (zbc_device_is_zoned table resolve granted 7 start)
is_zoned-Balanced_example =
    is_zoned-Balanced one_drive a_device true true granted granted 4096 some_file [] no_answer
      no_answer resolve 7 start
