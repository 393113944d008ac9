-- ===== src/Device/Driver.antt =====
-- struct zbc_drv of lib/zbc.h: the table of functions through which lib/zbc.c calls a backend.
-- `S` is what a driver's call may change: the device, the kernel, the thread's error.
use libzbc.Base.{ℕ, ℤ, Bool, Option, List}
use libzbc.Device.{Device, Zone, ZoneDomain, ZoneRealm, ActvRes, DevControl}

-- What a call that fills a caller's array returns: the code, what was stored from the array's
-- start on, and the number left in the in/out argument.
pub record Filled (A : Type 0) : Type 0 where
  pub ret : ℤ
  pub stored : List A
  pub nr : ℕ

-- A struct iovec: the address and the length.
pub record Iovec : Type 0 where
  pub iov_base : ℕ
  pub iov_len : ℕ

-- A Boolean before a number says whether the array argument is not NULL; the number is the value of
-- the in/out argument at the call. A function that the library tests for NULL is an option.
pub record Drv (S : Type 0) : Type 0 where
  pub zbd_report_zones : Device → ℕ → ℕ → Bool → ℕ → S → Filled Zone × S
  pub zbd_zone_op : Device → ℕ → ℕ → ℕ → ℕ → S → ℤ × S
  pub zbd_report_domains : Option (Device → ℕ → ℕ → ℕ → S → (ℤ × List ZoneDomain) × S)
  pub zbd_report_realms : Device → ℕ → ℕ → Bool → ℕ → S → Filled ZoneRealm × S
  pub zbd_zone_query_actv :
      Option (Device → Bool → Bool → Bool → Bool → ℕ → ℕ → ℕ → Bool → ℕ → S → Filled ActvRes × S)
  pub zbd_dev_control : Option (Device → DevControl → Bool → S → (ℤ × DevControl) × S)
  pub zbd_preadv : Device → List Iovec → ℕ → S → ℤ × S
  pub zbd_pwritev : Device → List Iovec → ℕ → S → ℤ × S
  pub zbd_flush : Device → S → ℤ × S
