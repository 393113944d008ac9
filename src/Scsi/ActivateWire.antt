-- ===== src/Scsi/ActivateWire.antt =====
-- Activation results as a drive sends them, and what the backend makes of them.
use libzbc.Base.{ℕ, ◌-◌, ◌*◌, ◌/◌, ◌%◌, ◌^◌, ◌<◌, ◌≡◌, refl, sym, ◌∙◌, arith, bit_and, min}
use libzbc.Base.{
  Bool, true, false, List, [], ◌∷◌, ◌++◌, length, replicate, map, All, if◌then◌else◌, ltb, pos,
}
use libzbc.Base.Bits.{bit_and_low}
use libzbc.Bytes.{get_int64, get_int32}
use libzbc.Bytes.Stored.{be64, be32, get_int64_stored, get_int32_stored}
use libzbc.Device.{Device, ActvRes}
use libzbc.Device.Sectors.{zbc_dev_lba2sect}
use libzbc.Scsi.Activate.{
  read_result, read_results, not_activated, activation_status, results_held, process_results,
}

-- A result as the drive knows it, the start in logical blocks.
pub record WireResult : Type 0 where
  pub type : ℕ
  pub condition : ℕ
  pub domain : ℕ
  pub zones : ℕ
  pub start : ℕ

-- The values fit their fields.
pub record IsWireResult (w : WireResult) : Type 0 where
  pub type_fits : w.type < 16
  pub condition_fits : w.condition < 16
  pub zones_fits : w.zones < 2 ^ 64
  pub start_fits : w.start < 2 ^ 64

-- The 24 bytes of an activation result.
abbrev pub result_bytes : WireResult → List ℕ
result_bytes w =
    w.type ∷ w.condition * 16 ∷ w.domain ∷ 0 ∷ 0 ∷ 0 ∷ 0 ∷ 0 ∷ be64 w.zones ++ be64 w.start

abbrev pub results_bytes : List WireResult → List ℕ
results_bytes [] = []
results_bytes (w ∷ ws) = result_bytes w ++ results_bytes ws

unfoldable pub in_sectors_result : Device → WireResult → ActvRes
in_sectors_result dev w = record {
  zbe_start_zone = zbc_dev_lba2sect dev w.start;
  zbe_nr_zones = w.zones;
  zbe_domain = w.domain;
  zbe_type = w.type;
  zbe_condition = w.condition;
}

read_result_lem :
    (dev : Device) (w : WireResult) (rest : List ℕ)
    → IsWireResult w
    → read_result dev (result_bytes w ++ rest) ≡ in_sectors_result dev w
unfolding read_result in_sectors_result
read_result_lem dev w rest fits =
    let buf = result_bytes w ++ rest in
    let n : get_int64 buf 8 ≡ w.zones =
      omega (arith, get_int64_stored buf 8 w.zones refl, fits.zones_fits) in
    let s : get_int64 buf 16 ≡ w.start =
      omega (arith, get_int64_stored buf 16 w.start refl, fits.start_fits) in
    let low : bit_and w.type 15 ≡ w.type % 16 = bit_and_low 4 w.type in
    let t : bit_and w.type 15 ≡ w.type = omega (arith, low, fits.type_fits) in
    let low' : bit_and (w.condition * 16 / 16) 15 ≡ w.condition * 16 / 16 % 16 =
      bit_and_low 4 (w.condition * 16 / 16) in
    let c : bit_and (w.condition * 16 / 16) 15 ≡ w.condition =
      omega (arith, low', fits.condition_fits) in
    rw (n, s, t, c) refl

read_results_lem :
    (dev : Device) (ws : List WireResult) (rest : List ℕ)
    → All IsWireResult ws
    → read_results dev (length ws) (results_bytes ws ++ rest) ≡ map (in_sectors_result dev) ws
unfolding read_results
read_results_lem dev [] rest fits = refl
read_results_lem dev (w ∷ ws) rest fits =
    rw
      (read_result_lem dev w (results_bytes ws ++ rest) fits.0, read_results_lem dev ws rest fits.1)
      refl

-- A reply: the lengths of all results and of those sent, the ACTIVATED bit, and the results.
abbrev pub activation_bytes : ℕ → ℕ → List WireResult → List ℕ → List ℕ
activation_bytes all got ws rest =
    be32 (all * 24) ++ be32 (got * 24) ++ 0x01 ∷ replicate 55 0 ++ results_bytes ws ++ rest

-- Whether it was asked to activate or to query, a reply that says ACTIVATED and has room for the
-- results read as a success, and the results stored are exactly those sent, as many as the
-- array and the bytes received have room for, in order and converted to sectors; with no array the
-- number left is that of all results.
pub process_results_reads :
    (dev : Device) (query : Bool) (nr all got bufsz : ℕ) (ws : List WireResult) (rest : List ℕ)
    → All IsWireResult ws
    → all < 2 ^ 27
    → got < 2 ^ 27
    → length ws ≡ min (min nr got) ((bufsz - 64) / 24)
    → (process_results dev query true nr bufsz (activation_bytes all got ws rest)
        ≡ record { ret = pos 0; stored = map (in_sectors_result dev) ws; nr = length ws })
      × (process_results dev query false nr bufsz (activation_bytes all got ws rest)
          ≡ record { ret = pos 0; stored = []; nr = all })
unfolding process_results results_held not_activated activation_status
process_results_reads dev query nr all got bufsz ws rest fits small small' len =
    let buf = activation_bytes all got ws rest in
    let a : get_int32 buf 0 / 24 ≡ all = omega (arith, get_int32_stored buf 0 (all * 24) refl) in
    let g : get_int32 buf 4 / 24 ≡ got = omega (arith, get_int32_stored buf 4 (got * 24) refl) in
    let held : count nr got bufsz ≡ length ws = held_lem nr got bufsz ∙ sym len in
    (rw (g, held, read_results_lem dev ws rest fits) refl, rw a refl)
  where
    count : ℕ → ℕ → ℕ → ℕ
    count nr got bufsz =
        let asked = if ltb nr got then nr else got in
        let held = (bufsz - 64) / 24 in if ltb held asked then held else asked

    held_lem : (nr got bufsz : ℕ) → count nr got bufsz ≡ min (min nr got) ((bufsz - 64) / 24)
    held_lem nr got bufsz = ground arith
