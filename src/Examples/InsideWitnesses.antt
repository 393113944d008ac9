-- ===== src/Examples/InsideWitnesses.antt =====
-- The bounds on the replies at a reply that states more than it holds, and at a buffer that goes on
-- behind it.
use libzbc.Base.{
  ℕ, suc, zero, ◌≡◌, ◌≤◌, ◌<◌, refl, arith, true, false, List, [], ◌∷◌, ◌++◌, length, replicate,
  get_or,
}
use libzbc.Bytes.{get_int32}
use libzbc.Scsi.Activate.{process_results}
use libzbc.Scsi.ReportZones.{process_report, read_zones, report_of}
use libzbc.Ata.Inside.{Agree, replies-Inside}
use libzbc.Ata.ReportZones.{process_ata_report}
use libzbc.Examples.{drive}

-- 264 bytes: a header that states 64 zones or 5 records, and 200 bytes of descriptors.
abbrev overstated : List ℕ
overstated = 0 ∷ 0 ∷ 16 ∷ 0 ∷ 0 ∷ 0 ∷ 0 ∷ 5 ∷ 0 ∷ 0 ∷ 0 ∷ 50 ∷ replicate 252 1

-- What an earlier command has left behind them.
abbrev stale : List ℕ
stale = replicate 64 7

-- Three of the zones are stored, as three descriptors fit.
overstated_zones : length (process_report drive false true 8 264 overstated).zones.stored ≡ 3
unfolding process_report report_of read_zones get_int32
overstated_zones = refl

front : (xs ys : List ℕ) (i : ℕ) → i < length xs → get_or xs i 0 ≡ get_or (xs ++ ys) i 0
front [] ys i h = absurd (omega arith)
front (x ∷ xs) ys zero h = refl
front (x ∷ xs) ys (suc i) h = front xs ys i (omega arith)

overstated-Agree : Agree 264 overstated (overstated ++ stale)
overstated-Agree i h = front overstated stale i h

replies-Inside_example :
    (process_report drive false true 8 264 overstated
      ≡ process_report drive false true 8 264 (overstated ++ stale))
    × (process_ata_report drive false true 8 264 overstated
        ≡ process_ata_report drive false true 8 264 (overstated ++ stale))
    × (process_results drive true true 8 264 overstated
        ≡ process_results drive true true 8 264 (overstated ++ stale))
    × (length (process_report drive false true 8 264 overstated).zones.stored ≤ 8)
    × (length (process_ata_report drive false true 8 264 overstated).zones.stored ≤ 8)
    × (length (process_results drive true true 8 264 overstated).stored ≤ 8)
replies-Inside_example =
    replies-Inside drive 264 overstated (overstated ++ stale) false true true 8 (omega arith)
      overstated-Agree
