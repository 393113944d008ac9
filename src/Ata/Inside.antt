-- ===== src/Ata/Inside.antt =====
-- How much of a reply the two backends read: process_report and process_results of Scsi and
-- process_ata_report of Ata, which are parts of lib/zbc_scsi.c and lib/zbc_ata.c.
use libzbc.Base.{
  ℕ, zero, suc, ◌+◌, ◌-◌, ◌*◌, ◌/◌, ◌^◌, ◌≤◌, ◌<◌, ◌≡◌, refl, ap, arith, Bool, List, length, ltb,
  if◌then◌else◌, u32, drop, get_or, get_or-drop, sym, ◌∙◌,
}
use libzbc.Bytes.{get_int64, get_int32}
use libzbc.Device.{Device}
use libzbc.Scsi.Activate.{
  process_results, read_result, read_results, results_held, not_activated, activation_status,
}
use libzbc.Scsi.ReportZones.{process_report, read_zone, read_zones, report_of}
use libzbc.Ata.{zbc_ata_get_dword, zbc_ata_get_qword, zbc_ata_get_word}
use libzbc.Ata.ReportZones.{process_ata_report, read_ata_zone, read_ata_zones}
use native.Mathlib.Nat.{mod-le}

length-read_zones : (dev : Device) (n : ℕ) (buf : List ℕ) → length (read_zones dev n buf) ≡ n
unfolding read_zones
length-read_zones dev zero buf = refl
length-read_zones dev (suc n) buf = ap suc (length-read_zones dev n (drop 64 buf))

length-read_results : (dev : Device) (n : ℕ) (buf : List ℕ) → length (read_results dev n buf) ≡ n
unfolding read_results
length-read_results dev zero buf = refl
length-read_results dev (suc n) buf = ap suc (length-read_results dev n (drop 24 buf))

length-read_ata_zones :
    (dev : Device) (n : ℕ) (buf : List ℕ) → length (read_ata_zones dev n buf) ≡ n
unfolding read_ata_zones
length-read_ata_zones dev zero buf = refl
length-read_ata_zones dev (suc n) buf = ap suc (length-read_ata_zones dev n (drop 64 buf))

zones-fit :
    (dev : Device) (max_lba array : Bool) (n bufsz : ℕ) (buf : List ℕ)
    → length (process_report dev max_lba array n bufsz buf).zones.stored ≤ n
unfolding process_report report_of
zones-fit dev max_lba array n bufsz buf =
    let nz = get_int32 buf 0 / 64 in
    let asked = if ltb n nz then n else nz in
    let buf_nz = u32 ((bufsz - 64) / 64) in
    let held = if ltb buf_nz asked then buf_nz else asked in
    ground (arith, length-read_zones dev held (drop 64 buf))

ata_zones-fit :
    (dev : Device) (max_lba array : Bool) (n bufsz : ℕ) (buf : List ℕ)
    → length (process_ata_report dev max_lba array n bufsz buf).zones.stored ≤ n
unfolding process_ata_report report_of
ata_zones-fit dev max_lba array n bufsz buf =
    let nz = zbc_ata_get_dword buf 0 / 64 in
    let asked = if ltb n nz then n else nz in
    let buf_nz = u32 ((bufsz - 64) / 64) in
    let held = if ltb buf_nz asked then buf_nz else asked in
    ground (arith, length-read_ata_zones dev held (drop 64 buf))

results-fit :
    (dev : Device) (query array : Bool) (n bufsz : ℕ) (buf : List ℕ)
    → length (process_results dev query array n bufsz buf).stored ≤ n
unfolding process_results results_held
results-fit dev query array n bufsz buf =
    ground (arith, length-read_results dev (results_held dev n bufsz buf) (drop 64 buf))

-- Two buffers with the same first `k` bytes.
abbrev pub Agree : ℕ → List ℕ → List ℕ → Type 0
Agree k a b = (i : ℕ) → i < k → get_or a i 0 ≡ get_or b i 0

Agree-drop : (k m : ℕ) (a b : List ℕ) → Agree (m + k) a b → Agree k (drop m a) (drop m b)
Agree-drop k m a b h i lt =
    get_or-drop m a i 0 ∙ h (m + i) (omega arith) ∙ sym (get_or-drop m b i 0)

Agree-le : (k m : ℕ) (a b : List ℕ) → m ≤ k → Agree k a b → Agree m a b
Agree-le k m a b le h i lt = h i (omega arith)

module _ (k : ℕ) (a b : List ℕ) (h : Agree k a b) where
  int64-Agree : (off : ℕ) → off + 8 ≤ k → get_int64 a off ≡ get_int64 b off
  unfolding get_int64
  int64-Agree off fits =
      rw
        (
          h (off + 0) (omega arith),
          h (off + 1) (omega arith),
          h (off + 2) (omega arith),
          h (off + 3) (omega arith),
          h (off + 4) (omega arith),
          h (off + 5) (omega arith),
          h (off + 6) (omega arith),
          h (off + 7) (omega arith),
        )
        refl

  int32-Agree : (off : ℕ) → off + 4 ≤ k → get_int32 a off ≡ get_int32 b off
  unfolding get_int32
  int32-Agree off fits =
      rw
        (
          h (off + 0) (omega arith),
          h (off + 1) (omega arith),
          h (off + 2) (omega arith),
          h (off + 3) (omega arith),
        )
        refl

  word-Agree : (off : ℕ) → off + 2 ≤ k → zbc_ata_get_word a off ≡ zbc_ata_get_word b off
  unfolding zbc_ata_get_word
  word-Agree off fits = rw (h off (omega arith), h (off + 1) (omega arith)) refl

  dword-Agree : (off : ℕ) → off + 4 ≤ k → zbc_ata_get_dword a off ≡ zbc_ata_get_dword b off
  unfolding zbc_ata_get_dword
  dword-Agree off fits =
      omega (arith, word-Agree off (omega arith), word-Agree (off + 2) (omega arith))

  qword-Agree : (off : ℕ) → off + 8 ≤ k → zbc_ata_get_qword a off ≡ zbc_ata_get_qword b off
  unfolding zbc_ata_get_qword
  qword-Agree off fits =
      omega (arith, dword-Agree off (omega arith), dword-Agree (off + 4) (omega arith))

-- A descriptor is read from its own bytes.
zone-Agree : (dev : Device) (a b : List ℕ) → Agree 64 a b → read_zone dev a ≡ read_zone dev b
unfolding read_zone
zone-Agree dev a b h =
    rw
      (
        h 0 (omega arith),
        h 1 (omega arith),
        int64-Agree 64 a b h 8 (omega arith),
        int64-Agree 64 a b h 16 (omega arith),
        int64-Agree 64 a b h 24 (omega arith),
      )
      refl

ata_zone-Agree :
    (dev : Device) (a b : List ℕ) → Agree 64 a b → read_ata_zone dev a ≡ read_ata_zone dev b
unfolding read_ata_zone
ata_zone-Agree dev a b h =
    rw
      (
        h 0 (omega arith),
        h 1 (omega arith),
        qword-Agree 64 a b h 8 (omega arith),
        qword-Agree 64 a b h 16 (omega arith),
        qword-Agree 64 a b h 24 (omega arith),
      )
      refl

result-Agree : (dev : Device) (a b : List ℕ) → Agree 24 a b → read_result dev a ≡ read_result dev b
unfolding read_result
result-Agree dev a b h =
    rw
      (
        h 0 (omega arith),
        h 1 (omega arith),
        h 2 (omega arith),
        int64-Agree 24 a b h 8 (omega arith),
        int64-Agree 24 a b h 16 (omega arith),
      )
      refl

zones-Agree :
    (dev : Device) (n : ℕ) (a b : List ℕ)
    → Agree (n * 64) a b
    → read_zones dev n a ≡ read_zones dev n b
unfolding read_zones
zones-Agree dev zero a b h = refl
zones-Agree dev (suc n) a b h =
    rw
      (
        zone-Agree dev a b (Agree-le (suc n * 64) 64 a b (omega arith) h),
        zones-Agree dev n (drop 64 a) (drop 64 b)
            (Agree-drop (n * 64) 64 a b (Agree-le (suc n * 64) (64 + n * 64) a b (omega arith) h)),
      )
      refl

ata_zones-Agree :
    (dev : Device) (n : ℕ) (a b : List ℕ)
    → Agree (n * 64) a b
    → read_ata_zones dev n a ≡ read_ata_zones dev n b
unfolding read_ata_zones
ata_zones-Agree dev zero a b h = refl
ata_zones-Agree dev (suc n) a b h =
    rw
      (
        ata_zone-Agree dev a b (Agree-le (suc n * 64) 64 a b (omega arith) h),
        ata_zones-Agree dev n (drop 64 a) (drop 64 b)
            (Agree-drop (n * 64) 64 a b (Agree-le (suc n * 64) (64 + n * 64) a b (omega arith) h)),
      )
      refl

results-Agree :
    (dev : Device) (n : ℕ) (a b : List ℕ)
    → Agree (n * 24) a b
    → read_results dev n a ≡ read_results dev n b
unfolding read_results
results-Agree dev zero a b h = refl
results-Agree dev (suc n) a b h =
    rw
      (
        result-Agree dev a b (Agree-le (suc n * 24) 24 a b (omega arith) h),
        results-Agree dev n (drop 24 a) (drop 24 b)
            (Agree-drop (n * 24) 24 a b (Agree-le (suc n * 24) (24 + n * 24) a b (omega arith) h)),
      )
      refl

-- Behind the header.
behind :
    (k n bufsz : ℕ) (a b : List ℕ)
    → 64 + n * k ≤ bufsz
    → Agree bufsz a b
    → Agree (n * k) (drop 64 a) (drop 64 b)
behind k n bufsz a b fits h = Agree-drop (n * k) 64 a b (Agree-le bufsz (64 + n * k) a b fits h)

-- As many as lie in the buffer.
least :
    (asked bufsz : ℕ)
    → 64 ≤ bufsz
    → let buf_nz = u32 ((bufsz - 64) / 64) in
      64 + (if ltb buf_nz asked then buf_nz else asked) * 64 ≤ bufsz
least asked bufsz header = ground (arith, mod-le ((bufsz - 64) / 64) (2 ^ 32))

module _ (dev : Device) (bufsz : ℕ) (a b : List ℕ) (header : 64 ≤ bufsz) (h : Agree bufsz a b) where
  report-Agree :
      (max_lba zones : Bool) (n : ℕ)
      → process_report dev max_lba zones n bufsz a ≡ process_report dev max_lba zones n bufsz b
  unfolding process_report
  report-Agree max_lba zones n =
      let nz = get_int32 b 0 / 64 in
      let asked = if ltb n nz then n else nz in
      let buf_nz = u32 ((bufsz - 64) / 64) in
      let held = if ltb buf_nz asked then buf_nz else asked in
      rw
        (
          int32-Agree bufsz a b h 0 (omega arith),
          int64-Agree bufsz a b h 8 (omega arith),
          zones-Agree dev held (drop 64 a) (drop 64 b)
              (behind 64 held bufsz a b (least asked bufsz header) h),
        )
        refl

  ata_report-Agree :
      (max_lba zones : Bool) (n : ℕ)
      → process_ata_report dev max_lba zones n bufsz a
        ≡ process_ata_report dev max_lba zones n bufsz b
  unfolding process_ata_report
  ata_report-Agree max_lba zones n =
      let nz = zbc_ata_get_dword b 0 / 64 in
      let asked = if ltb n nz then n else nz in
      let buf_nz = u32 ((bufsz - 64) / 64) in
      let held = if ltb buf_nz asked then buf_nz else asked in
      rw
        (
          dword-Agree bufsz a b h 0 (omega arith),
          qword-Agree bufsz a b h 8 (omega arith),
          ata_zones-Agree dev held (drop 64 a) (drop 64 b)
              (behind 64 held bufsz a b (least asked bufsz header) h),
        )
        refl

  activated-Agree :
      (query recs : Bool) (n : ℕ)
      → process_results dev query recs n bufsz a ≡ process_results dev query recs n bufsz b
  unfolding process_results not_activated activation_status results_held
  activated-Agree query recs n =
      let held = results_held dev n bufsz b in
      rw
        (
          h 8 (omega arith),
          h 9 (omega arith),
          int32-Agree bufsz a b h 0 (omega arith),
          int32-Agree bufsz a b h 4 (omega arith),
          results-Agree dev held (drop 64 a) (drop 64 b)
              (behind 24 held bufsz a b (ground arith) h),
        )
        refl

-- What the two backends make of a reply of `bufsz` bytes, 64 or more: the zone report of either, for
-- an array or for none, and the 16-byte activation or query, are the same for any two buffers with
-- the same first `bufsz` bytes. So nothing that lies behind the bytes received is read. With an
-- array of `n` elements, no more than `n` are stored.
pub replies-Inside :
    (dev : Device) (bufsz : ℕ) (a b : List ℕ) (max_lba array query : Bool) (n : ℕ)
    → 64 ≤ bufsz
    → Agree bufsz a b
    → (process_report dev max_lba array n bufsz a ≡ process_report dev max_lba array n bufsz b)
      × (process_ata_report dev max_lba array n bufsz a
          ≡ process_ata_report dev max_lba array n bufsz b)
      × (process_results dev query array n bufsz a ≡ process_results dev query array n bufsz b)
      × (length (process_report dev max_lba array n bufsz a).zones.stored ≤ n)
      × (length (process_ata_report dev max_lba array n bufsz a).zones.stored ≤ n)
      × (length (process_results dev query array n bufsz a).stored ≤ n)
replies-Inside dev bufsz a b max_lba array query n header h = (
  report-Agree dev bufsz a b header h max_lba array n,
  ata_report-Agree dev bufsz a b header h max_lba array n,
  activated-Agree dev bufsz a b header h query array n,
  zones-fit dev max_lba array n bufsz a,
  ata_zones-fit dev max_lba array n bufsz a,
  results-fit dev query array n bufsz a,
)
