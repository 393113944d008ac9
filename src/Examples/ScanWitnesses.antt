-- ===== src/Examples/ScanWitnesses.antt =====
-- The theorems on the opening at a table of two backends.
use libzbc.Base.{ℕ, Bool, true, List, [], ◌∷◌, ◌≡◌, refl, some, ◌⊎◌, inr, pos, neg_enxio, neg_eio}
use libzbc.Open.{
  Backend, Opening, opened, refused, allows, neg_enodev, zbc_get_domain_info, zbc_open,
  zbc_device_is_zoned,
}
use libzbc.Open.Scan.{Passes, done, answers, open_first_accepts, is_zoned_first_accepts}
use libzbc.Examples.{drive, zdr_drive, drive_drv}

-- A backend that answers every open alike and notes a closing in the log.
abbrev backend : ℕ → Opening → Backend ℕ (List ℕ)
backend flag answer = record {
  flag = flag;
  zbd_open = λ path flags log. (answer, flag ∷ log);
  zbd_close = λ dev log. (pos 0, 0 ∷ log);
  drv = drive_drv;
}

abbrev scsi : Backend ℕ (List ℕ)
scsi = backend 0x02000000 (refused neg_enxio)

abbrev ata : Backend ℕ (List ℕ)
ata = backend 0x04000000 (opened zdr_drive)

abbrev broken : Backend ℕ (List ℕ)
broken = backend 0x04000000 (refused neg_eio)

abbrev resolve : ℕ → ℕ ⊎ ℕ
resolve path = inr path

abbrev roomy : ℕ → Bool
roomy n = true

scsi-Passes : Passes (allows 0) 7 0 (scsi ∷ []) neg_enodev [] neg_enxio (0x02000000 ∷ [])
unfolding allows
scsi-Passes = answers refl refl done

open_first_accepts_example :
    let info = zbc_get_domain_info drive_drv roomy zdr_drive (0x04000000 ∷ 0x02000000 ∷ []) in
    zbc_open (scsi ∷ ata ∷ broken ∷ []) resolve roomy 7 0 []
    ≡ (some (record { ret = info.0.0; pdev = some (ata, info.0.1) }), info.1)
unfolding allows
open_first_accepts_example =
    open_first_accepts resolve roomy (scsi ∷ []) (broken ∷ []) ata 7 7 0 zdr_drive neg_enxio []
      (0x02000000 ∷ []) (0x04000000 ∷ 0x02000000 ∷ []) refl scsi-Passes refl refl

-- A drive without realms, of which no domains are asked.
abbrev plain : Backend ℕ (List ℕ)
plain = backend 0x04000000 (opened drive)

is_zoned_first_accepts_example :
    let info = zbc_get_domain_info drive_drv roomy drive (0x04000000 ∷ 0x02000000 ∷ []) in
    zbc_device_is_zoned (scsi ∷ plain ∷ []) resolve roomy 7 []
    ≡ (some (record { ret = pos 1; info = some info.0.1.zbd_info }), 0 ∷ info.1)
unfolding zbc_get_domain_info
is_zoned_first_accepts_example =
    is_zoned_first_accepts resolve roomy (scsi ∷ []) [] plain 7 7 drive neg_enxio []
      (0x02000000 ∷ []) (0x04000000 ∷ 0x02000000 ∷ []) refl (answers refl refl done) refl refl
