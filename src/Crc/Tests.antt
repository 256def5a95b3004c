-- ===== src/Crc/Tests.antt =====
-- Checksums of short texts.
use libatbus.Base.{◌≡◌, refl, [], ◌∷◌, arith}
use libatbus.Crc.{entry, crc32, crc64}
use libatbus.Crc.Table32.{crc32_tab}
use libatbus.Crc.Table64.{crc64_tab}
use libatbus.Crc.Bitwise.{divide, crc32_tab-entry, crc64_tab-entry}
use libatbus.Crc.Whole.{division, crc_division}

runs :
    (crc32 0xffffffff (49 ∷ 50 ∷ 51 ∷ []) ≡ 0x77b79c2d)
    × (crc64 0 (49 ∷ 50 ∷ 51 ∷ 52 ∷ 53 ∷ 54 ∷ 55 ∷ 56 ∷ 57 ∷ []) ≡ 0xe9c6d914c4b8d9ca)
unfolding crc32 crc64 crc32_tab crc64_tab
runs = (refl, refl)

crc32_tab-entry_example : entry crc32_tab 130 ≡ divide 0xedb88320 8 130
crc32_tab-entry_example = crc32_tab-entry 130 (omega arith)

crc64_tab-entry_example : entry crc64_tab 130 ≡ divide 0x95ac9329ac4bc9b5 8 130
crc64_tab-entry_example = crc64_tab-entry 130 (omega arith)

crc_division_example :
    (crc32 7 (1 ∷ 200 ∷ 3 ∷ []) ≡ division 0xedb88320 7 (1 ∷ 200 ∷ 3 ∷ []))
    × (crc64 7 (1 ∷ 200 ∷ 3 ∷ []) ≡ division 0x95ac9329ac4bc9b5 7 (1 ∷ 200 ∷ 3 ∷ []))
crc_division_example =
    crc_division 7 (1 ∷ 200 ∷ 3 ∷ []) (omega arith, (omega arith, (omega arith, tt)))
