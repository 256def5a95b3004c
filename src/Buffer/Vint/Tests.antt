-- ===== src/Buffer/Vint/Tests.antt =====
-- Concrete runs, and the theorems at concrete inputs.
use libatbus.Base.{◌-◌, ◌^◌, ◌≤◌, ◌<◌, ◌≡◌, ◌≢◌, ◌↔◌, ◌⊎◌, refl, [], ◌∷◌, ◌++◌, arith, length, All}
use libatbus.Buffer.Vint.{read_vint, write_vint}
use libatbus.Buffer.Vint.RoundTrip.{read-write_vint}
use libatbus.Buffer.Vint.Bounds.{write_vint_fits, write_vint_least}
use libatbus.Buffer.Vint.AnyInput.{HasMore, read_vint_fails, read_vint_stable}

runs :
    (write_vint 300 16 ≡ (2, 0x82 ∷ 0x2c ∷ []))
    × (read_vint (0x82 ∷ 0x2c ∷ 7 ∷ []) ≡ (300, 2))
    × (write_vint 300 1 ≡ (0, 0x2c ∷ []))
    × (read_vint (0x82 ∷ []) ≡ (2, 0))
    × (write_vint 0 1 ≡ (1, 0 ∷ []))
    × ((write_vint 0xffff_ffff_ffff_ffff 16).0 ≡ 10)
unfolding write_vint read_vint
runs = (refl, refl, refl, refl, refl, refl)

wrote : (write_vint 300 16).0 ≢ 0
unfolding write_vint
wrote = omega arith

read-write_vint_example :
    (read_vint ((write_vint 300 16).1 ++ 7 ∷ []) ≡ (300, (write_vint 300 16).0))
    × (length (write_vint 300 16).1 ≡ (write_vint 300 16).0)
read-write_vint_example = read-write_vint 300 16 (7 ∷ []) (omega arith) wrote

write_vint_fits_example : ((write_vint 300 16).0 ≢ 0) ↔ (300 < 128 ^ 16)
write_vint_fits_example = write_vint_fits 300 15

write_vint_least_example :
    ((write_vint 300 16).0 ≤ 16)
    × (300 < 128 ^ (write_vint 300 16).0)
    × (((write_vint 300 16).0 ≡ 1) ⊎ (128 ^ ((write_vint 300 16).0 - 1) ≤ 300))
write_vint_least_example = write_vint_least 300 16 wrote

read_vint_fails_example : ((read_vint (0x82 ∷ 0x80 ∷ [])).1 ≡ 0) ↔ All HasMore (0x82 ∷ 0x80 ∷ [])
read_vint_fails_example = read_vint_fails (0x82 ∷ 0x80 ∷ [])

read_vint_stable_example :
    ((read_vint (0x82 ∷ 0x2c ∷ [])).1 ≤ 2)
    × (read_vint (0x82 ∷ 0x2c ∷ 9 ∷ []) ≡ read_vint (0x82 ∷ 0x2c ∷ []))
unfolding read_vint
read_vint_stable_example = read_vint_stable (0x82 ∷ 0x2c ∷ []) (9 ∷ []) (omega arith)
