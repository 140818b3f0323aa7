-- ===== src/Portable/Masks.antt =====
-- The masked load for ARM.
use csnappy.Common.{ℕ, zero, suc, ◌+◌, ◌≤◌, ◌<◌, ◌≡◌, arith, refl, none, List, length}
use csnappy.Words.{get_unaligned_le}
use csnappy.Words.Loads.{load32_lem}
use csnappy.Portable.{get_unaligned_le_arm}

-- For up to three bytes, inside the memory, the variant for ARM is the other one. For four its shift
-- has no meaning in C.
pub get_unaligned_le_arm-get_unaligned_le :
    (memory : List ℕ) (pos n : ℕ)
    → pos + 4 ≤ length memory
    → n < 4
    → (get_unaligned_le_arm memory pos n ≡ get_unaligned_le memory pos n)
      × (get_unaligned_le_arm memory pos 4 ≡ none)
unfolding get_unaligned_le_arm get_unaligned_le
get_unaligned_le_arm-get_unaligned_le memory pos zero fits h =
    (rw (load32_lem memory pos fits) refl, refl)
get_unaligned_le_arm-get_unaligned_le memory pos (suc zero) fits h =
    (rw (load32_lem memory pos fits) refl, refl)
get_unaligned_le_arm-get_unaligned_le memory pos (suc (suc zero)) fits h =
    (rw (load32_lem memory pos fits) refl, refl)
get_unaligned_le_arm-get_unaligned_le memory pos (suc (suc (suc zero))) fits h =
    (rw (load32_lem memory pos fits) refl, refl)
get_unaligned_le_arm-get_unaligned_le memory pos (suc (suc (suc (suc n)))) fits h =
    absurd (omega arith)
