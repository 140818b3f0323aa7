-- ===== src/Words/Runs.antt =====
-- Loads at concrete inputs.
use csnappy.Common.{ℕ, ◌≡◌, refl, List, [], ◌∷◌, some}
use csnappy.Words.{load32, load64, get_uint32_at_offset, get_unaligned_le}

abbrev input : List ℕ
input = 9 ∷ 1 ∷ 2 ∷ 3 ∷ 4 ∷ 5 ∷ 6 ∷ 7 ∷ 8 ∷ []

eight_bytes : load64 input 1 ≡ some 0x0807060504030201
unfolding load64
eight_bytes = refl

four_of_them : load32 input 3 ≡ some (get_uint32_at_offset 0x0807060504030201 2)
unfolding load32 get_uint32_at_offset
four_of_them = refl

two_of_them : get_unaligned_le input 3 2 ≡ some 0x0403
unfolding get_unaligned_le
two_of_them = refl
