-- ===== src/Portable/Runs.antt =====
-- Concrete words, and the theorems at them.
use csnappy.Common.{ℕ, ◌+◌, ◌*◌, ◌<◌, ◌≡◌, refl, arith, List, [], ◌∷◌, none, some, All}
use csnappy.Common.Outcome.{ok}
use csnappy.Words.{get_unaligned_le}
use csnappy.Portable.{
  load16_be, load32_be, load64_be, load32_le, load64_le, store16_be, store32_be, store64_be,
  store32_le, store64_le, bswap_64, get_unaligned_le_arm,
}
use csnappy.Portable.Fields.{byte_at}
use csnappy.Portable.Stores.{ReadsBack, stores_read_back, load64_be-store64_be}
use csnappy.Portable.Masks.{get_unaligned_le_arm-get_unaligned_le}

abbrev memory : List ℕ
memory = 1 ∷ 2 ∷ 3 ∷ 4 ∷ 5 ∷ 6 ∷ 7 ∷ 8 ∷ 9 ∷ []

memory_bytes : All (λ b. b < 256) memory
memory_bytes = (
  omega arith,
  (
    omega arith,
    (
      omega arith,
      (omega arith, (omega arith, (omega arith, (omega arith, (omega arith, (omega arith, tt)))))),
    ),
  ),
)

-- The seventh byte is lost.
load_of_eight : load64_be memory 0 ≡ some 0x0102030405060608
unfolding load64_be
load_of_eight = refl

swapped : bswap_64 0x0102030405060708 ≡ 0x0807060504030201
unfolding bswap_64
swapped = refl

stores_read_back_example :
    ReadsBack memory 1 store16_be load16_be 0x0102
    × ReadsBack memory 1 store32_be load32_be 0x01020304
    × ReadsBack memory 1 store32_le load32_le 0x01020304
    × ReadsBack memory 1 store64_le load64_le 0x0102030405060708
stores_read_back_example =
    stores_read_back memory 1 0x0102 0x01020304 0x0102030405060708 (omega arith) (omega arith)
      (omega arith) (omega arith)

load64_be-store64_be_example :
    (memory' : List ℕ) × (v' : ℕ) × (store64_be memory 1 0x0102030405060708 ≡ ok memory')
    × (load64_be memory' 1 ≡ some v')
    × (v' + byte_at 0x0102030405060708 8 * 256
        ≡ 0x0102030405060708 + byte_at 0x0102030405060708 16 * 256)
load64_be-store64_be_example =
    load64_be-store64_be memory 1 0x0102030405060708 (omega arith) (omega arith)

get_unaligned_le_arm-get_unaligned_le_example :
    (get_unaligned_le_arm memory 2 3 ≡ get_unaligned_le memory 2 3)
    × (get_unaligned_le_arm memory 2 4 ≡ none)
get_unaligned_le_arm-get_unaligned_le_example =
    get_unaligned_le_arm-get_unaligned_le memory 2 3 (omega arith) (omega arith)
