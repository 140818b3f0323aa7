-- ===== src/LowBit/Runs.antt =====
-- The theorems at concrete inputs.
use csnappy.Common.{◌+◌, ◌%◌, ◌^◌, ◌<◌, ◌≡◌, refl, arith}
use csnappy.LowBit.{find_lsb_set_non_zero, find_lsb_set_non_zero64, find_lsb_set_non_zero64-lowest}

lowest_of_80 : find_lsb_set_non_zero 80 ≡ 4
unfolding find_lsb_set_non_zero
lowest_of_80 = refl

find_lsb_set_non_zero64-lowest_example :
    (0x5000000000 % 2 ^ (find_lsb_set_non_zero64 0x5000000000 + 1)
      ≡ 2 ^ find_lsb_set_non_zero64 0x5000000000)
    × (find_lsb_set_non_zero64 0x5000000000 < 64)
find_lsb_set_non_zero64-lowest_example =
    find_lsb_set_non_zero64-lowest 0x5000000000 (omega arith) (omega arith)
