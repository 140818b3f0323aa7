-- ===== src/Match/Runs.antt =====
-- Concrete matches, and the theorem at a concrete input.
use csnappy.Common.{ℕ, ◌≡◌, refl, arith, List, [], ◌∷◌, some}
use csnappy.Words.{load32, load64}
use csnappy.LowBit.{find_lsb_set_non_zero}
use csnappy.Match.{Longest, find_match_length, find_match_length_long, find_match_length_little}
use csnappy.Match.Bytes.{find_match_length-Longest}
use csnappy.Match.Long.{find_match_length_long-Longest}
use csnappy.Match.Little.{find_match_length_little-Longest}

abbrev input : List ℕ
input = 1 ∷ 2 ∷ 3 ∷ 4 ∷ 5 ∷ 1 ∷ 2 ∷ 3 ∷ 4 ∷ 5 ∷ 1 ∷ 9 ∷ []

six_match : find_match_length input 0 5 12 ≡ some 6
unfolding find_match_length load32
six_match = refl

five_before_limit : find_match_length input 0 5 10 ≡ some 5
unfolding find_match_length load32
five_before_limit = refl

find_match_length-Longest_example :
    (n : ℕ) × (find_match_length input 0 5 12 ≡ some n) × Longest input 0 5 12 n
find_match_length-Longest_example =
    find_match_length-Longest input 0 5 12 (omega arith) (omega arith) (omega arith) (omega arith)

six_match_long : find_match_length_long input 0 5 12 ≡ some 6
unfolding find_match_length_long load64
six_match_long = refl

six_match_little : find_match_length_little input 0 5 12 ≡ some 6
unfolding find_match_length_little load32 find_lsb_set_non_zero
six_match_little = refl

find_match_length_long-Longest_example :
    (n : ℕ) × (find_match_length_long input 0 5 12 ≡ some n) × Longest input 0 5 12 n
find_match_length_long-Longest_example =
    find_match_length_long-Longest input 0 5 12 (omega arith) (omega arith) (omega arith)
      (omega arith)

find_match_length_little-Longest_example :
    (n : ℕ) × (find_match_length_little input 0 5 12 ≡ some n) × Longest input 0 5 12 n
find_match_length_little-Longest_example =
    find_match_length_little-Longest input 0 5 12 (omega arith) (omega arith) (omega arith)
      (omega arith)
