-- ===== src/Fragment/Runs.antt =====
-- A concrete block, and the theorems at concrete inputs.
use csnappy.Common.{ℕ, ◌≡◌, refl, arith, List, [], ◌∷◌, ◌++◌, some}
use csnappy.Words.{load32}
use csnappy.Emit.{Out, emit_literal, emit_copy}
use csnappy.Match.{find_match_length}
use csnappy.Match.Bytes.{word_matcher}
use csnappy.Fragment.{compress_fragment}
use csnappy.Fragment.Table.{IsPower}
use csnappy.Fragment.Blocks.{IsCompressed, compress_fragment-IsCompressed}

abbrev empty : Out
empty = record { bytes = []; reach = 0 }

abbrev abcd : List ℕ
abcd = 97 ∷ 98 ∷ 99 ∷ 100 ∷ []

abbrev block : List ℕ
block = abcd ++ abcd ++ abcd ++ abcd ++ abcd ++ (1 ∷ 2 ∷ 3 ∷ 4 ∷ [])

block_compressed :
    compress_fragment word_matcher block empty 9
    ≡ some (record {
      bytes = 12 ∷ 97 ∷ 98 ∷ 99 ∷ 100 ∷ 62 ∷ 4 ∷ 0 ∷ 12 ∷ 1 ∷ 2 ∷ 3 ∷ 4 ∷ [];
      reach = 17;
    })
unfolding compress_fragment emit_literal emit_copy find_match_length load32
block_compressed = refl

abbrev smallest : IsPower 9
smallest = record { at_least = omega arith; at_most = omega arith }

compress_fragment-IsCompressed_example :
    (out : Out) × (compress_fragment word_matcher block empty 9 ≡ some out)
    × IsCompressed [] block empty out
compress_fragment-IsCompressed_example =
    compress_fragment-IsCompressed word_matcher [] block empty 9 smallest (omega arith)
      (omega arith)
