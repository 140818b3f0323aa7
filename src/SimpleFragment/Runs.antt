-- ===== src/SimpleFragment/Runs.antt =====
-- Matches that stop and that do not, and the theorem at one of them.
use csnappy.Common.{ℕ, ◌≡◌, refl, arith, List, [], ◌∷◌, take, replicate, some, none}
use csnappy.Words.{load32}
use csnappy.Emit.{Out}
use csnappy.Fragment.Table.{IsPower}
use csnappy.Fragment.Blocks.{IsCompressed}
use csnappy.SimpleEmit.{emit_literal, put_remainder, emit_copy}
use csnappy.SimpleFragment.{find_match_length, compress_fragment}
use csnappy.SimpleFragment.Blocks.{simple_fragment-IsCompressed}

abbrev memory : List ℕ
memory = 1 ∷ 2 ∷ 3 ∷ 1 ∷ 2 ∷ 4 ∷ 1 ∷ 2 ∷ []

stops_at_a_byte : find_match_length memory 0 3 8 ≡ some 2
unfolding find_match_length
stops_at_a_byte = refl

-- Two bytes match up to the end, and one is counted.
stops_at_the_end : find_match_length memory 0 6 8 ≡ some 1
unfolding find_match_length
stops_at_the_end = refl

abbrev empty : Out
empty = record { bytes = []; reach = 0 }

abbrev smallest : IsPower 9
smallest = record { at_least = omega arith; at_most = omega arith }

-- A block of ten equal bytes: the match ends one byte before its end, and two bytes behind it are read.
ten_compressed :
    compress_fragment (replicate 12 7) 10 empty 9
    ≡ some (record { bytes = 0 ∷ 7 ∷ 17 ∷ 1 ∷ 0 ∷ 7 ∷ []; reach = 6 })
unfolding compress_fragment find_match_length emit_literal emit_copy put_remainder load32
ten_compressed = refl

ten_alone : compress_fragment (replicate 10 7) 10 empty 9 ≡ none
unfolding compress_fragment find_match_length emit_literal emit_copy put_remainder load32
ten_alone = refl

simple_fragment-IsCompressed_example :
    (out : Out) × (compress_fragment (replicate 12 7) 10 empty 9 ≡ some out)
    × IsCompressed [] (take 10 (replicate 12 7)) empty out
simple_fragment-IsCompressed_example =
    simple_fragment-IsCompressed [] (replicate 12 7) 10 empty 9 smallest (omega arith) (omega arith)
      (omega arith)
