-- ===== src/Writer/Runs.antt =====
-- A writer, and the theorems at it.
use csnappy.Common.{ℕ, ◌≡◌, refl, arith, List, [], ◌∷◌, ◌++◌, some, replicate}
use csnappy.Common.Outcome.{ok}
use csnappy.Format.{copy, apply}
use csnappy.Words.{part}
use csnappy.Writer.{Writer, copy64_halves, copy64_bytes, unaligned_copy64, append, append_from_self}
use csnappy.Writer.Variants.{copy64-unaligned_copy64}
use csnappy.Writer.Outputs.{Holds, Answers}
use csnappy.Writer.Appends.{append-Answers}
use csnappy.Writer.Backward.{append_from_self-Answers}

abbrev three : Writer
three = record { buffer = 1 ∷ 2 ∷ 3 ∷ replicate 17 0; op = 3 }

three-Holds : Holds 20 (1 ∷ 2 ∷ 3 ∷ []) three
three-Holds = record { roomy = refl; within = omega arith; output = refl }

abbrev input : List ℕ
input = 4 ∷ 5 ∷ replicate 14 6

-- The pattern of three bytes is expanded, and the copy writes past its end.
pattern :
    append_from_self three 3 4
    ≡ ok (record { buffer = 1 ∷ 2 ∷ 3 ∷ 1 ∷ 2 ∷ 3 ∷ 1 ∷ 2 ∷ 3 ∷ 1 ∷ 2 ∷ 3 ∷ replicate 8 0; op = 7 })
unfolding append_from_self
pattern = refl

append-Answers_example :
    Answers 20 (some ((1 ∷ 2 ∷ 3 ∷ []) ++ part input 0 2)) (append three input 0 2)
append-Answers_example =
    append-Answers 20 (1 ∷ 2 ∷ 3 ∷ []) three three-Holds input 0 2 (omega arith)

append_from_self-Answers_example :
    Answers 20 (apply (copy 3 4) (1 ∷ 2 ∷ 3 ∷ [])) (append_from_self three 3 4)
append_from_self-Answers_example =
    append_from_self-Answers 20 (1 ∷ 2 ∷ 3 ∷ []) three three-Holds 3 4 (omega arith) (omega arith)
      (omega arith) (omega arith)

copy64-unaligned_copy64_example :
    (copy64_halves three.buffer 1 9 ≡ unaligned_copy64 three.buffer 1 9)
    × (copy64_bytes three.buffer 1 9 ≡ unaligned_copy64 three.buffer 1 9)
copy64-unaligned_copy64_example =
    copy64-unaligned_copy64 three.buffer 1 9 (omega arith) (omega arith)
