-- ===== src/Emit/Runs.antt =====
-- Concrete elements, and the theorems at concrete inputs.
use csnappy.Common.{
  ℕ, ◌≤◌, ◌<◌, ◌≡◌, max, refl, arith, List, [], ◌∷◌, ◌++◌, length, All, some, true, false,
  replicate,
}
use csnappy.Format.{literal, repeat_back, Expands}
use csnappy.Words.{part}
use csnappy.Emit.{Out, emit_literal, emit_copy}
use csnappy.Emit.Literal.{Emitted, literal_size}
use csnappy.Emit.LongLiteral.{emit_literal-Emitted}
use csnappy.Emit.LongCopy.{emit_copy-Expands}

abbrev empty : Out
empty = record { bytes = []; reach = 0 }

abbrev input : List ℕ
input = 7 ∷ 8 ∷ 9 ∷ []

two_bytes_at_1 :
    emit_literal input (record { bytes = 1 ∷ []; reach = 1 }) 1 2 false
    ≡ some (record { bytes = 1 ∷ 4 ∷ 8 ∷ 9 ∷ []; reach = 4 })
unfolding emit_literal
two_bytes_at_1 = refl

literal_of_300 :
    emit_literal (replicate 300 5) empty 0 300 true
    ≡ some (record { bytes = 244 ∷ 43 ∷ 1 ∷ replicate 300 5; reach = 303 })
unfolding emit_literal
literal_of_300 = refl

copy_of_139 :
    emit_copy empty 5 139
    ≡ some (record { bytes = 254 ∷ 5 ∷ 0 ∷ 254 ∷ 5 ∷ 0 ∷ 29 ∷ 5 ∷ []; reach = 8 })
unfolding emit_copy
copy_of_139 = refl

emit_literal-Emitted_example :
    (out' : Out) × (emit_literal input empty 1 2 false ≡ some out')
    × Emitted (literal (part input 1 2)) (literal_size 2) 15 empty out'
emit_literal-Emitted_example =
    emit_literal-Emitted input empty 1 2 false (omega arith) (omega arith) (omega arith)
      (omega arith) (λ e. cc)

seventy_back : repeat_back 70 2 (3 ∷ 3 ∷ []) ≡ some (replicate 72 3)
unfolding repeat_back
seventy_back = refl

emit_copy-Expands_example :
    (out' : Out) × (chunk : List ℕ) × (emit_copy empty 2 70 ≡ some out')
    × (out'.bytes ≡ [] ++ chunk)
    × Expands (replicate 72 3) chunk (3 ∷ 3 ∷ [])
    × All (λ b. b < 256) chunk
    × (length chunk < 70)
    × (out'.reach ≤ max 0 (length out'.bytes))
emit_copy-Expands_example =
    emit_copy-Expands empty 2 70 (3 ∷ 3 ∷ []) (replicate 72 3) (omega arith) (omega arith)
      (omega arith) (omega arith) seventy_back
