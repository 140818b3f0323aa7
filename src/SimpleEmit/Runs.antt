-- ===== src/SimpleEmit/Runs.antt =====
-- Concrete elements, and the theorems at concrete inputs.
use csnappy.Common.{◌≡◌, refl, [], ◌∷◌, some}
use csnappy.Emit.{Out}
use csnappy.SimpleEmit.{emit_copy, put_copy, put_remainder}

abbrev empty : Out
empty = record { bytes = []; reach = 0 }

-- A copy of 70 bytes is one of 64 and one of 6.
copy_of_70 :
    emit_copy empty 300 70
    ≡ some (record { bytes = 0xfe ∷ 0x2c ∷ 0x01 ∷ 0x29 ∷ 0x2c ∷ []; reach = 5 })
unfolding emit_copy put_copy put_remainder
copy_of_70 = refl
