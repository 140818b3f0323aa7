-- ===== src/ByteDecoder/Runs.antt =====
-- Concrete blocks, and the theorems at concrete inputs.
use csnappy.Common.{ℕ, ◌≡◌, ◌^◌, ◌-◌, some, refl, arith, List, [], ◌∷◌, replicate}
use csnappy.Common.Outcome.{ok, err, fault, output_overrun, data_malformed}
use csnappy.Format.{field, literal, copy, element, apply, Expands, done, next}
use csnappy.ByteDecoder.{low_buffers, decode_loop, decompress_noheader}
use csnappy.ByteDecoder.Decodes.{decompress_noheader-Expands}
use csnappy.ByteDecoder.Overrun.{decompress_noheader-overrun}
use csnappy.ByteDecoder.Overflow.{decode_loop-fault, decode_loop-escapes}
use csnappy.ByteDecoder.Sound.{Verdict, decompress_noheader-Verdict}

abbrev block : List ℕ
block = 0 ∷ 7 ∷ 154 ∷ 1 ∷ 0 ∷ []

block_of_forty : decompress_noheader low_buffers block 40 ≡ ok (replicate 40 7)
unfolding decompress_noheader
block_of_forty = refl

block_without_room : decompress_noheader low_buffers block 39 ≡ err output_overrun
unfolding decompress_noheader
block_without_room = refl

wrapped_length : decompress_noheader low_buffers (0xfc ∷ 0xff ∷ 0xff ∷ 0xff ∷ 0xff ∷ []) 39 ≡ fault
unfolding decompress_noheader
wrapped_length = refl

-- The sums wrap, both checks pass, and the loop runs on.
leaves_the_addresses :
    decompress_noheader low_buffers (0xfc ∷ 0xfe ∷ 0xff ∷ 0xff ∷ 0xff ∷ []) 39 ≡ fault
unfolding decompress_noheader
leaves_the_addresses = refl

-- A length that stays below the last address is seen to be too long.
within_the_addresses :
    decompress_noheader low_buffers (0xfc ∷ 0xfe ∷ 0xff ∷ 0xff ∷ 0x00 ∷ []) 39 ≡ err data_malformed
unfolding decompress_noheader
within_the_addresses = refl

block-Expands : Expands (replicate 40 7) block []
unfolding element apply
block-Expands = next (literal (7 ∷ [])) refl refl (next (copy 1 39) refl refl done)

decompress_noheader-Expands_example : decompress_noheader low_buffers block 40 ≡ ok (replicate 40 7)
decompress_noheader-Expands_example =
    decompress_noheader-Expands low_buffers block (replicate 40 7) 40 (omega arith) (omega arith)
      (omega arith) block-Expands

decode_loop-fault_example :
    decode_loop low_buffers 6 100 (0xfc ∷ 0xff ∷ 0xff ∷ 0xff ∷ 0xff ∷ 1 ∷ 2 ∷ []) (5 ∷ []) ≡ fault
decode_loop-fault_example =
    decode_loop-fault low_buffers 5 100 (1 ∷ 2 ∷ []) (5 ∷ []) (omega arith) (omega arith)

decompress_noheader-Verdict_example :
    Verdict low_buffers 40 block [] (decompress_noheader low_buffers block 40)
decompress_noheader-Verdict_example =
    decompress_noheader-Verdict low_buffers block 40 (omega arith) (omega arith)

decompress_noheader-overrun_example : decompress_noheader low_buffers block 39 ≡ err output_overrun
decompress_noheader-overrun_example =
    decompress_noheader-overrun low_buffers block (replicate 40 7) 39 (omega arith) (omega arith)
      (omega arith) (omega arith) block-Expands

field_of_four : field 4 (0xfe ∷ 0xff ∷ 0xff ∷ 0xff ∷ 1 ∷ []) ≡ some (2 ^ 32 - 2, 1 ∷ [])
unfolding field
field_of_four = refl

decode_loop-escapes_example :
    decode_loop low_buffers 6 100 (0xfc ∷ 0xfe ∷ 0xff ∷ 0xff ∷ 0xff ∷ 1 ∷ []) (5 ∷ []) ≡ fault
decode_loop-escapes_example =
    decode_loop-escapes low_buffers 5 100 (2 ^ 32 - 2) (0xfe ∷ 0xff ∷ 0xff ∷ 0xff ∷ 1 ∷ []) (1 ∷ [])
      (5 ∷ []) (omega arith) field_of_four (omega arith) (omega arith) (omega arith)
