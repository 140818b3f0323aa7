-- ===== src/FastDecoder/Runs.antt =====
-- Concrete blocks, and the theorems at concrete inputs.
use csnappy.Common.{ℕ, ◌<◌, ◌≡◌, refl, arith, List, [], ◌∷◌, take, All, All-replicate, replicate}
use csnappy.Common.Outcome.{ok, err, data_malformed}
use csnappy.Format.{literal, copy, element, apply, Expands, done, next}
use csnappy.Writer.{Writer}
use csnappy.ByteDecoder
use csnappy.FastDecoder.{decompress_noheader}
use csnappy.CharTable.{char_table}
use csnappy.FastDecoder.Verdict.{Verdict}
use csnappy.FastDecoder.Loop.{fast_noheader-Verdict}
use csnappy.FastDecoder.Complete.{fast_noheader-Expands, decompress_noheader-agrees}
use csnappy.Decompress.Decoders.{decode_into}

abbrev scratch : List ℕ
scratch = replicate 5 0xaa

-- A literal of one byte, and a copy of it with two bytes of offset.
abbrev block : List ℕ
block = 0 ∷ 7 ∷ 154 ∷ 1 ∷ 0 ∷ []

abbrev dst : List ℕ
dst = replicate 42 0

bytes : (n v : ℕ) → v < 256 → All (λ b. b < 256) (replicate n v)
bytes n v h = All-replicate (λ b. b < 256) n v h

block_bytes : All (λ b. b < 256) block
block_bytes = (omega arith, (omega arith, (omega arith, (omega arith, (omega arith, tt)))))

decodes_block : decode_into scratch (λ n. replicate n 0) block 42 ≡ ok (replicate 40 7)
unfolding decode_into decompress_noheader char_table
decodes_block = refl

-- The offset of the copy is cut off: the byte of the literal is read again from the scratch array in
-- its place, where the decoder for ARM refuses.
abbrev truncated : List ℕ
truncated = 0 ∷ 1 ∷ 1 ∷ []

truncated_is_accepted : decode_into scratch (λ n. replicate n 0) truncated 5 ≡ ok (replicate 5 1)
unfolding decode_into decompress_noheader char_table
truncated_is_accepted = refl

truncated_is_refused :
    ByteDecoder.decompress_noheader ByteDecoder.low_buffers truncated 5 ≡ err data_malformed
unfolding ByteDecoder.decompress_noheader
truncated_is_refused = refl

block-Expands : Expands (replicate 40 7) block []
unfolding element apply
block-Expands = next (literal (7 ∷ [])) refl refl (next (copy 1 39) refl refl done)

block_for_arm :
    ByteDecoder.decompress_noheader ByteDecoder.low_buffers block 42 ≡ ok (replicate 40 7)
unfolding ByteDecoder.decompress_noheader
block_for_arm = refl

fast_noheader-Verdict_example : Verdict 42 block [] (decompress_noheader scratch block dst)
fast_noheader-Verdict_example =
    fast_noheader-Verdict scratch block dst refl (bytes 5 0xaa (omega arith)) block_bytes
      (omega arith) (omega arith)

fast_noheader-Expands_example :
    (w : Writer) × (decompress_noheader scratch block dst ≡ ok w)
    × (w.op ≡ 40)
    × (take w.op w.buffer ≡ replicate 40 7)
fast_noheader-Expands_example =
    fast_noheader-Expands scratch block dst (replicate 40 7) refl (bytes 5 0xaa (omega arith))
      block_bytes (omega arith) (omega arith) block-Expands (omega arith)

decompress_noheader-agrees_example :
    (w : Writer) × (decompress_noheader scratch block dst ≡ ok w)
    × (take w.op w.buffer ≡ replicate 40 7)
decompress_noheader-agrees_example =
    decompress_noheader-agrees ByteDecoder.low_buffers scratch block dst (replicate 40 7) refl
      (bytes 5 0xaa (omega arith)) block_bytes (omega arith) (omega arith) block_for_arm
