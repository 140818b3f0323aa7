-- ===== src/Compress/Runs.antt =====
-- A concrete stream, and the theorems at concrete inputs.
use csnappy.Common.{
  ℕ, ◌+◌, ◌/◌, ◌%◌, ◌^◌, ◌≤◌, ◌<◌, ◌≡◌, refl, arith, List, [], ◌∷◌, ◌++◌, length, All,
  All-replicate, some, replicate,
}
use csnappy.Words.{load32}
use csnappy.Varint.{encode_varint32}
use csnappy.Format.{Expands}
use csnappy.Emit.{Out, emit_literal, emit_copy}
use csnappy.Match.{find_match_length}
use csnappy.Match.Bytes.{word_matcher}
use csnappy.Fragment.{compress_fragment}
use csnappy.Fragment.Table.{IsPower}
use csnappy.SimpleEmit
use csnappy.SimpleFragment
use csnappy.Compress.Compressors.{fast_compressor, simple_compressor}
use csnappy.Compress.{compress, max_compressed_length}
use csnappy.Compress.Stream.{compress-IsStream, compress-max_compressed_length}

abbrev forty : List ℕ
forty = replicate 40 7

stream_of_forty :
    compress (fast_compressor word_matcher) forty 40 9
    ≡ some (record { bytes = 40 ∷ 0 ∷ 7 ∷ 154 ∷ 1 ∷ 0 ∷ []; reach = 18 }, 6)
unfolding compress compress_fragment emit_literal emit_copy find_match_length load32 encode_varint32
stream_of_forty = refl

abbrev smallest : IsPower 9
smallest = record { at_least = omega arith; at_most = omega arith }

-- The simple compressor ends a match one byte before the end.
simple_stream :
    compress simple_compressor (replicate 42 7) 40 9
    ≡ some (record { bytes = 40 ∷ 0 ∷ 7 ∷ 150 ∷ 1 ∷ 0 ∷ 0 ∷ 7 ∷ []; reach = 8 }, 8)
unfolding compress SimpleFragment.compress_fragment SimpleFragment.find_match_length
    SimpleEmit.emit_literal SimpleEmit.emit_copy SimpleEmit.put_remainder load32 encode_varint32
simple_stream = refl

compress-IsStream_example :
    (out : Out) × (body : List ℕ) × (compress (fast_compressor word_matcher) forty 40 9
      ≡ some (out, length out.bytes % 2 ^ 32))
    × (out.bytes ≡ encode_varint32 40 ++ body)
    × Expands forty body []
    × All (λ b. b < 256) body
    × (length out.bytes ≤ 32 + 40 + 40 / 6)
    × (out.reach ≤ 32 + 40 + 40 / 6)
compress-IsStream_example =
    compress-IsStream (fast_compressor word_matcher) forty 40 9 smallest
      (All-replicate (λ b. b < 256) 40 7 (omega arith)) (omega arith) (omega arith)

compress-max_compressed_length_example :
    (out : Out) × (compress simple_compressor forty 38 9 ≡ some (out, length out.bytes % 2 ^ 32))
    × (out.reach ≤ max_compressed_length 38)
compress-max_compressed_length_example =
    compress-max_compressed_length simple_compressor forty 38 9 smallest
      (All-replicate (λ b. b < 256) 40 7 (omega arith)) (omega arith) (omega arith)
