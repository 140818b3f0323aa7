-- ===== src/Decompress/Runs.antt =====
-- Concrete streams, and the theorems at concrete inputs.
use csnappy.Common.{
  ℕ, ◌%◌, ◌^◌, ◌<◌, ◌≡◌, refl, arith, List, [], ◌∷◌, length, length-replicate, All-replicate, some,
  replicate,
}
use csnappy.Common.Outcome.{ok, err, header_bad, output_insuf}
use csnappy.Varint.{get_uncompressed_length}
use csnappy.Varint.Value.{base_128}
use csnappy.Format.{literal, copy, element, apply, Expands, done, next}
use csnappy.Emit.{Out}
use csnappy.Match.Long.{long_matcher}
use csnappy.Fragment.Table.{IsPower}
use csnappy.Compress.{compress}
use csnappy.Compress.Compressors.{fast_compressor, simple_compressor}
use csnappy.ByteDecoder
use csnappy.Decompress.{decompress}
use csnappy.Decompress.Streams.{answer, decompress-answer, decompress-Expands}
use csnappy.Decompress.Decoders.{byte_decoder, fast_decoder}
use csnappy.Decompress.RoundTrip.{decompress-compress}

abbrev stream : List ℕ
stream = 40 ∷ 0 ∷ 7 ∷ 154 ∷ 1 ∷ 0 ∷ []

stream_of_forty : decompress (byte_decoder ByteDecoder.low_buffers) stream 64 ≡ ok (replicate 40 7)
unfolding decompress get_uncompressed_length ByteDecoder.decompress_noheader
stream_of_forty = refl

stream_without_room : decompress (byte_decoder ByteDecoder.low_buffers) stream 39 ≡ err output_insuf
unfolding decompress get_uncompressed_length
stream_without_room = refl

no_stream : decompress (byte_decoder ByteDecoder.low_buffers) [] 39 ≡ err header_bad
unfolding decompress get_uncompressed_length
no_stream = refl

stream-Expands : Expands (replicate 40 7) (0 ∷ 7 ∷ 154 ∷ 1 ∷ 0 ∷ []) []
unfolding element apply
stream-Expands = next (literal (7 ∷ [])) refl refl (next (copy 1 39) refl refl done)

header_of_stream : base_128 5 stream ≡ some (1, 40)
unfolding base_128
header_of_stream = refl

decompress-answer_example :
    decompress (byte_decoder ByteDecoder.low_buffers) stream 64
    ≡ answer (byte_decoder ByteDecoder.low_buffers) stream 64 (base_128 5 stream)
decompress-answer_example = decompress-answer (byte_decoder ByteDecoder.low_buffers) stream 64

decompress-Expands_example :
    decompress (byte_decoder ByteDecoder.low_buffers) stream 64 ≡ ok (replicate 40 7)
decompress-Expands_example =
    decompress-Expands (byte_decoder ByteDecoder.low_buffers) stream (replicate 40 7) 1 40 64
      (omega arith) header_of_stream (omega arith) (omega arith) (omega arith) (omega arith)
      stream-Expands

abbrev smallest : IsPower 9
smallest = record { at_least = omega arith; at_most = omega arith }

-- The configuration for ARM without unaligned access, with two bytes behind the input.
decompress-compress_example :
    (out : Out) × (compress simple_compressor (replicate 42 7) 40 9
      ≡ some (out, length out.bytes % 2 ^ 32))
    × (decompress (byte_decoder ByteDecoder.low_buffers) out.bytes 64 ≡ ok (replicate 40 7))
decompress-compress_example =
    decompress-compress (byte_decoder ByteDecoder.low_buffers) simple_compressor (replicate 42 7) 40
      9 64 smallest (All-replicate (λ b. b < 256) 42 7 (omega arith)) (omega arith) (omega arith)
      (omega arith) (omega arith) (omega arith)

-- The optimised configuration.
fast_round_trip :
    (out : Out) × (compress (fast_compressor long_matcher) (replicate 40 7) 40 9
      ≡ some (out, length out.bytes % 2 ^ 32))
    × (decompress
          (fast_decoder
            (replicate 5 0)
            (λ n. replicate n 0)
            refl
            (omega arith)
            (λ n. length-replicate n 0))
          out.bytes
          64
        ≡ ok (replicate 40 7))
fast_round_trip =
    decompress-compress
      (fast_decoder (replicate 5 0) (λ n. replicate n 0) refl (omega arith)
        (λ n. length-replicate n 0))
      (fast_compressor long_matcher) (replicate 40 7) 40 9 64 smallest
      (All-replicate (λ b. b < 256) 40 7 (omega arith)) (omega arith) (omega arith) (omega arith)
      (omega arith) (omega arith)
