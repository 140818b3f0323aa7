-- ===== src/Pages/Runs.antt =====
-- Runs of block_compressor, and the theorems at concrete inputs.
use csnappy.Common.{
  ℕ, ◌+◌, ◌-◌, ◌*◌, ◌≤◌, ◌<◌, ◌≡◌, refl, arith, List, [], ◌∷◌, replicate, All-replicate, some, none,
  ◌==◌, if◌then◌else◌, inl, true,
}
use csnappy.Emit.{emit_literal}
use csnappy.Match.Bytes.{word_matcher}
use csnappy.Fragment
use csnappy.ByteDecoder
use csnappy.Compress.Compressors.{fast_compressor}
use csnappy.Decompress.Decoders.{byte_decoder}
use csnappy.Tester.Command.{System}
use csnappy.Pages.{Codec, returns, exits, fault, Counts, do_compress, do_decompress}
use csnappy.Pages.Layout.{image}
use csnappy.Pages.Reading.{do_decompress-fault}
use csnappy.Pages.RoundTrip.{IsLossless, pages_read_back, short_page_undone}
use csnappy.Pages.Snappy.{snappy_compress, snappy_decompress, snappy_codec, snappy_codec-IsLossless}
use csnappy.Pages.Clock.{Time, add_time_diff, nanoseconds, one_billion, nanoseconds-add_time_diff}
use csnappy.Pages.Command.{
  with_compressor, snappy_name, convert, to_decompress, main, main_restores,
}

abbrev codec : Codec
codec = snappy_codec (fast_compressor word_matcher) (byte_decoder ByteDecoder.low_buffers) 8

snappy_codec-IsLossless_example : IsLossless codec 256
snappy_codec-IsLossless_example =
    snappy_codec-IsLossless (fast_compressor word_matcher) (byte_decoder ByteDecoder.low_buffers)
      256 8 refl (omega arith) (omega arith) (omega arith) (omega arith) (omega arith)

lossless : IsLossless codec 256
lossless =
    snappy_codec-IsLossless (fast_compressor word_matcher) (byte_decoder ByteDecoder.low_buffers)
      256 8 refl (omega arith) (omega arith) (omega arith) (omega arith) (omega arith)

pages_read_back_example :
    (file : List ℕ) × (counts : Counts) × (do_compress codec 256 (replicate 256 7)
      ≡ returns (file, counts))
    × (do_decompress codec 256 file ≡ returns (replicate 256 7))
pages_read_back_example =
    pages_read_back codec 256 lossless (omega arith) (omega arith) (replicate 256 7)
      (All-replicate (λ b. b < 256) 256 7 (omega arith)) (omega arith) (inl refl, tt)

-- Three bytes take four, and are written raw.
three_compressed : codec.compress (1 ∷ 2 ∷ 3 ∷ []) (2 * 256) ≡ returns (8 ∷ 1 ∷ 2 ∷ 3 ∷ [])
unfolding snappy_compress Fragment.compress_fragment emit_literal
three_compressed = refl

three_undone : codec.decompress (1 ∷ 2 ∷ 3 ∷ []) 256 ≡ exits
unfolding snappy_decompress ByteDecoder.decompress_noheader
three_undone = refl

short_page_undone_example :
    (file : List ℕ) × (counts : Counts) × (do_compress codec 256 (1 ∷ 2 ∷ 3 ∷ [])
      ≡ returns (file, counts))
    × (do_decompress codec 256 file ≡ codec.decompress (1 ∷ 2 ∷ 3 ∷ []) 256)
short_page_undone_example =
    short_page_undone codec 256 (omega arith) (1 ∷ 2 ∷ 3 ∷ []) (8 ∷ 1 ∷ 2 ∷ 3 ∷ []) (omega arith)
      (omega arith) three_compressed (omega arith)

do_decompress-fault_example : do_decompress codec 1 (image ((1 ∷ 2 ∷ 3 ∷ []) ∷ [])) ≡ fault
do_decompress-fault_example =
    do_decompress-fault codec 1 (omega arith) (1 ∷ 2 ∷ 3 ∷ []) (omega arith) (omega arith)

-- A nanosecond more than 999999999 of them is not carried over.
abbrev nearly : Time
nearly = record { tv_sec = 0; tv_nsec = 999999999 }

abbrev one_later : Time
one_later = record { tv_sec = 1; tv_nsec = 0 }

not_carried : add_time_diff nearly nearly one_later ≡ record { tv_sec = 0; tv_nsec = 1000000000 }
unfolding add_time_diff
not_carried = refl

nanoseconds-add_time_diff_example :
    (nanoseconds (add_time_diff nearly nearly one_later)
      ≡ nanoseconds nearly + (nanoseconds one_later - nanoseconds nearly))
    × ((add_time_diff nearly nearly one_later).tv_nsec ≤ one_billion)
nanoseconds-add_time_diff_example =
    nanoseconds-add_time_diff nearly nearly one_later (omega arith) (omega arith) (omega arith)
      (omega arith)

abbrev disk : System
disk = record {
  files = λ n. if n == 0 then some (replicate 256 7) else none;
  writable = λ n. true;
  stdin = [];
  stdout = [];
}

main_restores_example :
    (s' s'' : System) × (main (λ n. codec) 256 (with_compressor snappy_name ∷ []) (0 ∷ 1 ∷ []) disk
      ≡ returns (0, s'))
    × (main (λ n. codec) 256 (with_compressor snappy_name ∷ to_decompress ∷ []) (1 ∷ 2 ∷ []) s'
        ≡ returns (0, s''))
    × (s''.files 2 ≡ some (replicate 256 7))
main_restores_example =
    main_restores (λ n. codec) 256 0 1 2 (replicate 256 7) disk lossless (omega arith) (omega arith)
      (All-replicate (λ b. b < 256) 256 7 (omega arith)) (omega arith) (inl refl, tt) refl refl refl
      (λ e. omega (arith, e)) (λ e. omega (arith, e))

-- Without `-c` there is no codec.
main_without_codec : main (λ n. codec) 256 [] (0 ∷ 1 ∷ []) disk ≡ fault
unfolding main convert
main_without_codec = refl
