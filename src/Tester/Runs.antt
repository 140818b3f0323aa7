-- ===== src/Tester/Runs.antt =====
-- Runs of cl_tester, and the theorems at concrete inputs.
use csnappy.Common.{
  ℕ, ◌<◌, ◌≡◌, ◌⊎◌, refl, arith, List, [], ◌∷◌, ◌++◌, length-replicate, replicate, length, Bool,
  true, false, All-replicate, some, none, ltb, ◌==◌, if◌then◌else◌,
}
use csnappy.Varint.{get_uncompressed_length}
use csnappy.Match.Bytes.{word_matcher}
use csnappy.ByteDecoder
use csnappy.Compress.Compressors.{fast_compressor}
use csnappy.Decompress.{BlockDecoder, decompress}
use csnappy.Decompress.Decoders.{byte_decoder, fast_decoder, decode_into, buffer_after}
use csnappy.Tester.{Process, do_compress, do_decompress}
use csnappy.Tester.Decoding.{Released, do_decompress-Released}
use csnappy.Tester.Encoding.{Left, do_compress-Left}
use csnappy.Tester.Selftest.{test_fake}
use csnappy.Tester.Command.{System, to_decompress, self_test, started, main, main-main}

abbrev always : ℕ → ℕ → Bool
always k n = true

abbrev zeros : ℕ → List ℕ
zeros n = replicate n 0

-- A header of 3 and a block of one byte.
abbrev short_stream : List ℕ
short_stream = 3 ∷ 0 ∷ 65 ∷ []

abbrev ended : List ℕ → Process
ended written = record { input_open = false; output_open = false; live = 0; written = written }

-- The two bytes that the block lacks are what the buffer held.
short_stream_run :
    do_decompress (byte_decoder ByteDecoder.low_buffers) always zeros short_stream started
    ≡ some (0, ended (65 ∷ 0 ∷ 0 ∷ []))
unfolding do_decompress decompress get_uncompressed_length ByteDecoder.decompress_noheader
short_stream_run = refl

no_stream_run :
    do_decompress (byte_decoder ByteDecoder.low_buffers) always zeros [] started
    ≡ some (6, ended [])
unfolding do_decompress get_uncompressed_length
no_stream_run = refl

bad_stream_run :
    do_decompress (byte_decoder ByteDecoder.low_buffers) always zeros (3 ∷ 1 ∷ 1 ∷ []) started
    ≡ some (7, ended [])
unfolding do_decompress decompress get_uncompressed_length ByteDecoder.decompress_noheader
bad_stream_run = refl

-- The second buffer is not to be had.
abbrev one_buffer : ℕ → ℕ → Bool
one_buffer k n = ltb k 1

abbrev zeros_five : List ℕ
zeros_five = 0 ∷ 0 ∷ 0 ∷ 0 ∷ 0 ∷ []

abbrev zeros_full : (n : ℕ) → length (zeros n) ≡ n
zeros_full n = length-replicate n 0

abbrev optimised : BlockDecoder
optimised = fast_decoder zeros_five zeros refl (omega arith) zeros_full

do_decompress-Released_example :
    (status : ℕ) × (q : Process) × (do_decompress optimised one_buffer zeros short_stream started
      ≡ some (status, q))
    × Released started q
    × ((status ≡ 0) ⊎ (q.written ≡ []))
do_decompress-Released_example =
    do_decompress-Released zeros_five zeros refl (omega arith) zeros_full one_buffer short_stream
      started (omega arith) (λ n e. absurd (ground (arith, e)))

-- The fast path of a copy writes behind the five bytes of output, and these bytes are written too.
written_behind :
    do_decompress optimised always zeros (40 ∷ 0x00 ∷ 0x41 ∷ 0x01 ∷ 0x01 ∷ []) started
    ≡ some (0, ended (replicate 8 0x41 ++ zeros 32))
unfolding do_decompress decompress get_uncompressed_length decode_into buffer_after
    csnappy.CharTable.char_table
written_behind = refl

-- The literal that is cut off is refused.
fake_refused : test_fake (byte_decoder ByteDecoder.low_buffers) ≡ some 0
unfolding test_fake decompress get_uncompressed_length ByteDecoder.decompress_noheader
fake_refused = refl

abbrev two_buffers : ℕ → ℕ → Bool
two_buffers k n = ltb k 2

do_compress-Left_example :
    (status : ℕ) × (q : Process) × (do_compress
        (fast_compressor word_matcher)
        two_buffers
        zeros
        (65 ∷ 66 ∷ [])
        started
      ≡ some (status, q))
    × Left two_buffers started status q
    × ((status ≡ 0) ⊎ (q.written ≡ []))
do_compress-Left_example =
    do_compress-Left (fast_compressor word_matcher) two_buffers zeros (65 ∷ 66 ∷ []) started
      (λ n. length-replicate n 0) (λ n. All-replicate (λ b. b < 256) n 0 (omega arith))
      (omega arith) (λ h. omega arith)

abbrev disk : System
disk = record {
  files = λ n. if n == 0 then some (65 ∷ 66 ∷ []) else none;
  writable = λ n. true;
  stdin = [];
  stdout = [];
}

main-main_example :
    (s' : System) × (s'' : System) × (main
        (fast_compressor word_matcher)
        (byte_decoder ByteDecoder.low_buffers)
        always
        zeros
        none
        none
        []
        (0 ∷ 1 ∷ [])
        disk
      ≡ some (0, s'))
    × (main
          (fast_compressor word_matcher)
          (byte_decoder ByteDecoder.low_buffers)
          always
          zeros
          none
          none
          (to_decompress ∷ [])
          (1 ∷ 2 ∷ [])
          s'
        ≡ some (0, s''))
    × (s''.files 2 ≡ some (65 ∷ 66 ∷ []))
main-main_example =
    main-main (fast_compressor word_matcher) (byte_decoder ByteDecoder.low_buffers) always zeros
      none none 0 1 2 (65 ∷ 66 ∷ []) disk (λ k n. refl) (λ n. length-replicate n 0)
      (λ n. All-replicate (λ b. b < 256) n 0 (omega arith)) (omega arith) (omega arith)
      (omega arith) (omega arith) (omega arith) refl refl refl (λ e. omega (arith, e))
      (λ e. omega (arith, e))

-- An option of `-S` that is neither `c` nor `d`, and a missing name.
unknown_test :
    main
      (fast_compressor word_matcher)
      (byte_decoder ByteDecoder.low_buffers)
      always
      zeros
      none
      none
      (self_test 120 ∷ [])
      (0 ∷ 1 ∷ [])
      disk
    ≡ some (1, disk)
unfolding main
unknown_test = refl

one_name :
    main
      (fast_compressor word_matcher)
      (byte_decoder ByteDecoder.low_buffers)
      always
      zeros
      none
      none
      []
      (0 ∷ [])
      disk
    ≡ some (1, disk)
unfolding main
one_name = refl

no_such_file :
    main
      (fast_compressor word_matcher)
      (byte_decoder ByteDecoder.low_buffers)
      always
      zeros
      none
      none
      []
      (7 ∷ 1 ∷ [])
      disk
    ≡ some (2, disk)
unfolding main
no_such_file = refl
