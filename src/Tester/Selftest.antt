-- ===== src/Tester/Selftest.antt =====
-- The self-tests of cl_tester.c. `random` is what /dev/urandom gives; the input buffer has the bytes that
-- are asked for and no more. The allocations succeed; the status is that of `exit` where a test ends by it.
use csnappy.Common.{ℕ, ◌+◌, List, [], ◌∷◌, take, drop, Option, some, none, ltb, leb, if◌then◌else◌}
use csnappy.Common.Outcome.{Outcome, Status, ok, err, fault, output_insuf, output_overrun}
use csnappy.Common.Partial.{◌>>=◌, ◌>>◌, guard}
use csnappy.Varint.{get_uncompressed_length}
use csnappy.Compress.{BlockCompressor, compress, max_compressed_length}
use csnappy.Decompress.{BlockDecoder, decompress}
use csnappy.Tester.{workmem_power}

-- Compression into one page, behind which a write raises SIGSEGV, whose handler exits with 0.
unfoldable pub do_selftest_compression : BlockCompressor → ℕ → List ℕ → Option ℕ
do_selftest_compression c page_size random = do
  (out, olen) ← compress c (take (page_size + 100) random) (page_size + 100) workmem_power
  some (if ltb page_size out.reach then 0 else 1)

-- "\x32\xc4fooooo…": a header of 50 and the tag of a literal of 50 bytes, of which seven follow.
abbrev pub fake : List ℕ
fake = 0x32 ∷ 0xc4 ∷ 0x66 ∷ 0x6f ∷ 0x6f ∷ 0x6f ∷ 0x6f ∷ 0x6f ∷ 0x6f ∷ []

-- Goes on if the call answers the expected error, and exits with 1 on any other answer.
abbrev pub expect : Status → Outcome (List ℕ) → Option ℕ → Option ℕ
expect output_insuf (err output_insuf) rest = rest
expect output_overrun (err output_overrun) rest = rest
expect _ fault rest = none
expect _ _ rest = some 1

-- Goes on unless the call answers CSNAPPY_E_OK.
abbrev pub expect_error : Outcome (List ℕ) → Option ℕ → Option ℕ
expect_error (ok out) rest = some 1
expect_error (err e) rest = rest
expect_error fault rest = none

module _ (d : BlockDecoder) where
  unfoldable pub test_fake : Option ℕ
  test_fake =
      expect_error (decompress d fake 50)
        (expect_error (d.decompress_noheader (drop 1 fake) 50) (some 0))

  -- With the length of the header, and 1 where there is none.
  unfoldable pub test_header : ℕ → List ℕ → Outcome ℕ → Option ℕ
  unfolding test_fake
  test_header page_size stream (ok hlen) =
      expect output_overrun (d.decompress_noheader (drop hlen stream) page_size) test_fake
  test_header page_size stream (err e) = some 1
  test_header page_size stream fault = none

  unfoldable pub do_selftest_decompression : BlockCompressor → ℕ → List ℕ → Option ℕ
  unfolding test_header
  do_selftest_decompression c page_size random = do
    (out, olen) ← compress c (take (page_size + 100) random) (page_size + 100) workmem_power
    guard (leb out.reach (max_compressed_length (page_size + 100)))
    let stream = take olen out.bytes
    expect output_insuf (decompress d stream page_size)
        (test_header page_size stream (get_uncompressed_length stream).0)
