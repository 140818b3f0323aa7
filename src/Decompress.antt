-- ===== src/Decompress.antt =====
-- `csnappy_decompress` of csnappy_decompress.c: the header and its checks, over a decoder of blocks.
-- The file has two decoders and compiles one of them, so that the block decoder is an interface.
pub mod Streams
pub mod Decoders
pub mod RoundTrip
mod Runs
use csnappy.Common.{ℕ, ◌^◌, ◌≤◌, ◌<◌, ◌≡◌, List, [], length, drop, All, ltb}
use csnappy.Common.Outcome.{Outcome, ok, err, fault, ◌>>◌, reject_if, output_insuf}
use csnappy.Varint.{get_uncompressed_length}
use csnappy.Format.{Expands}

-- `csnappy_decompress_noheader`, and what a caller relies on: a block of bytes that expands within
-- `dst_len` is expanded, if the lengths are below what the decoder's arithmetic takes.
-- `leaves src dst` is what the buffer at `dst` holds behind the output when the call returns, if it held
-- `dst` before.
pub record BlockDecoder : Type 0 where
  pub src_limit : ℕ
  pub dst_limit : ℕ
  pub decompress_noheader : List ℕ → ℕ → Outcome (List ℕ)
  pub leaves : List ℕ → List ℕ → List ℕ
  pub decodes :
      (src final : List ℕ) (dst_len : ℕ)
      → All (λ b. b < 256) src
      → length src < src_limit
      → length final ≤ dst_len
      → dst_len < dst_limit
      → Expands final src []
      → decompress_noheader src dst_len ≡ ok final

-- `n` and `olen` are what the header gives; the block is what follows it.
unfoldable pub decompress_body : BlockDecoder → List ℕ → ℕ → Outcome ℕ × ℕ → Outcome (List ℕ)
decompress_body d src dst_len (ok n, olen) = do
  reject_if (ltb dst_len olen) output_insuf
  d.decompress_noheader (drop n src) olen
decompress_body d src dst_len (err e, olen) = err e
decompress_body d src dst_len (fault, olen) = fault

-- `src` is the `src_len` bytes at the pointer; the result is what was written to `dst`.
unfoldable pub decompress : BlockDecoder → List ℕ → ℕ → Outcome (List ℕ)
unfolding decompress_body
decompress d src dst_len = decompress_body d src dst_len (get_uncompressed_length src)
