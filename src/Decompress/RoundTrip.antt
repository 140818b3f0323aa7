-- ===== src/Decompress/RoundTrip.antt =====
-- What `csnappy_compress` writes, `csnappy_decompress` reads back.
use csnappy.Common.{
  ℕ, ◌+◌, ◌/◌, ◌%◌, ◌^◌, ◌≤◌, ◌<◌, ◌≡◌, arith, ap, ◌∙◌, List, ◌++◌, length, length-take, take,
  drop_front, All, All-append, some,
}
use csnappy.Common.Outcome.{ok}
use csnappy.Varint.{encode_varint32}
use csnappy.Varint.RoundTrip.{encode_varint32_shape, base_128-encode_varint32}
use csnappy.Emit.{Out}
use csnappy.Fragment.Table.{IsPower}
use csnappy.Compress.{BlockCompressor, compress}
use csnappy.Compress.Stream.{compress-IsStream}
use csnappy.Decompress.{BlockDecoder, decompress}
use csnappy.Decompress.Streams.{decompress-Expands}

-- For every block decoder, every block compressor, every memory of bytes, every input at its start that
-- a 32-bit length can count and behind which the compressor's margin can be read, and every table of
-- 2^9 to 2^16 bytes, if 32 + n + n / 6 and n, for n the length of the input, are below the limits of the
-- block decoder: `csnappy_compress` returns, it reports the length of its output modulo 2^32, and
-- `csnappy_decompress` answers CSNAPPY_E_OK with the input for this output, if `dst_len` is not below
-- the length of the input.
pub decompress-compress :
    (d : BlockDecoder) (c : BlockCompressor) (memory : List ℕ) (input_length power dst_len : ℕ)
    → IsPower power
    → All (λ b. b < 256) memory
    → input_length < 2 ^ 32
    → input_length + c.margin ≤ length memory
    → input_length ≤ dst_len
    → 32 + input_length + input_length / 6 < d.src_limit
    → input_length < d.dst_limit
    → (out : Out) × (compress c memory input_length power ≡ some (out, length out.bytes % 2 ^ 32))
      × (decompress d out.bytes dst_len ≡ ok (take input_length memory))
decompress-compress d c memory n power dst_len p bytes small readable fits short low =
    let (out, body, e, b, x, bb, size, reach) =
      compress-IsStream c memory n power p bytes small readable in
    let header : List ℕ = encode_varint32 n in
    let count : length (take n memory) ≡ n = omega (arith, length-take n memory) in
    (
      out,
      e,
      ap (λ (t : List ℕ). decompress d t dst_len) b
          ∙ decompress-Expands d (header ++ body) (take n memory) (length header) n dst_len
              (All-append (λ b. b < 256) header body (encode_varint32_shape n).0 bb)
              (base_128-encode_varint32 n body small) (omega (arith, count)) (omega arith)
              (omega (arith, size, ap (length {A = ℕ}) b)) (omega arith)
              (rw (drop_front header body) x),
    )
