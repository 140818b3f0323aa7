-- ===== src/Compress.antt =====
-- `csnappy_compress` and `csnappy_max_compressed_length` of csnappy_compress.c. `none` is an access
-- outside a buffer, or a loop out of fuel. The file has two compressors of blocks and compiles one of
-- them, so that the block compressor is an interface.
pub mod Stream
pub mod Compressors
mod Runs
use csnappy.Common.{
  ℕ, zero, suc, ◌+◌, ◌-◌, ◌*◌, ◌/◌, ◌%◌, ◌^◌, ◌≤◌, ◌<◌, ◌≡◌, min, List, length, take, drop, All,
  Option, some, none, ltb, leb, if◌then◌else◌,
}
use csnappy.Common.Partial.{◌>>=◌}
use csnappy.Varint.{encode_varint32}
use csnappy.Emit.{Out}
use csnappy.Fragment.Table.{IsPower}
use csnappy.Fragment.Blocks.{IsCompressed}

-- `csnappy_compress_fragment`, and what a caller relies on: of a memory of bytes, it compresses the
-- first `input_size`, if `margin` more can be read.
pub record BlockCompressor : Type 0 where
  pub margin : ℕ
  pub compress_fragment : List ℕ → ℕ → Out → ℕ → Option Out
  pub compresses :
      (prefix memory : List ℕ) (input_size : ℕ) (start : Out) (power : ℕ)
      → IsPower power
      → All (λ b. b < 256) memory
      → input_size ≤ 2 ^ 15
      → input_size + margin ≤ length memory
      → (out : Out) × (compress_fragment memory input_size start power ≡ some out)
        × IsCompressed prefix (take input_size memory) start out

abbrev pub block_size : ℕ
block_size = 2 ^ 15

-- `uint32_t` arithmetic.
unfoldable pub max_compressed_length : ℕ → ℕ
max_compressed_length source_len = (32 + source_len + source_len / 6) % 2 ^ 32

-- `for (workmem_size = 9; workmem_size < power; ++workmem_size)`, with the rounds left.
unfoldable pub shrink_workmem : ℕ → ℕ → ℕ → ℕ
shrink_workmem zero workmem_size num_to_read = workmem_size
shrink_workmem (suc rounds) workmem_size num_to_read =
    if leb num_to_read (2 ^ (workmem_size - 1))
    then workmem_size
    else shrink_workmem rounds (workmem_size + 1) num_to_read

unfoldable pub choose_workmem : ℕ → ℕ → ℕ
unfolding shrink_workmem
choose_workmem power num_to_read =
    if ltb num_to_read block_size then shrink_workmem (power - 9) 9 num_to_read else power

-- `while (input_length > 0)`: `memory` is what can be read from `input` on. A round reads a byte at
-- least.
unfoldable pub compress_blocks : ℕ → BlockCompressor → List ℕ → ℕ → Out → ℕ → ℕ → Option (Out × ℕ)
unfolding choose_workmem
compress_blocks fuel c memory zero out written power = some (out, written)
compress_blocks zero c memory (suc n) out written power = none
compress_blocks (suc fuel) c memory (suc n) out written power = do
  let num_to_read = min (suc n) block_size
  out' ← c.compress_fragment memory num_to_read out (choose_workmem power num_to_read)
  compress_blocks fuel c (drop num_to_read memory) (suc n - num_to_read) out'
      ((written + (length out'.bytes - length out.bytes)) % 2 ^ 32) power

-- The output with the header in front, and `*compressed_length`.
unfoldable pub compress : BlockCompressor → List ℕ → ℕ → ℕ → Option (Out × ℕ)
unfolding compress_blocks
compress c memory input_length power =
    let header = encode_varint32 input_length in
    compress_blocks input_length c memory input_length
      (record { bytes = header; reach = length header }) (length header) power
