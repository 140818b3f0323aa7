-- ===== src/ByteDecoder.antt =====
-- `csnappy_decompress_noheader` of csnappy_decompress.c for ARM without unaligned access: one byte at
-- a time. The list is the bytes from `src` to `src_end`; the output is the bytes from `dst_base` to
-- `dst`, and `room` is `dst_end - dst_base`. A pointer has 32 bits: `Space` says how far the two buffers
-- are from the end of the addresses. Of the sums that the checks make only those with the length of a
-- literal, which the input gives, can pass it; the others add at most 64, and the buffers are taken to
-- end at least 64 bytes before it.
pub mod Reads
pub mod Copying
pub mod Literals
pub mod Operands
pub mod Decodes
pub mod Overflow
pub mod Overrun
pub mod Fields
pub mod Rounds
pub mod Sound
mod Runs
use csnappy.Common.{
  ℕ, zero, suc, ◌+◌, ◌-◌, ◌*◌, ◌/◌, ◌%◌, ◌^◌, bit_and, bit_or, List, [], ◌∷◌, ◌++◌, length, drop,
  get_elem?, Bool, ltb, leb, ◌==◌, ◌||◌, ◌&&◌, if◌then◌else◌,
}
use csnappy.Common.Outcome.{
  Outcome, ok, err, fault, ◌>>=◌, ◌>>◌, reject_if, allow_if, access, output_overrun, data_malformed,
}

-- The addresses behind `src_end` and behind `dst_end`.
pub record Space : Type 0 where
  pub above_src : ℕ
  pub above_dst : ℕ

-- Both buffers end 16 MiB before the last address.
abbrev pub low_buffers : Space
low_buffers = record { above_src = 2 ^ 24; above_dst = 2 ^ 24 }

-- `base + n > base + end`, where `above` addresses follow `base + end`. The pointer that is
-- compared is one in the buffer plus a length below 2^32: past these addresses it wraps to less than it
-- was, and the test fails.
unfoldable pub past : ℕ → ℕ → ℕ → Bool
past above end n = ltb end n && leb n (end + above)

-- `for (…; shift < max_shift; shift += 8) length |= *src++ << shift;`
unfoldable pub read_bytes : ℕ → ℕ → List ℕ → ℕ → Outcome (ℕ × List ℕ)
read_bytes zero shift src length = ok (length, src)
read_bytes (suc n) shift [] length = fault
read_bytes (suc n) shift (b ∷ src) length =
    read_bytes n (shift + 8) src (bit_or length (b * 2 ^ shift % 2 ^ 32))

-- `do … while (--length);` on a `uint32_t` runs 2^32 times from 0.
unfoldable pub rounds : ℕ → ℕ
rounds length = if length == 0 then 2 ^ 32 else length

-- `*dst++ = b`
unfoldable pub put_byte : ℕ → ℕ → List ℕ → Outcome (List ℕ)
put_byte room b out = do allow_if (ltb (length out) room); ok (out ++ (b ∷ []))

-- `do *dst++ = *copy_src++; while (--length);` from the input.
unfoldable pub copy_literal : ℕ → ℕ → List ℕ → List ℕ → Outcome (List ℕ)
unfolding put_byte
copy_literal zero room src out = ok out
copy_literal (suc n) room [] out = fault
copy_literal (suc n) room (b ∷ src) out = do
  out' ← put_byte room b out
  copy_literal n room src out'

-- The same from the output, `offset` bytes back.
unfoldable pub copy_back : ℕ → ℕ → ℕ → List ℕ → Outcome (List ℕ)
unfolding put_byte
copy_back zero room offset out = ok out
copy_back (suc n) room offset out = do
  b ← access (get_elem? out (length out - offset))
  out' ← put_byte room b out
  copy_back n room offset out'

-- The branch of a literal, with the length from the tag.
unfoldable pub literal_length : ℕ → List ℕ → Outcome (ℕ × List ℕ)
unfolding read_bytes
literal_length length₀ src =
    if ltb 60 length₀
    then (do
      let extra_bytes = length₀ - 60
      reject_if (ltb (length src) extra_bytes) data_malformed
      (n, src') ← read_bytes extra_bytes 0 src 0
      ok ((n + 1) % 2 ^ 32, src'))
    else ok (length₀, src)

-- The checks and the copy, once the length is known.
unfoldable pub finish_literal : Space → ℕ → ℕ → List ℕ → List ℕ → Outcome (List ℕ × List ℕ)
unfolding rounds copy_literal past
finish_literal sp room len src out = do
  reject_if (past sp.above_src (length src) len) data_malformed
  reject_if (past sp.above_dst room (length out + len)) output_overrun
  out' ← copy_literal (rounds len) room src out
  ok (drop len src, out')

unfoldable pub decode_literal : Space → ℕ → ℕ → List ℕ → List ℕ → Outcome (List ℕ × List ℕ)
unfolding literal_length finish_literal
decode_literal sp room length₀ src out = do
  (len, src') ← literal_length length₀ src
  finish_literal sp room len src' out

-- The branch of a copy: its length, its offset and the input behind it.
unfoldable pub copy_operands : ℕ → List ℕ → Outcome (ℕ × ℕ × List ℕ)
unfolding read_bytes
copy_operands opcode src =
    let length₀ = opcode / 2 ^ 2 + 1 in
    if bit_and opcode 3 == 1
    then (do
      reject_if (ltb (length src) 1) data_malformed
      (b, src') ← read_bytes 1 0 src 0
      ok (bit_and (length₀ - 1) 7 + 4, opcode / 2 ^ 5 * 2 ^ 8 + b, src'))
    else if bit_and opcode 3 == 2
    then (do
      reject_if (ltb (length src) 2) data_malformed
      (offset, src') ← read_bytes 2 0 src 0
      ok (length₀, offset, src'))
    else (do
      reject_if (ltb (length src) 4) data_malformed
      (offset, src') ← read_bytes 4 0 src 0
      ok (length₀, offset, src'))

unfoldable pub finish_copy : ℕ → ℕ → ℕ → List ℕ → Outcome (List ℕ)
unfolding rounds copy_back
finish_copy room len offset out = do
  reject_if (offset == 0 || ltb (length out) offset) data_malformed
  reject_if (ltb room (length out + len)) output_overrun
  copy_back (rounds len) room offset out

unfoldable pub decode_copy : ℕ → ℕ → List ℕ → List ℕ → Outcome (List ℕ × List ℕ)
unfolding copy_operands finish_copy
decode_copy room opcode src out = do
  (len, offset, src') ← copy_operands opcode src
  out' ← finish_copy room len offset out
  ok (src', out')

-- `while (src < src_end)`. A round takes a byte at least.
unfoldable pub decode_loop : Space → ℕ → ℕ → List ℕ → List ℕ → Outcome (List ℕ)
unfolding decode_literal decode_copy
decode_loop sp fuel room [] out = ok out
decode_loop sp zero room (opcode ∷ src) out = fault
decode_loop sp (suc fuel) room (opcode ∷ src) out = do
  (src', out') ←
      (if bit_and opcode 3 == 0
        then decode_literal sp room (opcode / 2 ^ 2 + 1) src out
        else decode_copy room opcode src out)
  decode_loop sp fuel room src' out'

-- The bytes written to `dst`; `*dst_len` is their number.
unfoldable pub decompress_noheader : Space → List ℕ → ℕ → Outcome (List ℕ)
unfolding decode_loop
decompress_noheader sp src dst_len = decode_loop sp (length src) dst_len src []
