-- ===== src/Writer.antt =====
-- `struct SnappyArrayWriter` of csnappy_decompress.c, its operations and the copies within the output.
-- The writer has the whole buffer at `dst`: its bytes before `op` are the output, and the fast paths
-- read and write behind `op`. `base` is 0 and `op_limit` the length of the buffer, a `uint32_t`.
pub mod Pattern
pub mod Rounds
pub mod Doubling
pub mod Variants
pub mod SelfCopy
pub mod Outputs
pub mod Appends
pub mod Backward
mod Runs
use csnappy.Common.{
  ℕ, zero, suc, ◌+◌, ◌-◌, ◌%◌, ◌^◌, max, List, [], ◌∷◌, length, get_elem?, Bool, true, false, ◌&&◌,
  ltb, leb, if◌then◌else◌,
}
use csnappy.Common.Memory.{store}
use csnappy.Common.Outcome.{
  Outcome, ok, err, fault, ◌>>=◌, ◌>>◌, reject_if, access, output_overrun, data_malformed,
}
use csnappy.Words.{slice}

pub record Writer : Type 0 where
  pub buffer : List ℕ
  pub op : ℕ

-- `*op++ = *src++`
unfoldable pub copy_byte : List ℕ → ℕ → ℕ → Outcome (List ℕ)
unfolding store
copy_byte buffer src op = do b ← access (get_elem? buffer src); store buffer op (b ∷ [])

unfoldable pub copy_bytes : ℕ → List ℕ → ℕ → ℕ → Outcome (List ℕ)
unfolding copy_byte
copy_bytes zero buffer src op = ok buffer
copy_bytes (suc n) buffer src op = do
  buffer' ← copy_byte buffer src op
  copy_bytes n buffer' (src + 1) (op + 1)

-- `do … while (--len > 0)` makes a round in any case.
unfoldable pub incremental_copy : List ℕ → ℕ → ℕ → ℕ → Outcome (List ℕ)
unfolding copy_bytes
incremental_copy buffer src op len = copy_bytes (max 1 len) buffer src op

-- `UnalignedCopy64(src, op)`: one load and one store of eight bytes.
unfoldable pub unaligned_copy64 : List ℕ → ℕ → ℕ → Outcome (List ℕ)
unfolding slice store
unaligned_copy64 buffer src op = do chunk ← access (slice buffer src 8); store buffer op chunk

-- Its variants with words of 32 bits, and by bytes.
unfoldable pub copy64_halves : List ℕ → ℕ → ℕ → Outcome (List ℕ)
unfolding slice store
copy64_halves buffer src dst = do
  low ← access (slice buffer src 4)
  buffer' ← store buffer dst low
  high ← access (slice buffer' (src + 4) 4)
  store buffer' (dst + 4) high

unfoldable pub copy64_bytes : List ℕ → ℕ → ℕ → Outcome (List ℕ)
unfolding copy_bytes
copy64_bytes buffer src dst = copy_bytes 8 buffer src dst

-- `while (op - src < 8)`. A `len` below 0 is 0 here: it is only compared with 0 from then on.
unfoldable pub expand_pattern : ℕ → List ℕ → ℕ → ℕ → ℕ → Outcome (List ℕ × ℕ × ℕ)
unfolding unaligned_copy64
expand_pattern zero buffer src op len = fault
expand_pattern (suc fuel) buffer src op len = elim (ltb (op - src) 8) [
  | true ↦ (do
    buffer' ← unaligned_copy64 buffer src op
    expand_pattern fuel buffer' src (op + (op - src)) (len - (op - src)))
  | false ↦ ok (buffer, op, len)
]

-- `while (len > 0)`
unfoldable pub copy_words : ℕ → List ℕ → ℕ → ℕ → ℕ → Outcome (List ℕ)
unfolding unaligned_copy64
copy_words zero buffer src op len = fault
copy_words (suc fuel) buffer src op len = elim (ltb 0 len) [
  | true ↦ (do
    buffer' ← unaligned_copy64 buffer src op
    copy_words fuel buffer' (src + 8) (op + 8) (len - 8))
  | false ↦ ok buffer
]

-- The pattern doubles in a round of the first loop, so that four are enough; a round of the second
-- takes eight from `len`.
unfoldable pub incremental_copy_fast_path : List ℕ → ℕ → ℕ → ℕ → Outcome (List ℕ)
unfolding expand_pattern copy_words
incremental_copy_fast_path buffer src op len = do
  (buffer', op', len') ← expand_pattern 4 buffer src op len
  copy_words (len' + 1) buffer' src op' len'

abbrev pub max_increment_copy_overflow : ℕ
max_increment_copy_overflow = 10

-- `SAW__Append`; `ip` is a position in the buffer `input`.
unfoldable pub append : Writer → List ℕ → ℕ → ℕ → Outcome Writer
unfolding slice store
append w input ip len = do
  reject_if (ltb (length w.buffer - w.op) len) output_overrun
  chunk ← access (slice input ip len)
  buffer ← store w.buffer w.op chunk
  ok (record { buffer = buffer; op = w.op + len })

-- `SAW__AppendFastPath`
unfoldable pub append_fast_path : Writer → List ℕ → ℕ → ℕ → Outcome Writer
unfolding append slice store
append_fast_path w input ip len =
    if leb 16 (length w.buffer - w.op)
    then (do
      first ← access (slice input ip 8)
      buffer ← store w.buffer w.op first
      second ← access (slice input (ip + 8) 8)
      buffer' ← store buffer (w.op + 8) second
      ok (record { buffer = buffer'; op = w.op + len }))
    else append w input ip len

-- The three ways to copy, by the room that is left.
unfoldable pub copy_within : List ℕ → ℕ → ℕ → ℕ → Outcome (List ℕ)
unfolding unaligned_copy64 incremental_copy incremental_copy_fast_path
copy_within buffer op offset len =
    if (leb len 16 && leb 8 offset) && leb 16 (length buffer - op)
    then (do
      buffer' ← unaligned_copy64 buffer (op - offset) op
      unaligned_copy64 buffer' (op - offset + 8) (op + 8))
    else if leb ((len + max_increment_copy_overflow) % 2 ^ 32) (length buffer - op)
    then incremental_copy_fast_path buffer (op - offset) op len
    else (do
      reject_if (ltb (length buffer - op) len) output_overrun
      incremental_copy buffer (op - offset) op len)

-- `SAW__AppendFromSelf`: `offset - 1u` wraps at 0.
unfoldable pub append_from_self : Writer → ℕ → ℕ → Outcome Writer
unfolding copy_within
append_from_self w offset len = do
  reject_if (leb w.op ((offset + (2 ^ 32 - 1)) % 2 ^ 32)) data_malformed
  buffer ← copy_within w.buffer w.op offset len
  ok (record { buffer = buffer; op = w.op + len })
