-- ===== src/FastDecoder.antt =====
-- `csnappy_decompress_noheader` of csnappy_decompress.c for processors with unaligned access. A pointer
-- into the input is a position: `memory` is the buffer that `src` points into, the input and later
-- `scratch`. `end` is `end_minus5 + 5`, and `available` an `int` of 32 bits in two's complement.
pub mod Tags
pub mod Refill
pub mod Steps
pub mod Copies
pub mod Lengths
pub mod Literals
pub mod Elements
pub mod Verdict
pub mod Loop
pub mod Complete
mod Runs
use csnappy.Common.{
  ℕ, zero, suc, ◌+◌, ◌-◌, ◌/◌, ◌%◌, ◌^◌, List, length, get_elem?, Bool, true, false, ◌&&◌, Option,
  none, some, ltb, leb, ◌==◌, bit_and, if◌then◌else◌,
}
use csnappy.Common.Memory.{store}
use csnappy.Common.Outcome.{Outcome, ok, err, fault, ◌>>=◌, ◌>>◌, reject_if, access, data_malformed}
use csnappy.Words.{slice, get_unaligned_le}
use csnappy.Writer.{Writer, append, append_fast_path, append_from_self}
use csnappy.CharTable.{char_table}

pub record Reader : Type 0 where
  pub memory : List ℕ
  pub scratch : List ℕ
  pub src : ℕ
  pub end : ℕ

-- `src += n`
abbrev pub advance : Reader → ℕ → Reader
advance r n = record { memory = r.memory; scratch = r.scratch; src = r.src + n; end = r.end }

-- `available = end_minus5 + 5 - src`
unfoldable pub available : Reader → ℕ
available r = (r.end + (2 ^ 32 - r.src % 2 ^ 32)) % 2 ^ 32

-- `a < b` of two `int32_t`
unfoldable pub lt_int32 : ℕ → ℕ → Bool
lt_int32 a b = ltb ((a + 2 ^ 31) % 2 ^ 32) ((b + 2 ^ 31) % 2 ^ 32)

-- `LOOP_COND()`; `none` is the jump to `out`.
unfoldable pub loop_cond : Reader → Outcome (Option Reader)
unfolding available lt_int32 slice store
loop_cond r =
    if leb r.end (r.src + 5)
    then (if lt_int32 0 (available r)
        then (do
          moved ← access (slice r.memory r.src (available r))
          scratch ← store r.scratch 0 moved
          ok (some (record { memory = scratch; scratch = scratch; src = 0; end = available r })))
        else ok none)
    else ok (some r)

-- The branch of a copy; `src` is behind the tag.
unfoldable pub decode_copy : Reader → Writer → ℕ → Outcome (Reader × Writer)
unfolding get_unaligned_le append_from_self
decode_copy r w opcode = do
  opword ← access (get_elem? char_table opcode)
  let extra_bytes = opword / 2 ^ 11
  trailer ← access (get_unaligned_le r.memory r.src extra_bytes)
  w' ← append_from_self w ((trailer + bit_and opword 0x700) % 2 ^ 32) (bit_and opword 0xff)
  ok (advance r extra_bytes, w')

-- The length of a literal, and the reader behind it.
unfoldable pub literal_length : Reader → ℕ → Outcome (ℕ × Reader)
unfolding get_unaligned_le
literal_length r len =
    if ltb 60 len
    then (do
      let extra_bytes = len - 60
      n ← access (get_unaligned_le r.memory r.src extra_bytes)
      ok ((n + 1) % 2 ^ 32, advance r extra_bytes))
    else ok (len, r)

-- The check and the copy, once the length is known.
unfoldable pub finish_literal : Reader → Writer → ℕ → Outcome (Reader × Writer)
unfolding available lt_int32 append
finish_literal r w len = do
  reject_if (lt_int32 (available r) len) data_malformed
  w' ← append w r.memory r.src len
  ok (advance r len, w')

unfoldable pub decode_literal : Reader → Writer → ℕ → Outcome (Reader × Writer)
unfolding available lt_int32 append_fast_path literal_length finish_literal
decode_literal r w len =
    if leb len 16 && (if lt_int32 (available r) 16 then false else true)
    then (do w' ← append_fast_path w r.memory r.src len; ok (advance r len, w'))
    else (do (n, r') ← literal_length r len; finish_literal r' w n)

-- One element, from its tag on.
unfoldable pub decode_element : Reader → Writer → Outcome (Reader × Writer)
unfolding decode_copy decode_literal
decode_element r w = do
  opcode ← access (get_elem? r.memory r.src)
  (if bit_and opcode 3 == 0
      then decode_literal (advance r 1) w (opcode / 2 ^ 2 + 1)
      else decode_copy (advance r 1) w opcode)

-- `LOOP_COND(); for (;;) { … LOOP_COND(); }`
unfoldable pub decode_loop : ℕ → Reader → Writer → Outcome Writer
unfolding loop_cond decode_element
decode_loop zero r w = fault
decode_loop (suc fuel) r w = do
  next ← loop_cond r
  elim next [
    | none ↦ ok w
    | some here ↦ (do (r', w') ← decode_element here w; decode_loop fuel r' w')
  ]

-- `scratch` and `dst` are the contents of the two arrays at the start, and `*dst_len` is the length of
-- `dst`. A round takes a byte from the input at least, and the last one finds none.
unfoldable pub decompress_noheader : List ℕ → List ℕ → List ℕ → Outcome Writer
unfolding decode_loop
decompress_noheader scratch src dst =
    decode_loop (length src + 1)
      (record { memory = src; scratch = scratch; src = 0; end = length src })
      (record { buffer = dst; op = 0 })
