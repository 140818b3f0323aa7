-- ===== src/Emit.antt =====
-- The emitters of csnappy_compress.c: `EmitLiteral`, `EmitCopyLessThan64` and `EmitCopy`.
pub mod Length
pub mod Literal
pub mod LongLiteral
pub mod Copy
pub mod Copied
pub mod LongCopy
mod Runs
use csnappy.Common.{
  ℕ, zero, suc, ◌+◌, ◌-◌, ◌*◌, ◌/◌, ◌%◌, ◌^◌, max, bit_and, bit_or, List, [], ◌∷◌, ◌++◌, length,
  take, drop, set, Bool, ◌&&◌, Option, none, some, ltb, leb, ◌==◌, if◌then◌else◌,
}
use csnappy.Words.{slice}
use csnappy.Common.Partial.{◌>>=◌, ◌>>◌, guard}

-- The output buffer. `bytes` stands between the start of the buffer and `op`; `reach` is how far
-- from the start a byte was written, which a fast path takes past `op`. What lies past `op` is
-- written again before it counts, and the compressor never reads the buffer.
pub record Out : Type 0 where
  pub bytes : List ℕ
  pub reach : ℕ

-- `*op++ = b`
unfoldable pub put : Out → ℕ → Out
put out b = record {
  bytes = out.bytes ++ (b % 256 ∷ []);
  reach = max out.reach (length out.bytes + 1);
}

-- `op++`: the byte has no value yet.
unfoldable pub skip : Out → Out
skip out = record out { bytes = out.bytes ++ (0 ∷ []) }

-- `*base = b`, for a `base` before `op`.
unfoldable pub put_at : Out → ℕ → ℕ → Out
put_at out base b = record {
  bytes = set out.bytes base (b % 256);
  reach = max out.reach (base + 1);
}

-- `memcpy(op, literal, len); return op + len;`
unfoldable pub put_slice : List ℕ → Out → ℕ → ℕ → Option Out
unfolding slice
put_slice input out pos len = do
  chunk ← slice input pos len
  some (record { bytes = out.bytes ++ chunk; reach = max out.reach (length out.bytes + len) })

-- `UnalignedCopy64(literal, op); UnalignedCopy64(literal + 8, op + 8); return op + len;`
unfoldable pub put_sixteen : List ℕ → Out → ℕ → ℕ → Option Out
unfolding slice
put_sixteen input out pos len = do
  block ← slice input pos 16
  some (record {
    bytes = out.bytes ++ take len block;
    reach = max out.reach (length out.bytes + 16);
  })

-- `while (n > 0) { *op++ = n & 0xff; n >>= 8; count++; }`
unfoldable pub put_length : ℕ → Out → ℕ → ℕ → Option (Out × ℕ)
unfolding put
put_length zero out n count = if n == 0 then some (out, count) else none
put_length (suc fuel) out n count =
    let rest = put_length fuel (put out (bit_and n 0xff)) (n / 2 ^ 8) (count + 1) in
    if n == 0 then some (out, count) else rest

-- An `int` has four bytes, so `put_length` takes four rounds at most. `input` is the buffer that
-- the pointer `literal` is into, at `pos`.
unfoldable pub emit_literal : List ℕ → Out → ℕ → ℕ → Bool → Option Out
unfolding put skip put_at put_slice put_sixteen put_length
emit_literal input out pos len allow_fast_path =
    let n = len - 1 in
    if ltb n 60
    then (let out' = put out (bit_or 0 (n * 2 ^ 2)) in
        if allow_fast_path && leb len 16
        then put_sixteen input out' pos len
        else put_slice input out' pos len)
    else (do
      (out', count) ← put_length 4 (skip out) n 0
      put_slice input (put_at out' (length out.bytes) (bit_or 0 ((59 + count) * 2 ^ 2))) pos len)

-- `put_unaligned_le16(offset, op)`
unfoldable pub put_le16 : Out → ℕ → Out
unfolding put
put_le16 out v = put (put out v) (v / 2 ^ 8)

unfoldable pub emit_copy_less_than64 : Out → ℕ → ℕ → Out
unfolding put put_le16
emit_copy_less_than64 out offset len =
    if ltb len 12 && ltb offset 2048
    then put (put out (1 + (len - 4) * 2 ^ 2 + offset / 2 ^ 8 * 2 ^ 5)) (bit_and offset 0xff)
    else put_le16 (put out (2 + (len - 1) * 2 ^ 2)) offset

-- `while (len >= 68) { … }`, with what is left of `len`.
unfoldable pub emit_copies : ℕ → Out → ℕ → ℕ → Option (Out × ℕ)
unfolding emit_copy_less_than64
emit_copies zero out offset len = none
emit_copies (suc fuel) out offset len =
    let rest = emit_copies fuel (emit_copy_less_than64 out offset 64) offset (len - 64) in
    if leb 68 len then rest else some (out, len)

-- A round takes 64 from `len`, so `len + 1` rounds are enough.
unfoldable pub emit_copy : Out → ℕ → ℕ → Option Out
unfolding emit_copies emit_copy_less_than64
emit_copy out offset len = do
  (out', len') ← emit_copies (len + 1) out offset len
  some (
      if ltb 64 len'
      then emit_copy_less_than64 (emit_copy_less_than64 out' offset 60) offset (len' - 60)
      else emit_copy_less_than64 out' offset len')
