-- ===== src/SimpleEmit.antt =====
-- The emitters of the simple compressor of csnappy_compress.c, for ARM without unaligned access. They
-- write the output of the others, `Emit.Out`, without a fast path.
pub mod Same
mod Runs
use csnappy.Common.{
  ℕ, zero, suc, ◌+◌, ◌-◌, ◌*◌, ◌/◌, ◌^◌, bit_and, bit_or, List, length, ◌&&◌, Option, none, some,
  ltb, leb, ◌==◌, if◌then◌else◌,
}
use csnappy.Common.Partial.{◌>>=◌}
use csnappy.Emit.{Out, put, skip, put_at, put_slice}

-- `do { *op++ = n & 0xff; n >>= 8; } while (n > 0);`, with the number of rounds.
unfoldable pub put_rounds : ℕ → Out → ℕ → ℕ → Option (Out × ℕ)
unfolding put
put_rounds zero out n count = none
put_rounds (suc fuel) out n count =
    let rest = put_rounds fuel (put out (bit_and n 0xff)) (n / 2 ^ 8) (count + 1) in
    if ltb 0 (n / 2 ^ 8) then rest else some (put out (bit_and n 0xff), count + 1)

-- A `uint32_t` has four bytes. `input` is the buffer that `src` is into, at `pos`.
unfoldable pub emit_literal : List ℕ → Out → ℕ → ℕ → Option Out
unfolding put skip put_at put_slice put_rounds
emit_literal input out pos len =
    let n = len - 1 in
    if len == 0
    then some out
    else if ltb n 60
    then put_slice input (put out (bit_or 0 (n * 2 ^ 2))) pos len
    else (do
      (out', count) ← put_rounds 4 (skip out) n 0
      put_slice input (put_at out' (length out.bytes) (bit_or 0 ((59 + count) * 2 ^ 2))) pos len)

-- A copy with two bytes of offset.
unfoldable pub put_copy : Out → ℕ → ℕ → Out
unfolding put
put_copy out offset len =
    put (put (put out (bit_or 2 ((len - 1) * 2 ^ 2))) (bit_and offset 255)) (offset / 2 ^ 8)

-- `while (len >= 68) { … }`, with what is left of `len`.
unfoldable pub put_copies : ℕ → Out → ℕ → ℕ → Option (Out × ℕ)
put_copies zero out offset len = none
put_copies (suc fuel) out offset len =
    let rest = put_copies fuel (put_copy out offset 64) offset (len - 64) in
    if leb 68 len then rest else some (out, len)

-- The last element.
unfoldable pub put_remainder : Out → ℕ → ℕ → Out
unfolding put put_copy
put_remainder out offset len =
    if ltb len 12 && ltb offset 2048
    then put (put out (bit_or (bit_or 1 ((len - 4) * 2 ^ 2)) (offset / 2 ^ 8 * 2 ^ 5)))
        (bit_and offset 0xff)
    else put_copy out offset len

-- `len` is 4 at least; a round takes 64 from it.
unfoldable pub emit_copy : Out → ℕ → ℕ → Option Out
unfolding put_copies
emit_copy out offset len = do
  (out', len') ← put_copies (len + 1) out offset len
  some (
      if ltb 64 len'
      then put_remainder (put_copy out' offset 60) offset (len' - 60)
      else put_remainder out' offset len')
