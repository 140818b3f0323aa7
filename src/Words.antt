-- ===== src/Words.antt =====
-- Reads of the input buffer: `memcpy`'s source, the potentially unaligned loads of
-- csnappy_internal_userspace.h on a little-endian machine, and the pair `GetEightBytesAt`,
-- `GetUint32AtOffset` of csnappy_compress.c. `none` is a read outside the buffer.
pub mod Loads
pub mod Eight
pub mod Masked
mod Runs
use csnappy.Common.{
  ℕ, ◌+◌, ◌*◌, ◌/◌, ◌%◌, ◌^◌, List, [], ◌∷◌, length, take, drop, Option, some, none, leb,
  if◌then◌else◌, get_elem?, bit_and,
}
use csnappy.Common.Partial.{◌>>=◌}

-- The `n` bytes from `pos` on.
abbrev pub part : List ℕ → ℕ → ℕ → List ℕ
part input pos n = take n (drop pos input)

-- They are there if the buffer reaches that far.
unfoldable pub slice : List ℕ → ℕ → ℕ → Option (List ℕ)
slice input pos n = if leb (pos + n) (length input) then some (part input pos n) else none

-- A word in memory, its lowest byte first.
unfoldable pub le_value : List ℕ → ℕ
le_value [] = 0
le_value (b ∷ bytes) = b + 256 * le_value bytes

-- `UNALIGNED_LOAD32(p)`, `UNALIGNED_LOAD64(p)`
unfoldable pub load32 : List ℕ → ℕ → Option ℕ
unfolding slice le_value
load32 input pos = do bytes ← slice input pos 4; some (le_value bytes)

unfoldable pub load64 : List ℕ → ℕ → Option ℕ
unfolding slice le_value
load64 input pos = do bytes ← slice input pos 8; some (le_value bytes)

-- `return v >> (8 * offset);`, cut to 32 bits by the return type.
unfoldable pub get_uint32_at_offset : ℕ → ℕ → ℕ
get_uint32_at_offset v offset = v / 2 ^ (8 * offset) % 2 ^ 32

-- `get_unaligned_le` of csnappy_internal.h: the low `n` of the four bytes at `pos`.
abbrev pub wordmask : List ℕ
wordmask = 0 ∷ 0xff ∷ 0xffff ∷ 0xff_ffff ∷ 0xffff_ffff ∷ []

unfoldable pub get_unaligned_le : List ℕ → ℕ → ℕ → Option ℕ
unfolding load32
get_unaligned_le memory pos n = do
  word ← load32 memory pos
  mask ← get_elem? wordmask n
  some (bit_and word mask)
