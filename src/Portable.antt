-- ===== src/Portable.antt =====
-- The part of csnappy_internal_userspace.h for machines without unaligned access, or with another byte
-- order: loads and stores by single bytes, the swaps of bytes, and what the library builds of them. A
-- read outside the memory is `none`, and a write outside is a fault.
pub mod Fields
pub mod Swaps
pub mod Loads
pub mod Stores
pub mod Masks
mod Runs
use csnappy.Common.{
  ℕ, ◌+◌, ◌-◌, ◌*◌, ◌/◌, ◌%◌, ◌^◌, List, [], ◌∷◌, get_elem?, Option, some, bit_and, bit_or, ltb,
}
use csnappy.Common.Memory.{store}
use csnappy.Common.Outcome.{Outcome}
use csnappy.Common.Partial.{◌>>=◌, ◌>>◌, guard}
use csnappy.Words.{load32}

-- `a << 8 | b`, and the same for four and eight bytes.
unfoldable pub join16 : ℕ → ℕ → ℕ
join16 a b = bit_or (a * 2 ^ 8) b

unfoldable pub join32 : ℕ → ℕ → ℕ → ℕ → ℕ
join32 a b c d = bit_or (bit_or (bit_or (a * 2 ^ 24) (b * 2 ^ 16)) (c * 2 ^ 8)) d

unfoldable pub join64 : ℕ → ℕ → ℕ → ℕ → ℕ → ℕ → ℕ → ℕ → ℕ
join64 a b c d e f g h =
    bit_or
      (bit_or
        (bit_or
          (bit_or (bit_or (bit_or (bit_or (a * 2 ^ 56) (b * 2 ^ 48)) (c * 2 ^ 40)) (d * 2 ^ 32))
            (e * 2 ^ 24))
          (f * 2 ^ 16))
        (g * 2 ^ 8))
      h

-- The loads of a big-endian machine.
unfoldable pub load16_be : List ℕ → ℕ → Option ℕ
unfolding join16
load16_be memory p = do a ← get_elem? memory p; b ← get_elem? memory (p + 1); some (join16 a b)

unfoldable pub load32_be : List ℕ → ℕ → Option ℕ
unfolding join32
load32_be memory p = do
  a ← get_elem? memory p
  b ← get_elem? memory (p + 1)
  c ← get_elem? memory (p + 2)
  d ← get_elem? memory (p + 3)
  some (join32 a b c d)

-- The byte at 5 stands in the place of the one at 6 too.
unfoldable pub load64_be : List ℕ → ℕ → Option ℕ
unfolding join64
load64_be memory p = do
  a ← get_elem? memory p
  b ← get_elem? memory (p + 1)
  c ← get_elem? memory (p + 2)
  d ← get_elem? memory (p + 3)
  e ← get_elem? memory (p + 4)
  f ← get_elem? memory (p + 5)
  g ← get_elem? memory (p + 5)
  h ← get_elem? memory (p + 7)
  some (join64 a b c d e f g h)

-- The loads of a little-endian machine of 32 and 64 bits. That of 16 bits does not compile.
unfoldable pub load32_le : List ℕ → ℕ → Option ℕ
unfolding join32
load32_le memory p = do
  d ← get_elem? memory (p + 3)
  c ← get_elem? memory (p + 2)
  b ← get_elem? memory (p + 1)
  a ← get_elem? memory p
  some (join32 d c b a)

unfoldable pub load64_le : List ℕ → ℕ → Option ℕ
unfolding join64
load64_le memory p = do
  h ← get_elem? memory (p + 7)
  g ← get_elem? memory (p + 6)
  f ← get_elem? memory (p + 5)
  e ← get_elem? memory (p + 4)
  d ← get_elem? memory (p + 3)
  c ← get_elem? memory (p + 2)
  b ← get_elem? memory (p + 1)
  a ← get_elem? memory p
  some (join64 h g f e d c b a)

-- The bytes of a word, the highest first.
unfoldable pub bytes16 : ℕ → List ℕ
bytes16 v = bit_and v 0xff00 / 2 ^ 8 ∷ bit_and v 0x00ff ∷ []

unfoldable pub bytes32 : ℕ → List ℕ
bytes32 v =
    bit_and v 0xff00_0000 / 2 ^ 24
    ∷ bit_and v 0x00ff_0000 / 2 ^ 16
    ∷ bit_and v 0x0000_ff00 / 2 ^ 8
    ∷ bit_and v 0x0000_00ff
    ∷ []

unfoldable pub bytes64 : ℕ → List ℕ
bytes64 v =
    bit_and v 0xff00_0000_0000_0000 / 2 ^ 56
    ∷ bit_and v 0x00ff_0000_0000_0000 / 2 ^ 48
    ∷ bit_and v 0x0000_ff00_0000_0000 / 2 ^ 40
    ∷ bit_and v 0x0000_00ff_0000_0000 / 2 ^ 32
    ∷ bit_and v 0x0000_0000_ff00_0000 / 2 ^ 24
    ∷ bit_and v 0x0000_0000_00ff_0000 / 2 ^ 16
    ∷ bit_and v 0x0000_0000_0000_ff00 / 2 ^ 8
    ∷ bit_and v 0x0000_0000_0000_00ff
    ∷ []

-- The lowest first.
unfoldable pub low_bytes16 : ℕ → List ℕ
low_bytes16 v = bit_and v 0x00ff ∷ bit_and v 0xff00 / 2 ^ 8 ∷ []

unfoldable pub low_bytes32 : ℕ → List ℕ
low_bytes32 v =
    bit_and v 0x0000_00ff
    ∷ bit_and v 0x0000_ff00 / 2 ^ 8
    ∷ bit_and v 0x00ff_0000 / 2 ^ 16
    ∷ bit_and v 0xff00_0000 / 2 ^ 24
    ∷ []

unfoldable pub low_bytes64 : ℕ → List ℕ
low_bytes64 v =
    bit_and v 0x0000_0000_0000_00ff
    ∷ bit_and v 0x0000_0000_0000_ff00 / 2 ^ 8
    ∷ bit_and v 0x0000_0000_00ff_0000 / 2 ^ 16
    ∷ bit_and v 0x0000_0000_ff00_0000 / 2 ^ 24
    ∷ bit_and v 0x0000_00ff_0000_0000 / 2 ^ 32
    ∷ bit_and v 0x0000_ff00_0000_0000 / 2 ^ 40
    ∷ bit_and v 0x00ff_0000_0000_0000 / 2 ^ 48
    ∷ bit_and v 0xff00_0000_0000_0000 / 2 ^ 56
    ∷ []

-- The stores of a big-endian machine, and those of a little-endian one.
unfoldable pub store16_be : List ℕ → ℕ → ℕ → Outcome (List ℕ)
store16_be memory p v = store memory p (bytes16 v)

unfoldable pub store32_be : List ℕ → ℕ → ℕ → Outcome (List ℕ)
store32_be memory p v = store memory p (bytes32 v)

unfoldable pub store64_be : List ℕ → ℕ → ℕ → Outcome (List ℕ)
store64_be memory p v = store memory p (bytes64 v)

unfoldable pub store16_le : List ℕ → ℕ → ℕ → Outcome (List ℕ)
store16_le memory p v = store memory p (low_bytes16 v)

unfoldable pub store32_le : List ℕ → ℕ → ℕ → Outcome (List ℕ)
store32_le memory p v = store memory p (low_bytes32 v)

unfoldable pub store64_le : List ℕ → ℕ → ℕ → Outcome (List ℕ)
store64_le memory p v = store memory p (low_bytes64 v)

-- `bswap_16`, `bswap_32`, `bswap_64`; the casts cut the argument off.
unfoldable pub bswap_16 : ℕ → ℕ
bswap_16 x = bit_or (bit_and (x % 2 ^ 16) 0xff00 / 2 ^ 8) (bit_and (x % 2 ^ 16) 0x00ff * 2 ^ 8)

unfoldable pub bswap_32 : ℕ → ℕ
bswap_32 x =
    let y = x % 2 ^ 32 in
    bit_or
      (bit_or (bit_or (bit_and y 0xff00_0000 / 2 ^ 24) (bit_and y 0x00ff_0000 / 2 ^ 8))
        (bit_and y 0x0000_ff00 * 2 ^ 8))
      (bit_and y 0x0000_00ff * 2 ^ 24)

unfoldable pub bswap_64 : ℕ → ℕ
bswap_64 x =
    let y = x % 2 ^ 64 in
    bit_or
      (bit_or
        (bit_or
          (bit_or
            (bit_or
              (bit_or
                (bit_or (bit_and y 0xff00_0000_0000_0000 / 2 ^ 56)
                  (bit_and y 0x00ff_0000_0000_0000 / 2 ^ 40))
                (bit_and y 0x0000_ff00_0000_0000 / 2 ^ 24))
              (bit_and y 0x0000_00ff_0000_0000 / 2 ^ 8))
            (bit_and y 0x0000_0000_ff00_0000 * 2 ^ 8))
          (bit_and y 0x0000_0000_00ff_0000 * 2 ^ 24))
        (bit_and y 0x0000_0000_0000_ff00 * 2 ^ 40))
      (bit_and y 0x0000_0000_0000_00ff * 2 ^ 56)

-- `get_unaligned_le32` on a big-endian machine, and where the byte order is another; there the sum of
-- `int`s is converted to `uint32_t`.
unfoldable pub get_le32_be : List ℕ → ℕ → Option ℕ
unfolding load32_be bswap_32
get_le32_be memory p = do v ← load32_be memory p; some (bswap_32 v)

unfoldable pub get_le32_bytes : List ℕ → ℕ → Option ℕ
get_le32_bytes memory p = do
  a ← get_elem? memory p
  b ← get_elem? memory (p + 1)
  c ← get_elem? memory (p + 2)
  d ← get_elem? memory (p + 3)
  some (bit_or (bit_or (bit_or a (b * 2 ^ 8)) (c * 2 ^ 16)) (d * 2 ^ 24) % 2 ^ 32)

-- `put_unaligned_le16` in the same two cases; the second writes two bytes, one after the other.
unfoldable pub put_le16_be : ℕ → List ℕ → ℕ → Outcome (List ℕ)
unfolding store16_be bswap_16
put_le16_be val memory p = store16_be memory p (bswap_16 val)

unfoldable pub put_le16_bytes : ℕ → List ℕ → ℕ → Outcome (List ℕ)
unfolding store
put_le16_bytes val memory p = store memory p (bit_and val 255 ∷ val / 2 ^ 8 % 2 ^ 8 ∷ [])

-- `get_unaligned_le` for ARM with unaligned access. To shift 32 bits by 32 has no meaning in C.
unfoldable pub get_unaligned_le_arm : List ℕ → ℕ → ℕ → Option ℕ
unfolding load32
get_unaligned_le_arm memory pos n = do
  guard (ltb (8 * n) 32)
  word ← load32 memory pos
  some (bit_and word (2 ^ (8 * n) - 1))
