-- ===== src/Varint.antt =====
-- The length header: `encode_varint32` of csnappy_compress.c and `csnappy_get_uncompressed_length`
-- of csnappy_decompress.c. A header is the list of its bytes, the first one first.
pub mod Group
pub mod Value
pub mod RoundTrip
mod Runs
use csnappy.Common.{
  ℕ, ◌+◌, ◌*◌, ◌/◌, ◌%◌, ◌^◌, bit_and, bit_or, Bool, List, [], ◌∷◌, ltb, leb, if◌then◌else◌,
}
use csnappy.Common.Outcome.{Outcome, ok, err, Status, header_bad}

-- `*(ptr++) = x`: a byte keeps the low eight bits.
abbrev pub byte : ℕ → ℕ
byte x = x % 256

-- `v | B` with `B` = 128.
abbrev pub more : ℕ → ℕ
more v = byte (bit_or v 128)

-- The bytes that `encode_varint32` writes at `sptr`; it returns `sptr` plus their number.
unfoldable pub encode_varint32 : ℕ → List ℕ
encode_varint32 v =
    if ltb v (2 ^ 7)
    then byte v ∷ []
    else if ltb v (2 ^ 14)
    then more v ∷ byte (v / 2 ^ 7) ∷ []
    else if ltb v (2 ^ 21)
    then more v ∷ more (v / 2 ^ 7) ∷ byte (v / 2 ^ 14) ∷ []
    else if ltb v (2 ^ 28)
    then more v ∷ more (v / 2 ^ 7) ∷ more (v / 2 ^ 14) ∷ byte (v / 2 ^ 21) ∷ []
    else more v ∷ more (v / 2 ^ 7) ∷ more (v / 2 ^ 14) ∷ more (v / 2 ^ 21) ∷ byte (v / 2 ^ 28) ∷ []

-- `result | (uint32_t)(c & 0x7f) << shift`
unfoldable pub add_group : ℕ → ℕ → ℕ → ℕ
add_group result c shift = bit_or result (bit_and c 0x7f * 2 ^ shift % 2 ^ 32)

-- The rounds of the loop over the bytes not yet read, after `count` bytes: the value returned, and
-- what `*result` holds then, on an error too.
unfoldable pub length_loop : List ℕ → ℕ → ℕ → ℕ → Outcome ℕ × ℕ
unfolding add_group
length_loop [] shift count result = (err header_bad, result)
length_loop (c ∷ src) shift count result =
    let result' = add_group result c shift in
    let next = length_loop src (shift + 7) (count + 1) result' in
    if leb 32 shift
    then (err header_bad, result)
    else if ltb c 128
    then (ok (count + 1), result')
    else next

-- `src` is the `src_len` bytes at the pointer.
unfoldable pub get_uncompressed_length : List ℕ → Outcome ℕ × ℕ
unfolding length_loop
get_uncompressed_length src = length_loop src 0 0 0
