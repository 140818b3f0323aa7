-- ===== src/Format.antt =====
-- The format of a compressed block, apart from any code: the elements that a block is a sequence
-- of, how bytes spell an element, and what an element adds to the output. The decoders of
-- csnappy_decompress.c and the encoders of csnappy_compress.c are proved against it.
pub mod Laws
pub mod Copies
pub mod Parts
pub mod Consumes
pub mod Wrapped
use csnappy.Common.{
  ℕ, zero, suc, ◌+◌, ◌-◌, ◌*◌, ◌/◌, ◌%◌, ◌≤◌, ◌<◌, ◌≡◌, List, [], ◌∷◌, ◌++◌, length, get_elem?,
  Option, none, some, ltb, ◌==◌, if◌then◌else◌,
}

pub data Element : Type 0 where
  literal : List ℕ → Element
  copy : ℕ → ℕ → Element

-- An unsigned number of `n` bytes, the lowest first, and what follows it.
unfoldable pub field : ℕ → List ℕ → Option (ℕ × List ℕ)
field zero src = some (0, src)
field (suc n) [] = none
field (suc n) (b ∷ src) = elim (field n src) [
  | none ↦ none
  | some (v, rest) ↦ some (b + 256 * v, rest)
]

-- The first `n` bytes, and what follows them.
unfoldable pub split_at : ℕ → List ℕ → Option (List ℕ × List ℕ)
split_at zero src = some ([], src)
split_at (suc n) [] = none
split_at (suc n) (b ∷ src) = elim (split_at n src) [
  | none ↦ none
  | some (front, rest) ↦ some (b ∷ front, rest)
]

unfoldable pub literal_of : ℕ → List ℕ → Option (Element × List ℕ)
literal_of n src = elim (split_at n src) [
  | none ↦ none
  | some (bytes, rest) ↦ some (literal bytes, rest)
]

-- A literal of `m + 1` bytes: `m` stands in the tag if it is below 60, and else in the 1 to 4 bytes
-- that follow, whose number is `m - 59`.
unfoldable pub literal_element : ℕ → List ℕ → Option (Element × List ℕ)
unfolding literal_of field split_at
literal_element m src =
    if ltb m 60
    then literal_of (m + 1) src
    else elim (field (m - 59) src) [ none ↦ none | some (v, rest) ↦ literal_of (v + 1) rest ]

-- A copy whose offset is `high * 256` and the number of `n` bytes that follows.
unfoldable pub copy_element : ℕ → ℕ → ℕ → List ℕ → Option (Element × List ℕ)
unfolding field
copy_element len high n src = elim (field n src) [
  | none ↦ none
  | some (v, rest) ↦ some (copy (high * 256 + v) len, rest)
]

-- The element at the front of a block: the two low bits of the tag say its kind.
unfoldable pub element : List ℕ → Option (Element × List ℕ)
unfolding literal_element copy_element
element [] = none
element (tag ∷ src) =
    if tag % 4 == 0
    then literal_element (tag / 4) src
    else if tag % 4 == 1
    then copy_element (tag / 4 % 8 + 4) (tag / 32) 1 src
    else if tag % 4 == 2
    then copy_element (tag / 4 + 1) 0 2 src
    else copy_element (tag / 4 + 1) 0 4 src

-- `len` times: append the byte `offset` before the end.
unfoldable pub repeat_back : ℕ → ℕ → List ℕ → Option (List ℕ)
repeat_back zero offset out = some out
repeat_back (suc len) offset out = elim (get_elem? out (length out - offset)) [
  | none ↦ none
  | some b ↦ repeat_back len offset (out ++ (b ∷ []))
]

-- What an element makes of the output so far. An offset of 0 or before the start is refused.
unfoldable pub apply : Element → List ℕ → Option (List ℕ)
unfolding repeat_back
apply (literal bytes) out = some (out ++ bytes)
apply (copy offset len) out =
    if offset == 0
    then none
    else if ltb (length out) offset
    then none
    else repeat_back len offset out

-- A block takes the output so far, its second list, to `final`.
pub data Expands (final : List ℕ) : List ℕ → List ℕ → Type 0 where
  done : Expands final [] final
  next :
      {src rest out out' : List ℕ} (e : Element)
      → element src ≡ some (e, rest)
      → apply e out ≡ some out'
      → Expands final rest out'
      → Expands final src out
