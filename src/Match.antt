-- ===== src/Match.antt =====
-- `FindMatchLength` of csnappy_compress.c: the interface that the compressor needs, and the
-- variants of the source. Positions are into one input buffer; `limit` is `s2_limit`.
pub mod Laws
pub mod Bytes
pub mod LowBytes
pub mod Long
pub mod Little
mod Runs
use csnappy.Common.{
  ℕ, zero, suc, ◌+◌, ◌≤◌, ◌<◌, ◌≡◌, ◌≢◌, ◌⊎◌, List, length, All, get_elem?, Option, some, none, ltb,
  leb, ◌==◌, if◌then◌else◌, bit_xor, ◌/◌, ◌^◌,
}
use csnappy.Common.Partial.{◌>>=◌}
use csnappy.Words.{load32, load64}
use csnappy.LowBit.{find_lsb_set_non_zero, find_lsb_set_non_zero64}

-- The `n` bytes from `s1` on are those from `s2` on.
abbrev pub Matches : List ℕ → ℕ → ℕ → ℕ → Type 0
Matches input s1 s2 zero = Unit
Matches input s1 s2 (suc n) =
    (get_elem? input s1 ≡ get_elem? input s2) × Matches input (suc s1) (suc s2) n

-- `n` is the number of bytes that match: none further does, or `limit` is reached.
pub record Longest (input : List ℕ) (s1 s2 limit n : ℕ) : Type 0 where
  pub within : s2 + n ≤ limit
  pub same : Matches input s1 s2 n
  pub stops : (s2 + n ≡ limit) ⊎ (get_elem? input (s1 + n) ≢ get_elem? input (s2 + n))

-- What the compressor asks of `FindMatchLength`: between a position and a later one it returns the
-- number of bytes that match, and reads nothing past `limit`.
pub record Matcher : Type 0 where
  pub find : List ℕ → ℕ → ℕ → ℕ → Option ℕ
  pub finds :
      (input : List ℕ) (s1 s2 limit : ℕ)
      → s1 < s2
      → s2 ≤ limit
      → limit ≤ length input
      → All (λ b. b < 256) input
      → (n : ℕ) × (find input s1 s2 limit ≡ some n) × Longest input s1 s2 limit n

-- `while ((s2 < s2_limit) && (s1[matched] == *s2)) { ++s2; ++matched; }`
unfoldable pub match_bytes : ℕ → List ℕ → ℕ → ℕ → ℕ → ℕ → Option ℕ
match_bytes zero input s1 s2 limit matched = none
match_bytes (suc fuel) input s1 s2 limit matched =
    let rest = match_bytes fuel input s1 (s2 + 1) limit (matched + 1) in
    if ltb s2 limit
    then (do
      a ← get_elem? input (s1 + matched)
      b ← get_elem? input s2
      if a == b then rest else some matched)
    else some matched

-- `while (s2 <= s2_limit - 4 && UNALIGNED_LOAD32(s2) == UNALIGNED_LOAD32(s1 + matched))`, and
-- then the bytes that are left, as on a big-endian machine.
unfoldable pub match_words : ℕ → List ℕ → ℕ → ℕ → ℕ → ℕ → Option ℕ
unfolding match_bytes
match_words zero input s1 s2 limit matched = none
match_words (suc fuel) input s1 s2 limit matched =
    let rest = match_words fuel input s1 (s2 + 4) limit (matched + 4) in
    let bytes = match_bytes (limit + 1) input s1 s2 limit matched in
    if leb (s2 + 4) limit
    then (do a ← load32 input s2; b ← load32 input (s1 + matched); if a == b then rest else bytes)
    else bytes

-- A round advances `s2`, so `limit + 1` rounds are enough.
unfoldable pub find_match_length : List ℕ → ℕ → ℕ → ℕ → Option ℕ
unfolding match_words
find_match_length input s1 s2 limit = match_words (limit + 1) input s1 s2 limit 0

-- What the little-endian machine of 32 bits does behind the loop over words: it counts the bytes
-- below the lowest bit of `UNALIGNED_LOAD32(s1 + matched) ^ UNALIGNED_LOAD32(s2)`.
unfoldable pub match_low_bits : List ℕ → ℕ → ℕ → ℕ → ℕ → Option ℕ
unfolding match_bytes
match_low_bits input s1 s2 limit matched =
    let bytes = match_bytes (limit + 1) input s1 s2 limit matched in
    if leb (s2 + 4) limit
    then (do
      a ← load32 input (s1 + matched)
      b ← load32 input s2
      some (matched + find_lsb_set_non_zero (bit_xor a b) / 2 ^ 3))
    else bytes

unfoldable pub match_words_little : ℕ → List ℕ → ℕ → ℕ → ℕ → ℕ → Option ℕ
unfolding match_low_bits
match_words_little zero input s1 s2 limit matched = none
match_words_little (suc fuel) input s1 s2 limit matched =
    let rest = match_words_little fuel input s1 (s2 + 4) limit (matched + 4) in
    let tail = match_low_bits input s1 s2 limit matched in
    if leb (s2 + 4) limit
    then (do a ← load32 input s2; b ← load32 input (s1 + matched); if a == b then rest else tail)
    else tail

unfoldable pub find_match_length_little : List ℕ → ℕ → ℕ → ℕ → Option ℕ
unfolding match_words_little
find_match_length_little input s1 s2 limit = match_words_little (limit + 1) input s1 s2 limit 0

-- The variant for x86-64 and aarch64: `while (s2 <= s2_limit - 8)`, and then the bytes that are left.
unfoldable pub match_long_words : ℕ → List ℕ → ℕ → ℕ → ℕ → ℕ → Option ℕ
unfolding match_bytes
match_long_words zero input s1 s2 limit matched = none
match_long_words (suc fuel) input s1 s2 limit matched =
    let rest = match_long_words fuel input s1 (s2 + 8) limit (matched + 8) in
    let bytes = match_bytes (limit + 1) input s1 s2 limit matched in
    if leb (s2 + 8) limit
    then (do
      a ← load64 input (s1 + matched)
      b ← load64 input s2
      if a == b then rest else some (matched + find_lsb_set_non_zero64 (bit_xor a b) / 2 ^ 3))
    else bytes

unfoldable pub find_match_length_long : List ℕ → ℕ → ℕ → ℕ → Option ℕ
unfolding match_long_words
find_match_length_long input s1 s2 limit = match_long_words (limit + 1) input s1 s2 limit 0
