-- ===== src/Words/Eight.antt =====
-- `GetUint32AtOffset(GetEightBytesAt(p), offset)` is `UNALIGNED_LOAD32(p + offset)`.
use csnappy.Common.{
  ℕ, zero, suc, ◌+◌, ◌*◌, ◌^◌, ◌≤◌, ◌<◌, ◌≡◌, arith, sym, ap, ◌∙◌, List, [], ◌∷◌, length, take,
  drop, take-drop-take, drop-drop, All, All-drop, some,
}
use csnappy.Words.{part, le_value, load32, load64, get_uint32_at_offset}
use csnappy.Words.Loads.{load32_lem, load64_lem, part-IsByte}
use native.Mathlib.Nat.{pow-suc, one-le-pow}

-- A number is its low bytes and its high bytes.
pub le_value-split :
    (k : ℕ) (xs : List ℕ) → le_value xs ≡ le_value (take k xs) + 256 ^ k * le_value (drop k xs)
unfolding le_value
le_value-split zero xs = omega arith
le_value-split (suc k) [] = omega arith
le_value-split (suc k) (x ∷ xs) =
    omega (arith, le_value-split k xs, ap (λ (t : ℕ). t * le_value (drop k xs)) (pow-suc 256 k))

pub le_value-take-lt :
    (k : ℕ) (xs : List ℕ) → All (λ b. b < 256) xs → le_value (take k xs) < 256 ^ k
unfolding le_value
le_value-take-lt zero xs h = omega arith
le_value-take-lt (suc k) [] h = omega (arith, one-le-pow (suc k) 256)
le_value-take-lt (suc k) (x ∷ xs) h = omega (arith, le_value-take-lt k xs h.1, pow-suc 256 k)

module _ (xs : List ℕ) (bytes : All (λ b. b < 256) xs) where
  word_lt : (k : ℕ) → le_value (take 4 (drop k xs)) < 2 ^ 32
  word_lt k = le_value-take-lt 4 (drop k xs) (All-drop (λ b. b < 256) k xs bytes)

  word_at : (k : ℕ) → k ≤ 4 → get_uint32_at_offset (le_value xs) k ≡ le_value (take 4 (drop k xs))
  unfolding get_uint32_at_offset
  word_at zero h = omega (arith, le_value-split 4 xs, word_lt 0)
  word_at (suc zero) h = omega (
    arith,
    le_value-split 1 xs,
    le_value-take-lt 1 xs bytes,
    le_value-split 4 (drop 1 xs),
    word_lt 1,
  )
  word_at (suc (suc zero)) h = omega (
    arith,
    le_value-split 2 xs,
    le_value-take-lt 2 xs bytes,
    le_value-split 4 (drop 2 xs),
    word_lt 2,
  )
  word_at (suc (suc (suc zero))) h = omega (
    arith,
    le_value-split 3 xs,
    le_value-take-lt 3 xs bytes,
    le_value-split 4 (drop 3 xs),
    word_lt 3,
  )
  word_at (suc (suc (suc (suc zero)))) h = omega (
    arith,
    le_value-split 4 xs,
    le_value-take-lt 4 xs bytes,
    le_value-split 4 (drop 4 xs),
    word_lt 4,
  )
  word_at (suc (suc (suc (suc (suc k))))) h = absurd (omega arith)

-- For an offset up to 4, the word taken out of the eight bytes at `pos`, inside an input of bytes, is
-- the word at `pos + offset`.
pub get_uint32_at_offset-load64 :
    (input : List ℕ) (pos offset v : ℕ)
    → offset ≤ 4
    → pos + 8 ≤ length input
    → All (λ b. b < 256) input
    → load64 input pos ≡ some v
    → load32 input (pos + offset) ≡ some (get_uint32_at_offset v offset)
get_uint32_at_offset-load64 input pos offset v h fits bytes e =
    load32_lem input (pos + offset) (omega arith) ∙ ap (λ (t : ℕ). some t) (sym same)
  where
    value : v ≡ le_value (part input pos 8)
    value = ground (arith, load64_lem input pos fits, e)

    same : get_uint32_at_offset v offset ≡ le_value (part input (pos + offset) 4)
    same =
        ap (λ (t : ℕ). get_uint32_at_offset t offset) value
        ∙ word_at (part input pos 8) (part-IsByte input pos 8 bytes) offset h
        ∙ ap le_value (
            take-drop-take 4 offset 8 (drop pos input) (omega arith)
            ∙ ap (take 4) (drop-drop offset pos input))
