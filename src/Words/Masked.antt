-- ===== src/Words/Masked.antt =====
-- The masked load of csnappy_internal.h is the number that the format says.
use csnappy.Common.{
  ℕ, zero, suc, ◌+◌, ◌-◌, ◌*◌, ◌^◌, ◌%◌, ◌≤◌, ◌<◌, ◌≡◌, arith, refl, ap, ◌∙◌, List, take-take, drop,
  length, All, All-drop, some, get_elem?, bit_and,
}
use csnappy.Common.Bits.{bit_and_low}
use csnappy.Words.{part, le_value, wordmask, get_unaligned_le}
use csnappy.Words.Loads.{load32_lem}
use csnappy.Words.Eight.{le_value-split, le_value-take-lt}
use native.Mathlib.Nat.{add-mul-mod_self_left, mod-eq_of_lt}

wordmask_lem : (n : ℕ) → n ≤ 4 → get_elem? wordmask n ≡ some (256 ^ n - 1)
wordmask_lem zero h = refl
wordmask_lem (suc zero) h = refl
wordmask_lem (suc (suc zero)) h = refl
wordmask_lem (suc (suc (suc zero))) h = refl
wordmask_lem (suc (suc (suc (suc zero)))) h = refl
wordmask_lem (suc (suc (suc (suc (suc n))))) h = absurd (omega arith)

bit_and-wordmask : (n w : ℕ) → n ≤ 4 → bit_and w (256 ^ n - 1) ≡ w % 256 ^ n
bit_and-wordmask zero w h = bit_and_low 0 w
bit_and-wordmask (suc zero) w h = bit_and_low 8 w
bit_and-wordmask (suc (suc zero)) w h = bit_and_low 16 w
bit_and-wordmask (suc (suc (suc zero))) w h = bit_and_low 24 w
bit_and-wordmask (suc (suc (suc (suc zero)))) w h = bit_and_low 32 w
bit_and-wordmask (suc (suc (suc (suc (suc n))))) w h = absurd (omega arith)

mod_split : (v p q : ℕ) → v < p → (v + p * q) % p ≡ v
mod_split v p q h = add-mul-mod_self_left v p q ∙ mod-eq_of_lt h

-- Inside a memory of bytes, with four bytes there, it reads the low bytes.
pub get_unaligned_le_lem :
    (memory : List ℕ) (pos n : ℕ)
    → All (λ b. b < 256) memory
    → pos + 4 ≤ length memory
    → n ≤ 4
    → get_unaligned_le memory pos n ≡ some (le_value (part memory pos n))
unfolding get_unaligned_le
get_unaligned_le_lem memory pos n bytes fits h =
    rw (load32_lem memory pos fits, wordmask_lem n h)
      (ap (λ (t : ℕ). some t) (bit_and-wordmask n word h ∙ low))
  where
    word : ℕ
    word = le_value (part memory pos 4)

    small : le_value (part memory pos n) < 256 ^ n
    small = le_value-take-lt n (drop pos memory) (All-drop _ pos memory bytes)

    low : le_value (part memory pos 4) % 256 ^ n ≡ le_value (part memory pos n)
    low =
        ap (λ (t : ℕ). t % 256 ^ n)
          (le_value-split n (part memory pos 4)
            ∙ ap (λ (t : List ℕ). le_value t + 256 ^ n * le_value (drop n (part memory pos 4)))
                (take-take n 4 (drop pos memory) h))
        ∙ mod_split (le_value (part memory pos n)) (256 ^ n) (le_value (drop n (part memory pos 4)))
            small
