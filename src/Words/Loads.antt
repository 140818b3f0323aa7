-- ===== src/Words/Loads.antt =====
-- What the loads return.
use csnappy.Common.{
  ℕ, zero, suc, ◌+◌, ◌^◌, ◌≤◌, ◌<◌, ◌≡◌, arith, refl, List, [], ◌∷◌, length, length-take,
  length-drop, drop, All, All-take, All-drop, some, get_elem?,
}
use mathlib.Core.Path.{ap₂}
use native.Mathlib.Nat.{pow-suc}
use csnappy.Words.{part, slice, le_value, load32, load64}

pub slice_lem :
    (input : List ℕ) (pos n : ℕ)
    → pos + n ≤ length input
    → slice input pos n ≡ some (part input pos n)
unfolding slice
slice_lem input pos n h = ground arith

pub length-part :
    (input : List ℕ) (pos len : ℕ) → pos + len ≤ length input → length (part input pos len) ≡ len
length-part input pos len h = omega (arith, length-take len (drop pos input), length-drop pos input)

pub part-IsByte :
    (input : List ℕ) (pos len : ℕ)
    → All (λ b. b < 256) input
    → All (λ b. b < 256) (part input pos len)
part-IsByte input pos len h = All-take _ len _ (All-drop _ pos input h)

-- Loads within the buffer succeed.
pub load32_lem :
    (input : List ℕ) (pos : ℕ)
    → pos + 4 ≤ length input
    → load32 input pos ≡ some (le_value (part input pos 4))
unfolding load32
load32_lem input pos h = rw (slice_lem input pos 4 h)

pub load64_lem :
    (input : List ℕ) (pos : ℕ)
    → pos + 8 ≤ length input
    → load64 input pos ≡ some (le_value (part input pos 8))
unfolding load64
load64_lem input pos h = rw (slice_lem input pos 8 h)

-- The bytes behind a place, spelled out.
pub drop_get :
    (input : List ℕ) (pos : ℕ)
    → pos < length input
    → (b : ℕ) × (get_elem? input pos ≡ some b) × (drop pos input ≡ b ∷ drop (suc pos) input)
drop_get [] pos h = absurd (omega arith)
drop_get (x ∷ xs) zero h = (x, refl, refl)
drop_get (x ∷ xs) (suc pos) h = drop_get xs pos (omega arith)

pub le_value-lt : (bytes : List ℕ) → All (λ b. b < 256) bytes → le_value bytes < 256 ^ length bytes
unfolding le_value
le_value-lt [] h = omega arith
le_value-lt (b ∷ bytes) h = omega (arith, le_value-lt bytes h.1, pow-suc 256 (length bytes))

-- Words of one size are equal only if their bytes are.
pub le_value-injective :
    (xs ys : List ℕ)
    → All (λ b. b < 256) xs
    → All (λ b. b < 256) ys
    → length xs ≡ length ys
    → le_value xs ≡ le_value ys
    → xs ≡ ys
unfolding le_value
le_value-injective [] [] hx hy l e = refl
le_value-injective [] (y ∷ ys) hx hy l e = absurd (omega arith)
le_value-injective (x ∷ xs) [] hx hy l e = absurd (omega arith)
le_value-injective (x ∷ xs) (y ∷ ys) hx hy l e =
    ap₂ ◌∷◌ (omega arith) (le_value-injective xs ys hx.1 hy.1 (omega arith) (omega arith))
