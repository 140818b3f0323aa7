-- ===== src/Common/Memory.antt =====
-- A buffer of fixed length: blocks of bytes are stored into it, and an access outside is a fault.
use Prim.Native.Nat.{ℕ, zero, suc, ◌+◌, ◌≤◌, ◌<◌}
use mathlib.Core.Path.{◌≡◌, refl, sym, ap, ◌∙◌}
use mathlib.Core.List.{List, [], ◌∷◌, ◌++◌}
use mathlib.Core.Option.{some}
use native.Mathlib.Omega.{arith}
use csnappy.Common.Tests.{leb, le→leb}
use csnappy.Common.Lists.{
  length, get_elem?, take, take-take, drop, length-append, length-take, length-drop,
}
use csnappy.Common.Outcome.{Outcome, ok, ◌>>◌, allow_if}

abbrev pub write_at : List ℕ → ℕ → List ℕ → List ℕ
write_at buffer at chunk = take at buffer ++ (chunk ++ drop (at + length chunk) buffer)

unfoldable pub store : List ℕ → ℕ → List ℕ → Outcome (List ℕ)
store buffer at chunk = do
  allow_if (leb (at + length chunk) (length buffer))
  ok (write_at buffer at chunk)

pub store_lem :
    (buffer : List ℕ) (at : ℕ) (chunk : List ℕ)
    → at + length chunk ≤ length buffer
    → store buffer at chunk ≡ ok (write_at buffer at chunk)
unfolding store
store_lem buffer at chunk h = rw (le→leb (at + length chunk) (length buffer) h) refl

pub length-write_at :
    (buffer : List ℕ) (at : ℕ) (chunk : List ℕ)
    → at + length chunk ≤ length buffer
    → length (write_at buffer at chunk) ≡ length buffer
length-write_at buffer at chunk h = omega (
  arith,
  length-append (take at buffer) (chunk ++ drop (at + length chunk) buffer),
  length-append chunk (drop (at + length chunk) buffer),
  length-take at buffer,
  length-drop (at + length chunk) buffer,
)

-- What stands before the block is kept.
pub take_front : (n : ℕ) (xs ys : List ℕ) → n ≤ length xs → take n (xs ++ ys) ≡ take n xs
take_front zero xs ys h = refl
take_front (suc n) [] ys h = absurd (omega arith)
take_front (suc n) (x ∷ xs) ys h = ap (λ (t : List ℕ). x ∷ t) (take_front n xs ys (omega arith))

pub take_both : (n : ℕ) (xs ys : List ℕ) → take (length xs + n) (xs ++ ys) ≡ xs ++ take n ys
take_both n [] ys = let e : 0 + n ≡ n = omega arith in ap (λ (t : ℕ). take t ys) e
take_both n (x ∷ xs) ys =
    let e : suc (length xs) + n ≡ suc (length xs + n) = omega arith in
    ap (λ (t : ℕ). take t (x ∷ (xs ++ ys))) e ∙ ap (λ (t : List ℕ). x ∷ t) (take_both n xs ys)

pub take-write_at :
    (buffer : List ℕ) (n at : ℕ) (chunk : List ℕ)
    → n ≤ at
    → at ≤ length buffer
    → take n (write_at buffer at chunk) ≡ take n buffer
take-write_at buffer n at chunk h le =
    take_front n (take at buffer) _ (omega (arith, length-take at buffer)) ∙ take-take n at buffer h

-- The part up to the end of the block, or into it.
pub take-write_at_end :
    (buffer : List ℕ) (at n : ℕ) (chunk : List ℕ)
    → at ≤ length buffer
    → n ≤ length chunk
    → take (at + n) (write_at buffer at chunk) ≡ take at buffer ++ take n chunk
take-write_at_end buffer at n chunk le h =
    let e : length (take at buffer) + n ≡ at + n = omega (arith, length-take at buffer) in
    ap (λ (t : ℕ). take t (write_at buffer at chunk)) (sym e)
    ∙ take_both n (take at buffer) _
    ∙ ap (λ (t : List ℕ). take at buffer ++ t) (take_front n chunk _ h)

-- Single bytes.
pub get_elem?-append_left :
    (xs ys : List ℕ) (i : ℕ) → i < length xs → get_elem? (xs ++ ys) i ≡ get_elem? xs i
get_elem?-append_left [] ys i h = absurd (omega arith)
get_elem?-append_left (x ∷ xs) ys zero h = refl
get_elem?-append_left (x ∷ xs) ys (suc i) h = get_elem?-append_left xs ys i (omega arith)

pub get_elem?-append_right :
    (xs ys : List ℕ) (i : ℕ) → get_elem? (xs ++ ys) (length xs + i) ≡ get_elem? ys i
get_elem?-append_right [] ys i = let e : 0 + i ≡ i = omega arith in rw e
get_elem?-append_right (x ∷ xs) ys i =
    let e : suc (length xs) + i ≡ suc (length xs + i) = omega arith in
    rw e (get_elem?-append_right xs ys i)

pub get_elem?-take : (n i : ℕ) (xs : List ℕ) → i < n → get_elem? (take n xs) i ≡ get_elem? xs i
get_elem?-take zero i xs h = absurd (omega arith)
get_elem?-take (suc n) i [] h = refl
get_elem?-take (suc n) zero (x ∷ xs) h = refl
get_elem?-take (suc n) (suc i) (x ∷ xs) h = get_elem?-take n i xs (omega arith)

pub get_elem?-drop : (s j : ℕ) (xs : List ℕ) → get_elem? (drop s xs) j ≡ get_elem? xs (s + j)
get_elem?-drop zero j xs = let e : j ≡ zero + j = omega arith in ap (get_elem? xs) e
get_elem?-drop (suc s) j [] = refl
get_elem?-drop (suc s) j (x ∷ xs) =
    let e : suc (s + j) ≡ suc s + j = omega arith in
    get_elem?-drop s j xs ∙ ap (get_elem? (x ∷ xs)) e

pub get_elem?-write_before :
    (buffer : List ℕ) (at i : ℕ) (chunk : List ℕ)
    → i < at
    → at ≤ length buffer
    → get_elem? (write_at buffer at chunk) i ≡ get_elem? buffer i
get_elem?-write_before buffer at i chunk h le =
    get_elem?-append_left (take at buffer) _ i (omega (arith, length-take at buffer))
    ∙ get_elem?-take at i buffer h

pub get_elem?-write_inside :
    (buffer : List ℕ) (at i : ℕ) (chunk : List ℕ)
    → i < length chunk
    → at ≤ length buffer
    → get_elem? (write_at buffer at chunk) (at + i) ≡ get_elem? chunk i
get_elem?-write_inside buffer at i chunk h le =
    let e : length (take at buffer) + i ≡ at + i = omega (arith, length-take at buffer) in
    ap (get_elem? (write_at buffer at chunk)) (sym e)
    ∙ get_elem?-append_right (take at buffer) _ i
    ∙ get_elem?-append_left chunk _ i h

pub get_elem?-lt : (xs : List ℕ) (i : ℕ) → i < length xs → (b : ℕ) × (get_elem? xs i ≡ some b)
get_elem?-lt [] i h = absurd (omega arith)
get_elem?-lt (x ∷ xs) zero h = (x, refl)
get_elem?-lt (x ∷ xs) (suc i) h = get_elem?-lt xs i (omega arith)
