-- ===== src/Format/Parts.antt =====
-- What it takes for the parts of an element to be there.
use csnappy.Common.{
  ℕ, zero, suc, ◌+◌, ◌-◌, ◌≤◌, ◌<◌, ◌≡◌, arith, refl, le→ltb, lt→ltb, List, [], ◌∷◌, ◌++◌, length,
  length-drop, take, drop, some, none,
}
use native.Mathlib.Decide.{dec_le}
use csnappy.Format.{Element, literal, field, split_at, literal_of, literal_element}
use csnappy.Words.{le_value}

-- A field is there if its bytes are, and it leaves the bytes behind it.
pub field_lem :
    (n : ℕ) (src : List ℕ) → n ≤ length src → field n src ≡ some (le_value (take n src), drop n src)
unfolding field le_value
field_lem zero src h = refl
field_lem (suc n) [] h = absurd (omega arith)
field_lem (suc n) (b ∷ src) h = rw (field_lem n src (omega arith)) refl

pub field-some :
    (n : ℕ) (src : List ℕ) → n ≤ length src → (v : ℕ) × (field n src ≡ some (v, drop n src))
field-some n src h = (le_value (take n src), field_lem n src h)

pub field-none : (n : ℕ) (src : List ℕ) → length src < n → field n src ≡ none
unfolding field
field-none zero src h = absurd (omega arith)
field-none (suc n) [] h = refl
field-none (suc n) (b ∷ src) h = rw (field-none n src (omega arith))

pub split_at_lem :
    (n : ℕ) (src : List ℕ) → n ≤ length src → split_at n src ≡ some (take n src, drop n src)
unfolding split_at
split_at_lem zero src h = refl
split_at_lem (suc n) [] h = absurd (omega arith)
split_at_lem (suc n) (b ∷ src) h = rw (split_at_lem n src (omega arith))

pub split_at-none : (n : ℕ) (src : List ℕ) → length src < n → split_at n src ≡ none
unfolding split_at
split_at-none zero src h = absurd (omega arith)
split_at-none (suc n) [] h = refl
split_at-none (suc n) (b ∷ src) h = rw (split_at-none n src (omega arith))

pub literal_of-some :
    (n : ℕ) (src : List ℕ) {e : Element} {rest : List ℕ}
    → literal_of n src ≡ some (e, rest)
    → (n ≤ length src) × (literal (take n src) ≡ e) × (drop n src ≡ rest)
unfolding literal_of
literal_of-some n src h = elim (dec_le n (length src)) [
  | yes le ↦ (le, ground (arith, split_at_lem n src le), ground (arith, split_at_lem n src le))
  | no lt ↦ absurd (ground (arith, split_at-none n src (omega arith)))
]

-- A length behind the tag is a field of 1 to 4 bytes.
pub long_some :
    (m : ℕ) (src : List ℕ) {e : Element} {rest : List ℕ}
    → 60 ≤ m
    → literal_element m src ≡ some (e, rest)
    → (v : ℕ) × (field (m - 59) src ≡ some (v, drop (m - 59) src))
      × (m - 59 ≤ length src)
      × (literal_of (v + 1) (drop (m - 59) src) ≡ some (e, rest))
unfolding literal_element
long_some m src long h = elim (dec_le (m - 59) (length src)) [
  | yes le ↦ (
    le_value (take (m - 59) src),
    field_lem (m - 59) src le,
    le,
    rw (field_lem (m - 59) src le) at (rw (le→ltb m 60 long) at h),
  )
  | no lt ↦ absurd (ground (arith, field-none (m - 59) src (omega arith)))
]

-- The bytes of a literal are there.
pub short_reach :
    (m : ℕ) (src : List ℕ) {e : Element} {rest : List ℕ}
    → m < 60
    → literal_element m src ≡ some (e, rest)
    → m + 1 ≤ length src
unfolding literal_element
short_reach m src short h = (literal_of-some (m + 1) src (rw (lt→ltb m 60 short) at h)).0

pub long_reach :
    (m : ℕ) (src : List ℕ) {e : Element} {rest : List ℕ}
    → 60 ≤ m
    → literal_element m src ≡ some (e, rest)
    → m - 59 + le_value (take (m - 59) src) + 1 ≤ length src
long_reach m src long h =
    let (v, f, le, l) = long_some m src long h in
    let same : le_value (take (m - 59) src) ≡ v = ground (arith, field_lem (m - 59) src le) in
    omega (arith, same, (literal_of-some (v + 1) (drop (m - 59) src) l).0, length-drop (m - 59) src)

-- A field of given bytes, whatever follows them.
pub field-append_given :
    (xs more : List ℕ) → field (length xs) (xs ++ more) ≡ some (le_value xs, more)
unfolding field le_value
field-append_given [] more = refl
field-append_given (x ∷ xs) more = rw (field-append_given xs more) refl

-- The same for the bytes of a literal.
split_at-append_given : (xs more : List ℕ) → split_at (length xs) (xs ++ more) ≡ some (xs, more)
unfolding split_at
split_at-append_given [] more = refl
split_at-append_given (x ∷ xs) more = rw (split_at-append_given xs more) refl

pub literal_of-given :
    (n : ℕ) (xs more : List ℕ) → length xs ≡ n → literal_of n (xs ++ more) ≡ some (literal xs, more)
unfolding literal_of
literal_of-given n xs more e = rw (literal_of, ← e, split_at-append_given xs more) refl
