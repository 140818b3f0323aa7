-- ===== src/Format/Laws.antt =====
-- Elements are read one after the other: what follows an element does not change it, and blocks
-- that are put behind one another expand one after the other.
use csnappy.Common.{
  ℕ, zero, suc, ◌+◌, ◌-◌, ◌/◌, ◌%◌, ◌≡◌, arith, List, [], ◌∷◌, ◌++◌, some, Option-cases, inl, inr,
}
use csnappy.Format.{
  Element, field, split_at, literal_of, literal_element, copy_element, element, apply, Expands,
  done, next,
}

pub field-append :
    (n : ℕ) (src more : List ℕ) {v : ℕ} {rest : List ℕ}
    → field n src ≡ some (v, rest)
    → field n (src ++ more) ≡ some (v, rest ++ more)
unfolding field
field-append zero src more e = ground arith
field-append (suc n) [] more e = cc
field-append (suc n) (b ∷ src) more e = elim (Option-cases (field n src)) [
  | inl q ↦ ground arith
  | inr ((w, r), q) ↦ ground (arith, field-append n src more q)
]

pub split_at-append :
    (n : ℕ) (src more : List ℕ) {front rest : List ℕ}
    → split_at n src ≡ some (front, rest)
    → split_at n (src ++ more) ≡ some (front, rest ++ more)
unfolding split_at
split_at-append zero src more e = ground arith
split_at-append (suc n) [] more e = cc
split_at-append (suc n) (b ∷ src) more e = elim (Option-cases (split_at n src)) [
  | inl q ↦ ground arith
  | inr ((w, r), q) ↦ ground (arith, split_at-append n src more q)
]

literal_of-append :
    (n : ℕ) (src more : List ℕ) {e : Element} {rest : List ℕ}
    → literal_of n src ≡ some (e, rest)
    → literal_of n (src ++ more) ≡ some (e, rest ++ more)
unfolding literal_of
literal_of-append n src more h = elim (Option-cases (split_at n src)) [
  | inl q ↦ ground arith
  | inr ((w, r), q) ↦ ground (arith, split_at-append n src more q)
]

literal_element-append :
    (m : ℕ) (src more : List ℕ) {e : Element} {rest : List ℕ}
    → literal_element m src ≡ some (e, rest)
    → literal_element m (src ++ more) ≡ some (e, rest ++ more)
unfolding literal_element
literal_element-append m src more {e} {rest} h = elim (Option-cases (field (m - 59) src)) [
  | inl q ↦ ground (arith, literal_of-append (m + 1) src more {e = e} {rest = rest})
  | inr ((v, r), q) ↦ ground (
    arith,
    literal_of-append (m + 1) src more {e = e} {rest = rest},
    field-append (m - 59) src more q,
    literal_of-append (v + 1) r more {e = e} {rest = rest},
  )
]

copy_element-append :
    (len high n : ℕ) (src more : List ℕ) {e : Element} {rest : List ℕ}
    → copy_element len high n src ≡ some (e, rest)
    → copy_element len high n (src ++ more) ≡ some (e, rest ++ more)
unfolding copy_element
copy_element-append len high n src more h = elim (Option-cases (field n src)) [
  | inl q ↦ ground arith
  | inr ((w, r), q) ↦ ground (arith, field-append n src more q)
]

-- What follows an element does not change it.
pub element-append :
    (src more : List ℕ) {e : Element} {rest : List ℕ}
    → element src ≡ some (e, rest)
    → element (src ++ more) ≡ some (e, rest ++ more)
unfolding element
element-append [] more h = cc
element-append (tag ∷ src) more {e} {rest} h = ground (
  arith,
  literal_element-append (tag / 4) src more {e = e} {rest = rest},
  copy_element-append (tag / 4 % 8 + 4) (tag / 32) 1 src more {e = e} {rest = rest},
  copy_element-append (tag / 4 + 1) 0 2 src more {e = e} {rest = rest},
  copy_element-append (tag / 4 + 1) 0 4 src more {e = e} {rest = rest},
)

-- Blocks behind one another.
pub Expands-append :
    {final middle src out : List ℕ} (more : List ℕ)
    → Expands middle src out
    → Expands final more middle
    → Expands final (src ++ more) out
Expands-append more done k = k
Expands-append more (next e p a d) k = next e (element-append _ more p) a (Expands-append more d k)

-- An element is a block.
pub Expands-one :
    {src out final : List ℕ} (e : Element)
    → element src ≡ some (e, [])
    → apply e out ≡ some final
    → Expands final src out
Expands-one e p a = next e p a done
