-- ===== src/Format/Consumes.antt =====
-- An element takes at least its tag from a block and leaves the bytes behind it; expanding adds to
-- the output.
use csnappy.Common.{
  ℕ, zero, suc, ◌+◌, ◌-◌, ◌/◌, ◌%◌, ◌≤◌, ◌<◌, ◌≡◌, arith, ap, sym, ◌∙◌, append_assoc, List, [], ◌∷◌,
  ◌++◌, length, length-append, All, some, ltb, ◌==◌, Option-cases, inl, inr, Bool-cases,
}
use csnappy.Format.{
  Element, literal, copy, field, split_at, literal_of, literal_element, copy_element, element,
  apply, Expands, done, next, repeat_back,
}
use csnappy.Format.Copies.{length-repeat_back}

-- What is left of a block: its end, behind `front`.
pub record Behind (src rest : List ℕ) : Type 0 where
  pub front : List ℕ
  pub whole : front ++ rest ≡ src
  pub not_longer : length rest ≤ length src
  pub bytes : All (λ b. b < 256) src → All (λ b. b < 256) rest

Behind-trans : {a b c : List ℕ} → Behind a b → Behind b c → Behind a c
Behind-trans {c = c} h k = record {
  front = h.front ++ k.front;
  whole = append_assoc h.front k.front c ∙ ap (λ (t : List ℕ). h.front ++ t) k.whole ∙ h.whole;
  not_longer = omega (arith, h.not_longer, k.not_longer);
  bytes = λ p. k.bytes (h.bytes p);
}

Behind-cons : {x : ℕ} {a b : List ℕ} → Behind a b → Behind (x ∷ a) b
Behind-cons {x} h = record {
  front = x ∷ h.front;
  whole = ap (λ (t : List ℕ). x ∷ t) h.whole;
  not_longer = omega (arith, h.not_longer);
  bytes = λ p. h.bytes p.1;
}

Behind-same : {a b : List ℕ} → a ≡ b → Behind a b
Behind-same e = record {
  front = [];
  whole = sym e;
  not_longer = omega (arith, ap (length {A = ℕ}) e);
  bytes = λ p. rw e at p;
}

field-Behind :
    (n : ℕ) (src : List ℕ) {v : ℕ} {rest : List ℕ} → field n src ≡ some (v, rest) → Behind src rest
unfolding field
field-Behind zero src e = Behind-same (ground arith)
field-Behind (suc n) [] e = absurd (ground arith)
field-Behind (suc n) (b ∷ src) {rest = rest} e = elim (Option-cases (field n src)) [
  | inl q ↦ absurd (ground arith)
  | inr ((w, r), q) ↦ Behind-cons (Behind-trans (field-Behind n src q) (Behind-same (ground arith)))
]

split_at-Behind :
    (n : ℕ) (src : List ℕ) {v : List ℕ} {rest : List ℕ}
    → split_at n src ≡ some (v, rest)
    → Behind src rest
unfolding split_at
split_at-Behind zero src e = Behind-same (ground arith)
split_at-Behind (suc n) [] e = absurd (ground arith)
split_at-Behind (suc n) (b ∷ src) {rest = rest} e = elim (Option-cases (split_at n src)) [
  | inl q ↦ absurd (ground arith)
  | inr ((w, r), q) ↦
      Behind-cons (Behind-trans (split_at-Behind n src q) (Behind-same (ground arith)))
]

literal_of-Behind :
    (n : ℕ) (src : List ℕ) {e : Element} {rest : List ℕ}
    → literal_of n src ≡ some (e, rest)
    → Behind src rest
unfolding literal_of
literal_of-Behind n src e = elim (Option-cases (split_at n src)) [
  | inl q ↦ absurd (ground arith)
  | inr ((w, r), q) ↦ Behind-trans (split_at-Behind n src q) (Behind-same (ground arith))
]

literal_element-Behind :
    (m : ℕ) (src : List ℕ) {e : Element} {rest : List ℕ}
    → literal_element m src ≡ some (e, rest)
    → Behind src rest
unfolding literal_element
literal_element-Behind m src h = elim (Bool-cases (ltb m 60)) [
  | inl p ↦ literal_of-Behind (m + 1) src (rw p at h)
  | inr p ↦ elim (Option-cases (field (m - 59) src)) [
    | inl q ↦ absurd (ground arith)
    | inr ((v, r), q) ↦
        Behind-trans (field-Behind (m - 59) src q) (literal_of-Behind (v + 1) r (rw (p, q) at h))
  ]
]

copy_element-Behind :
    (len high n : ℕ) (src : List ℕ) {e : Element} {rest : List ℕ}
    → copy_element len high n src ≡ some (e, rest)
    → Behind src rest
unfolding copy_element
copy_element-Behind len high n src h = elim (Option-cases (field n src)) [
  | inl q ↦ absurd (ground arith)
  | inr ((v, r), q) ↦ Behind-trans (field-Behind n src q) (Behind-same (ground arith))
]

-- The tag is taken at least.
pub element-Behind :
    (tag : ℕ) (src : List ℕ) {e : Element} {rest : List ℕ}
    → element (tag ∷ src) ≡ some (e, rest)
    → Behind src rest
unfolding element
element-Behind tag src h = elim (Bool-cases (tag % 4 == 0)) [
  | inl p ↦ literal_element-Behind (tag / 4) src (rw p at h)
  | inr p ↦ elim (Bool-cases (tag % 4 == 1)) [
    | inl q ↦ copy_element-Behind (tag / 4 % 8 + 4) (tag / 32) 1 src (rw (p, q) at h)
    | inr q ↦ elim (Bool-cases (tag % 4 == 2)) [
      | inl r ↦ copy_element-Behind (tag / 4 + 1) 0 2 src (rw (p, q, r) at h)
      | inr r ↦ copy_element-Behind (tag / 4 + 1) 0 4 src (rw (p, q, r) at h)
    ]
  ]
]

pub apply-grows :
    (e : Element) (out : List ℕ) {out' : List ℕ}
    → apply e out ≡ some out'
    → length out ≤ length out'
unfolding apply
apply-grows (literal bytes) out {out'} h =
    let q : out ++ bytes ≡ out' = ground arith in
    omega (arith, ap (length {A = ℕ}) q, length-append out bytes)
apply-grows (copy offset len) out {out'} h =
    let q : repeat_back len offset out ≡ some out' = ground arith in
    omega (arith, length-repeat_back len offset out q)

pub Expands-grows : {final src out : List ℕ} → Expands final src out → length out ≤ length final
Expands-grows done = omega arith
Expands-grows (next e p a d) = omega (arith, apply-grows e _ a, Expands-grows d)
