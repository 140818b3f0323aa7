-- ===== src/Format/Copies.antt =====
-- A copy in two parts is the two copies, one after the other.
use csnappy.Common.{
  ℕ, zero, suc, ◌+◌, ◌-◌, ◌≡◌, ◌≤◌, arith, refl, ◌∙◌, List, [], ◌∷◌, ◌++◌, length, length-append,
  get_elem?, none, some, Option-cases, inl, inr, ltb, true, ◌==◌, ◌||◌,
}
use csnappy.Common.Memory.{get_elem?-lt}
use csnappy.Format.{copy, literal, repeat_back, apply}

pub length-repeat_back :
    (n offset : ℕ) (out : List ℕ) {out' : List ℕ}
    → repeat_back n offset out ≡ some out'
    → length out' ≡ length out + n
unfolding repeat_back
length-repeat_back zero offset out e = ground arith
length-repeat_back (suc n) offset out {out'} e =
    elim (Option-cases (get_elem? out (length out - offset))) [
      | inl q ↦ ground arith
      | inr (b, q) ↦ ground (
        arith,
        length-repeat_back n offset (out ++ (b ∷ [])) {out' = out'},
        length-append out (b ∷ []),
      )
    ]

repeat_back-zero : (offset : ℕ) (out : List ℕ) → repeat_back zero offset out ≡ some out
unfolding repeat_back
repeat_back-zero offset out = refl

pub repeat_back-suc :
    (n offset : ℕ) (out : List ℕ) (b : ℕ)
    → get_elem? out (length out - offset) ≡ some b
    → repeat_back (suc n) offset out ≡ repeat_back n offset (out ++ (b ∷ []))
unfolding repeat_back
repeat_back-suc n offset out b q = ground arith

-- Where a copy of `n + m` bytes stops after `n` of them.
pub repeat_back-add :
    (n m offset : ℕ) (out : List ℕ) {out' : List ℕ}
    → repeat_back (n + m) offset out ≡ some out'
    → (middle : List ℕ) × (repeat_back n offset out ≡ some middle)
      × (repeat_back m offset middle ≡ some out')
unfolding repeat_back
repeat_back-add zero m offset out {out'} e =
    (out, refl, (let z : zero + m ≡ m = omega arith in rw z at e))
repeat_back-add (suc n) m offset out {out'} e =
    elim (Option-cases (get_elem? out (length out - offset))) [
      | inl q ↦ absurd (stuck q)
      | inr (b, q) ↦
          (let (middle, front, back) =
              repeat_back-add n m offset (out ++ (b ∷ [])) {out' = out'}
                (ground (arith, one_more)) in
            (middle, repeat_back-suc n offset out b q ∙ front, back))
    ]
  where
    one_more : repeat_back (suc (n + m)) offset out ≡ some out'
    one_more = let z : suc n + m ≡ suc (n + m) = omega arith in rw z at e

    stuck : get_elem? out (length out - offset) ≡ none → ⊥
    stuck q = ground (arith, one_more)

-- A copy from within the output is an element that the output accepts.
pub apply-copy :
    (offset len : ℕ) (out : List ℕ)
    → 1 ≤ offset
    → offset ≤ length out
    → apply (copy offset len) out ≡ repeat_back len offset out
unfolding apply
apply-copy offset len out pos le = ground arith

pub apply-literal : (bytes out : List ℕ) → apply (literal bytes) out ≡ some (out ++ bytes)
unfolding apply
apply-literal bytes out = refl

pub apply-copy_outside :
    (offset len : ℕ) (out : List ℕ)
    → (offset == 0 || ltb (length out) offset) ≡ true
    → apply (copy offset len) out ≡ none
unfolding apply
apply-copy_outside offset len out bad = ground arith

pub repeat_back-some :
    (n offset : ℕ) (out : List ℕ)
    → 1 ≤ offset
    → offset ≤ length out
    → (out' : List ℕ) × (repeat_back n offset out ≡ some out')
repeat_back-some zero offset out pos le = (out, repeat_back-zero offset out)
repeat_back-some (suc n) offset out pos le =
    let (b, q) = get_elem?-lt out (length out - offset) (omega arith) in
    let (out', e) =
      repeat_back-some n offset (out ++ (b ∷ [])) pos (omega (arith, length-append out (b ∷ []))) in
    (out', repeat_back-suc n offset out b q ∙ e)
