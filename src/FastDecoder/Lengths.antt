-- ===== src/FastDecoder/Lengths.antt =====
-- Where the bytes of a literal are, by its tag.
use csnappy.Common.{
  ℕ, zero, suc, ◌+◌, ◌-◌, ◌/◌, ◌%◌, ◌^◌, ◌≤◌, ◌<◌, ◌≡◌, arith, refl, sym, ap, ◌∙◌, List, [], ◌∷◌,
  ◌++◌, append_assoc, length, take, drop, drop-drop, take-take, take-append-slice, All-drop, some,
  true, tests, lt→ltb, le→ltb, ◌==◌,
}
use mathlib.Core.Path.{ap₂}
use csnappy.Format.{Element, element, literal, literal_element}
use csnappy.Format.Parts.{field-append_given, literal_of-given, short_reach, long_reach}
use csnappy.Words.{part, le_value}
use csnappy.Words.Loads.{length-part, le_value-injective, part-IsByte}
use csnappy.Words.Eight.{le_value-take-lt}
use csnappy.FastDecoder.{Reader}
use csnappy.FastDecoder.Refill.{Ready, rest}
use csnappy.FastDecoder.Steps.{Spells, Refused, IsWrapped}

element-literal :
    (tag : ℕ) (src : List ℕ)
    → (tag % 4 == 0) ≡ true
    → element (tag ∷ src) ≡ literal_element (tag / 4) src
unfolding element
element-literal tag src e = ground arith

literal_element-short :
    (m : ℕ) (xs more : List ℕ)
    → m < 60
    → length xs ≡ m + 1
    → literal_element m (xs ++ more) ≡ some (literal xs, more)
unfolding literal_element
literal_element-short m xs more h e = rw (lt→ltb m 60 h) (literal_of-given (m + 1) xs more e)

literal_element-long :
    (m : ℕ) (fs xs more : List ℕ)
    → 60 ≤ m
    → length fs ≡ m - 59
    → length xs ≡ le_value fs + 1
    → literal_element m (fs ++ (xs ++ more)) ≡ some (literal xs, more)
unfolding literal_element
literal_element-long m fs xs more h e f =
    rw (le→ltb m 60 h, ← e, field-append_given fs (xs ++ more))
      (literal_of-given (le_value fs + 1) xs more f)

pow_four : (x : ℕ) → x ≤ 4 → 2 ^ 32 ≤ 256 ^ x → x ≡ 4
pow_four zero h le = absurd (omega arith)
pow_four (suc zero) h le = absurd (omega arith)
pow_four (suc (suc zero)) h le = absurd (omega arith)
pow_four (suc (suc (suc zero))) h le = absurd (omega arith)
pow_four (suc (suc (suc (suc zero)))) h le = omega arith
pow_four (suc (suc (suc (suc (suc x))))) h le = absurd (omega arith)

pub pow_word : (x : ℕ) → x ≤ 4 → 256 ^ x ≤ 2 ^ 32
pow_word zero h = omega arith
pow_word (suc zero) h = omega arith
pow_word (suc (suc zero)) h = omega arith
pow_word (suc (suc (suc zero))) h = omega arith
pow_word (suc (suc (suc (suc zero)))) h = omega arith
pow_word (suc (suc (suc (suc (suc x))))) h = absurd (omega arith)

all_ones : le_value (0xff ∷ 0xff ∷ 0xff ∷ 0xff ∷ []) ≡ 2 ^ 32 - 1
unfolding le_value
all_ones = refl

module _ (r : Reader) (ready : Ready r) (tag : ℕ) (byte : tag < 256)
    (front : drop r.src r.memory ≡ tag ∷ drop (r.src + 1) r.memory)
    (kind : (tag % 4 == 0) ≡ true) where
  rest-front : rest r ≡ tag ∷ part r.memory (r.src + 1) (r.end - (r.src + 1))
  rest-front =
      let n : r.end - r.src ≡ suc (r.end - (r.src + 1)) = omega (arith, ready.some_left) in
      rw (n, front) refl

  length-tail : length (part r.memory (r.src + 1) (r.end - (r.src + 1))) ≡ r.end - (r.src + 1)
  length-tail =
      length-part r.memory (r.src + 1) (r.end - (r.src + 1))
        (omega (arith, ready.some_left, ready.good.inside))

  there :
      {e : Element} {more : List ℕ}
      → element (rest r) ≡ some (e, more)
      → literal_element (tag / 4) (part r.memory (r.src + 1) (r.end - (r.src + 1))) ≡ some (e, more)
  there h = sym (element-literal tag _ kind) ∙ rw rest-front at h

  pub Spells-short :
      tag / 4 < 60
      → r.src + 1 + (tag / 4 + 1) ≤ length r.memory
      → Spells
          (drop r.src r.memory)
          (1 + (tag / 4 + 1))
          (literal (part r.memory (r.src + 1) (tag / 4 + 1)))
  Spells-short h fits more =
      let k : 1 + (tag / 4 + 1) ≡ suc (tag / 4 + 1) = omega arith in
      rw (k, front)
        (element-literal tag (part r.memory (r.src + 1) (tag / 4 + 1) ++ more) kind
          ∙ literal_element-short (tag / 4) (part r.memory (r.src + 1) (tag / 4 + 1)) more h
              (length-part r.memory (r.src + 1) (tag / 4 + 1) fits))

  pub Refused-short :
      (room : ℕ) (out : List ℕ)
      → tag / 4 < 60
      → r.end < r.src + 1 + (tag / 4 + 1)
      → Refused room (rest r) out
  Refused-short room out h lt e more out' p a le = omega (
    arith,
    short_reach (tag / 4) (part r.memory (r.src + 1) (r.end - (r.src + 1))) h (there p),
    length-tail,
  )

  -- The number behind a tag with a long length.
  abbrev pub given : ℕ
  given = le_value (part r.memory (r.src + 1) (tag / 4 - 59))

  pub given-lt : given < 256 ^ (tag / 4 - 59)
  given-lt =
      le_value-take-lt (tag / 4 - 59) (drop (r.src + 1) r.memory)
        (All-drop _ (r.src + 1) r.memory ready.good.bytes)

  pub Spells-long :
      (j : ℕ)
      → 1 + (tag / 4 - 59) ≡ j
      → 60 ≤ tag / 4
      → r.src + j + (given + 1) ≤ length r.memory
      → Spells
          (drop r.src r.memory)
          (j + (given + 1))
          (literal (part r.memory (r.src + j) (given + 1)))
  Spells-long j ej h fits more =
      let x : ℕ = tag / 4 - 59 in
      let fs : List ℕ = part r.memory (r.src + 1) (tag / 4 - 59) in
      let xs : List ℕ = part r.memory (r.src + j) (given + 1) in
      let k : j + (given + 1) ≡ suc (x + (given + 1)) = omega arith in
      let place : r.src + 1 + x ≡ r.src + j = omega arith in
      let two : take (x + (given + 1)) (drop (r.src + 1) r.memory) ≡ fs ++ xs =
        sym (take-append-slice x (given + 1) (drop (r.src + 1) r.memory))
        ∙ ap (λ (t : List ℕ). fs ++ take (given + 1) t) (drop-drop x (r.src + 1) r.memory)
        ∙ ap (λ (t : ℕ). fs ++ part r.memory t (given + 1)) place in
      rw (k, front)
        (ap (λ (t : List ℕ). element (tag ∷ (t ++ more))) two
          ∙ ap (λ (t : List ℕ). element (tag ∷ t)) (append_assoc fs xs more)
          ∙ element-literal tag (fs ++ (xs ++ more)) kind
          ∙ literal_element-long (tag / 4) fs xs more h
              (length-part r.memory (r.src + 1) (tag / 4 - 59) (omega arith))
              (length-part r.memory (r.src + j) (given + 1) fits))

  pub Refused-long :
      (room : ℕ) (out : List ℕ)
      → 60 ≤ tag / 4
      → r.end < r.src + (1 + (tag / 4 - 59)) + (given + 1)
      → Refused room (rest r) out
  Refused-long room out h lt e more out' p a le =
      let x : ℕ = tag / 4 - 59 in
      let tail : List ℕ = part r.memory (r.src + 1) (r.end - (r.src + 1)) in
      let reach : x + le_value (take x tail) + 1 ≤ length tail =
        long_reach (tag / 4) tail h (there p) in
      let same : take x tail ≡ part r.memory (r.src + 1) x =
        take-take x (r.end - (r.src + 1)) (drop (r.src + 1) r.memory)
          (omega (arith, reach, length-tail)) in
      omega (arith, rw same at reach, length-tail, ready.some_left)

  -- A length of 2^32 is the literal that wraps.
  pub IsWrapped-given :
      60 ≤ tag / 4 → given + 1 ≡ 2 ^ 32 → (tag / 4 - 59 ≡ 4) × IsWrapped (drop r.src r.memory)
  IsWrapped-given h full =
      (four, rw front (ap₂ (λ (t : ℕ) (u : List ℕ). t ∷ u) (omega (tests, four, kind)) ones))
    where
      four : tag / 4 - 59 ≡ 4
      four = pow_four (tag / 4 - 59) (omega arith) (omega (arith, given-lt))

      ones : part r.memory (r.src + 1) 4 ≡ 0xff ∷ 0xff ∷ 0xff ∷ 0xff ∷ []
      ones =
          le_value-injective (part r.memory (r.src + 1) 4) (0xff ∷ 0xff ∷ 0xff ∷ 0xff ∷ [])
            (part-IsByte r.memory (r.src + 1) 4 ready.good.bytes)
            (omega arith, (omega arith, (omega arith, (omega arith, tt))))
            (length-part r.memory (r.src + 1) 4 (omega (arith, ready.readable)))
            (let n : le_value (part r.memory (r.src + 1) 4) + 1 ≡ 2 ^ 32 = rw four at full in
              omega (arith, n, all_ones))
