-- ===== src/Varint/Value.antt =====
-- What `csnappy_get_uncompressed_length` returns and stores on any input.
use csnappy.Common.{
  ℕ, zero, suc, ◌+◌, ◌*◌, ◌%◌, ◌^◌, ◌≤◌, ◌<◌, ◌≡◌, arith, ap, ◌∙◌, List, [], ◌∷◌, ltb, leb,
  if◌then◌else◌, false, Option, none, some, Bool-cases, inl, inr, refl,
}
use csnappy.Common.Outcome.{Outcome, ok, err, header_bad}
use csnappy.Varint.{add_group, length_loop, get_uncompressed_length}
use csnappy.Varint.Group.{add_group_eq}
use mathlib.Core.Path.{ap₂}
use native.Mathlib.Numerals.{towards_suc}

-- A number in base 128, lowest digit first, whose last byte is the first one below 128: the bytes
-- that it takes, `limit` at most, and its value.
unfoldable pub base_128 : ℕ → List ℕ → Option (ℕ × ℕ)
base_128 zero src = none
base_128 (suc limit) [] = none
base_128 (suc limit) (c ∷ src) =
    if ltb c 128
    then some (1, c)
    else elim (base_128 limit src) [ none ↦ none | some (n, v) ↦ some (n + 1, c % 128 + 128 * v) ]

-- A call that answers a number and what it takes: that many bytes are reported, and the value is
-- stored modulo 2^32. Without one the call answers CSNAPPY_E_HEADER_BAD.
abbrev pub Reads : Option (ℕ × ℕ) → Outcome ℕ × ℕ → Type 0
Reads none out = out.0 ≡ err header_bad
Reads (some (n, v)) out = out ≡ (ok n, v % 2 ^ 32)

-- The same of the loop after `count` bytes, with `result` read below the place `p`.
abbrev ReadsOn : ℕ → ℕ → ℕ → Option (ℕ × ℕ) → Outcome ℕ × ℕ → Type 0
ReadsOn count result p none out = out.0 ≡ err header_bad
ReadsOn count result p (some (n, v)) out = out ≡ (ok (count + n), (result + v * p) % 2 ^ 32)

pub pow_seven : (j : ℕ) → 2 ^ (7 * suc j) ≡ 128 * 2 ^ (7 * j)
pow_seven j =
    ap (λ (t : ℕ). 2 ^ t) (let e : 7 * suc j ≡ 7 * j + 7 = omega arith in e)
    ∙ simp towards_suc (omega arith)

-- One more digit in front of what the rest of the loop reads.
ReadsOn-cons :
    (count result result' c p : ℕ) (o : Option (ℕ × ℕ)) (out : Outcome ℕ × ℕ)
    → result' ≡ (result + c % 128 * p) % 2 ^ 32
    → ReadsOn (count + 1) result' (128 * p) o out
    → ReadsOn count result p
        (elim o [ none ↦ none | some (n, v) ↦ some (n + 1, c % 128 + 128 * v) ])
        out
ReadsOn-cons count result result' c p none out e h = h
ReadsOn-cons count result result' c p (some (n, v)) out e h =
    h ∙ ap₂ (λ (a b : ℕ). (ok a, b)) (omega arith) (omega arith)

digit_bound : (c p : ℕ) → c % 128 * p ≤ 127 * p
digit_bound c p = grind arith

length_loop-ReadsOn :
    (limit j count result : ℕ) (src : List ℕ)
    → j + limit ≡ 5
    → result < 2 ^ (7 * j)
    → ReadsOn count result (2 ^ (7 * j)) (base_128 limit src) (length_loop src (7 * j) count result)
unfolding length_loop base_128
length_loop-ReadsOn zero j count result [] e h = refl
length_loop-ReadsOn zero j count result (c ∷ src) e h = ground arith
length_loop-ReadsOn (suc limit) j count result [] e h = refl
length_loop-ReadsOn (suc limit) j count result (c ∷ src) e h =
    rw room (elim (Bool-cases (ltb c 128)) [
      | inl small ↦ rw small (ground (arith, fits))
      | inr large ↦
          rw (large, index)
            (ReadsOn-cons count result _ c _ (base_128 limit src) _ fits (
              rw (← pow_seven j) (
                length_loop-ReadsOn limit (suc j) (count + 1) _ src (omega arith)
                  (omega (arith, fits, pow_seven j, digit_bound c (2 ^ (7 * j)))))))
    ])
  where
    room : leb 32 (7 * j) ≡ false
    room = ground arith

    fits : add_group result c (7 * j) ≡ (result + c % 128 * 2 ^ (7 * j)) % 2 ^ 32
    fits = add_group_eq result c j (omega arith) h

    index : 7 * j + 7 ≡ 7 * suc j
    index = omega arith

-- On every input the function reads a number of at most five bytes in base 128, reports the bytes
-- that it takes and stores its value modulo 2^32; it answers CSNAPPY_E_HEADER_BAD exactly when the
-- input does not begin with such a number.
pub get_uncompressed_length-Reads :
    (src : List ℕ) → Reads (base_128 5 src) (get_uncompressed_length src)
unfolding get_uncompressed_length
get_uncompressed_length-Reads src =
    finish (base_128 5 src) (length_loop-ReadsOn 5 0 0 0 src refl (omega arith))
  where
    finish :
        (o : Option (ℕ × ℕ))
        → ReadsOn 0 0 1 o (length_loop src 0 0 0)
        → Reads o (length_loop src 0 0 0)
    finish none h = h
    finish (some (n, v)) h = h ∙ ap₂ (λ (a b : ℕ). (ok a, b)) (omega arith) (omega arith)
