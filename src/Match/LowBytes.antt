-- ===== src/Match/LowBytes.antt =====
-- Two words that differ: the place of the lowest bit of `a ^ b`, divided by 8, is the number of low
-- bytes that they share.
use csnappy.Common.{
  ℕ, zero, suc, ◌+◌, ◌*◌, ◌/◌, ◌%◌, ◌^◌, ◌≤◌, ◌<◌, ◌≡◌, ◌≢◌, arith, sym, ap, ◌∙◌, List, [], ◌∷◌,
  length, take, take-take, drop, All, get_elem?, some, bit_xor,
}
use csnappy.Common.Memory.{get_elem?-drop}
use csnappy.Common.Xor.{bit_xor-lowest, mod_pow_le, pow_add}
use native.Mathlib.Nat.{pow-suc, add-mul-mod_self_left, mod-eq_of_lt}
use csnappy.Words.{part, le_value}
use csnappy.Words.Loads.{drop_get, length-part, part-IsByte, le_value-injective}
use csnappy.Words.Eight.{le_value-split, le_value-take-lt}
use csnappy.Match.{Matches}
use csnappy.Match.Laws.{Matches-of_part}

pow_256 : (j : ℕ) → 256 ^ j ≡ 2 ^ (8 * j)
pow_256 zero = omega arith
pow_256 (suc j) =
    let e : 8 * suc j ≡ 8 + 8 * j = omega arith in
    sym (ap (λ (t : ℕ). 2 ^ t) e ∙ omega (arith, pow_add 8 (8 * j), pow_256 j, pow-suc 256 j))

-- The low bytes of a word.
low_bytes :
    (input : List ℕ) (s w j : ℕ)
    → All (λ b. b < 256) input
    → j ≤ w
    → le_value (part input s w) % 2 ^ (8 * j) ≡ le_value (part input s j)
low_bytes input s w j bytes h =
    ap (λ (t : ℕ). le_value (part input s w) % t) (sym (pow_256 j))
    ∙ ap (λ (t : ℕ). t % 256 ^ j) (le_value-split j (part input s w))
    ∙ add-mul-mod_self_left _ (256 ^ j) _
    ∙ mod-eq_of_lt (le_value-take-lt j (part input s w) (part-IsByte input s w bytes))
    ∙ ap le_value (take-take j w (drop s input) h)

-- One more byte.
value_take-suc :
    (j b : ℕ) (xs : List ℕ)
    → get_elem? xs j ≡ some b
    → le_value (take (suc j) xs) ≡ le_value (take j xs) + 256 ^ j * b
unfolding le_value
value_take-suc j b [] e = absurd (ground arith)
value_take-suc zero b (x ∷ xs) e = ground arith
value_take-suc (suc j) b (x ∷ xs) e =
    omega (arith, value_take-suc j b xs e, ap (λ (t : ℕ). t * b) (pow-suc 256 j))

module _ (input : List ℕ) (s1 s2 w k : ℕ) (bytes : All (λ b. b < 256) input)
    (in1 : s1 + w ≤ length input) (in2 : s2 + w ≤ length input) (inside : k < 8 * w)
    (lowest : bit_xor (le_value (part input s1 w)) (le_value (part input s2 w)) % 2 ^ (k + 1)
      ≡ 2 ^ k) where
  same_value : le_value (part input s1 (k / 8)) ≡ le_value (part input s2 (k / 8))
  same_value =
      sym (low_bytes input s1 w (k / 8) bytes (omega arith))
      ∙ mod_pow_le (8 * (k / 8)) k _ _ (omega arith) (bit_xor-lowest k _ _ lowest).0
      ∙ low_bytes input s2 w (k / 8) bytes (omega arith)

  pub low_bytes-Matches : Matches input s1 s2 (k / 8)
  low_bytes-Matches = Matches-of_part input (k / 8) s1 s2 (omega arith) (omega arith) (
      le_value-injective _ _ (part-IsByte input s1 (k / 8) bytes)
        (part-IsByte input s2 (k / 8) bytes)
        (length-part input s1 (k / 8) (omega arith)
          ∙ sym (length-part input s2 (k / 8) (omega arith)))
        same_value)

  pub low_bytes_differ : get_elem? input (s1 + k / 8) ≢ get_elem? input (s2 + k / 8)
  low_bytes_differ = λ e.
      let (b, gb, db) = drop_get input (s1 + k / 8) (omega arith) in
      let more1 = value_take-suc (k / 8) b (drop s1 input) (get_elem?-drop s1 (k / 8) input ∙ gb) in
      let more2 =
        value_take-suc (k / 8) b (drop s2 input) (get_elem?-drop s2 (k / 8) input ∙ sym e ∙ gb) in
      let next : le_value (part input s1 (suc (k / 8))) ≡ le_value (part input s2 (suc (k / 8))) =
        omega (arith, more1, more2, same_value) in
      (bit_xor-lowest k _ _ lowest).1 (
        mod_pow_le (k + 1) (8 * suc (k / 8)) _ _ (omega arith) (
          low_bytes input s1 w (suc (k / 8)) bytes (omega arith)
          ∙ next
          ∙ sym (low_bytes input s2 w (suc (k / 8)) bytes (omega arith))))
