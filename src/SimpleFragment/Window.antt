-- ===== src/SimpleFragment/Window.antt =====
-- The current word of the simple compressor: each step shifts a byte in, and the word is always the one
-- in memory at `src`.
use csnappy.Common.{
  ℕ, zero, suc, ◌+◌, ◌*◌, ◌/◌, ◌^◌, ◌≤◌, ◌<◌, ◌≡◌, arith, sym, ap, ◌∙◌, bit_or, List, [], ◌∷◌, take,
  drop, length, All, get_elem?, get_elem?-All, Option, some,
}
use csnappy.Common.Bits.{bit_or_shifted}
use mathlib.Core.Path.{ap₂}
use csnappy.Words.{part, le_value, load32}
use csnappy.Words.Loads.{drop_get, load32_lem}
use csnappy.SimpleFragment.{first_window}

-- The three bytes behind `base` stand above the low byte of `curr_val`.
pub record Window (memory : List ℕ) (base curr_val : ℕ) : Type 0 where
  pub a : ℕ
  pub b : ℕ
  pub c : ℕ
  pub get_a : get_elem? memory (base + 1) ≡ some a
  pub get_b : get_elem? memory (base + 2) ≡ some b
  pub get_c : get_elem? memory (base + 3) ≡ some c
  pub value : curr_val / 2 ^ 8 ≡ a + 256 * b + 65536 * c
  pub below : (a < 256) × (b < 256) × (c < 256)

get_byte :
    (memory : List ℕ) (p : ℕ)
    → All (λ b. b < 256) memory
    → p < length memory
    → (b : ℕ) × (get_elem? memory p ≡ some b) × (b < 256)
get_byte memory p bytes h = get_elem?-All (λ b. b < 256) memory p bytes h

get_eq :
    (memory : List ℕ) (p q : ℕ) {r : Option ℕ}
    → p ≡ q
    → get_elem? memory p ≡ r
    → get_elem? memory q ≡ r
get_eq memory p q e g = sym (ap (get_elem? memory) e) ∙ g

get_elem?-below :
    (memory : List ℕ) (p : ℕ) {a : ℕ} → get_elem? memory p ≡ some a → p < length memory
get_elem?-below [] p g = ground (arith, g)
get_elem?-below (x ∷ xs) zero g = omega arith
get_elem?-below (x ∷ xs) (suc p) g = omega (arith, get_elem?-below xs p g)

get_drop :
    (memory : List ℕ) (p : ℕ) {a : ℕ}
    → get_elem? memory p ≡ some a
    → drop p memory ≡ a ∷ drop (p + 1) memory
get_drop memory p {a} g =
    let (a', g', e) = drop_get memory p (get_elem?-below memory p g) in
    let same : a' ≡ a = ground (arith, sym g' ∙ g) in
    let next : suc p ≡ p + 1 = omega arith in e ∙ ap₂ ◌∷◌ same (ap (λ (t : ℕ). drop t memory) next)

part_step :
    (memory : List ℕ) (n p : ℕ) {a : ℕ}
    → get_elem? memory p ≡ some a
    → part memory p (suc n) ≡ a ∷ part memory (p + 1) n
part_step memory n p g = ap (take (suc n)) (get_drop memory p g)

-- Four bytes in a row make a word.
load32_bytes :
    (memory : List ℕ) (p a b c d : ℕ)
    → p + 4 ≤ length memory
    → get_elem? memory p ≡ some a
    → get_elem? memory (p + 1) ≡ some b
    → get_elem? memory (p + 1 + 1) ≡ some c
    → get_elem? memory (p + 1 + 1 + 1) ≡ some d
    → load32 memory p ≡ some (a + 256 * b + 65536 * c + d * 2 ^ 24)
unfolding le_value
load32_bytes memory p a b c d fits ga gb gc gd =
    let word : part memory p 4 ≡ a ∷ b ∷ c ∷ d ∷ [] =
      part_step memory 3 p ga
      ∙ ap (λ (t : List ℕ). a ∷ t)
          (part_step memory 2 (p + 1) gb
            ∙ ap (λ (t : List ℕ). b ∷ t)
                (part_step memory 1 (p + 1 + 1) gc
                  ∙ ap (λ (t : List ℕ). c ∷ t) (part_step memory 0 (p + 1 + 1 + 1) gd))) in
    let value : le_value (a ∷ b ∷ c ∷ d ∷ []) ≡ a + 256 * b + 65536 * c + d * 2 ^ 24 =
      omega arith in
    load32_lem memory p fits
    ∙ ap (λ (t : List ℕ). some (le_value t)) word
    ∙ ap (λ (t : ℕ). some t) value

pub first_window-Window :
    (memory : List ℕ) (src : ℕ)
    → All (λ b. b < 256) memory
    → src + 4 ≤ length memory
    → (v : ℕ) × (first_window memory src ≡ some v) × Window memory src v
unfolding first_window
first_window-Window memory src bytes fits =
    let (a, ga, la) = get_byte memory (src + 1) bytes (omega arith) in
    let (b, gb, lb) = get_byte memory (src + 2) bytes (omega arith) in
    let (c, gc, lc) = get_byte memory (src + 3) bytes (omega arith) in
    let e1 : bit_or (a * 2 ^ 8) (b * 2 ^ 16) ≡ a * 2 ^ 8 + b * 2 ^ 16 =
      bit_or_shifted 16 b (a * 2 ^ 8) (omega arith) in
    let e2 : bit_or (a * 2 ^ 8 + b * 2 ^ 16) (c * 2 ^ 24) ≡ a * 2 ^ 8 + b * 2 ^ 16 + c * 2 ^ 24 =
      bit_or_shifted 24 c (a * 2 ^ 8 + b * 2 ^ 16) (omega arith) in
    (
      a * 2 ^ 8 + b * 2 ^ 16 + c * 2 ^ 24,
      rw (ga, gb, gc, e1, e2),
      record {
        a = a;
        b = b;
        c = c;
        get_a = ga;
        get_b = gb;
        get_c = gc;
        value = omega arith;
        below = (la, lb, lc);
      },
    )

-- One step of the inner loop: the new word is the one at the new `src`, and a window again.
pub Window-step :
    (memory : List ℕ) (base curr_val : ℕ)
    → All (λ b. b < 256) memory
    → base + 5 ≤ length memory
    → Window memory base curr_val
    → (d : ℕ) × (get_elem? memory (base + 1 + 3) ≡ some d)
      × (load32 memory (base + 1) ≡ some (bit_or (curr_val / 2 ^ 8) (d * 2 ^ 24)))
      × Window memory (base + 1) (bit_or (curr_val / 2 ^ 8) (d * 2 ^ 24))
Window-step memory base curr_val bytes fits w =
    let (d, gd, ld) = get_byte memory (base + 1 + 3) bytes (omega arith) in
    let e : bit_or (curr_val / 2 ^ 8) (d * 2 ^ 24) ≡ w.a + 256 * w.b + 65536 * w.c + d * 2 ^ 24 =
      bit_or_shifted 24 d (curr_val / 2 ^ 8) (omega (arith, w.value, w.below))
      ∙ ap (λ (t : ℕ). t + d * 2 ^ 24) w.value in
    let gb = get_eq memory (base + 2) (base + 1 + 1) (omega arith) w.get_b in
    let gc = get_eq memory (base + 3) (base + 1 + 2) (omega arith) w.get_c in
    let gc' = get_eq memory (base + 3) (base + 1 + 1 + 1) (omega arith) w.get_c in
    (
      d,
      gd,
      load32_bytes memory (base + 1) w.a w.b w.c d (omega arith) w.get_a gb gc'
            (get_eq memory (base + 1 + 3) (base + 1 + 1 + 1 + 1) (omega arith) gd)
          ∙ ap (λ (t : ℕ). some t) (sym e),
      record {
        a = w.b;
        b = w.c;
        c = d;
        get_a = gb;
        get_b = gc;
        get_c = gd;
        value = omega (arith, e, w.below);
        below = (w.below.1, w.below.2, ld);
      },
    )
