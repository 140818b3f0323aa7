-- ===== src/Match/Laws.antt =====
-- Matching bytes and equal words.
use csnappy.Common.{
  ℕ, zero, suc, ◌+◌, ◌≤◌, ◌<◌, ◌≡◌, arith, refl, sym, ap, ◌∙◌, List, ◌∷◌, length, take, drop, All,
  some,
}
use csnappy.Words.{part, le_value, load32}
use csnappy.Words.Loads.{drop_get, length-part, part-IsByte, le_value-injective, load32_lem}
use csnappy.Match.{Matches}

pub Matches-of_part :
    (input : List ℕ) (n s1 s2 : ℕ)
    → s1 + n ≤ length input
    → s2 + n ≤ length input
    → part input s1 n ≡ part input s2 n
    → Matches input s1 s2 n
Matches-of_part input zero s1 s2 h1 h2 e = tt
Matches-of_part input (suc n) s1 s2 h1 h2 e =
    let (a, ga, da) = drop_get input s1 (omega arith) in
    let (b, gb, db) = drop_get input s2 (omega arith) in
    (
      cc (parts a b da db),
      Matches-of_part input n (suc s1) (suc s2) (omega arith) (omega arith) (cc (parts a b da db)),
    )
  where
    parts :
        (a b : ℕ)
        → drop s1 input ≡ a ∷ drop (suc s1) input
        → drop s2 input ≡ b ∷ drop (suc s2) input
        → ◌≡◌ {A = List ℕ} (a ∷ part input (suc s1) n) (b ∷ part input (suc s2) n)
    parts a b da db = sym (ap (take (suc n)) da) ∙ e ∙ ap (take (suc n)) db

-- Words with the same value hold the same bytes.
pub Matches-of_value :
    (input : List ℕ) (n s1 s2 : ℕ)
    → s1 + n ≤ length input
    → s2 + n ≤ length input
    → All (λ b. b < 256) input
    → le_value (part input s1 n) ≡ le_value (part input s2 n)
    → Matches input s1 s2 n
Matches-of_value input n s1 s2 h1 h2 bytes e = Matches-of_part input n s1 s2 h1 h2 (
    le_value-injective _ _ (part-IsByte input s1 n bytes) (part-IsByte input s2 n bytes)
      (length-part input s1 n h1 ∙ sym (length-part input s2 n h2)) e)

-- Equal words hold the same bytes.
pub Matches-of_load32 :
    (input : List ℕ) (s1 s2 v : ℕ)
    → s1 + 4 ≤ length input
    → s2 + 4 ≤ length input
    → All (λ b. b < 256) input
    → load32 input s1 ≡ some v
    → load32 input s2 ≡ some v
    → Matches input s1 s2 4
Matches-of_load32 input s1 s2 v h1 h2 bytes e1 e2 = Matches-of_part input 4 s1 s2 h1 h2 (
    le_value-injective _ _ (part-IsByte input s1 4 bytes) (part-IsByte input s2 4 bytes)
      (length-part input s1 4 h1 ∙ sym (length-part input s2 4 h2))
      (cc (load32_lem input s1 h1, load32_lem input s2 h2)))

pub Matches-at :
    (input : List ℕ) {s1 s2 n t1 t2 m : ℕ}
    → s1 ≡ t1
    → s2 ≡ t2
    → n ≡ m
    → Matches input s1 s2 n
    → Matches input t1 t2 m
Matches-at input p q r h = rw (← p, ← q, ← r) h

-- Matches behind one another.
pub Matches-add :
    (input : List ℕ) (n m s1 s2 : ℕ)
    → Matches input s1 s2 n
    → Matches input (s1 + n) (s2 + n) m
    → Matches input s1 s2 (n + m)
Matches-add input zero m s1 s2 a b =
    Matches-at input {n = m} (omega arith) (omega arith) (omega arith) b
Matches-add input (suc n) m s1 s2 a b =
    Matches-at input {s1 = s1} {s2 = s2} {n = suc (n + m)} refl refl (omega arith) (
      a.0,
      Matches-add input n m (suc s1) (suc s2) a.1
          (Matches-at input {n = m} (omega arith) (omega arith) refl b),
    )
