-- ===== src/Match/Bytes.antt =====
-- The variant that compares words and then bytes finds the longest match.
use csnappy.Common.{
  ℕ, zero, suc, ◌+◌, ◌≤◌, ◌<◌, ◌≡◌, ◌≢◌, ◌⊎◌, inl, inr, arith, refl, ap, ◌∙◌, tests, List, length,
  All, some, get_elem?, ltb, leb, ◌==◌, Bool-cases, false,
}
use native.Mathlib.Nat.{add_assoc, add-zero}
use csnappy.Words.{part, le_value, load32}
use csnappy.Words.Loads.{drop_get, load32_lem}
use csnappy.Match.{Matches, Longest, Matcher, match_bytes, match_words, find_match_length}
use csnappy.Match.Laws.{Matches-of_load32, Matches-add}

-- Extending a match that is known up to `matched`: what the rest finds makes the whole.
pub Longest-add :
    (input : List ℕ) (s1 s2 limit n m : ℕ)
    → Matches input s1 s2 n
    → Longest input (s1 + n) (s2 + n) limit m
    → Longest input s1 s2 limit (n + m)
Longest-add input s1 s2 limit n m a b = record {
  within = omega (arith, b.within);
  same = Matches-add input n m s1 s2 a b.same;
  stops = elim b.stops [
    | inl e ↦ inl (omega arith)
    | inr d ↦ inr (rw (← add_assoc s1 n m, ← add_assoc s2 n m) d)
  ];
}

pub Longest-at :
    (input : List ℕ) (limit : ℕ) {s1 s2 t1 t2 n m : ℕ}
    → s1 ≡ t1
    → s2 ≡ t2
    → n ≡ m
    → Longest input s1 s2 limit n
    → Longest input t1 t2 limit m
Longest-at input limit p q r h = rw (← p, ← q, ← r) h

-- One more byte.
Longest-suc :
    (input : List ℕ) (s1 s2 limit matched n : ℕ)
    → get_elem? input (s1 + matched) ≡ get_elem? input s2
    → Longest input (s1 + (matched + 1)) (s2 + 1) limit n
    → Longest input (s1 + matched) s2 limit (suc n)
Longest-suc input s1 s2 limit matched n e l =
    Longest-at input limit {n = 1 + n} refl refl (omega arith) (
      Longest-add input (s1 + matched) s2 limit 1 n (e, tt)
        (Longest-at input limit {n = n} (omega arith) refl refl l))

Longest-none :
    (input : List ℕ) (s1 s2 limit : ℕ)
    → s2 ≤ limit
    → (s2 ≡ limit) ⊎ (get_elem? input s1 ≢ get_elem? input s2)
    → Longest input s1 s2 limit 0
Longest-none input s1 s2 limit le stop = record {
  within = omega arith;
  same = tt;
  stops = elim stop [ inl e ↦ inl (omega arith) | inr d ↦ inr (rw (add-zero s1, add-zero s2) d) ];
}

differ :
    (input : List ℕ) (s1 s2 a b : ℕ)
    → get_elem? input s1 ≡ some a
    → get_elem? input s2 ≡ some b
    → (a == b) ≡ false
    → get_elem? input s1 ≢ get_elem? input s2
differ input s1 s2 a b ga gb h = λ e. ground (arith, e)

-- The loop from `matched` on. `s2` has advanced with it.
pub match_bytes-Longest :
    (fuel : ℕ) (input : List ℕ) (s1 s2 limit matched : ℕ)
    → s1 + matched < s2
    → s2 ≤ limit
    → limit ≤ length input
    → limit < fuel + s2
    → (m : ℕ) × (match_bytes fuel input s1 s2 limit matched ≡ some (matched + m))
      × Longest input (s1 + matched) s2 limit m
unfolding match_bytes
match_bytes-Longest zero input s1 s2 limit matched lt le h f = absurd (omega arith)
match_bytes-Longest (suc fuel) input s1 s2 limit matched lt le h f =
    elim (Bool-cases (ltb s2 limit)) [
      | inr stop ↦ (0, rw stop (ground arith), Longest-none input _ s2 limit le (inl (omega tests)))
      | inl more ↦
          (let (a, ga, da) = drop_get input (s1 + matched) (omega tests) in
            let (b, gb, db) = drop_get input s2 (omega tests) in
            elim (Bool-cases (a == b)) [
              | inl same ↦
                  (let (m, e, l) =
                      match_bytes-Longest fuel input s1 (s2 + 1) limit (matched + 1) (omega arith)
                        (omega tests) h (omega arith) in
                    (
                      suc m,
                      rw (more, ga, gb, same) (e ∙ ap (λ (t : ℕ). some t) (omega arith)),
                      Longest-suc input s1 s2 limit matched m (ground arith) l,
                    ))
              | inr other ↦ (
                0,
                rw (more, ga, gb, other) (ground arith),
                Longest-none input _ s2 limit le (inr (differ input _ s2 a b ga gb other)),
              )
            ])
    ]

-- The loop over words, and the bytes that it leaves.
match_words-Longest :
    (fuel : ℕ) (input : List ℕ) (s1 s2 limit matched : ℕ)
    → s1 + matched < s2
    → s2 ≤ limit
    → limit ≤ length input
    → limit < fuel + s2
    → All (λ b. b < 256) input
    → (m : ℕ) × (match_words fuel input s1 s2 limit matched ≡ some (matched + m))
      × Longest input (s1 + matched) s2 limit m
unfolding match_words
match_words-Longest zero input s1 s2 limit matched lt le h f bytes = absurd (omega arith)
match_words-Longest (suc fuel) input s1 s2 limit matched lt le h f bytes =
    elim (Bool-cases (leb (s2 + 4) limit)) [
      | inr few ↦
          rw few (match_bytes-Longest (limit + 1) input s1 s2 limit matched lt le h (omega arith))
      | inl more ↦
          (let a = le_value (part input s2 4) in
            let b = le_value (part input (s1 + matched) 4) in
            let ga : load32 input s2 ≡ some a = load32_lem input s2 (omega tests) in
            let gb : load32 input (s1 + matched) ≡ some b =
              load32_lem input (s1 + matched) (omega tests) in
            elim (Bool-cases (a == b)) [
              | inr other ↦
                  rw (more, ga, gb, other)
                    (match_bytes-Longest (limit + 1) input s1 s2 limit matched lt le h
                      (omega arith))
              | inl same ↦
                  (let (m, e, l) =
                      match_words-Longest fuel input s1 (s2 + 4) limit (matched + 4) (omega arith)
                        (omega tests) h (omega arith) bytes in
                    (
                      4 + m,
                      rw (more, ga, gb, same) (e ∙ ap (λ (t : ℕ). some t) (omega arith)),
                      Longest-add input (s1 + matched) s2 limit 4 m
                          (Matches-of_load32 input (s1 + matched) s2 b (omega tests) (omega tests)
                            bytes gb (ga ∙ ap (λ (t : ℕ). some t) (omega tests)))
                          (Longest-at input limit {n = m} (omega arith) refl refl l),
                    ))
            ])
    ]

-- The variant for a big-endian machine does what `FindMatchLength` promises: between a position and a
-- later one, in an input of bytes that reaches to `s2_limit`, it returns the number of bytes that match
-- up to `s2_limit`, no more and no fewer, and no read leaves the input.
pub find_match_length-Longest :
    (input : List ℕ) (s1 s2 limit : ℕ)
    → s1 < s2
    → s2 ≤ limit
    → limit ≤ length input
    → All (λ b. b < 256) input
    → (n : ℕ) × (find_match_length input s1 s2 limit ≡ some n) × Longest input s1 s2 limit n
unfolding find_match_length
find_match_length-Longest input s1 s2 limit lt le h bytes =
    let (n, e, l) =
      match_words-Longest (limit + 1) input s1 s2 limit 0 (omega arith) le h (omega arith) bytes in
    (
      n,
      e ∙ ap (λ (t : ℕ). some t) (omega arith),
      Longest-at input limit {n = n} (omega arith) refl refl l,
    )

abbrev pub word_matcher : Matcher
word_matcher = record { find = find_match_length; finds = find_match_length-Longest }
