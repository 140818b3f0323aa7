-- ===== src/SimpleFragment/Lengths.antt =====
-- What `find_match_length` counts.
use csnappy.Common.{
  ℕ, zero, suc, ◌+◌, ◌-◌, ◌%◌, ◌^◌, ◌≤◌, ◌<◌, ◌≡◌, min, arith, refl, sym, ap, ◌∙◌, List, length,
  get_elem?, Option, some, lt→ltb, le→ltb, ◌==◌, true, false, Bool-cases, inl, inr, ==→eq,
}
use native.Mathlib.Decide.{dec_lt}
use csnappy.Common.Memory.{get_elem?-lt}
use csnappy.Match.{Longest}
use csnappy.Match.Laws.{Matches-at}
use csnappy.SimpleFragment.{match_run, find_match_length}

-- The loop stops behind the first byte that differs, or at the end.
abbrev Counted : List ℕ → ℕ → ℕ → ℕ → Option ℕ → Type 0
Counted memory s1 s2 s2_end r =
    (n : ℕ) × Longest memory s1 s2 s2_end n × (r ≡ some (min (s2 + n + 1) s2_end))

module _ (memory : List ℕ) (s1 s2 s2_end : ℕ) where
  match_run_end : (fuel : ℕ) → s2_end ≤ s2 → match_run (suc fuel) memory s1 s2 s2_end ≡ some s2
  unfolding match_run
  match_run_end fuel over = rw (le→ltb s2 s2_end over) refl

  Counted-end : s2 ≡ s2_end → Counted memory s1 s2 s2_end (some s2)
  Counted-end e = (
    0,
    record { within = omega arith; same = tt; stops = inl (omega arith) },
    (let m : s2 ≡ min (s2 + 0 + 1) s2_end = omega arith in ap (λ (t : ℕ). some t) m),
  )

  module _ (a b : ℕ) (ga : get_elem? memory s1 ≡ some a) (gb : get_elem? memory s2 ≡ some b)
      (lt : s2 < s2_end) where
    match_run_step :
        (fuel : ℕ)
        → match_run (suc fuel) memory s1 s2 s2_end ≡ elim (a == b) [
          | true ↦ match_run fuel memory (s1 + 1) (s2 + 1) s2_end
          | false ↦ some (s2 + 1)
        ]
    unfolding match_run
    match_run_step fuel = rw (lt→ltb s2 s2_end lt, ga, gb) refl

    match_run_on :
        (fuel : ℕ)
        → (a == b) ≡ true
        → match_run (suc fuel) memory s1 s2 s2_end ≡ match_run fuel memory (s1 + 1) (s2 + 1) s2_end
    match_run_on fuel eq = match_run_step fuel ∙ rw eq refl

    match_run_stop :
        (fuel : ℕ) → (a == b) ≡ false → match_run (suc fuel) memory s1 s2 s2_end ≡ some (s2 + 1)
    match_run_stop fuel ne = match_run_step fuel ∙ rw ne refl

    Counted-differs : (a == b) ≡ false → Counted memory s1 s2 s2_end (some (s2 + 1))
    Counted-differs ne =
        let p : s1 + 0 ≡ s1 = omega arith in
        let q : s2 + 0 ≡ s2 = omega arith in
        let m : s2 + 1 ≡ min (s2 + 0 + 1) s2_end = omega arith in
        (
          0,
          record {
            within = omega arith;
            same = tt;
            stops = inr (λ e.
                different
                  (sym ga ∙ sym (ap (get_elem? memory) p) ∙ e ∙ ap (get_elem? memory) q ∙ gb));
          },
          ap (λ (t : ℕ). some t) m,
        )
      where
        different : some a ≡ some b → ⊥
        different e = ground arith

    Counted-on :
        (r : Option ℕ)
        → (a == b) ≡ true
        → Counted memory (s1 + 1) (s2 + 1) s2_end r
        → Counted memory s1 s2 s2_end r
    Counted-on r eq (n, l, e) =
        let ab : a ≡ b = ==→eq a b eq in
        let p : s1 + 1 + n ≡ s1 + suc n = omega arith in
        let q : s2 + 1 + n ≡ s2 + suc n = omega arith in
        (
          suc n,
          record {
            within = omega (arith, l.within);
            same = (
              ga ∙ ap (λ (t : ℕ). some t) ab ∙ sym gb,
              Matches-at memory (omega arith) (omega arith) refl l.same,
            );
            stops = rw q at (rw p at l.stops);
          },
          e ∙ ap (λ (t : ℕ). some t) (omega arith),
        )

match_run-Counted :
    (fuel : ℕ) (memory : List ℕ) (s1 s2 s2_end : ℕ)
    → s1 ≤ s2
    → s2 ≤ s2_end
    → s2_end ≤ length memory
    → s2_end - s2 < fuel
    → Counted memory s1 s2 s2_end (match_run fuel memory s1 s2 s2_end)
match_run-Counted zero memory s1 s2 s2_end h le fits enough = absurd (omega arith)
match_run-Counted (suc fuel) memory s1 s2 s2_end h le fits enough = elim (dec_lt s2 s2_end) [
  | no over ↦
      rw (match_run_end memory s1 s2 s2_end fuel (omega arith))
        (Counted-end memory s1 s2 s2_end (omega arith))
  | yes lt ↦
      (let (a, ga) = get_elem?-lt memory s1 (omega arith) in
        let (b, gb) = get_elem?-lt memory s2 (omega arith) in
        elim (Bool-cases (a == b)) [
          | inl eq ↦ rw (match_run_on memory s1 s2 s2_end a b ga gb lt fuel eq) (
              Counted-on memory s1 s2 s2_end a b ga gb lt _ eq (
                match_run-Counted fuel memory (s1 + 1) (s2 + 1) s2_end (omega arith) (omega arith)
                  fits (omega arith)))
          | inr ne ↦
              rw (match_run_stop memory s1 s2 s2_end a b ga gb lt fuel ne)
                (Counted-differs memory s1 s2 s2_end a b ga gb lt ne)
        ])
]

-- If `s1` does not lie behind `s2`, and `s2` lies before `s2_end`, which is inside the memory and below
-- 2^32: `find_match_length` returns, having read nothing at or past `s2_end`. The result is the length of the longest match, or one
-- less, if that reaches `s2_end`.
pub find_match_length-min :
    (memory : List ℕ) (s1 s2 s2_end : ℕ)
    → s1 ≤ s2
    → s2 < s2_end
    → s2_end ≤ length memory
    → s2_end < 2 ^ 32
    → (n : ℕ) × Longest memory s1 s2 s2_end n
      × (find_match_length memory s1 s2 s2_end ≡ some (min n (s2_end - s2 - 1)))
unfolding find_match_length
find_match_length-min memory s1 s2 s2_end h lt fits small =
    let (n, l, e) =
      match_run-Counted (s2_end - s2 + 1) memory s1 s2 s2_end h (omega arith) fits (omega arith) in
    let count : (min (s2 + n + 1) s2_end - s2 + (2 ^ 32 - 1)) % 2 ^ 32 ≡ min n (s2_end - s2 - 1) =
      omega (arith, l.within) in
    (n, l, rw e (ap (λ (t : ℕ). some t) count))
