-- ===== src/Match/Little.antt =====
-- The variant for a little-endian machine of 32 bits.
use csnappy.Common.{
  ℕ, zero, suc, ◌+◌, ◌/◌, ◌^◌, ◌≤◌, ◌<◌, ◌≡◌, inl, inr, arith, refl, ap, ◌∙◌, tests, List, length,
  All, some, leb, ◌==◌, Bool-cases, bit_xor,
}
use csnappy.Common.Xor.{bit_xor-lt}
use csnappy.Words.{part, le_value, load32}
use csnappy.Words.Loads.{load32_lem, length-part, part-IsByte, le_value-lt}
use csnappy.LowBit.{find_lsb_set_non_zero, find_lsb_set_non_zero-lowest}
use csnappy.Match.{Longest, Matcher, match_words_little, find_match_length_little}
use csnappy.Match.Laws.{Matches-of_value}
use csnappy.Match.Long.{low_bytes-Longest, nonzero}
use csnappy.Match.Bytes.{Longest-add, Longest-at, match_bytes-Longest}

word32-lt :
    (input : List ℕ) (s : ℕ)
    → All (λ b. b < 256) input
    → s + 4 ≤ length input
    → le_value (part input s 4) < 2 ^ 32
word32-lt input s bytes h = omega (
  arith,
  le_value-lt (part input s 4) (part-IsByte input s 4 bytes),
  ap (λ (t : ℕ). 256 ^ t) (length-part input s 4 h),
)

match_words_little-Longest :
    (fuel : ℕ) (input : List ℕ) (s1 s2 limit matched : ℕ)
    → s1 + matched < s2
    → s2 ≤ limit
    → limit ≤ length input
    → limit < fuel + s2
    → All (λ b. b < 256) input
    → (m : ℕ) × (match_words_little fuel input s1 s2 limit matched ≡ some (matched + m))
      × Longest input (s1 + matched) s2 limit m
unfolding match_words_little
match_words_little-Longest zero input s1 s2 limit matched lt le h f bytes = absurd (omega arith)
match_words_little-Longest (suc fuel) input s1 s2 limit matched lt le h f bytes =
    elim (Bool-cases (leb (s2 + 4) limit)) [
      | inr few ↦
          rw few (match_bytes-Longest (limit + 1) input s1 s2 limit matched lt le h (omega arith))
      | inl more ↦
          (let a = le_value (part input s2 4) in
            let b = le_value (part input (s1 + matched) 4) in
            let ga : load32 input s2 ≡ some a = load32_lem input s2 (omega tests) in
            let gb : load32 input (s1 + matched) ≡ some b =
              load32_lem input (s1 + matched) (omega tests) in
            elim (Bool-cases (a == b)) [
              | inr other ↦
                  (let la : a < 2 ^ 32 = word32-lt input s2 bytes (omega tests) in
                    let lb : b < 2 ^ 32 = word32-lt input (s1 + matched) bytes (omega tests) in
                    let (low, small) =
                      find_lsb_set_non_zero-lowest (bit_xor b a)
                        (nonzero 32 b a (ground (arith, other)) lb la) (bit_xor-lt 32 b a lb la) in
                    (
                      find_lsb_set_non_zero (bit_xor b a) / 8,
                      rw (more, ga, gb, other) refl,
                      low_bytes-Longest input (s1 + matched) s2 limit 4 _ bytes (omega tests)
                          (omega tests) h (omega (arith, small)) low,
                    ))
              | inl same ↦
                  (let (m, e, l) =
                      match_words_little-Longest fuel input s1 (s2 + 4) limit (matched + 4)
                        (omega arith) (omega tests) h (omega arith) bytes in
                    (
                      4 + m,
                      rw (more, ga, gb, same) (e ∙ ap (λ (t : ℕ). some t) (omega arith)),
                      Longest-add input (s1 + matched) s2 limit 4 m
                          (Matches-of_value input 4 (s1 + matched) s2 (omega tests) (omega tests)
                            bytes (omega tests))
                          (Longest-at input limit {n = m} (omega arith) refl refl l),
                    ))
            ])
    ]

-- The variant for a little-endian machine of 32 bits does what `FindMatchLength` promises: between a
-- position and a later one, in an input of bytes that reaches to `s2_limit`, it returns the number of
-- bytes that match up to `s2_limit`, no more and no fewer, and no read leaves the input.
pub find_match_length_little-Longest :
    (input : List ℕ) (s1 s2 limit : ℕ)
    → s1 < s2
    → s2 ≤ limit
    → limit ≤ length input
    → All (λ b. b < 256) input
    → (n : ℕ) × (find_match_length_little input s1 s2 limit ≡ some n) × Longest input s1 s2 limit n
unfolding find_match_length_little
find_match_length_little-Longest input s1 s2 limit lt le h bytes =
    let (n, e, l) =
      match_words_little-Longest (limit + 1) input s1 s2 limit 0 (omega arith) le h (omega arith)
        bytes in
    (
      n,
      e ∙ ap (λ (t : ℕ). some t) (omega arith),
      Longest-at input limit {n = n} (omega arith) refl refl l,
    )

abbrev pub little_matcher : Matcher
little_matcher = record {
  find = find_match_length_little;
  finds = find_match_length_little-Longest;
}
