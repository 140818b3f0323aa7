-- ===== src/Match/Long.antt =====
-- The variants that count the equal low bytes of two words find the longest match too.
use csnappy.Common.{
  ℕ, zero, suc, ◌+◌, ◌*◌, ◌/◌, ◌%◌, ◌^◌, ◌≤◌, ◌<◌, ◌≡◌, inl, inr, arith, refl, ap, ◌∙◌, tests, List,
  length, All, some, leb, ◌==◌, Bool-cases, false, bit_xor,
}
use csnappy.Common.Xor.{bit_xor-lt, bit_xor-zero}
use csnappy.Words.{part, le_value, load64}
use csnappy.Words.Loads.{load64_lem, length-part, part-IsByte, le_value-lt}
use csnappy.LowBit.{find_lsb_set_non_zero64, find_lsb_set_non_zero64-lowest}
use csnappy.Match.{Longest, Matcher, match_long_words, find_match_length_long}
use csnappy.Match.Laws.{Matches-of_value}
use csnappy.Match.LowBytes.{low_bytes-Matches, low_bytes_differ}
use csnappy.Match.Bytes.{Longest-add, Longest-at, match_bytes-Longest}

-- Two words of `w` bytes inside the limit, with the place `k` of the lowest bit that differs.
pub low_bytes-Longest :
    (input : List ℕ) (s1 s2 limit w k : ℕ)
    → All (λ b. b < 256) input
    → s1 + w ≤ length input
    → s2 + w ≤ limit
    → limit ≤ length input
    → k < 8 * w
    → bit_xor (le_value (part input s1 w)) (le_value (part input s2 w)) % 2 ^ (k + 1) ≡ 2 ^ k
    → Longest input s1 s2 limit (k / 8)
low_bytes-Longest input s1 s2 limit w k bytes in1 in2 le inside lowest = record {
  within = omega arith;
  same = low_bytes-Matches input s1 s2 w k bytes in1 (omega arith) inside lowest;
  stops = inr (low_bytes_differ input s1 s2 w k bytes in1 (omega arith) inside lowest);
}

word64-lt :
    (input : List ℕ) (s : ℕ)
    → All (λ b. b < 256) input
    → s + 8 ≤ length input
    → le_value (part input s 8) < 2 ^ 64
word64-lt input s bytes h = omega (
  arith,
  le_value-lt (part input s 8) (part-IsByte input s 8 bytes),
  ap (λ (t : ℕ). 256 ^ t) (length-part input s 8 h),
)

pub nonzero : (k a b : ℕ) → (a == b) ≡ false → a < 2 ^ k → b < 2 ^ k → 0 < bit_xor a b
nonzero k a b d la lb = elim (Bool-cases (bit_xor a b == 0)) [
  | inl z ↦
      (let e : a ≡ b = bit_xor-zero k a b la lb (omega (tests, z)) in absurd (ground (arith, d, e)))
  | inr p ↦ ground (arith, p)
]

match_long_words-Longest :
    (fuel : ℕ) (input : List ℕ) (s1 s2 limit matched : ℕ)
    → s1 + matched < s2
    → s2 ≤ limit
    → limit ≤ length input
    → limit < fuel + s2
    → All (λ b. b < 256) input
    → (m : ℕ) × (match_long_words fuel input s1 s2 limit matched ≡ some (matched + m))
      × Longest input (s1 + matched) s2 limit m
unfolding match_long_words
match_long_words-Longest zero input s1 s2 limit matched lt le h f bytes = absurd (omega arith)
match_long_words-Longest (suc fuel) input s1 s2 limit matched lt le h f bytes =
    elim (Bool-cases (leb (s2 + 8) limit)) [
      | inr few ↦
          rw few (match_bytes-Longest (limit + 1) input s1 s2 limit matched lt le h (omega arith))
      | inl more ↦
          (let a = le_value (part input (s1 + matched) 8) in
            let b = le_value (part input s2 8) in
            let ga : load64 input (s1 + matched) ≡ some a =
              load64_lem input (s1 + matched) (omega tests) in
            let gb : load64 input s2 ≡ some b = load64_lem input s2 (omega tests) in
            elim (Bool-cases (a == b)) [
              | inr other ↦
                  (let la : a < 2 ^ 64 = word64-lt input (s1 + matched) bytes (omega tests) in
                    let lb : b < 2 ^ 64 = word64-lt input s2 bytes (omega tests) in
                    let pos : 0 < bit_xor a b = nonzero 64 a b other la lb in
                    let (low, small) =
                      find_lsb_set_non_zero64-lowest (bit_xor a b) pos (bit_xor-lt 64 a b la lb) in
                    (
                      find_lsb_set_non_zero64 (bit_xor a b) / 8,
                      rw (more, ga, gb, other) refl,
                      low_bytes-Longest input (s1 + matched) s2 limit 8 _ bytes (omega tests)
                          (omega tests) h (omega (arith, small)) low,
                    ))
              | inl same ↦
                  (let (m, e, l) =
                      match_long_words-Longest fuel input s1 (s2 + 8) limit (matched + 8)
                        (omega arith) (omega tests) h (omega arith) bytes in
                    (
                      8 + m,
                      rw (more, ga, gb, same) (e ∙ ap (λ (t : ℕ). some t) (omega arith)),
                      Longest-add input (s1 + matched) s2 limit 8 m
                          (Matches-of_value input 8 (s1 + matched) s2 (omega tests) (omega tests)
                            bytes (omega tests))
                          (Longest-at input limit {n = m} (omega arith) refl refl l),
                    ))
            ])
    ]

-- The variant for x86-64 and aarch64 does what `FindMatchLength` promises: between a
-- position and a later one, in an input of bytes that reaches to `s2_limit`, it returns the number of
-- bytes that match up to `s2_limit`, no more and no fewer, and no read leaves the input.
pub find_match_length_long-Longest :
    (input : List ℕ) (s1 s2 limit : ℕ)
    → s1 < s2
    → s2 ≤ limit
    → limit ≤ length input
    → All (λ b. b < 256) input
    → (n : ℕ) × (find_match_length_long input s1 s2 limit ≡ some n) × Longest input s1 s2 limit n
unfolding find_match_length_long
find_match_length_long-Longest input s1 s2 limit lt le h bytes =
    let (n, e, l) =
      match_long_words-Longest (limit + 1) input s1 s2 limit 0 (omega arith) le h (omega arith)
        bytes in
    (
      n,
      e ∙ ap (λ (t : ℕ). some t) (omega arith),
      Longest-at input limit {n = n} (omega arith) refl refl l,
    )

abbrev pub long_matcher : Matcher
long_matcher = record { find = find_match_length_long; finds = find_match_length_long-Longest }
