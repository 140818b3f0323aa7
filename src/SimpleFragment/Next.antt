-- ===== src/SimpleFragment/Next.antt =====
-- The inner loop of the simple compressor: it ends near the end of the block, or at a position whose
-- four bytes stand at an earlier one too, and no access leaves the block or the table.
use csnappy.Common.{
  ℕ, zero, suc, ◌+◌, ◌-◌, ◌*◌, ◌/◌, ◌^◌, ◌≤◌, ◌<◌, ◌≡◌, arith, tests, ap, ◌∙◌, bit_or, List, length,
  All, some, leb, ◌==◌, Bool-cases, inl, inr,
}
use csnappy.Words.{le_value, part, load32}
use csnappy.Words.Loads.{load32_lem}
use csnappy.Match.Laws.{Matches-of_load32}
use csnappy.Fragment.{Scanned, exhausted, found, hash_bytes}
use csnappy.Fragment.Scan.{IsScanned, IsScanned-later}
use csnappy.Fragment.Table.{IsTable, IsPower, get-IsTable, put-IsTable, hash_bytes-lt}
use csnappy.SimpleFragment.{hash, next_match}
use csnappy.SimpleFragment.Window.{Window, Window-step}

hash-lt : (power v : ℕ) → IsPower power → hash v / 2 ^ (33 - power) < 2 ^ (power - 1)
unfolding hash hash_bytes
hash-lt power v ok = hash_bytes-lt power v ok

module _ (memory : List ℕ) (input_size power : ℕ) (power_ok : IsPower power)
    (bytes : All (λ b. b < 256) memory) (four : 4 ≤ input_size) (fits : input_size ≤ length memory)
    (block : input_size ≤ 2 ^ 15) where
  pub next_match-IsScanned :
      (fuel : ℕ) (wm : List ℕ) (base curr_val : ℕ)
      → base ≤ input_size
      → input_size < fuel + base
      → Window memory base curr_val
      → IsTable (2 ^ (power - 1)) (base + 1) wm
      → (r : Scanned) × (next_match memory input_size (33 - power) fuel wm base curr_val ≡ some r)
        × IsScanned memory (2 ^ (power - 1)) (input_size - 4) (base + 1) r
  unfolding next_match
  next_match-IsScanned zero wm base curr_val le f w t = absurd (omega arith)
  next_match-IsScanned (suc fuel) wm base curr_val le f w t =
      elim (Bool-cases (leb (input_size - 4) (base + 1))) [
        | inl over ↦ (exhausted, rw over, tt)
        | inr room ↦
            (let (d, gd, here, w') = Window-step memory base curr_val bytes (omega tests) w in
              let curr : ℕ = bit_or (curr_val / 2 ^ 8) (d * 2 ^ 24) in
              let lt = hash-lt power curr power_ok in
              let (match, em, mlt) = get-IsTable (hash curr / 2 ^ (33 - power)) t lt in
              let (wm', ew, t') =
                put-IsTable (hash curr / 2 ^ (33 - power)) (base + 1) (base + 1 + 1) t lt
                  (omega arith) (omega arith) in
              let there = le_value (part memory match 4) in
              let e2 : load32 memory match ≡ some there = load32_lem memory match (omega tests) in
              elim (Bool-cases (curr == there)) [
                | inl same ↦ (
                  found (base + 1) match wm',
                  rw (room, gd, em, ew, e2, same),
                  record {
                    from_start = omega arith;
                    in_limit = omega tests;
                    before = mlt;
                    four =
                        Matches-of_load32 memory match (base + 1) there (omega tests) (omega tests)
                          bytes e2 (here ∙ ap (λ (v : ℕ). some v) (omega tests));
                    table_ok = t';
                  },
                )
                | inr other ↦
                    (let (r, er, ok) =
                        next_match-IsScanned fuel wm' (base + 1) curr (omega tests) (omega arith) w'
                          t' in
                      (
                        r,
                        rw (room, gd, em, ew, e2, other) er,
                        IsScanned-later memory _ (input_size - 4) (base + 1) (base + 1 + 1) r
                            (omega arith) ok,
                      ))
              ])
      ]
