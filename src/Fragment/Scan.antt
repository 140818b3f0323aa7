-- ===== src/Fragment/Scan.antt =====
-- Step 1: the scan ends near the end of the input, or at a position whose four bytes stand at an
-- earlier candidate too, and no access leaves the input or the table.
use csnappy.Common.{
  ℕ, zero, suc, ◌+◌, ◌-◌, ◌/◌, ◌%◌, ◌^◌, ◌≤◌, ◌<◌, ◌≡◌, inl, inr, arith, tests, ap, ◌∙◌, List,
  length, All, some, ltb, ◌==◌, Bool-cases,
}
use csnappy.Words.{le_value, part, load32}
use csnappy.Words.Loads.{load32_lem}
use csnappy.Match.{Matcher, Matches}
use csnappy.Match.Laws.{Matches-of_load32}
use csnappy.Fragment.{Scanned, exhausted, found, scan}
use csnappy.Fragment.Table.{IsTable, IsPower, get-IsTable, put-IsTable, IsTable-later, hash_lem}

-- What a match at `ip` is: between the start of the scan and `ip_limit`, with an earlier candidate,
-- and a table that is good for any later position.
pub record IsFound (input : List ℕ) (size ip_limit from ip candidate : ℕ) (table : List ℕ)
    : Type 0 where
  pub from_start : from ≤ ip
  pub in_limit : ip < ip_limit
  pub before : candidate < ip
  pub four : Matches input candidate ip 4
  pub table_ok : IsTable size (ip + 1) table

abbrev pub IsScanned : List ℕ → ℕ → ℕ → ℕ → Scanned → Type 0
IsScanned input size ip_limit from exhausted = Unit
IsScanned input size ip_limit from (found ip candidate table) =
    IsFound input size ip_limit from ip candidate table

pub IsScanned-later :
    (input : List ℕ) (size ip_limit from from' : ℕ) (r : Scanned)
    → from ≤ from'
    → IsScanned input size ip_limit from' r
    → IsScanned input size ip_limit from r
IsScanned-later input size ip_limit from from' exhausted h s = tt
IsScanned-later input size ip_limit from from' (found ip candidate table) h s = record {
  from_start = omega (arith, s.from_start);
  in_limit = s.in_limit;
  before = s.before;
  four = s.four;
  table_ok = s.table_ok;
}

module _ (m : Matcher) (input : List ℕ) (power : ℕ) (ip_limit : ℕ) (power_ok : IsPower power)
    (bytes : All (λ b. b < 256) input) (margin : ip_limit + 15 ≡ length input)
    (block : length input ≤ 2 ^ 15) where
  pub scan-IsScanned :
      (fuel : ℕ) (table : List ℕ) (ip hash_ip skip : ℕ)
      → 1 ≤ ip
      → ip ≤ ip_limit + 1
      → ip_limit + 1 < fuel + ip
      → 32 ≤ skip
      → skip ≤ 32 + ip
      → hash_ip < 2 ^ (power - 1)
      → IsTable (2 ^ (power - 1)) ip table
      → (r : Scanned) × (scan m input (33 - power) ip_limit fuel table ip hash_ip skip ≡ some r)
        × IsScanned input (2 ^ (power - 1)) ip_limit ip r
  unfolding scan
  scan-IsScanned zero table ip hash_ip skip pos le f lo hi lt t = absurd (omega arith)
  scan-IsScanned (suc fuel) table ip hash_ip skip pos le f lo hi lt t =
      elim (Bool-cases (ltb ip_limit (ip + skip / 2 ^ 5))) [
        | inl over ↦ (exhausted, rw over, tt)
        | inr room ↦
            (let next : ℕ = ip + skip / 2 ^ 5 in
              let (h, eh, hlt) = hash_lem input next power (omega tests) power_ok in
              let (candidate, ec, clt) = get-IsTable hash_ip t lt in
              let (table', et, t') =
                put-IsTable hash_ip ip (ip + 1) t lt (omega arith) (omega arith) in
              let here = le_value (part input ip 4) in
              let there = le_value (part input candidate 4) in
              let e1 : load32 input ip ≡ some here = load32_lem input ip (omega tests) in
              let e2 : load32 input candidate ≡ some there =
                load32_lem input candidate (omega tests) in
              elim (Bool-cases (here == there)) [
                | inl same ↦ (
                  found ip candidate table',
                  rw (room, eh, ec, et, e1, e2, same),
                  record {
                    from_start = omega arith;
                    in_limit = omega tests;
                    before = clt;
                    four =
                        Matches-of_load32 input candidate ip there (omega tests) (omega tests) bytes
                          e2 (e1 ∙ ap (λ (v : ℕ). some v) (omega tests));
                    table_ok = t';
                  },
                )
                | inr other ↦
                    (let (r, er, ok) =
                        scan-IsScanned fuel table' next h ((skip + 1) % 2 ^ 32) (omega arith)
                          (omega tests) (omega tests) (omega arith) (omega arith) hlt
                          (IsTable-later (ip + 1) next t' (omega arith)) in
                      (
                        r,
                        rw (room, eh, ec, et, e1, e2, other) er,
                        IsScanned-later input _ ip_limit ip next r (omega arith) ok,
                      ))
              ])
      ]
