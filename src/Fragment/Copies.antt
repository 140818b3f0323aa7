-- ===== src/Fragment/Copies.antt =====
-- Step 3: copies are emitted for a match and for those that follow at once, and no access leaves the
-- input or the table.
use csnappy.Common.{
  ℕ, zero, suc, ◌+◌, ◌-◌, ◌^◌, ◌≤◌, ◌<◌, ◌≡◌, inl, inr, arith, tests, ap, ◌∙◌, List, length,
  get_elem?, All, some, leb, ◌==◌, Bool-cases, true,
}
use csnappy.Words.{le_value, part, load32, load64, get_uint32_at_offset}
use csnappy.Words.Loads.{load32_lem, load64_lem}
use csnappy.Words.Eight.{get_uint32_at_offset-load64}
use csnappy.Emit.{Out}
use csnappy.Emit.LongCopy.{emit_copy-Copied}
use csnappy.Match.{Matcher, Matches}
use csnappy.Match.Laws.{Matches-of_load32, Matches-add}
use csnappy.Fragment.{Copied, stopped, unmatched, hash_bytes, put_table, copy_matches}
use csnappy.Fragment.Table.{IsTable, IsPower, get-IsTable, put-IsTable, hash_bytes-lt}
use csnappy.Fragment.Progress.{Progress, Progress-more, Progress-copy}

module _ (prefix input : List ℕ) (start : Out) (size ip_limit : ℕ) where
  -- The output is up to `ip`, which lies past the start of the match.
  pub record IsUnmatched (from : ℕ) (out : Out) (ip : ℕ) (table : List ℕ) (hash : ℕ) : Type 0 where
    pub later : from < ip
    pub in_limit : ip < ip_limit
    pub progress : Progress prefix input start 0 ip out
    pub table_ok : IsTable size (ip + 1) table
    pub hash_ok : hash < size

  pub record IsStopped (out : Out) (ip : ℕ) : Type 0 where
    pub within : ip ≤ length input
    pub progress : Progress prefix input start 0 ip out

  abbrev pub IsCopied : ℕ → Copied → Type 0
  IsCopied from (stopped out ip) = IsStopped out ip
  IsCopied from (unmatched out ip table hash) = IsUnmatched from out ip table hash

  pub IsCopied-later :
      (from from' : ℕ) (r : Copied) → from ≤ from' → IsCopied from' r → IsCopied from r
  IsCopied-later from from' (stopped out ip) h s = s
  IsCopied-later from from' (unmatched out ip table hash) h s = record {
    later = omega (arith, s.later);
    in_limit = s.in_limit;
    progress = s.progress;
    table_ok = s.table_ok;
    hash_ok = s.hash_ok;
  }

module _ (m : Matcher) (prefix input : List ℕ) (start : Out) (power ip_limit : ℕ)
    (power_ok : IsPower power) (bytes : All (λ b. b < 256) input)
    (margin : ip_limit + 15 ≡ length input) (block : length input ≤ 2 ^ 15) where
  abbrev size : ℕ
  size = 2 ^ (power - 1)

  abbrev hash_at : ℕ → ℕ → ℕ
  hash_at v offset = hash_bytes (get_uint32_at_offset v offset) (33 - power)

  -- Both table updates behind a copy that ends at `ip`, and the next candidate.
  record Updated (table : List ℕ) (ip v : ℕ) : Type 0 where
    table1 : List ℕ
    candidate : ℕ
    table2 : List ℕ
    put1 : put_table table (hash_at v 0) (ip - 1) ≡ some table1
    get : get_elem? table1 (hash_at v 1) ≡ some candidate
    put2 : put_table table1 (hash_at v 1) ip ≡ some table2
    before : candidate < ip
    table_ok : IsTable size (ip + 1) table2

  update :
      (table : List ℕ) (from ip v : ℕ)
      → IsTable size (from + 1) table
      → from < ip
      → ip < 2 ^ 15
      → Updated table ip v
  update table from ip v t lt small =
      let h = λ (k : ℕ). hash_bytes-lt power (get_uint32_at_offset v k) power_ok in
      let (table1, put1, t1) =
        put-IsTable (hash_at v 0) (ip - 1) ip t (h 0) (omega arith) (omega arith) in
      let (candidate, get, before) = get-IsTable (hash_at v 1) t1 (h 1) in
      let (table2, put2, t2) =
        put-IsTable (hash_at v 1) ip (ip + 1) t1 (h 1) (omega arith) (omega arith) in
      record {
        table1 = table1;
        candidate = candidate;
        table2 = table2;
        put1 = put1;
        get = get;
        put2 = put2;
        before = before;
        table_ok = t2;
      }

  -- The word behind the copy and its candidate agree: a match of four bytes.
  next_match :
      (ip candidate v there : ℕ)
      → 1 ≤ ip
      → ip < ip_limit
      → candidate < ip
      → load64 input (ip - 1) ≡ some v
      → load32 input candidate ≡ some there
      → (get_uint32_at_offset v 1 == there) ≡ true
      → Matches input candidate ip 4
  next_match ip candidate v there pos le lt ev et same =
      let e : ip - 1 + 1 ≡ ip = omega arith in
      Matches-of_load32 input candidate ip there (omega arith) (omega arith) bytes et (
        (rw e at
          (get_uint32_at_offset-load64 input (ip - 1) 1 v (omega arith) (omega arith) bytes ev))
        ∙ ap (λ (t : ℕ). some t) (omega tests))

  -- The loop from a match of four bytes on.
  pub copy_matches-IsCopied :
      (fuel : ℕ) (out : Out) (base candidate : ℕ) (table : List ℕ)
      → candidate < base
      → base < ip_limit
      → ip_limit < fuel + base
      → Matches input candidate base 4
      → IsTable size (base + 1) table
      → Progress prefix input start 61 base out
      → (r : Copied) × (copy_matches m input (33 - power) ip_limit fuel out base candidate table
          ≡ some r)
        × IsCopied prefix input start size ip_limit base r
  unfolding copy_matches
  copy_matches-IsCopied zero out base candidate table lt le f four t p = absurd (omega arith)
  copy_matches-IsCopied (suc fuel) out base candidate table lt le f four t p =
      let (n, en, l) =
        m.finds input (candidate + 4) (base + 4) (length input) (omega arith) (omega arith)
          (omega arith) bytes in
      let ip : ℕ = base + (4 + n) in
      let (out', eo, c) =
        emit_copy-Copied (base - candidate) (omega arith) (omega arith) out (4 + n) (omega arith) in
      let p' : Progress prefix input start 0 ip out' =
        Progress-copy prefix input start base candidate (4 + n) out out' lt (omega arith)
          (omega (arith, l.within)) (Matches-add input 4 n candidate base four l.same) p c in
      elim (Bool-cases (leb ip_limit ip)) [
        | inl near ↦ (
          stopped out' ip,
          rw (en, eo, near),
          record { within = omega (arith, l.within); progress = p' },
        )
        | inr room ↦
            (let v = le_value (part input (ip - 1) 8) in
              let ev : load64 input (ip - 1) ≡ some v = load64_lem input (ip - 1) (omega tests) in
              let u : Updated table ip v = update table base ip v t (omega arith) (omega tests) in
              let there = le_value (part input u.candidate 4) in
              let et : load32 input u.candidate ≡ some there =
                load32_lem input u.candidate (omega (tests, u.before)) in
              elim (Bool-cases (get_uint32_at_offset v 1 == there)) [
                | inl same ↦
                    (let (r, er, ok) =
                        copy_matches-IsCopied fuel out' ip u.candidate u.table2 u.before
                          (omega tests) (omega arith)
                          (next_match ip u.candidate v there (omega arith) (omega tests) u.before ev
                            et same)
                          u.table_ok (Progress-more prefix input start ip out' p') in
                      (
                        r,
                        rw (en, eo, room, ev, u.put1, u.get, et, u.put2, same) er,
                        IsCopied-later prefix input start size ip_limit base ip r (omega arith) ok,
                      ))
                | inr other ↦ (
                  unmatched out' ip u.table2 (hash_at v 2),
                  rw (en, eo, room, ev, u.put1, u.get, et, u.put2, other),
                  record {
                    later = omega arith;
                    in_limit = omega tests;
                    progress = p';
                    table_ok = u.table_ok;
                    hash_ok = hash_bytes-lt power _ power_ok;
                  },
                )
              ])
      ]
