-- ===== src/Fragment/Blocks.antt =====
-- The whole of `csnappy_compress_fragment`: it returns on every block, and what it writes expands to
-- the block.
use csnappy.Common.{
  ℕ, zero, suc, ◌+◌, ◌-◌, ◌*◌, ◌^◌, ◌≤◌, ◌<◌, ◌≡◌, max, inl, inr, arith, refl, tests, List, ◌++◌,
  length, take_all, replicate, All, Option, some, ltb, Bool-cases, Bool, true, false,
}
use csnappy.Common.Partial.{◌>>=◌}
use csnappy.Format.{Expands}
use csnappy.Emit.{Out, emit_literal}
use csnappy.Emit.LongLiteral.{emit_literal-Emitted}
use csnappy.Match.{Matcher}
use csnappy.Fragment.{
  Scanned, exhausted, found, Copied, stopped, unmatched, copy_matches, main_loop, emit_remainder,
  compress_fragment, hash,
}
use csnappy.Fragment.Table.{IsTable, IsPower, fresh-IsTable, hash_lem}
use csnappy.Fragment.Progress.{
  Progress, Progress-at, Progress-start, Progress-literal, Progress-more,
}
use csnappy.Fragment.Scan.{IsScanned, scan-IsScanned}
use csnappy.Fragment.Copies.{IsCopied, copy_matches-IsCopied}

-- The literal of `len` bytes at `next_emit`, on the fast path where 16 bytes of input are left.
module _ (prefix input : List ℕ) (start : Out) (bytes : All (λ b. b < 256) input)
    (block : length input ≤ 2 ^ 15) where
  literal_upto :
      (next_emit end : ℕ) (fast : Bool) (out : Out)
      → next_emit < end
      → end ≤ length input
      → (fast ≡ true → next_emit + 16 ≤ length input)
      → Progress prefix input start 0 next_emit out
      → (out' : Out) × (emit_literal input out next_emit (end - next_emit) fast ≡ some out')
        × Progress prefix input start 61 end out'
  literal_upto next_emit end fast out lt le room p =
      let e : next_emit + (end - next_emit) ≡ end = omega arith in
      let (out', eo, m) =
        emit_literal-Emitted input out next_emit (end - next_emit) fast (omega arith) (omega arith)
          (omega arith) bytes room in
      (
        out',
        eo,
        Progress-at prefix input start 61 out' e (
            Progress-literal prefix input start next_emit (end - next_emit) out out' (omega arith)
              (omega arith) p m),
      )

  emit_remainder-Progress :
      (next_emit : ℕ) (out : Out)
      → next_emit ≤ length input
      → Progress prefix input start 0 next_emit out
      → (out' : Out) × (emit_remainder input out next_emit ≡ some out')
        × Progress prefix input start 61 (length input) out'
  unfolding emit_remainder
  emit_remainder-Progress next_emit out le p = elim (Bool-cases (ltb next_emit (length input))) [
    | inl more ↦
        rw more
          (literal_upto next_emit (length input) false out (omega tests) (omega arith) (λ e. cc) p)
    | inr none_left ↦
        (let e : next_emit ≡ length input = omega tests in
          (
            out,
            rw none_left,
            Progress-at prefix input start 61 out e
                (Progress-more prefix input start next_emit out p),
          ))
  ]

module _ (m : Matcher) (prefix input : List ℕ) (start : Out) (power ip_limit : ℕ)
    (power_ok : IsPower power) (bytes : All (λ b. b < 256) input)
    (margin : ip_limit + 15 ≡ length input) (block : length input ≤ 2 ^ 15) where
  -- Where the loop leaves the output and `next_emit`.
  abbrev Reaches : Option (Out × ℕ) → Type 0
  Reaches r =
      (out : Out) × (end : ℕ) × (r ≡ some (out, end))
      × (end ≤ length input)
      × Progress prefix input start 0 end out

  -- What holds of the loop with `fuel` rounds.
  abbrev Runs : ℕ → Type 0
  Runs fuel =
      (out : Out) (next_emit ip next_hash : ℕ) (table : List ℕ)
      → next_emit < ip
      → ip ≤ ip_limit + 1
      → ip_limit + 1 < fuel + ip
      → next_hash < 2 ^ (power - 1)
      → IsTable (2 ^ (power - 1)) ip table
      → Progress prefix input start 0 next_emit out
      → Reaches (main_loop m input (33 - power) ip_limit fuel out next_emit ip next_hash table)

  after_copies :
      (fuel ip from : ℕ) (r : Copied)
      → Runs fuel
      → ip_limit + 1 < suc fuel + ip
      → ip ≤ from
      → IsCopied prefix input start (2 ^ (power - 1)) ip_limit from r
      → Reaches (elim r [
        | stopped out end ↦ some (out, end)
        | unmatched out end table hash ↦
            main_loop m input (33 - power) ip_limit fuel out end (end + 1) hash table
      ])
  after_copies fuel ip from (stopped out end) again f le c = (out, end, refl, c.within, c.progress)
  after_copies fuel ip from (unmatched out end table hash) again f le c =
      again out end (end + 1) hash table (omega arith) (omega (arith, c.in_limit))
        (omega (arith, c.later)) c.hash_ok c.table_ok c.progress

  after_scan :
      (fuel : ℕ) (out : Out) (next_emit ip : ℕ) (r : Scanned)
      → Runs fuel
      → next_emit < ip
      → ip ≤ ip_limit + 1
      → ip_limit + 1 < suc fuel + ip
      → Progress prefix input start 0 next_emit out
      → IsScanned input (2 ^ (power - 1)) ip_limit ip r
      → Reaches (elim r [
        | exhausted ↦ some (out, next_emit)
        | found at candidate table ↦ (do
          out' ← emit_literal input out next_emit (at - next_emit) true
          copied ←
              copy_matches m input (33 - power) ip_limit (length input + 1) out' at candidate table
          elim copied [
            | stopped out'' end ↦ some (out'', end)
            | unmatched out'' end table' hash ↦
                main_loop m input (33 - power) ip_limit fuel out'' end (end + 1) hash table'
          ])
      ])
  after_scan fuel out next_emit ip exhausted again lt le f p s =
      (out, next_emit, refl, omega arith, p)
  after_scan fuel out next_emit ip (found at candidate table) again lt le f p s =
      let (out', eo, p') =
        literal_upto prefix input start bytes block next_emit at true out
          (omega (arith, s.from_start)) (omega (arith, s.in_limit))
          (λ e. omega (arith, s.from_start, s.in_limit)) p in
      let (r, er, c) =
        copy_matches-IsCopied m prefix input start power ip_limit power_ok bytes margin block
          (length input + 1) out' at candidate table s.before s.in_limit (omega arith) s.four
          s.table_ok p' in
      rw (eo, er) (after_copies fuel ip at r again f s.from_start c)

  main_loop-Reaches : (fuel : ℕ) → Runs fuel
  unfolding main_loop
  main_loop-Reaches zero out next_emit ip next_hash table lt le f h t p = absurd (omega arith)
  main_loop-Reaches (suc fuel) out next_emit ip next_hash table lt le f h t p =
      let (r, er, ok) =
        scan-IsScanned m input power ip_limit power_ok bytes margin block (length input + 1) table
          ip next_hash 32 (omega arith) le (omega arith) (omega arith) (omega arith) h t in
      rw er (after_scan fuel out next_emit ip r (main_loop-Reaches fuel) lt le f p ok)

-- What `csnappy_compress_fragment` leaves behind: it appended `written` to the output, a sequence of
-- elements that expands to the block, of at most 62 bytes for every 61 of the block and one more,
-- and wrote at most 15 bytes past the end.
pub record IsCompressed (prefix input : List ℕ) (start out : Out) : Type 0 where
  pub written : List ℕ
  pub appended : out.bytes ≡ start.bytes ++ written
  pub expands : Expands (prefix ++ input) written prefix
  pub are_bytes : All (λ b. b < 256) written
  pub small : 61 * length written ≤ 62 * length input + 61
  pub bounded : out.reach ≤ max start.reach (length out.bytes + 15)

-- On every block of at most 32 KiB of bytes, whatever was decompressed before it, and for every table
-- of 2^9 to 2^16 bytes, `csnappy_compress_fragment` returns, with no access outside the input and the table; what it
-- writes expands to the block, costs at most 62 bytes for every 61 of the block and one more, and
-- nothing is written beyond 15 bytes past the end.
pub compress_fragment-IsCompressed :
    (m : Matcher) (prefix input : List ℕ) (start : Out) (power : ℕ)
    → IsPower power
    → All (λ b. b < 256) input
    → length input ≤ 2 ^ 15
    → (out : Out) × (compress_fragment m input start power ≡ some out)
      × IsCompressed prefix input start out
unfolding compress_fragment
compress_fragment-IsCompressed m prefix input start power ok bytes block =
    elim (Bool-cases (ltb (length input) 15)) [
      | inl tiny ↦ rw tiny (
          finish (
            emit_remainder-Progress prefix input start bytes block 0 start (omega arith)
              (Progress-start prefix input start)))
      | inr room ↦ rw room (
          let (h, eh, hlt) = hash_lem input 1 power (omega tests) ok in
          let (out, end, e, le, p) =
            main_loop-Reaches m prefix input start power (length input - 15) ok bytes (omega tests)
              block (length input + 1) start 0 1 h (replicate (2 ^ (power - 1)) 0) (omega arith)
              (omega arith) (omega arith) hlt (fresh-IsTable _ 1 (omega arith))
              (Progress-start prefix input start) in
          rw (eh, e) (finish (emit_remainder-Progress prefix input start bytes block end out le p)))
    ]
  where
    finish :
        {r : Option Out}
        → (out : Out) × (r ≡ some out) × Progress prefix input start 61 (length input) out
        → (out : Out) × (r ≡ some out) × IsCompressed prefix input start out
    finish (out, e, p) = (
      out,
      e,
      record {
        written = p.written;
        appended = p.appended;
        expands = rw (take_all (length input) input (omega arith)) at p.expands;
        are_bytes = p.are_bytes;
        small = p.small;
        bounded = p.bounded;
      },
    )
