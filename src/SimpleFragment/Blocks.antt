-- ===== src/SimpleFragment/Blocks.antt =====
-- The whole of `csnappy_compress_fragment` of the simple compressor: where two bytes behind the block
-- can be read, it returns, and what it writes expands to the block.
use csnappy.Common.{
  ℕ, zero, suc, ◌+◌, ◌-◌, ◌%◌, ◌^◌, ◌≤◌, ◌<◌, ◌≡◌, arith, tests, refl, sym, ap, ◌∙◌, false, List,
  length, length-take, take, replicate, All, Option, some, ltb, min, Bool-cases, inl, inr,
}
use native.Mathlib.Decide.{dec_le}
use csnappy.Common.Partial.{◌>>=◌}
use csnappy.Emit.{Out}
use csnappy.Emit.LongLiteral.{emit_literal-Emitted}
use csnappy.Emit.LongCopy.{emit_copy-Copied}
use csnappy.Match.{Matches}
use csnappy.Match.Laws.{Matches-add, Matches-at}
use csnappy.Fragment.{Scanned, exhausted, found}
use csnappy.Fragment.Table.{IsTable, IsPower, IsTable-later, fresh-IsTable}
use csnappy.Fragment.Scan.{IsScanned}
use csnappy.Fragment.Progress.{
  Progress, Progress-at, Progress-start, Progress-literal, Progress-copy, Progress-more,
}
use csnappy.Fragment.Blocks.{IsCompressed}
use csnappy.SimpleEmit.{emit_literal, emit_copy}
use csnappy.SimpleEmit.Same.{emit_literal-EmitLiteral, emit_copy-EmitCopy}
use csnappy.SimpleFragment.{find_match_length, emit_matches, compress_fragment}
use csnappy.SimpleFragment.Lengths.{find_match_length-min}
use csnappy.SimpleFragment.Window.{first_window-Window}
use csnappy.SimpleFragment.Next.{next_match-IsScanned}

Matches-less :
    (memory : List ℕ) (m n s1 s2 : ℕ) → m ≤ n → Matches memory s1 s2 n → Matches memory s1 s2 m
Matches-less memory zero n s1 s2 h a = tt
Matches-less memory (suc m) zero s1 s2 h a = absurd (omega arith)
Matches-less memory (suc m) (suc n) s1 s2 h a =
    (a.0, Matches-less memory m n (suc s1) (suc s2) (omega arith) a.1)

module _ (prefix memory : List ℕ) (start : Out) (input_size : ℕ) (bytes : All (λ b. b < 256) memory)
    (fits : input_size ≤ length memory) (block : input_size ≤ 2 ^ 15) where
  -- The literal up to `end`, which may be empty.
  literal_upto :
      (done_upto end : ℕ) (out : Out)
      → done_upto ≤ end
      → end ≤ input_size
      → Progress prefix memory start 0 done_upto out
      → (out' : Out) × (emit_literal memory out done_upto (end - done_upto) ≡ some out')
        × Progress prefix memory start 61 end out'
  unfolding emit_literal
  literal_upto done_upto end out le within p = elim (dec_le end done_upto) [
    | yes empty ↦
        (let none_left : end - done_upto ≡ 0 = omega arith in
          let e : done_upto ≡ end = omega arith in
          (
            out,
            rw none_left refl,
            Progress-at prefix memory start 61 out e
                (Progress-more prefix memory start done_upto out p),
          ))
    | no more ↦
        (let e : done_upto + (end - done_upto) ≡ end = omega arith in
          let (out', eo, m) =
            emit_literal-Emitted memory out done_upto (end - done_upto) false (omega arith)
              (omega arith) (omega arith) bytes (λ h. ground arith) in
          (
            out',
            emit_literal-EmitLiteral memory out done_upto (end - done_upto) (omega arith) ∙ eo,
            Progress-at prefix memory start 61 out' e (
                Progress-literal prefix memory start done_upto (end - done_upto) out out'
                  (omega arith) (omega arith) p m),
          ))
  ]

  -- The copy behind it, of `len` bytes that match.
  copy_of :
      (at match len : ℕ) (out : Out)
      → match < at
      → 4 ≤ len
      → at + len < input_size
      → Matches memory match at len
      → Progress prefix memory start 61 at out
      → (out' : Out) × (emit_copy out (at - match) len ≡ some out')
        × Progress prefix memory start 0 (at + len) out'
  copy_of at match len out lt four room m p =
      let (out', ec, c) =
        emit_copy-Copied (at - match) (omega arith) (omega arith) out len (omega arith) in
      (
        out',
        emit_copy-EmitCopy out (at - match) len ∙ ec,
        Progress-copy prefix memory start at match len out out' lt four (omega arith) m p c,
      )

  -- What `find_match_length` adds to a match of four bytes matches too, and ends before the block.
  length_of :
      (at match : ℕ)
      → match < at
      → at + 4 < input_size
      → Matches memory match at 4
      → (n : ℕ) × (find_match_length memory (match + 4) (at + 4) input_size ≡ some n)
        × (4 ≤ (4 + n) % 2 ^ 32)
        × (at + (4 + n) % 2 ^ 32 < input_size)
        × Matches memory match at ((4 + n) % 2 ^ 32)
  length_of at match lt room m =
      let (longest, l, e) =
        find_match_length-min memory (match + 4) (at + 4) input_size (omega arith) (omega arith)
          fits (omega arith) in
      (
        min longest (input_size - (at + 4) - 1),
        e,
        omega arith,
        omega arith,
        Matches-at memory refl refl (omega arith) (
            Matches-add memory 4 (min longest (input_size - (at + 4) - 1)) match at m
              (Matches-less memory _ longest (match + 4) (at + 4) (omega arith) l.same)),
      )

module _ (prefix memory : List ℕ) (start : Out) (input_size power : ℕ) (power_ok : IsPower power)
    (bytes : All (λ b. b < 256) memory) (four : 4 ≤ input_size)
    (readable : input_size + 2 ≤ length memory) (block : input_size ≤ 2 ^ 15) where
  -- Where the loop leaves the output and `done_upto`.
  abbrev Reaches : Option (Out × ℕ) → Type 0
  Reaches r =
      (out : Out) × (end : ℕ) × (r ≡ some (out, end))
      × (end ≤ input_size)
      × Progress prefix memory start 0 end out

  -- What holds of the loop with `fuel` rounds.
  abbrev Runs : ℕ → Type 0
  Runs fuel =
      (wm : List ℕ) (out : Out) (done_upto src : ℕ)
      → done_upto ≤ src + 1
      → src + 2 ≤ input_size
      → input_size < fuel + src
      → IsTable (2 ^ (power - 1)) (src + 1) wm
      → Progress prefix memory start 0 done_upto out
      → Reaches (emit_matches memory input_size (33 - power) fuel wm out done_upto src)

  after_scan :
      (fuel : ℕ) (out : Out) (done_upto src : ℕ) (r : Scanned)
      → Runs fuel
      → done_upto ≤ src + 1
      → src + 2 ≤ input_size
      → input_size < suc fuel + src
      → Progress prefix memory start 0 done_upto out
      → IsScanned memory (2 ^ (power - 1)) (input_size - 4) (src + 1) r
      → Reaches (elim r [
        | exhausted ↦ some (out, done_upto)
        | found at match wm' ↦ (do
          n ← find_match_length memory (match + 4) (at + 4) input_size
          let len = (4 + n) % 2 ^ 32
          out' ← emit_literal memory out done_upto (at - done_upto)
          out'' ← emit_copy out' (at - match) len
          emit_matches memory input_size (33 - power) fuel wm' out'' (at + len) (at + len - 1))
      ])
  after_scan fuel out done_upto src exhausted again le room f p s =
      (out, done_upto, refl, omega arith, p)
  after_scan fuel out done_upto src (found at match wm) again le room f p s =
      let (out', eo, p') =
        literal_upto prefix memory start input_size bytes (omega arith) block done_upto at out
          (omega (arith, s.from_start)) (omega (arith, s.in_limit)) p in
      let (n, en, four_more, within, same) =
        length_of prefix memory start input_size bytes (omega arith) block at match s.before
          (omega (arith, s.in_limit)) s.four in
      let (out'', ec, p'') =
        copy_of prefix memory start input_size bytes (omega arith) block at match ((4 + n) % 2 ^ 32)
          out' s.before four_more within same p' in
      rw (en, eo, ec)
        (again wm out'' (at + (4 + n) % 2 ^ 32) (at + (4 + n) % 2 ^ 32 - 1) (omega arith)
          (omega arith) (omega (arith, s.from_start))
          (IsTable-later (at + 1) (at + (4 + n) % 2 ^ 32 - 1 + 1) s.table_ok (omega arith)) p'')

  emit_matches-Reaches : (fuel : ℕ) → Runs fuel
  unfolding emit_matches
  emit_matches-Reaches zero wm out done_upto src le room f t p = absurd (omega arith)
  emit_matches-Reaches (suc fuel) wm out done_upto src le room f t p =
      let (v, ev, w) = first_window-Window memory src bytes (omega arith) in
      let (r, er, ok) =
        next_match-IsScanned memory input_size power power_ok bytes four (omega arith) block
          (input_size + 1) wm src v (omega arith) (omega arith) w t in
      rw (ev, er) (after_scan fuel out done_upto src r (emit_matches-Reaches fuel) le room f p ok)

-- Of a memory of bytes the block is the first `input_size`, at most 32 KiB, and two bytes behind it can
-- be read: for every table of 2^9 to 2^16 bytes, whatever was decompressed before, the simple
-- `csnappy_compress_fragment` returns, with no access outside the memory and the table; what it writes
-- expands to the block, costs at most 62 bytes for every 61 of the block and one more, and nothing is
-- written beyond 15 bytes past the end.
pub simple_fragment-IsCompressed :
    (prefix memory : List ℕ) (input_size : ℕ) (start : Out) (power : ℕ)
    → IsPower power
    → All (λ b. b < 256) memory
    → input_size ≤ 2 ^ 15
    → input_size + 2 ≤ length memory
    → (out : Out) × (compress_fragment memory input_size start power ≡ some out)
      × IsCompressed prefix (take input_size memory) start out
unfolding compress_fragment
simple_fragment-IsCompressed prefix memory input_size start power ok bytes block readable =
    elim (Bool-cases (ltb input_size 4)) [
      | inl tiny ↦ rw tiny (
          let whole : input_size - 0 ≡ input_size = omega arith in
          let (out, e, p) =
            literal_upto prefix memory start input_size bytes (omega arith) block 0 input_size start
              (omega arith) (omega arith) (Progress-start prefix memory start) in
          finish (out, ap (emit_literal memory start 0) (sym whole) ∙ e, p))
      | inr room ↦ rw room (
          let (out, end, e, le, p) =
            emit_matches-Reaches prefix memory start input_size power ok bytes (omega tests)
              readable block (input_size + 1) (replicate (2 ^ (power - 1)) 0) start 0 0
              (omega arith) (omega tests) (omega arith) (fresh-IsTable _ 1 (omega arith))
              (Progress-start prefix memory start) in
          rw e (
            finish (
              literal_upto prefix memory start input_size bytes (omega arith) block end input_size
                out le (omega arith) p)))
    ]
  where
    finish :
        {r : Option Out}
        → (out : Out) × (r ≡ some out) × Progress prefix memory start 61 input_size out
        → (out : Out) × (r ≡ some out) × IsCompressed prefix (take input_size memory) start out
    finish (out, e, p) = (
      out,
      e,
      record {
        written = p.written;
        appended = p.appended;
        expands = p.expands;
        are_bytes = p.are_bytes;
        small = omega (arith, p.small, length-take input_size memory);
        bounded = p.bounded;
      },
    )
