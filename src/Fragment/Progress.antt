-- ===== src/Fragment/Progress.antt =====
-- How far the output is: what was written for a block expands to the part of it that is done.
use csnappy.Common.{
  ℕ, ◌+◌, ◌-◌, ◌*◌, ◌≤◌, ◌<◌, ◌≡◌, max, arith, sym, ap, ◌∙◌, List, [], ◌++◌, append_assoc,
  append-nil, length, length-append, length-take, take, take-append-slice, All, All-append, some,
}
use csnappy.Words.{part}
use csnappy.Format.{literal, apply, Expands, done}
use csnappy.Format.Laws.{Expands-append, Expands-one}
use csnappy.Format.Copies.{apply-literal}
use csnappy.Emit.{Out}
use csnappy.Emit.Literal.{Emitted, literal_size}
use csnappy.Emit.Copied.{Copied}
use csnappy.Match.{Matches}
use csnappy.Fragment.Repeats.{repeat_back-Matches}

module _ (prefix input : List ℕ) (start : Out) where
  -- `prefix` is the output of the blocks before. A literal may cost `debt` more than its share of 62
  -- bytes for every 61 of the block; the copy behind it pays that back.
  pub record Progress (debt next_emit : ℕ) (out : Out) : Type 0 where
    pub written : List ℕ
    pub appended : out.bytes ≡ start.bytes ++ written
    pub expands : Expands (prefix ++ take next_emit input) written prefix
    pub are_bytes : All (λ b. b < 256) written
    pub small : 61 * length written ≤ 62 * next_emit + debt
    pub bounded : out.reach ≤ max start.reach (length out.bytes + 15)

  pub Progress-start : Progress 0 0 start
  Progress-start = record {
    written = [];
    appended = sym (append-nil start.bytes);
    expands = rw (append-nil prefix) done;
    are_bytes = tt;
    small = omega arith;
    bounded = omega arith;
  }

  literal_debt : (len : ℕ) → 1 ≤ len → len < 65537 → 61 * literal_size len ≤ 62 * len + 61
  unfolding literal_size
  literal_debt len pos lt = ground arith

  pub Progress-literal :
      (next_emit len : ℕ) (out out' : Out)
      → 1 ≤ len
      → len < 65537
      → Progress 0 next_emit out
      → Emitted (literal (part input next_emit len)) (literal_size len) 15 out out'
      → Progress 61 (next_emit + len) out'
  Progress-literal next_emit len out out' pos lt p e = record {
    written = p.written ++ e.chunk;
    appended = e.appended ∙ rw p.appended (append_assoc start.bytes p.written e.chunk);
    expands = Expands-append e.chunk p.expands (Expands-one _ e.spells joined);
    are_bytes = All-append (λ b. b < 256) p.written e.chunk p.are_bytes e.are_bytes;
    small =
        omega (arith, length-append p.written e.chunk, p.small, e.small, literal_debt len pos lt);
    bounded = omega (
      arith,
      p.bounded,
      e.bounded,
      ap (length {A = ℕ}) e.appended,
      length-append out.bytes e.chunk,
    );
  }
    where
      joined :
          apply (literal (part input next_emit len)) (prefix ++ take next_emit input)
          ≡ some (prefix ++ take (next_emit + len) input)
      joined =
          apply-literal _ _
          ∙ ap (λ (t : List ℕ). some t)
              (append_assoc prefix _ _
                ∙ ap (λ (t : List ℕ). prefix ++ t) (take-append-slice next_emit len input))

  pub Progress-copy :
      (ip candidate n : ℕ) (out out' : Out)
      → candidate < ip
      → 4 ≤ n
      → ip + n ≤ length input
      → Matches input candidate ip n
      → Progress 61 ip out
      → Copied (ip - candidate) n (n - 1) out out'
      → Progress 0 (ip + n) out'
  Progress-copy ip candidate n out out' lt four le m p c = record {
    written = p.written ++ c.chunk;
    appended = c.appended ∙ rw p.appended (append_assoc start.bytes p.written c.chunk);
    expands = Expands-append c.chunk p.expands (
        c.expands _ _ (omega (arith, length-append prefix (take ip input), length-take ip input))
          (repeat_back-Matches prefix input n candidate ip lt le m));
    are_bytes = All-append (λ b. b < 256) p.written c.chunk p.are_bytes c.are_bytes;
    small = omega (arith, length-append p.written c.chunk, p.small, c.small);
    bounded = omega (
      arith,
      p.bounded,
      c.bounded,
      ap (length {A = ℕ}) c.appended,
      length-append out.bytes c.chunk,
    );
  }

  pub Progress-at :
      (debt : ℕ) {n k : ℕ} (out : Out) → n ≡ k → Progress debt n out → Progress debt k out
  Progress-at debt out e p = rw (← e) p

  -- A block without a literal in front of a copy is no debt either.
  pub Progress-more :
      (next_emit : ℕ) (out : Out) → Progress 0 next_emit out → Progress 61 next_emit out
  Progress-more next_emit out p = record {
    written = p.written;
    appended = p.appended;
    expands = p.expands;
    are_bytes = p.are_bytes;
    small = omega (arith, p.small);
    bounded = p.bounded;
  }
