-- ===== src/Emit/Copied.antt =====
-- What appending a copy does to the output, and copies behind one another.
use csnappy.Common.{
  ℕ, ◌+◌, ◌≤◌, ◌<◌, ◌≡◌, max, arith, sym, ap, ◌∙◌, List, [], ◌++◌, append_assoc, append-nil, length,
  length-append, All, All-append, some,
}
use csnappy.Format.{copy, repeat_back, Expands, done}
use csnappy.Format.Laws.{Expands-append, Expands-one}
use csnappy.Format.Copies.{length-repeat_back, repeat_back-add, apply-copy}
use csnappy.Emit.{Out}
use csnappy.Emit.Literal.{Emitted}

-- What an emitter has done to the output: it appended a block of at most `size` bytes that copies
-- `len` bytes from `offset` back, and wrote nothing past the new end.
pub record Copied (offset len size : ℕ) (out out' : Out) : Type 0 where
  pub chunk : List ℕ
  pub appended : out'.bytes ≡ out.bytes ++ chunk
  pub expands :
      (before after : List ℕ)
      → offset ≤ length before
      → repeat_back len offset before ≡ some after
      → Expands after chunk before
  pub are_bytes : All (λ b. b < 256) chunk
  pub small : length chunk ≤ size
  pub bounded : out'.reach ≤ max out.reach (length out'.bytes)

pub Emitted-Copied :
    (offset len : ℕ) (out out' : Out)
    → 1 ≤ offset
    → Emitted (copy offset len) 3 0 out out'
    → Copied offset len 3 out out'
Emitted-Copied offset len out out' pos e = record {
  chunk = e.chunk;
  appended = e.appended;
  expands = λ before after le r.
      Expands-one (copy offset len) e.spells (apply-copy offset len before pos le ∙ r);
  are_bytes = e.are_bytes;
  small = e.small;
  bounded = omega (arith, e.bounded);
}

-- Two copies behind one another make one copy.
pub Copied-add :
    (offset n m s t : ℕ) (out middle out' : Out)
    → Copied offset n s out middle
    → Copied offset m t middle out'
    → Copied offset (n + m) (s + t) out out'
Copied-add offset n m s t out middle out' a b = record {
  chunk = a.chunk ++ b.chunk;
  appended = b.appended ∙ rw a.appended (append_assoc out.bytes a.chunk b.chunk);
  expands = λ before after le r. both before after le r;
  are_bytes = All-append (λ b. b < 256) a.chunk b.chunk a.are_bytes b.are_bytes;
  small = omega (arith, length-append a.chunk b.chunk, a.small, b.small);
  bounded = omega (
    arith,
    a.bounded,
    b.bounded,
    ap (length {A = ℕ}) b.appended,
    length-append middle.bytes b.chunk,
  );
}
  where
    both :
        (before after : List ℕ)
        → offset ≤ length before
        → repeat_back (n + m) offset before ≡ some after
        → Expands after (a.chunk ++ b.chunk) before
    both before after le r =
        let (mid, front, back) = repeat_back-add n m offset before r in
        Expands-append b.chunk (a.expands before mid le front)
          (b.expands mid after (omega (arith, length-repeat_back n offset before front)) back)

pub Copied-none : (offset : ℕ) (out : Out) → Copied offset 0 0 out out
unfolding repeat_back
Copied-none offset out = record {
  chunk = [];
  appended = sym (append-nil out.bytes);
  expands = λ before after le r. nothing before after r;
  are_bytes = tt;
  small = omega arith;
  bounded = omega arith;
}
  where
    nothing :
        (before after : List ℕ) → repeat_back 0 offset before ≡ some after → Expands after [] before
    nothing before after r = let e : before ≡ after = ground arith in rw e done

pub Copied-le :
    (offset n m s t : ℕ) (out out' : Out)
    → n ≡ m
    → s ≤ t
    → Copied offset n s out out'
    → Copied offset m t out out'
Copied-le offset n m s t out out' e le c = record {
  chunk = c.chunk;
  appended = c.appended;
  expands = λ before after h r. c.expands before after h (rw e r);
  are_bytes = c.are_bytes;
  small = omega (arith, c.small);
  bounded = c.bounded;
}
