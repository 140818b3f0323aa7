-- ===== src/Emit/LongCopy.antt =====
-- A copy of any length: the loop of `EmitCopy` splits it into elements of at most 64 bytes, and
-- leaves at least four bytes for the last one.
use csnappy.Common.{
  ℕ, zero, suc, ◌+◌, ◌-◌, ◌^◌, ◌≤◌, ◌<◌, ◌≡◌, max, arith, refl, List, ◌++◌, length, All, Option,
  some, ltb, leb, leb→le, tests, Bool-cases, inl, inr, if◌then◌else◌,
}
use csnappy.Format.{repeat_back, Expands}
use csnappy.Emit.{Out, emit_copy_less_than64, emit_copies, emit_copy}
use csnappy.Emit.Copy.{emit_copy_less_than64-Emitted}
use csnappy.Emit.Copied.{Copied, Emitted-Copied, Copied-add, Copied-none, Copied-le}

-- The loop ends with 4 to 67 bytes to go.
record Split (offset len : ℕ) (out : Out) (r : Option (Out × ℕ)) : Type 0 where
  end : Out
  left : ℕ
  result : r ≡ some (end, left)
  at_least : 4 ≤ left
  at_most : left ≤ 67
  within : left ≤ len
  copied : Copied offset (len - left) (len - left) out end

module _ (offset : ℕ) (pos : 1 ≤ offset) (fits : offset < 2 ^ 16) where
  one_copy :
      (out : Out) (len : ℕ)
      → 4 ≤ len
      → len ≤ 64
      → Copied offset len 3 out (emit_copy_less_than64 out offset len)
  one_copy out len lo hi =
      Emitted-Copied offset len out _ pos (emit_copy_less_than64-Emitted out offset len lo hi fits)

  emit_copies-Split :
      (fuel : ℕ) (out : Out) (len : ℕ)
      → len < fuel
      → 4 ≤ len
      → Split offset len out (emit_copies fuel out offset len)
  unfolding emit_copies
  emit_copies-Split zero out len h lo = absurd (omega arith)
  emit_copies-Split (suc fuel) out len h lo = elim (Bool-cases (leb 68 len)) [
    | inl more ↦ rw more (
        after_64 (leb→le 68 len more) (
          emit_copies-Split fuel (emit_copy_less_than64 out offset 64) (len - 64)
            (omega (arith, leb→le 68 len more)) (omega (arith, leb→le 68 len more))))
    | inr stop ↦ rw stop (record {
      end = out;
      left = len;
      result = refl;
      at_least = lo;
      at_most = ground arith;
      within = omega arith;
      copied =
          Copied-le offset 0 _ 0 _ out out (omega arith) (omega arith) (Copied-none offset out);
    })
  ]
    where
      after_64 :
          68 ≤ len
          → {r : Option (Out × ℕ)} → Split offset (len - 64) (emit_copy_less_than64 out offset 64) r
          → Split offset len out r
      after_64 big s = record {
        end = s.end;
        left = s.left;
        result = s.result;
        at_least = s.at_least;
        at_most = s.at_most;
        within = omega (arith, s.within);
        copied =
            Copied-le offset (64 + (len - 64 - s.left)) _ (3 + (len - 64 - s.left)) _ out s.end
              (omega (arith, s.within)) (omega (arith, s.within))
              (Copied-add offset 64 _ 3 _ out _ s.end (one_copy out 64 (omega arith) (omega arith))
                s.copied);
      }

  -- The rest, in two elements if it is longer than 64 bytes.
  abbrev rest_end : Out → ℕ → Out
  rest_end out left =
      if ltb 64 left
      then emit_copy_less_than64 (emit_copy_less_than64 out offset 60) offset (left - 60)
      else emit_copy_less_than64 out offset left

  rest-Copied :
      (out : Out) (left : ℕ)
      → 4 ≤ left
      → left ≤ 67
      → Copied offset left (left - 1) out (rest_end out left)
  rest-Copied out left lo hi = elim (Bool-cases (ltb 64 left)) [
    | inl big ↦ rw big (
        Copied-le offset (60 + (left - 60)) left 6 (left - 1) out _ (omega tests) (omega tests) (
          Copied-add offset 60 (left - 60) 3 3 out _ _ (one_copy out 60 (omega arith) (omega arith))
            (one_copy _ (left - 60) (omega tests) (omega tests))))
    | inr one ↦ rw one (
        Copied-le offset left left 3 (left - 1) out _ refl (omega arith)
          (one_copy out left lo (omega tests)))
  ]

  -- `EmitCopy` of four or more bytes succeeds.
  pub emit_copy-Copied :
      (out : Out) (len : ℕ)
      → 4 ≤ len
      → (out' : Out) × (emit_copy out offset len ≡ some out') × Copied offset len (len - 1) out out'
  unfolding emit_copy
  emit_copy-Copied out len lo = (
    rest_end s.end s.left,
    rw s.result refl,
    Copied-le offset (len - s.left + s.left) len (len - s.left + (s.left - 1)) (len - 1) out _
        (omega (arith, s.within)) (omega (arith, s.within, s.at_least))
        (Copied-add offset _ s.left _ _ out s.end _ s.copied
          (rest-Copied s.end s.left s.at_least s.at_most)),
  )
    where
      s : Split offset len out (emit_copies (len + 1) out offset len)
      s = emit_copies-Split (len + 1) out len (omega arith) lo

-- For an offset from 1 to 2^16 - 1 and a length of four or more, `EmitCopy` succeeds. If the output
-- `before` reaches back `offset` bytes, and `len` bytes copied from there make `after`, then what it
-- appends takes `before` to `after`; it is shorter than the copy, and nothing is written past the
-- new end.
pub emit_copy-Expands :
    (out : Out) (offset len : ℕ) (before after : List ℕ)
    → 1 ≤ offset
    → offset < 2 ^ 16
    → 4 ≤ len
    → offset ≤ length before
    → repeat_back len offset before ≡ some after
    → (out' : Out) × (chunk : List ℕ) × (emit_copy out offset len ≡ some out')
      × (out'.bytes ≡ out.bytes ++ chunk)
      × Expands after chunk before
      × All (λ b. b < 256) chunk
      × (length chunk < len)
      × (out'.reach ≤ max out.reach (length out'.bytes))
emit_copy-Expands out offset len before after pos fits lo le r =
    let (out', e, c) = emit_copy-Copied offset pos fits out len lo in
    (
      out',
      c.chunk,
      e,
      c.appended,
      c.expands before after le r,
      c.are_bytes,
      omega (arith, c.small),
      c.bounded,
    )
