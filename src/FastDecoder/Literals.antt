-- ===== src/FastDecoder/Literals.antt =====
-- The branch of a literal, with its two ways to copy and the signed check of its length.
use csnappy.Common.{
  ℕ, ◌+◌, ◌-◌, ◌%◌, ◌^◌, ◌≤◌, ◌<◌, ◌≡◌, arith, refl, ap, List, [], ◌++◌, append-nil, length, drop,
  some, true, ltb, lt→ltb, le→ltb, Bool-cases, inl, inr,
}
use native.Mathlib.Decide.{dec_le, dec_lt}
use csnappy.Common.Outcome.{ok, ◌>>=◌}
use csnappy.Format.{literal}
use csnappy.Format.Copies.{apply-literal}
use csnappy.Words.{part}
use csnappy.Writer.{Writer, append}
use csnappy.Writer.Outputs.{Holds, Answers, length-Holds}
use csnappy.Writer.Appends.{append-full, append-Answers}
use csnappy.FastDecoder.{Reader, advance, available, lt_int32, finish_literal}
use csnappy.FastDecoder.Refill.{Ready, rest, lt_int32_lem, available_lem, available-past}
use csnappy.FastDecoder.Steps.{
  advance-advance, Spells, Stepped, Stepped-Answers, Refused, IsWrapped,
}

module _ (room : ℕ) (out : List ℕ) (w : Writer) (h : Holds room out w) (small : room < 2 ^ 31)
    (r : Reader) (ready : Ready r) where
  -- The data of a literal is `total` bytes, `j` behind the tag's place.
  module _ (j total : ℕ) (near : j ≤ 5) (pos : 1 ≤ j) (some_total : 1 ≤ total)
      (spells : r.src + j + total ≤ r.end
        → Spells (drop r.src r.memory) (j + total) (literal (part r.memory (r.src + j) total)))
      (refuses : r.end < r.src + j + total → Refused room (rest r) out)
      (wraps : total ≡ 2 ^ 32 → (j ≡ 5) × IsWrapped (drop r.src r.memory)) where
    end_small : r.end < 2 ^ 31
    end_small = omega (arith, ready.good.inside, ready.good.small)

    there :
        (len : ℕ)
        → r.src + j ≤ r.end
        → len < 2 ^ 31
        → lt_int32 (available (advance r j)) len ≡ ltb (r.end - (r.src + j)) len
    there len le lt =
        rw (available_lem (advance r j) end_small le)
          (lt_int32_lem (r.end - (r.src + j)) len (omega (arith, end_small)) lt)

    past :
        (len : ℕ) → r.end < r.src + j → len < 2 ^ 31 → lt_int32 (available (advance r j)) len ≡ true
    past len lt short =
        (available-past (advance r j) end_small lt (omega (arith, ready.some_left)) len short).1

    -- A length below 2^31 is compared as it is.
    finish-short : total < 2 ^ 31 → Stepped room r out (finish_literal (advance r j) w total)
    unfolding finish_literal
    finish-short short = elim (dec_le (r.src + j) r.end) [
      | no lt ↦ rw (past total (omega arith) short) (refuses (omega (arith, lt)))
      | yes le ↦ elim (dec_le (r.src + j + total) r.end) [
        | no lt ↦
            rw (there total le short, lt→ltb (r.end - (r.src + j)) total (omega arith))
              (refuses (omega arith))
        | yes fits ↦
            rw
              (
                there total le short,
                le→ltb (r.end - (r.src + j)) total (omega arith),
                advance-advance r j total (j + total) refl,
              )
              (Stepped-Answers r room out (j + total) (omega arith) (inl (omega arith))
                (spells fits) _
                (rw (apply-literal (part r.memory (r.src + j) total) out) (
                  append-Answers room out w h r.memory (r.src + j) total
                    (omega (arith, ready.good.inside)))))
      ]
    ]

    -- One from 2^31 on is negative, and has no room.
    finish-negative :
        2 ^ 31 ≤ total → total < 2 ^ 32 → Stepped room r out (finish_literal (advance r j) w total)
    unfolding finish_literal
    finish-negative big word =
        let no : Refused room (rest r) out = refuses (omega (arith, end_small)) in
        elim (Bool-cases (lt_int32 (available (advance r j)) total)) [
          | inl e ↦ rw e no
          | inr e ↦
              rw (e, append-full room out w h r.memory (r.src + j) total (omega (arith, small))) no
        ]

    -- One of 2^32 is 0.
    finish-zero : total ≡ 2 ^ 32 → Stepped room r out (finish_literal (advance r j) w 0)
    unfolding finish_literal
    finish-zero full = elim (dec_le (r.src + j) r.end) [
      | no lt ↦ rw (past 0 (omega arith) (omega arith)) (refuses (omega arith))
      | yes le ↦
          rw (there 0 le (omega arith), le→ltb (r.end - (r.src + j)) 0 (omega arith))
            (empty le (
              append-Answers room out w h r.memory (r.src + j) 0
                (omega (arith, ready.good.inside))))
    ]
      where
        empty :
            r.src + j ≤ r.end
            → Answers room (some (out ++ [])) (append w r.memory (r.src + j) 0)
            → Stepped room r out
                (append w r.memory (r.src + j) 0 >>= λ w'. ok (advance (advance r j) 0, w'))
        empty le (inl (fits, w', e, holds)) =
            let (five, wrapped) = wraps full in
            rw e (
              inr (
                advance-advance r j 0 5 (omega arith),
                omega arith,
                wrapped,
                refuses (omega (arith, end_small)),
                rw (append-nil out) at holds,
              ))
        empty le (inr (over, e)) =
            let o : length (out ++ []) ≡ length out = ap (length {A = ℕ}) (append-nil out) in
            absurd (omega (arith, o, length-Holds h, h.within))

    pub finish_literal-Stepped :
        total ≤ 2 ^ 32 → Stepped room r out (finish_literal (advance r j) w (total % 2 ^ 32))
    finish_literal-Stepped le = elim (dec_lt total (2 ^ 31)) [
      | yes lt ↦ (let e : total % 2 ^ 32 ≡ total = omega arith in rw e (finish-short lt))
      | no big ↦ elim (dec_lt total (2 ^ 32)) [
        | yes word ↦
            (let e : total % 2 ^ 32 ≡ total = omega arith in
              rw e (finish-negative (omega arith) word))
        | no full ↦ (let e : total % 2 ^ 32 ≡ 0 = omega arith in rw e (finish-zero (omega arith)))
      ]
    ]
