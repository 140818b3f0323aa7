-- ===== src/Writer/Backward.antt =====
-- Appending bytes of the output itself.
use csnappy.Common.{
  ℕ, ◌+◌, ◌-◌, ◌%◌, ◌^◌, ◌≤◌, ◌<◌, ◌≡◌, ◌⊎◌, arith, refl, ◌∙◌, List, length, take, some, ltb, leb,
  lt→ltb, lt→leb, le→leb, inl, inr, false, ◌&&◌, ◌||◌, ◌==◌, Bool-cases,
}
use native.Mathlib.Decide.{dec_le}
use csnappy.Common.Outcome.{ok, err, output_overrun, data_malformed}
use csnappy.Format.{copy, apply, repeat_back}
use csnappy.Format.Copies.{apply-copy, apply-copy_outside, length-repeat_back, repeat_back-some}
use csnappy.Writer.{Writer, copy_within, append_from_self}
use csnappy.Writer.SelfCopy.{copy_within-Copied, Copied-repeat_back}
use csnappy.Writer.Outputs.{Holds, length-Holds, Answers}

module _ (room : ℕ) (out : List ℕ) (w : Writer) (h : Holds room out w) where
  answer_none :
      (offset len : ℕ)
      → offset < 2 ^ 32
      → room < 2 ^ 32
      → (offset ≡ 0) ⊎ (w.op < offset)
      → append_from_self w offset len ≡ err data_malformed
  unfolding append_from_self
  answer_none offset len word small bad =
      rw (le→leb w.op ((offset + (2 ^ 32 - 1)) % 2 ^ 32) (wide bad)) refl
    where
      wide : (offset ≡ 0) ⊎ (w.op < offset) → w.op ≤ (offset + (2 ^ 32 - 1)) % 2 ^ 32
      wide (inl z) = omega (arith, h.within)
      wide (inr lt) = omega arith

  module _ (offset len : ℕ) (word : offset < 2 ^ 32) (small : room < 2 ^ 32) (some_len : 1 ≤ len)
      (short : len + 10 < 2 ^ 32) (pos : 1 ≤ offset) (back : offset ≤ w.op) where
    passes : leb w.op ((offset + (2 ^ 32 - 1)) % 2 ^ 32) ≡ false
    passes = lt→leb w.op ((offset + (2 ^ 32 - 1)) % 2 ^ 32) (omega arith)

    refused : room < w.op + len → append_from_self w offset len ≡ err output_overrun
    unfolding append_from_self copy_within
    refused lt =
        rw
          (
            passes,
            lt→leb ((len + 10) % 2 ^ 32) (length w.buffer - w.op)
                (omega (arith, h.roomy, h.within)),
            lt→ltb (length w.buffer - w.op) len (omega (arith, h.roomy, h.within)),
            tight,
          )
          refl
      where
        tight : ((leb len 16 && leb 8 offset) && leb 16 (length w.buffer - w.op)) ≡ false
        tight = ground (arith, h.roomy, h.within)

    accepted :
        w.op + len ≤ room
        → (w' : Writer) × (append_from_self w offset len ≡ ok w')
          × (repeat_back len offset out ≡ some (take w'.op w'.buffer))
          × Holds room (take w'.op w'.buffer) w'
    unfolding append_from_self
    accepted fits =
        let (next, e, f) =
          copy_within-Copied w.buffer w.op offset len pos back some_len (omega (arith, h.roomy))
            short in
        (
          record { buffer = next; op = w.op + len },
          rw (passes, e) refl,
          rw h.output at (
              Copied-repeat_back w.buffer w.op offset len pos back some_len (omega (arith, h.roomy))
                next f),
          record { roomy = f.same_length ∙ h.roomy; within = fits; output = refl },
        )

  -- `SAW__AppendFromSelf` appends what the copy says, refuses an offset of 0 or before the start, and
  -- else has no room for it.
  pub append_from_self-Answers :
      (offset len : ℕ)
      → offset < 2 ^ 32
      → room < 2 ^ 32
      → 1 ≤ len
      → len + 10 < 2 ^ 32
      → Answers room (apply (copy offset len) out) (append_from_self w offset len)
  append_from_self-Answers offset len word small some_len short =
      elim (Bool-cases (offset == 0 || ltb (length out) offset)) [
        | inl bad ↦
            rw (apply-copy_outside offset len out bad)
              (answer_none offset len word small (ground (arith, length-Holds h)))
        | inr good ↦ elim (dec_le (w.op + len) room) [
          | yes fits ↦
              (let (w', e, c, holds) =
                  accepted offset len word small some_len short (pos good) (back good) fits in
                rw (apply-copy offset len out (pos good) (inside good), c)
                  (inl (omega (arith, holds.within, length-Holds holds), w', e, holds)))
          | no missing ↦
              (let (out', c) = repeat_back-some len offset out (pos good) (inside good) in
                rw (apply-copy offset len out (pos good) (inside good), c)
                  (inr (
                    omega (arith, length-repeat_back len offset out c, length-Holds h),
                    refused offset len word small some_len short (pos good) (back good)
                        (omega arith),
                  )))
        ]
      ]
    where
      pos : (offset == 0 || ltb (length out) offset) ≡ false → 1 ≤ offset
      pos good = ground arith

      inside : (offset == 0 || ltb (length out) offset) ≡ false → offset ≤ length out
      inside good = ground arith

      back : (offset == 0 || ltb (length out) offset) ≡ false → offset ≤ w.op
      back good = omega (arith, inside good, length-Holds h)
