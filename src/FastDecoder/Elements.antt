-- ===== src/FastDecoder/Elements.antt =====
-- One element, of either kind.
use csnappy.Common.{
  ℕ, suc, ◌+◌, ◌-◌, ◌/◌, ◌%◌, ◌^◌, ◌≤◌, ◌<◌, ◌≡◌, arith, tests, refl, sym, ◌∙◌, List, ◌∷◌, All-drop,
  drop, true, false, ltb, leb, lt→ltb, le→ltb, Bool-cases, inl, inr, ◌==◌, bit_and, if◌then◌else◌,
}
use native.Mathlib.Decide.{dec_lt}
use csnappy.Common.Bits.{bit_and_low}
use csnappy.Common.Outcome.{ok, ◌>>=◌}
use csnappy.Format.Copies.{apply-literal}
use csnappy.Words.{part}
use csnappy.Words.Loads.{drop_get}
use csnappy.Words.Masked.{get_unaligned_le_lem}
use csnappy.Writer.{Writer, append_fast_path}
use csnappy.Writer.Outputs.{Holds}
use csnappy.Writer.Appends.{append_fast_path-Answers}
use csnappy.FastDecoder.{
  Reader, advance, available, lt_int32, literal_length, finish_literal, decode_copy, decode_literal,
  decode_element,
}
use csnappy.FastDecoder.Refill.{Ready, lt_int32_lem, available_lem}
use csnappy.FastDecoder.Steps.{advance-advance, Stepped, Stepped-Answers}
use csnappy.FastDecoder.Copies.{decode_copy-Stepped}
use csnappy.FastDecoder.Lengths.{
  given, given-lt, Spells-short, Refused-short, Spells-long, Refused-long, IsWrapped-given,
  pow_word,
}
use csnappy.FastDecoder.Literals.{finish_literal-Stepped}

module _ (room : ℕ) (out : List ℕ) (w : Writer) (h : Holds room out w) (small : room < 2 ^ 31)
    (r : Reader) (ready : Ready r) (tag : ℕ) (byte : tag < 256)
    (front : drop r.src r.memory ≡ tag ∷ drop (r.src + 1) r.memory) where
  module _ (kind : (tag % 4 == 0) ≡ true) where
    -- Sixteen bytes are there.
    quick :
        tag / 4 + 1 ≤ 16
        → r.src + 1 + 16 ≤ r.end
        → Stepped room r out (
            append_fast_path w r.memory (r.src + 1) (tag / 4 + 1) >>= λ w'.
            ok (advance (advance r 1) (tag / 4 + 1), w'))
    quick le fits = rw (advance-advance r 1 (tag / 4 + 1) (1 + (tag / 4 + 1)) refl) (
        Stepped-Answers r room out (1 + (tag / 4 + 1)) (omega arith) (inl (omega arith))
          (Spells-short r ready tag byte front kind (omega arith)
            (omega (arith, ready.good.inside)))
          _
          (rw (apply-literal (part r.memory (r.src + 1) (tag / 4 + 1)) out) (
            append_fast_path-Answers room out w h r.memory (r.src + 1) (tag / 4 + 1) le
              (omega (arith, ready.good.inside)))))

    short : tag / 4 < 60 → Stepped room r out (finish_literal (advance r 1) w (tag / 4 + 1))
    short lt =
        let e : (tag / 4 + 1) % 2 ^ 32 ≡ tag / 4 + 1 = omega arith in
        rw e at (
          finish_literal-Stepped room out w h small r ready 1 (tag / 4 + 1) (omega arith)
            (omega arith) (omega arith)
            (λ fits.
              Spells-short r ready tag byte front kind lt (omega (arith, fits, ready.good.inside)))
            (λ over. Refused-short r ready tag byte front kind room out lt over)
            (λ full. absurd (omega arith)) (omega arith))

    long :
        60 ≤ tag / 4
        → Stepped room r out (
            finish_literal
              (advance r (1 + (tag / 4 - 59)))
              w
              ((given r ready tag byte front kind + 1) % 2 ^ 32))
    long le =
        finish_literal-Stepped room out w h small r ready (1 + (tag / 4 - 59))
          (given r ready tag byte front kind + 1) (omega arith) (omega arith) (omega arith)
          (λ fits.
            Spells-long r ready tag byte front kind (1 + (tag / 4 - 59)) refl le
              (omega (arith, fits, ready.good.inside)))
          (λ over. Refused-long r ready tag byte front kind room out le over)
          (λ full.
            let (four, wrapped) = IsWrapped-given r ready tag byte front kind le full in
            (omega (arith, four), wrapped))
          (omega
            (arith, given-lt r ready tag byte front kind, pow_word (tag / 4 - 59) (omega arith)))

    slow :
        Stepped room r out
          (literal_length (advance r 1) (tag / 4 + 1) >>= λ x. finish_literal x.1 w x.0)
    unfolding literal_length
    slow = elim (dec_lt (tag / 4) 60) [
      | yes lt ↦ rw (le→ltb 60 (tag / 4 + 1) (omega arith)) (short lt)
      | no big ↦
          (let extra : tag / 4 + 1 - 60 ≡ tag / 4 - 59 = omega arith in
            rw
              (
                lt→ltb 60 (tag / 4 + 1) (omega arith),
                extra,
                get_unaligned_le_lem r.memory (r.src + 1) (tag / 4 - 59) ready.good.bytes
                    (omega (arith, ready.readable)) (omega arith),
                advance-advance r 1 (tag / 4 - 59) (1 + (tag / 4 - 59)) refl,
              )
              (long (omega arith)))
    ]

    pub decode_literal-Stepped : Stepped room r out (decode_literal (advance r 1) w (tag / 4 + 1))
    unfolding decode_literal
    decode_literal-Stepped = elim (Bool-cases (leb (tag / 4 + 1) 16)) [
      | inr e ↦ rw e slow
      | inl e ↦ elim (Bool-cases (lt_int32 (available (advance r 1)) 16)) [
        | inl f ↦ rw (e, f) slow
        | inr f ↦ rw (e, f) (quick (omega (tests, e)) (sixteen f))
      ]
    ]
      where
        sixteen : lt_int32 (available (advance r 1)) 16 ≡ false → r.src + 1 + 16 ≤ r.end
        sixteen f =
            let p : lt_int32 (available (advance r 1)) 16 ≡ ltb (r.end - (r.src + 1)) 16 =
              rw
                (available_lem (advance r 1) (omega (arith, ready.good.inside, ready.good.small))
                  (omega (arith, ready.some_left)))
                (lt_int32_lem (r.end - (r.src + 1)) 16
                  (omega (arith, ready.good.inside, ready.good.small)) (omega arith)) in
            omega (tests, sym p ∙ f)

  either : Stepped room r out (
      if bit_and tag 3 == 0
      then decode_literal (advance r 1) w (tag / 2 ^ 2 + 1)
      else decode_copy (advance r 1) w tag)
  either = rw (bit_and_low 2 tag) (elim (Bool-cases (tag % 4 == 0)) [
    | inl kind ↦ rw kind (decode_literal-Stepped kind)
    | inr kind ↦ rw kind (decode_copy-Stepped room out w h small r ready tag byte front kind)
  ])

-- On a tag, for a writer that holds the output so far: the code for one element reads the element of the
-- format, or refuses where there is none, and does not leave a buffer.
pub decode_element-Stepped :
    (room : ℕ) (out : List ℕ) (w : Writer)
    → Holds room out w
    → room < 2 ^ 31
    → (r : Reader) → Ready r
    → Stepped room r out (decode_element r w)
unfolding decode_element
decode_element-Stepped room out w h small r ready =
    let (tag, get, front) = drop_get r.memory r.src (omega (arith, ready.readable)) in
    let place : suc r.src ≡ r.src + 1 = omega arith in
    let tail = rw place at front in
    let byte = (rw front at (All-drop _ r.src r.memory ready.good.bytes)).0 in
    rw get (either room out w h small r ready tag byte tail)
