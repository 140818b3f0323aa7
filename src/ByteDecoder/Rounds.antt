-- ===== src/ByteDecoder/Rounds.antt =====
-- Every result of one round of the byte-wise decoder.
use csnappy.Common.{
  ℕ, ◌+◌, ◌-◌, ◌%◌, ◌^◌, ◌≤◌, ◌<◌, ◌≡◌, arith, refl, ◌∙◌, tests, lt→ltb, le→ltb, le→leb, ◌⊎◌, false,
  List, length, length-append, length-take, length-drop, take, drop, All, Option, some, inl, inr,
  ltb, ◌==◌, ◌||◌, Bool-cases,
}
use csnappy.Common.Outcome.{Outcome, ok, err, fault, ◌>>=◌}
use csnappy.Format.{Element, literal, copy, field, literal_of, literal_element, apply}
use csnappy.Format.Copies.{apply-literal, apply-copy, length-repeat_back}
use csnappy.ByteDecoder.{Space, past, literal_length, finish_literal, decode_literal, finish_copy}
use csnappy.Format.Parts.{field-some, split_at_lem}
use csnappy.ByteDecoder.Copying.{copy_literal_lem, copy_back_lem}
use csnappy.ByteDecoder.Literals.{rounds_lem, four_bytes, read_field}
use csnappy.ByteDecoder.Fields.{field-lt}
use csnappy.ByteDecoder.Overflow.{
  copy_literal-fault, copy_literal-full, finish_literal-fault, rounds-zero,
}
use native.Mathlib.Decide.{dec_lt, dec_le}

-- A length that leads from the end of a buffer past the addresses, or that wraps to 0.
abbrev pub Escapes : Space → ℕ → Type 0
Escapes sp n = (sp.above_src < n) ⊎ (sp.above_dst < n) ⊎ (n ≡ 2 ^ 32)

-- The length of a literal: `m` from its tag, and what is behind the tag.
abbrev pub LiteralLength : ℕ → List ℕ → ℕ → Type 0
LiteralLength m src n =
    ((m < 60) × (n ≡ m + 1))
    ⊎ ((60 ≤ m) × (v : ℕ) × (rest : List ℕ) × (field (m - 59) src ≡ some (v, rest)) × (n ≡ v + 1))

-- What a round answers: an element at the front was applied within the room, an error, or a fault,
-- which only a length that escapes can cause.
abbrev pub Applied :
    ℕ → Option (Element × List ℕ) → Type 0 → List ℕ → Outcome (List ℕ × List ℕ) → Type 0
Applied room here Fault out (ok (rest, out')) =
    (e : Element) × (here ≡ some (e, rest)) × (apply e out ≡ some out') × (length out' ≤ room)
Applied room here Fault out (err s) = Unit
Applied room here Fault out fault = Fault

literal_of_lem :
    (n : ℕ) (src : List ℕ)
    → n ≤ length src
    → literal_of n src ≡ some (literal (take n src), drop n src)
unfolding literal_of
literal_of_lem n src h = rw (literal_of, split_at_lem n src h) refl

-- What passes the check stays within the buffer or leaves the addresses.
passes : (above end n : ℕ) → past above end n ≡ false → (n ≤ end) ⊎ (end + above < n)
unfolding past
passes above end n h = elim (dec_le n end) [
  | yes le ↦ inl le
  | no lt ↦ elim (dec_le n (end + above)) [
    | yes near ↦ absurd (ground (arith, h, lt→ltb end n (omega arith), le→leb n (end + above) near))
    | no far ↦ inr (omega arith)
  ]
]

module _ (room : ℕ) (F : Type 0) (out : List ℕ) where
  -- A literal whose length has not wrapped to 0.
  finish_literal-Applied :
      (sp : Space) (len : ℕ) (src : List ℕ)
      → 1 ≤ len
      → length out ≤ room
      → (Escapes sp len → F)
      → Applied room (literal_of len src) F out (finish_literal sp room len src out)
  unfolding finish_literal
  finish_literal-Applied sp len src pos inside escape =
      elim (Bool-cases (past sp.above_src (length src) len)) [
        | inl short ↦ rw short tt
        | inr there ↦ elim (Bool-cases (past sp.above_dst room (length out + len))) [
          | inl full ↦ rw (there, full) tt
          | inr fits ↦
              rw (there, fits, rounds_lem len pos)
                (elim (passes sp.above_src (length src) len there) [
                  | inr far ↦
                      rw (copy_literal-fault len room src out (omega arith))
                        (escape (inl (omega arith)))
                  | inl le ↦ elim (passes sp.above_dst room (length out + len) fits) [
                    | inr far ↦
                        rw (copy_literal-full len room src out inside (omega arith))
                          (escape (inr (inl (omega arith))))
                    | inl total ↦ rw (copy_literal_lem len room src out le total) (
                      literal (take len src),
                      literal_of_lem len src le,
                      apply-literal (take len src) out,
                      omega (arith, total, length-append out (take len src), length-take len src),
                    )
                  ]
                ])
        ]
      ]

  -- A copy, once its operands are known.
  pub finish_copy-Applied :
      (len offset : ℕ) (rest : List ℕ)
      → 1 ≤ len
      → Applied room
          (some (copy offset len, rest))
          F
          out
          (finish_copy room len offset out >>= λ out'. ok (rest, out'))
  unfolding finish_copy
  finish_copy-Applied len offset rest pos =
      elim (Bool-cases (offset == 0 || ltb (length out) offset)) [
        | inl bad ↦ rw bad tt
        | inr good ↦ elim (Bool-cases (ltb room (length out + len))) [
          | inl full ↦ rw (good, full) tt
          | inr fits ↦
              (let one : 1 ≤ offset = ground arith in
                let le : offset ≤ length out = ground arith in
                let total : length out + len ≤ room = omega (tests, fits) in
                let (out', e, r) = copy_back_lem len room offset out one le total in
                rw (good, fits, rounds_lem len pos)
                  (rw e (
                    copy offset len,
                    refl,
                    apply-copy offset len out one le ∙ r,
                    omega (arith, length-repeat_back len offset out r),
                  )))
        ]
      ]

-- A literal, with `m` from its tag.
module _ (sp : Space) (room m : ℕ) (src out : List ℕ) (small : m < 64)
    (bytes : All (λ b. b < 256) src) (word : length src < 2 ^ 32) (inside : length out ≤ room)
    (F : Type 0) (escape : (n : ℕ) → LiteralLength m src n → Escapes sp n → F) where
  long_literal :
      (v : ℕ)
      → 60 ≤ m
      → field (m - 59) src ≡ some (v, drop (m - 59) src)
      → Applied room
          (literal_of (v + 1) (drop (m - 59) src))
          F
          out
          (finish_literal sp room ((v + 1) % 2 ^ 32) (drop (m - 59) src) out)
  long_literal v lo f = elim (dec_lt (v + 1) (2 ^ 32)) [
    | yes fits ↦
        (let e : (v + 1) % 2 ^ 32 ≡ v + 1 = omega arith in
          rw e (
            finish_literal-Applied room F out sp (v + 1) (drop (m - 59) src) (omega arith) inside
              (escape (v + 1) (inr (lo, v, _, f, refl)))))
    | no big ↦
        (let top : v + 1 ≡ 2 ^ 32 =
            omega (arith, field-lt (m - 59) src bytes f, four_bytes (m - 59) (omega arith)) in
          let zero_length : (v + 1) % 2 ^ 32 ≡ 0 = omega arith in
          rw
            (
              zero_length,
              finish_literal-fault sp (2 ^ 32) 0 room (drop (m - 59) src) out rounds-zero
                  (omega (arith, word, length-drop (m - 59) src)) (omega arith) (omega arith),
            )
            (escape (v + 1) (inr (lo, v, _, f, refl)) (inr (inr top))))
  ]

  pub decode_literal-Applied :
      Applied room (literal_element m src) F out (decode_literal sp room (m + 1) src out)
  unfolding decode_literal literal_length literal_element
  decode_literal-Applied = elim (dec_lt m 60) [
    | yes short ↦
        rw (lt→ltb m 60 short, le→ltb 60 (m + 1) (omega arith))
          (finish_literal-Applied room F out sp (m + 1) src (omega arith) inside
            (escape (m + 1) (inl (short, refl))))
    | no long ↦
        (let n : m + 1 - 60 ≡ m - 59 = omega arith in
          rw (le→ltb m 60 (omega arith), lt→ltb 60 (m + 1) (omega arith), n)
            (elim (Bool-cases (ltb (length src) (m - 59))) [
              | inl missing ↦ rw missing tt
              | inr there ↦
                  (let (v, f) = field-some (m - 59) src (omega (tests, there)) in
                    rw (there, f, read_field (m - 59) v src _ (omega arith) bytes f)
                      (long_literal v (omega arith) f))
            ]))
  ]
