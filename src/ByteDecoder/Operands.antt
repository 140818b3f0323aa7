-- ===== src/ByteDecoder/Operands.antt =====
-- The branch of a copy does what the format says, where the output has room.
use csnappy.Common.{
  ℕ, ◌+◌, ◌-◌, ◌*◌, ◌/◌, ◌%◌, ◌≤◌, ◌<◌, ◌≡◌, arith, refl, ap, ◌∙◌, le→ltb, List, length, All, some,
  ◌==◌, bit_and, false,
}
use csnappy.Common.Bits.{bit_and_low}
use csnappy.Common.Outcome.{ok}
use csnappy.Format.{Element, copy, field, copy_element, apply, repeat_back}
use csnappy.Format.Copies.{length-repeat_back}
use csnappy.ByteDecoder.{copy_operands, finish_copy, decode_copy}
use csnappy.Format.Parts.{field-some, field-none}
use csnappy.ByteDecoder.Copying.{copy_back_lem}
use csnappy.ByteDecoder.Literals.{rounds_lem, read_field}
use native.Mathlib.Decide.{dec_le}

-- A copy that the output accepts has an offset within the output.
pub apply-copy_some :
    (offset len : ℕ) (out : List ℕ) {out' : List ℕ}
    → apply (copy offset len) out ≡ some out'
    → (1 ≤ offset) × (offset ≤ length out) × (repeat_back len offset out ≡ some out')
unfolding apply
apply-copy_some offset len out h = (ground arith, ground arith, ground arith)

pub finish_copy_lem :
    (room len offset : ℕ) (out : List ℕ) {out' : List ℕ}
    → 1 ≤ len
    → apply (copy offset len) out ≡ some out'
    → length out' ≤ room
    → finish_copy room len offset out ≡ ok out'
unfolding finish_copy
finish_copy_lem room len offset out {out'} pos a fits =
    let (one, le, r) = apply-copy_some offset len out a in
    let total : length out + len ≤ room = omega (arith, length-repeat_back len offset out r) in
    let (out'', e, r') = copy_back_lem len room offset out one le total in
    let nonzero : (offset == 0) ≡ false = ground arith in
    rw
      (
        nonzero,
        le→ltb (length out) offset le,
        le→ltb room (length out + len) total,
        rounds_lem len pos,
      )
      (ground arith)

-- The operands of a copy are there if its field is.
copy_element-some :
    (len high n : ℕ) (src : List ℕ) {e : Element} {rest : List ℕ}
    → copy_element len high n src ≡ some (e, rest)
    → (v : ℕ) × (field n src ≡ some (v, rest)) × (n ≤ length src) × (copy (high * 256 + v) len ≡ e)
unfolding copy_element
copy_element-some len high n src {e} {rest} h = elim (dec_le n (length src)) [
  | yes le ↦ (let (v, f) = field-some n src le in (v, ground arith, le, ground arith))
  | no lt ↦ absurd (ground (arith, field-none n src (omega arith)))
]

pub low_two : (opcode : ℕ) → bit_and opcode 3 ≡ opcode % 4
low_two opcode = bit_and_low 2 opcode

low_three : (a : ℕ) → bit_and a 7 ≡ a % 8
low_three a = bit_and_low 3 a

-- The operands that a tag and the bytes behind it stand for.
module _ (src : List ℕ) {e : Element} {rest : List ℕ} (bytes : All (λ b. b < 256) src) where
  pub operands_one :
      (opcode : ℕ)
      → opcode % 4 ≡ 1
      → copy_element (opcode / 4 % 8 + 4) (opcode / 32) 1 src ≡ some (e, rest)
      → (len : ℕ) × (offset : ℕ) × (1 ≤ len)
        × (copy offset len ≡ e)
        × (copy_operands opcode src ≡ ok (len, offset, rest))
  unfolding copy_operands
  operands_one opcode kind h =
      let (v, f, le, c) = copy_element-some _ _ 1 src h in
      let k : bit_and opcode 3 ≡ 1 = low_two opcode ∙ kind in
      let l : bit_and (opcode / 4 + 1 - 1) 7 ≡ opcode / 4 % 8 =
        ap (λ (t : ℕ). bit_and t 7) (omega arith) ∙ low_three (opcode / 4) in
      (
        opcode / 4 % 8 + 4,
        opcode / 32 * 256 + v,
        omega arith,
        c,
        rw (k, l, le→ltb (length src) 1 le, read_field 1 v src rest (omega arith) bytes f) refl,
      )

  pub operands_two :
      (opcode : ℕ)
      → opcode % 4 ≡ 2
      → copy_element (opcode / 4 + 1) 0 2 src ≡ some (e, rest)
      → (len : ℕ) × (offset : ℕ) × (1 ≤ len)
        × (copy offset len ≡ e)
        × (copy_operands opcode src ≡ ok (len, offset, rest))
  unfolding copy_operands
  operands_two opcode kind h =
      let (v, f, le, c) = copy_element-some _ _ 2 src h in
      let k : bit_and opcode 3 ≡ 2 = low_two opcode ∙ kind in
      (
        opcode / 4 + 1,
        v,
        omega arith,
        ap (λ (t : ℕ). copy t (opcode / 4 + 1)) (omega arith) ∙ c,
        rw (k, le→ltb (length src) 2 le, read_field 2 v src rest (omega arith) bytes f) refl,
      )

  pub operands_four :
      (opcode : ℕ)
      → opcode % 4 ≡ 3
      → copy_element (opcode / 4 + 1) 0 4 src ≡ some (e, rest)
      → (len : ℕ) × (offset : ℕ) × (1 ≤ len)
        × (copy offset len ≡ e)
        × (copy_operands opcode src ≡ ok (len, offset, rest))
  unfolding copy_operands
  operands_four opcode kind h =
      let (v, f, le, c) = copy_element-some _ _ 4 src h in
      let k : bit_and opcode 3 ≡ 3 = low_two opcode ∙ kind in
      (
        opcode / 4 + 1,
        v,
        omega arith,
        ap (λ (t : ℕ). copy t (opcode / 4 + 1)) (omega arith) ∙ c,
        rw (k, le→ltb (length src) 4 le, read_field 4 v src rest (omega arith) bytes f) refl,
      )

-- Both parts of the branch.
pub decode_copy_lem :
    (room opcode len offset : ℕ) (src out : List ℕ) {e : Element} {rest out' : List ℕ}
    → 1 ≤ len
    → copy offset len ≡ e
    → copy_operands opcode src ≡ ok (len, offset, rest)
    → apply e out ≡ some out'
    → length out' ≤ room
    → decode_copy room opcode src out ≡ ok (rest, out')
unfolding decode_copy
decode_copy_lem room opcode len offset src out pos c o a fits =
    rw (o, finish_copy_lem room len offset out pos (ap (λ x. apply x out) c ∙ a) fits) refl

-- The tag of a copy with an offset of four bytes.
pub kind_three :
    (tag : ℕ)
    → (tag % 4 == 0) ≡ false
    → (tag % 4 == 1) ≡ false
    → (tag % 4 == 2) ≡ false
    → tag % 4 ≡ 3
kind_three tag p q r = ground arith
