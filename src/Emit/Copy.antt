-- ===== src/Emit/Copy.antt =====
-- What `EmitCopyLessThan64` and `EmitCopy` write expands to the copy they were asked for.
use csnappy.Common.{
  ℕ, ◌+◌, ◌-◌, ◌*◌, ◌/◌, ◌%◌, ◌^◌, ◌≤◌, ◌<◌, ◌≡◌, max, arith, ◌∙◌, List, [], ◌∷◌, ◌++◌,
  append_assoc, length, length-append, some, ltb, ◌&&◌, Bool-cases, inl, inr, bit_and,
}
use csnappy.Common.Bits.{bit_and_low}
use mathlib.Core.Path.{ap₂}
use csnappy.Format.{copy, field, copy_element, element}
use csnappy.Emit.{Out, put, put_le16, emit_copy_less_than64}
use csnappy.Emit.Literal.{Emitted}

low_byte : (n : ℕ) → bit_and n 0xff ≡ n % 256
low_byte n = bit_and_low 8 n

abbrev near : ℕ → ℕ → List ℕ
near offset len = (1 + (len - 4) * 4 + offset / 256 * 32) ∷ (offset % 256) ∷ []

abbrev far : ℕ → ℕ → List ℕ
far offset len = (2 + (len - 1) * 4) ∷ (offset % 256) ∷ (offset / 256) ∷ []

near_spells :
    (offset len : ℕ)
    → 4 ≤ len
    → len < 12
    → offset < 2048
    → element (near offset len) ≡ some (copy offset len, [])
unfolding element copy_element field
near_spells offset len lo hi small = ground arith

far_spells :
    (offset len : ℕ)
    → 1 ≤ len
    → len ≤ 64
    → offset < 2 ^ 16
    → element (far offset len) ≡ some (copy offset len, [])
unfolding element copy_element field
far_spells offset len lo hi small = ground arith

-- The state after two or three bytes.
two_bytes :
    (out : Out) (a b : ℕ) → (put (put out a) b).bytes ≡ out.bytes ++ (a % 256 ∷ b % 256 ∷ [])
unfolding put
two_bytes out a b = append_assoc out.bytes ((a % 256) ∷ []) ((b % 256) ∷ [])

three_bytes :
    (out : Out) (a b c : ℕ)
    → (put (put (put out a) b) c).bytes ≡ out.bytes ++ (a % 256 ∷ b % 256 ∷ c % 256 ∷ [])
unfolding put
three_bytes out a b c = simp append_assoc

put_reach : (out : Out) (a : ℕ) → (put out a).reach ≤ max out.reach (length (put out a).bytes)
unfolding put
put_reach out a = omega (arith, length-append out.bytes ((a % 256) ∷ []))

put_length : (out : Out) (a : ℕ) → length (put out a).bytes ≡ length out.bytes + 1
unfolding put
put_length out a = length-append out.bytes ((a % 256) ∷ [])

module _ (out : Out) (offset len : ℕ) (lo : 4 ≤ len) (hi : len ≤ 64) (fits : offset < 2 ^ 16) where
  abbrev near_end : Out
  near_end = put (put out (1 + (len - 4) * 2 ^ 2 + offset / 2 ^ 8 * 2 ^ 5)) (bit_and offset 0xff)

  abbrev far_end : Out
  far_end = put_le16 (put out (2 + (len - 1) * 2 ^ 2)) offset

  near_Emitted : len < 12 → offset < 2048 → Emitted (copy offset len) 3 0 out near_end
  near_Emitted short small = record {
    chunk = near offset len;
    appended =
        two_bytes out _ _
        ∙ ap₂ (λ (a b : ℕ). out.bytes ++ (a ∷ b ∷ [])) (omega arith)
            (omega (arith, low_byte offset));
    spells = near_spells offset len lo short small;
    are_bytes = omega arith;
    small = omega arith;
    bounded = omega (
      arith,
      put_reach out (1 + (len - 4) * 2 ^ 2 + offset / 2 ^ 8 * 2 ^ 5),
      put_reach (put out (1 + (len - 4) * 2 ^ 2 + offset / 2 ^ 8 * 2 ^ 5)) (bit_and offset 0xff),
      put_length (put out (1 + (len - 4) * 2 ^ 2 + offset / 2 ^ 8 * 2 ^ 5)) (bit_and offset 0xff),
    );
  }

  far_Emitted : Emitted (copy offset len) 3 0 out far_end
  unfolding put_le16
  far_Emitted = record {
    chunk = far offset len;
    appended =
        three_bytes out _ _ _
        ∙ ap₂ (λ (a c : ℕ). out.bytes ++ (a ∷ (offset % 256) ∷ c ∷ [])) (omega arith) (omega arith);
    spells = far_spells offset len (omega arith) hi fits;
    are_bytes = omega arith;
    small = omega arith;
    bounded = omega (
      arith,
      put_reach out (2 + (len - 1) * 2 ^ 2),
      put_reach (put out (2 + (len - 1) * 2 ^ 2)) offset,
      put_reach (put (put out (2 + (len - 1) * 2 ^ 2)) offset) (offset / 2 ^ 8),
      put_length (put out (2 + (len - 1) * 2 ^ 2)) offset,
      put_length (put (put out (2 + (len - 1) * 2 ^ 2)) offset) (offset / 2 ^ 8),
    );
  }

  -- For a length from 4 to 64 and an offset below 2^16, `EmitCopyLessThan64` appends at most three
  -- bytes that spell the copy, and writes nothing past the new end.
  pub emit_copy_less_than64-Emitted :
      Emitted (copy offset len) 3 0 out (emit_copy_less_than64 out offset len)
  unfolding emit_copy_less_than64
  emit_copy_less_than64-Emitted = elim (Bool-cases (ltb len 12 && ltb offset 2048)) [
    | inl both ↦ rw both (near_Emitted (ground arith) (ground arith))
    | inr other ↦ rw other far_Emitted
  ]
