-- ===== src/Emit/Length.antt =====
-- The length of a long literal: the loop of `EmitLiteral` writes the bytes of a number, the lowest
-- first, and a reader takes them as one field.
use csnappy.Common.{
  ℕ, zero, suc, ◌+◌, ◌/◌, ◌%◌, ◌^◌, ◌≤◌, ◌<◌, ◌≡◌, max, arith, sym, ◌∙◌, List, [], ◌∷◌, ◌++◌,
  append_assoc, append-nil, length, length-append, All, true, Option, some, ◌==◌, bit_and,
  if◌then◌else◌, Bool-cases, inl, inr,
}
use csnappy.Common.Bits.{bit_and_low}
use csnappy.Format.{field}
use csnappy.Emit.{Out, put, put_length}
use native.Mathlib.Nat.{pow-suc}

-- The bytes of a number that is not 0, the lowest first.
pub length_bytes : ℕ → ℕ → List ℕ
length_bytes zero n = []
length_bytes (suc fuel) n =
    let rest = length_bytes fuel (n / 256) in if n == 0 then [] else (n % 256) ∷ rest

pub length-length_bytes : (fuel k n : ℕ) → n < 256 ^ k → length (length_bytes fuel n) ≤ k
unfolding length_bytes
length-length_bytes zero k n h = omega arith
length-length_bytes (suc fuel) zero n h = ground arith
length-length_bytes (suc fuel) (suc k) n h =
    ground (arith, length-length_bytes fuel k (n / 256) (omega (arith, pow-suc 256 k)))

pub length-length_bytes_pos : (fuel n : ℕ) → 0 < n → 1 ≤ length (length_bytes (suc fuel) n)
unfolding length_bytes
length-length_bytes_pos fuel n h = ground arith

pub length_bytes-IsByte : (fuel n : ℕ) → All (λ b. b < 256) (length_bytes fuel n)
unfolding length_bytes
length_bytes-IsByte zero n = tt
length_bytes-IsByte (suc fuel) n = ground (arith, length_bytes-IsByte fuel (n / 256))

-- They are the field that a reader takes.
pub field-length_bytes :
    (fuel n : ℕ) (rest : List ℕ)
    → n < 256 ^ fuel
    → field (length (length_bytes fuel n)) (length_bytes fuel n ++ rest) ≡ some (n, rest)
unfolding length_bytes field
field-length_bytes zero n rest h = ground arith
field-length_bytes (suc fuel) n rest h = ground (
  arith,
  pow-suc 256 fuel,
  field-length_bytes fuel (n / 256) rest (omega (arith, pow-suc 256 fuel)),
)

low_byte : (n : ℕ) → bit_and n 0xff ≡ n % 256
low_byte n = bit_and_low 8 n

-- The loop appends those bytes and counts them.
pub record Lengthened (out : Out) (bytes : List ℕ) (count : ℕ) (r : Option (Out × ℕ)) : Type 0 where
  pub end : Out
  pub result : r ≡ some (end, count + length bytes)
  pub appended : end.bytes ≡ out.bytes ++ bytes
  pub bounded : end.reach ≤ max out.reach (length out.bytes + length bytes)

Lengthened-stop : (out : Out) (count : ℕ) → Lengthened out [] count (some (out, count))
Lengthened-stop out count = record {
  end = out;
  result = ground arith;
  appended = sym (append-nil out.bytes);
  bounded = omega arith;
}

Lengthened-cons :
    (out : Out) (b b' count : ℕ) (bytes : List ℕ) (r : Option (Out × ℕ))
    → b % 256 ≡ b'
    → Lengthened (put out b) bytes (count + 1) r
    → Lengthened out (b' ∷ bytes) count r
unfolding put
Lengthened-cons out b b' count bytes r e l = record {
  end = l.end;
  result = ground arith;
  appended = l.appended ∙ rw e (append_assoc out.bytes (b' ∷ []) bytes);
  bounded = omega (arith, l.bounded, length-append out.bytes ((b % 256) ∷ []));
}

pub put_length-Lengthened :
    (fuel : ℕ) (out : Out) (n count : ℕ)
    → n < 256 ^ fuel
    → Lengthened out (length_bytes fuel n) count (put_length fuel out n count)
unfolding put_length length_bytes
put_length-Lengthened zero out n count h = rw none_left (Lengthened-stop out count)
  where
    none_left : (n == 0) ≡ true
    none_left = ground arith
put_length-Lengthened (suc fuel) out n count h = elim (Bool-cases (n == 0)) [
  | inl stop ↦ rw stop (Lengthened-stop out count)
  | inr more ↦ rw more (
      Lengthened-cons out (bit_and n 0xff) (n % 256) count (length_bytes fuel (n / 256)) _
        (omega (arith, low_byte n))
        (put_length-Lengthened fuel (put out (bit_and n 0xff)) (n / 256) (count + 1)
          (omega (arith, pow-suc 256 fuel))))
]
