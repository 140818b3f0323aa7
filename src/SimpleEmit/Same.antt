-- ===== src/SimpleEmit/Same.antt =====
-- The emitters of the simple compressor write what those of the optimised one write.
use csnappy.Common.{
  ℕ, zero, suc, ◌+◌, ◌-◌, ◌*◌, ◌/◌, ◌%◌, ◌^◌, ◌≤◌, ◌<◌, ◌≡◌, arith, tests, refl, sym, ap, ◌∙◌,
  bit_and, bit_or, List, ◌&&◌, some, ltb, ◌==◌, false, le→ltb, Bool-cases, Option-cases, and-left,
  inl, inr,
}
use csnappy.Common.Bits.{bit_or_shifted, bit_and_low}
use csnappy.Emit
use csnappy.Emit.{Out, put, skip, put_length, put_le16, emit_copy_less_than64, emit_copies}
use csnappy.SimpleEmit.{put_rounds, emit_literal, put_copy, put_copies, put_remainder, emit_copy}

positive : (n : ℕ) → 1 ≤ n → (n == 0) ≡ false
positive n h = ground arith

put_length-zero : (fuel count : ℕ) (out : Out) → put_length fuel out 0 count ≡ some (out, count)
unfolding put_length
put_length-zero zero count out = refl
put_length-zero (suc fuel) count out = refl

put_rounds-put_length :
    (fuel n count : ℕ) (out : Out)
    → 1 ≤ n
    → put_rounds fuel out n count ≡ put_length fuel out n count
unfolding put_rounds put_length
put_rounds-put_length zero n count out h = rw (positive n h) refl
put_rounds-put_length (suc fuel) n count out h = elim (Bool-cases (ltb 0 (n / 2 ^ 8))) [
  | inl more ↦
      rw (positive n h, more)
        (put_rounds-put_length fuel (n / 2 ^ 8) (count + 1) (put out (bit_and n 0xff))
          (omega (tests, more)))
  | inr last ↦
      (let none_left : n / 2 ^ 8 ≡ 0 = omega (tests, last) in
        rw (positive n h, last)
          (sym (
            ap (λ (t : ℕ). put_length fuel (put out (bit_and n 0xff)) t (count + 1)) none_left
            ∙ put_length-zero fuel (count + 1) (put out (bit_and n 0xff)))))
]

-- For a literal of a byte at least, `emit_literal` is `EmitLiteral` without its fast path.
pub emit_literal-EmitLiteral :
    (input : List ℕ) (out : Out) (pos len : ℕ)
    → 1 ≤ len
    → emit_literal input out pos len ≡ Emit.emit_literal input out pos len false
unfolding emit_literal Emit.emit_literal
emit_literal-EmitLiteral input out pos len h = elim (Bool-cases (ltb (len - 1) 60)) [
  | inl short ↦ rw (positive len h, short) refl
  | inr long ↦
      rw
        (positive len h, long, put_rounds-put_length 4 (len - 1) 0 (skip out) (omega (tests, long)))
        refl
]

-- One byte of an offset is the offset's last.
put-low : (out : Out) (v : ℕ) → put out (bit_and v 255) ≡ put out v
unfolding put
put-low out v = let e : bit_and v 255 % 256 ≡ v % 256 = omega (arith, bit_and_low 8 v) in rw e refl

put_copy-le16 :
    (out : Out) (offset len : ℕ)
    → put_copy out offset len ≡ put_le16 (put out (2 + (len - 1) * 2 ^ 2)) offset
unfolding put_copy put_le16
put_copy-le16 out offset len =
    let tag : bit_or 2 ((len - 1) * 2 ^ 2) ≡ 2 + (len - 1) * 2 ^ 2 =
      bit_or_shifted 2 (len - 1) 2 (omega arith) in
    rw tag
      (ap (λ (t : Out). put t (offset / 2 ^ 8)) (put-low (put out (2 + (len - 1) * 2 ^ 2)) offset))

put_copy-emit :
    (out : Out) (offset len : ℕ)
    → 12 ≤ len
    → put_copy out offset len ≡ emit_copy_less_than64 out offset len
unfolding emit_copy_less_than64
put_copy-emit out offset len h = rw (le→ltb len 12 h) (put_copy-le16 out offset len)

put_remainder-emit :
    (out : Out) (offset len : ℕ)
    → put_remainder out offset len ≡ emit_copy_less_than64 out offset len
unfolding put_remainder emit_copy_less_than64
put_remainder-emit out offset len = elim (Bool-cases (ltb len 12 && ltb offset 2048)) [
  | inl near ↦
      (let short : len < 12 = omega (tests, and-left (ltb len 12) (ltb offset 2048) near) in
        let low : bit_or 1 ((len - 4) * 2 ^ 2) ≡ 1 + (len - 4) * 2 ^ 2 =
          bit_or_shifted 2 (len - 4) 1 (omega arith) in
        let tag : bit_or (1 + (len - 4) * 2 ^ 2) (offset / 2 ^ 8 * 2 ^ 5)
            ≡ 1 + (len - 4) * 2 ^ 2 + offset / 2 ^ 8 * 2 ^ 5 =
          bit_or_shifted 5 (offset / 2 ^ 8) (1 + (len - 4) * 2 ^ 2) (omega arith) in
        rw (near, low, tag) refl)
  | inr far ↦ rw far (put_copy-le16 out offset len)
]

put_copies-emit_copies :
    (fuel : ℕ) (out : Out) (offset len : ℕ)
    → put_copies fuel out offset len ≡ emit_copies fuel out offset len
unfolding put_copies emit_copies
put_copies-emit_copies zero out offset len = refl
put_copies-emit_copies (suc fuel) out offset len =
    rw
      (
        put_copy-emit out offset 64 (omega arith),
        put_copies-emit_copies fuel (emit_copy_less_than64 out offset 64) offset (len - 64),
      )
      refl

-- For every offset and length, `emit_copy` writes what `EmitCopy` does.
pub emit_copy-EmitCopy :
    (out : Out) (offset len : ℕ) → emit_copy out offset len ≡ Emit.emit_copy out offset len
unfolding emit_copy Emit.emit_copy
emit_copy-EmitCopy out offset len = elim (Option-cases (emit_copies (len + 1) out offset len)) [
  | inl q ↦ rw (put_copies-emit_copies (len + 1) out offset len, q) refl
  | inr ((o, l), q) ↦
      rw
        (
          put_copies-emit_copies (len + 1) out offset len,
          q,
          put_copy-emit o offset 60 (omega arith),
          put_remainder-emit (emit_copy_less_than64 o offset 60) offset (l - 60),
          put_remainder-emit o offset l,
        )
        refl
]
