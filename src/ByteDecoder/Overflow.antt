-- ===== src/ByteDecoder/Overflow.antt =====
-- The length of a literal that four bytes give wraps to 0 at 2^32 - 1. Both checks let it pass, and
-- the copy loop runs 2^32 times. A length that leads past the addresses passes them too.
use csnappy.Common.{
  ℕ, zero, suc, ◌+◌, ◌^◌, ◌%◌, All, some, false, ◌≤◌, ◌<◌, ◌≡◌, arith, refl, le→ltb, List, [], ◌∷◌,
  ◌++◌, length, length-append, tests, ltb, Bool-cases, inl, inr,
}
use csnappy.Common.Outcome.{ok, fault}
use csnappy.ByteDecoder.Literals.{past-inside, rounds_lem, read_field}
use csnappy.Format.{field}
use csnappy.Format.Parts.{field-none}
use native.Mathlib.Decide.{dec_le}
use csnappy.ByteDecoder.{
  Space, past, read_bytes, rounds, copy_literal, literal_length, finish_literal, decode_literal,
  decode_loop,
}

-- A copy that has more to write than the input or the output has leaves it.
pub copy_literal-fault :
    (n room : ℕ) (src out : List ℕ) → length src < n → copy_literal n room src out ≡ fault
unfolding copy_literal
copy_literal-fault zero room src out h = absurd (omega arith)
copy_literal-fault (suc n) room [] out h = refl
copy_literal-fault (suc n) room (b ∷ src) out h = elim (Bool-cases (ltb (length out) room)) [
  | inl p ↦ rw p (copy_literal-fault n room src (out ++ (b ∷ [])) (omega arith))
  | inr p ↦ rw p refl
]

-- The same, where the output has not the room.
pub copy_literal-full :
    (n room : ℕ) (src out : List ℕ)
    → length out ≤ room
    → room < length out + n
    → copy_literal n room src out ≡ fault
unfolding copy_literal
copy_literal-full zero room src out fits h = absurd (omega arith)
copy_literal-full (suc n) room [] out fits h = refl
copy_literal-full (suc n) room (b ∷ src) out fits h = elim (Bool-cases (ltb (length out) room)) [
  | inl p ↦
      (let longer : length (out ++ (b ∷ [])) ≡ length out + 1 = length-append out (b ∷ []) in
        rw p (
          copy_literal-full n room src (out ++ (b ∷ [])) (omega (tests, p, longer))
            (omega (arith, longer))))
  | inr p ↦ rw p refl
]

wraps_to_zero : (src : List ℕ) → literal_length 64 (255 ∷ 255 ∷ 255 ∷ 255 ∷ src) ≡ ok (0, src)
unfolding literal_length read_bytes
wraps_to_zero src = rw (le→ltb (suc (suc (suc (suc (length src))))) 4 (omega arith)) refl

pub finish_literal-fault :
    (sp : Space)
    → (n len room : ℕ) (src out : List ℕ) → rounds len ≡ n
    → length src < n
    → len ≤ length src
    → length out + len ≤ room
    → finish_literal sp room len src out ≡ fault
unfolding finish_literal
finish_literal-fault sp n len room src out e short le fits =
    rw
      (
        past-inside sp.above_src (length src) len le,
        past-inside sp.above_dst room (length out + len) fits,
        e,
      )
      (rw (copy_literal-fault n room src out short) refl)

pub rounds-zero : rounds 0 ≡ 2 ^ 32
unfolding rounds
rounds-zero = refl

decode_literal-fault :
    (sp : Space)
    → (room : ℕ) (src out : List ℕ) → length out ≤ room
    → length src < 2 ^ 32
    → decode_literal sp room 64 (0xff ∷ 0xff ∷ 0xff ∷ 0xff ∷ src) out ≡ fault
unfolding decode_literal
decode_literal-fault sp room src out fits short =
    rw (wraps_to_zero src) (
      finish_literal-fault sp (2 ^ 32) 0 room src out rounds-zero short (omega arith) (omega arith))

-- Wherever the buffers are: at any point of a block, for any output so far that fits `dst`, any room and any fewer than 2^32
-- bytes that follow, the literal with the tag 0xfc and a length field of four bytes 0xff makes the
-- decoder for ARM leave a buffer: no check of the function stops it.
pub decode_loop-fault :
    (sp : Space)
    → (fuel room : ℕ) (src out : List ℕ) → length out ≤ room
    → length src < 2 ^ 32
    → decode_loop sp (suc fuel) room (0xfc ∷ 0xff ∷ 0xff ∷ 0xff ∷ 0xff ∷ src) out ≡ fault
unfolding decode_loop
decode_loop-fault sp fuel room src out fits short =
    rw (decode_literal-fault sp room src out fits short) refl

-- A sum that leaves the addresses passes the check.
past-beyond : (above end n : ℕ) → end + above < n → past above end n ≡ false
unfolding past
past-beyond above end n h = ground (arith, h)

four_length :
    (v : ℕ) (src rest : List ℕ)
    → All (λ b. b < 256) src
    → field 4 src ≡ some (v, rest)
    → v + 1 < 2 ^ 32
    → literal_length 64 src ≡ ok (v + 1, rest)
unfolding literal_length
four_length v src rest bytes f small = elim (dec_le 4 (length src)) [
  | yes there ↦
      (let same : (v + 1) % 2 ^ 32 ≡ v + 1 = omega arith in
        rw (le→ltb (length src) 4 there)
          (rw (read_field 4 v src rest (omega arith) bytes f) (rw same refl)))
  | no short ↦ absurd (ground (arith, f, field-none 4 src (omega arith)))
]

finish_literal-escapes :
    (sp : Space) (len room : ℕ) (src out : List ℕ)
    → 1 ≤ len
    → length src + sp.above_src < len
    → room + sp.above_dst < length out + len
    → finish_literal sp room len src out ≡ fault
unfolding finish_literal
finish_literal-escapes sp len room src out pos far_src far_dst =
    rw
      (
        past-beyond sp.above_src (length src) len far_src,
        past-beyond sp.above_dst room (length out + len) far_dst,
        rounds_lem len pos,
      )
      (rw (copy_literal-fault len room src out (omega arith)) refl)

-- At any point of a block of bytes, for any output so far and any room: if the tag 0xfc and the four bytes
-- behind it give a literal a length below 2^32 that leads past the addresses both from there on and from
-- `dst` on, the decoder for ARM leaves a buffer, since both checks let it pass.
pub decode_loop-escapes :
    (sp : Space) (fuel room v : ℕ) (src rest out : List ℕ)
    → All (λ b. b < 256) src
    → field 4 src ≡ some (v, rest)
    → v + 1 < 2 ^ 32
    → length rest + sp.above_src < v + 1
    → room + sp.above_dst < length out + (v + 1)
    → decode_loop sp (suc fuel) room (0xfc ∷ src) out ≡ fault
unfolding decode_loop decode_literal
decode_loop-escapes sp fuel room v src rest out bytes f small far_src far_dst =
    rw (four_length v src rest bytes f small)
      (rw (finish_literal-escapes sp (v + 1) room rest out (omega arith) far_src far_dst) refl)
