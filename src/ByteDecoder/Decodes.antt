-- ===== src/ByteDecoder/Decodes.antt =====
-- The decoder produces what a block expands to.
use csnappy.Common.{
  ℕ, zero, suc, ◌+◌, ◌/◌, ◌%◌, ◌^◌, ◌≤◌, ◌<◌, ◌≡◌, arith, refl, List, [], ◌∷◌, length, All, some,
  inl, inr, ◌==◌, bit_and, if◌then◌else◌, Bool-cases, ==→eq,
}
use csnappy.Common.Outcome.{ok}
use csnappy.Format.{Element, copy, element, apply, Expands, done, next}
use csnappy.Format.Consumes.{element-Behind, Expands-grows}
use csnappy.ByteDecoder.{
  Space, copy_operands, decode_literal, decode_copy, decode_loop, decompress_noheader,
}
use csnappy.ByteDecoder.Literals.{decode_literal_lem}
use csnappy.ByteDecoder.Operands.{
  kind_three, operands_one, operands_two, operands_four, decode_copy_lem, low_two,
}

-- One round of the loop.
module _ (sp : Space) (room tag : ℕ) (src out : List ℕ) {e : Element} {rest out' : List ℕ}
    (byte : tag < 256) (bytes : All (λ b. b < 256) src) (a : apply e out ≡ some out')
    (fits : length out' ≤ room) (word : room < 2 ^ 32) where
  copy_round :
      (len : ℕ) × (offset : ℕ) × (1 ≤ len)
        × (copy offset len ≡ e)
        × (copy_operands tag src ≡ ok (len, offset, rest))
      → decode_copy room tag src out ≡ ok (rest, out')
  copy_round (len, offset, pos, c, o) = decode_copy_lem room tag len offset src out pos c o a fits

  pub round_lem :
      element (tag ∷ src) ≡ some (e, rest)
      → (if bit_and tag 3 == 0
          then decode_literal sp room (tag / 2 ^ 2 + 1) src out
          else decode_copy room tag src out)
        ≡ ok (rest, out')
  unfolding element
  round_lem h = rw (low_two tag) (elim (Bool-cases (tag % 4 == 0)) [
    | inl p ↦
        rw p
          (decode_literal_lem sp room (tag / 4) src out (omega arith) bytes (rw p at h) a fits word)
    | inr p ↦ rw p (elim (Bool-cases (tag % 4 == 1)) [
      | inl q ↦ copy_round (operands_one src bytes tag (==→eq _ _ q) (rw (p, q) at h))
      | inr q ↦ elim (Bool-cases (tag % 4 == 2)) [
        | inl r ↦ copy_round (operands_two src bytes tag (==→eq _ _ r) (rw (p, q, r) at h))
        | inr r ↦
            copy_round (operands_four src bytes tag (kind_three tag p q r) (rw (p, q, r) at h))
      ]
    ])
  ])

-- The loop follows the elements.
decode_loop-Expands :
    (sp : Space)
    → {final : List ℕ} (room fuel : ℕ) {src out : List ℕ} → length src ≤ fuel
    → All (λ b. b < 256) src
    → length final ≤ room
    → room < 2 ^ 32
    → Expands final src out
    → decode_loop sp fuel room src out ≡ ok final
unfolding decode_loop element
decode_loop-Expands sp room fuel enough bytes fits word done = refl
decode_loop-Expands sp room fuel {src = []} enough bytes fits word (next e p a d) =
    absurd (ground arith)
decode_loop-Expands sp room zero {src = tag ∷ src} enough bytes fits word (next e p a d) =
    absurd (omega arith)
decode_loop-Expands sp room (suc fuel) {src = tag ∷ src} {out} enough bytes fits word
      (next e p a d) =
    let b = element-Behind tag src p in
    rw (round_lem sp room tag src out bytes.0 bytes.1 a (omega (arith, Expands-grows d)) word p)
      (decode_loop-Expands sp room fuel (omega (arith, b.not_longer)) (b.bytes bytes.1) fits word d)

-- Wherever the buffers are: if a block of bytes expands to `final`, and `dst` holds `final`, below 4 GiB, the decoder for ARM
-- returns CSNAPPY_E_OK and has written `final` and nothing else. It leaves neither buffer.
pub decompress_noheader-Expands :
    (sp : Space)
    → (src final : List ℕ) (dst_len : ℕ) → All (λ b. b < 256) src
    → length final ≤ dst_len
    → dst_len < 2 ^ 32
    → Expands final src []
    → decompress_noheader sp src dst_len ≡ ok final
unfolding decompress_noheader
decompress_noheader-Expands sp src final dst_len bytes fits word d =
    decode_loop-Expands sp dst_len (length src) (omega arith) bytes fits word d
