-- ===== src/ByteDecoder/Overrun.antt =====
-- A block that expands to more than the output has room for is answered by CSNAPPY_E_OUTPUT_OVERRUN.
use csnappy.Common.{
  ℕ, zero, suc, ◌+◌, ◌-◌, ◌/◌, ◌%◌, ◌^◌, ◌≤◌, ◌<◌, ◌≡◌, arith, refl, sym, ap, ◌∙◌, List, [], ◌∷◌,
  length, drop, All, some, inl, inr, ◌==◌, ◌||◌, ltb, lt→ltb, le→ltb, le→leb, true, bit_and,
  if◌then◌else◌, Bool-cases, ==→eq,
}
use native.Mathlib.Decide.{dec_lt, dec_le}
use csnappy.Common.Outcome.{ok, err, output_overrun}
use csnappy.Format.{Element, copy, literal_of, literal_element, element, apply, Expands, done, next}
use csnappy.Format.Copies.{apply-copy, apply-copy_outside, length-repeat_back}
use csnappy.Format.Consumes.{element-Behind, Expands-grows}
use csnappy.Format.Parts.{literal_of-some, long_some}
use csnappy.ByteDecoder.{
  Space, past, literal_length, finish_literal, finish_copy, copy_operands, decode_literal,
  decode_copy, decode_loop, decompress_noheader,
}
use csnappy.ByteDecoder.Literals.{past-inside, literal_grows, read_field}
use csnappy.ByteDecoder.Operands.{kind_three, operands_one, operands_two, operands_four, low_two}
use csnappy.ByteDecoder.Decodes.{round_lem}

-- A sum that leaves the buffer, but not the addresses, is seen.
past-outside : (above end n : ℕ) → end < n → n ≤ end + above → past above end n ≡ true
unfolding past
past-outside above end n h le = rw (lt→ltb end n h, le→leb n (end + above) le) refl

finish_literal_over :
    (sp : Space)
    → (room len : ℕ) (src out : List ℕ) {e : Element} {rest out' : List ℕ}
    → literal_of len src ≡ some (e, rest)
    → apply e out ≡ some out'
    → room < length out'
    → length out' ≤ room + sp.above_dst
    → finish_literal sp room len src out ≡ err output_overrun
unfolding finish_literal
finish_literal_over sp room len src out h a over near =
    let (le, el, er) = literal_of-some len src h in
    let total : room < length out + len = omega (arith, literal_grows len src out h a) in
    rw
      (
        past-inside sp.above_src (length src) len le,
        past-outside sp.above_dst room (length out + len) total
            (omega (arith, near, literal_grows len src out h a)),
      )
      refl

decode_literal_over :
    (sp : Space)
    → (room m : ℕ) (src out : List ℕ) {e : Element} {rest out' : List ℕ} → m < 64
    → All (λ b. b < 256) src
    → literal_element m src ≡ some (e, rest)
    → apply e out ≡ some out'
    → room < length out'
    → length out' ≤ room + sp.above_dst
    → length out' < 2 ^ 32
    → decode_literal sp room (m + 1) src out ≡ err output_overrun
unfolding decode_literal literal_length
decode_literal_over sp room m src out {e} {rest} {out'} small bytes h a over near word =
    elim (dec_lt m 60) [
      | yes short ↦
          rw (le→ltb 60 (m + 1) (omega arith))
            (rw (finish_literal_over sp room (m + 1) src out (short_some short) a over near) refl)
      | no long ↦
          (let (v, f, le, l) = long_some m src (omega arith) h in
            let n : m + 1 - 60 ≡ m - 59 = omega arith in
            let same : (v + 1) % 2 ^ 32 ≡ v + 1 =
              omega (arith, literal_grows (v + 1) (drop (m - 59) src) out l a) in
            rw (lt→ltb 60 (m + 1) (omega arith), n, le→ltb (length src) (m - 59) le)
              (rw (read_field (m - 59) v src _ (omega arith) bytes f) (
                rw same
                  (finish_literal_over sp room (v + 1) (drop (m - 59) src) out l a over near))))
    ]
  where
    short_some : m < 60 → literal_of (m + 1) src ≡ some (e, rest)
    short_some short = unfold literal_element in (rw (lt→ltb m 60 short) at h)

finish_copy_over :
    (room len offset : ℕ) (out : List ℕ) {out' : List ℕ}
    → apply (copy offset len) out ≡ some out'
    → room < length out'
    → finish_copy room len offset out ≡ err output_overrun
unfolding finish_copy
finish_copy_over room len offset out a over =
    elim (Bool-cases (offset == 0 || ltb (length out) offset)) [
      | inl bad ↦ absurd (ground (arith, a, apply-copy_outside offset len out bad))
      | inr good ↦
          (let pos : 1 ≤ offset = ground (arith, good) in
            let le : offset ≤ length out = ground (arith, good) in
            let total : room < length out + len = omega (
              arith,
              length-repeat_back len offset out (sym (apply-copy offset len out pos le) ∙ a),
            ) in
            rw (good, lt→ltb room (length out + len) total) refl)
    ]

-- One round, with an element that does not fit.
module _ (sp : Space) (room tag : ℕ) (src out : List ℕ) {e : Element} {rest out' : List ℕ}
    (bytes : All (λ b. b < 256) src) (a : apply e out ≡ some out') (over : room < length out')
    (near : length out' ≤ room + sp.above_dst) (word : length out' < 2 ^ 32) where
  copy_round_over :
      (len : ℕ) × (offset : ℕ) × (1 ≤ len)
        × (copy offset len ≡ e)
        × (copy_operands tag src ≡ ok (len, offset, rest))
      → decode_copy room tag src out ≡ err output_overrun
  unfolding decode_copy
  copy_round_over (len, offset, pos, c, o) =
      rw (o, finish_copy_over room len offset out (ap (λ x. apply x out) c ∙ a) over) refl

  round_over :
      tag < 256
      → element (tag ∷ src) ≡ some (e, rest)
      → (if bit_and tag 3 == 0
          then decode_literal sp room (tag / 2 ^ 2 + 1) src out
          else decode_copy room tag src out)
        ≡ err output_overrun
  unfolding element
  round_over byte h = rw (low_two tag) (elim (Bool-cases (tag % 4 == 0)) [
    | inl p ↦ rw p (
        decode_literal_over sp room (tag / 4) src out (omega arith) bytes (rw p at h) a over near
          word)
    | inr p ↦ rw p (elim (Bool-cases (tag % 4 == 1)) [
      | inl q ↦ copy_round_over (operands_one src bytes tag (==→eq _ _ q) (rw (p, q) at h))
      | inr q ↦ elim (Bool-cases (tag % 4 == 2)) [
        | inl r ↦ copy_round_over (operands_two src bytes tag (==→eq _ _ r) (rw (p, q, r) at h))
        | inr r ↦
            copy_round_over (operands_four src bytes tag (kind_three tag p q r) (rw (p, q, r) at h))
      ]
    ])
  ])

decode_loop-overrun :
    (sp : Space)
    → {final : List ℕ} (room fuel : ℕ) {src out : List ℕ} → length src ≤ fuel
    → All (λ b. b < 256) src
    → length out ≤ room
    → room < length final
    → length final ≤ room + sp.above_dst
    → length final < 2 ^ 32
    → Expands final src out
    → decode_loop sp fuel room src out ≡ err output_overrun
unfolding decode_loop element
decode_loop-overrun sp room fuel enough bytes fits over near word done = absurd (omega arith)
decode_loop-overrun sp room fuel {src = []} enough bytes fits over near word (next e p a d) =
    absurd (ground arith)
decode_loop-overrun sp room zero {src = tag ∷ src} enough bytes fits over near word (next e p a d) =
    absurd (omega arith)
decode_loop-overrun sp room (suc fuel) {src = tag ∷ src} {out} enough bytes fits over near word
      (next {out' = out'} e p a d) =
    let b = element-Behind tag src p in
    elim (dec_le (length out') room) [
      | yes inside ↦ rw (round_lem sp room tag src out bytes.0 bytes.1 a inside (omega arith) p) (
          decode_loop-overrun sp room fuel (omega (arith, b.not_longer)) (b.bytes bytes.1) inside
            over near word d)
      | no outside ↦
          rw
            (round_over sp room tag src out bytes.1 a (omega arith)
              (omega (arith, near, Expands-grows d)) (omega (arith, Expands-grows d)) bytes.0 p)
            refl
    ]

-- If a block of bytes expands to `final`, below 4 GiB, `dst` is too short for `final`, and there are as many
-- addresses from `dst` on, the decoder for ARM
-- answers CSNAPPY_E_OUTPUT_OVERRUN, having left neither buffer.
pub decompress_noheader-overrun :
    (sp : Space)
    → (src final : List ℕ) (dst_len : ℕ) → All (λ b. b < 256) src
    → dst_len < length final
    → length final ≤ dst_len + sp.above_dst
    → length final < 2 ^ 32
    → Expands final src []
    → decompress_noheader sp src dst_len ≡ err output_overrun
unfolding decompress_noheader
decompress_noheader-overrun sp src final dst_len bytes over near word d =
    decode_loop-overrun sp dst_len (length src) (omega arith) bytes (omega arith) over near word d
