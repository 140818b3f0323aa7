-- ===== src/ByteDecoder/Sound.antt =====
-- What the byte-wise decoder accepts is a block, and only a literal whose length wraps, or leads
-- past the addresses, makes it leave a buffer.
use csnappy.Common.{
  ℕ, zero, suc, ◌+◌, ◌*◌, ◌/◌, ◌%◌, ◌^◌, ◌≤◌, ◌<◌, ◌≡◌, arith, refl, sym, ap, ◌∙◌, append_assoc,
  ◌++◌, tests, List, [], ◌∷◌, length, drop, All, Option, some, inl, inr, ltb, ◌==◌, bit_and,
  if◌then◌else◌, Bool-cases, true, ==→eq,
}
use csnappy.Common.Outcome.{Outcome, ok, err, fault, ◌>>=◌, data_malformed}
use csnappy.Format.{Element, copy, copy_element, element, apply, Expands, done, next}
use csnappy.Format.Consumes.{Behind, element-Behind}
use csnappy.ByteDecoder.{
  Space, decode_literal, decode_copy, copy_operands, decode_loop, decompress_noheader,
}
use csnappy.Format.Parts.{field-some}
use csnappy.ByteDecoder.Operands.{kind_three, operands_one, operands_two, operands_four, low_two}
use csnappy.ByteDecoder.Rounds.{
  Escapes, LiteralLength, Applied, finish_copy-Applied, decode_literal-Applied,
}

copy_element-there :
    (len high n : ℕ) (src : List ℕ)
    → n ≤ length src
    → (e : Element) × (copy_element len high n src ≡ some (e, drop n src))
unfolding copy_element
copy_element-there len high n src h =
    let (v, f) = field-some n src h in (copy (high * 256 + v) len, rw (copy_element, f) refl)

missing_one :
    (tag : ℕ) (src : List ℕ)
    → tag % 4 ≡ 1
    → ltb (length src) 1 ≡ true
    → copy_operands tag src ≡ err data_malformed
unfolding copy_operands
missing_one tag src kind short = rw (copy_operands, low_two tag, kind, short) refl

missing_two :
    (tag : ℕ) (src : List ℕ)
    → tag % 4 ≡ 2
    → ltb (length src) 2 ≡ true
    → copy_operands tag src ≡ err data_malformed
unfolding copy_operands
missing_two tag src kind short = rw (copy_operands, low_two tag, kind, short) refl

missing_four :
    (tag : ℕ) (src : List ℕ)
    → tag % 4 ≡ 3
    → ltb (length src) 4 ≡ true
    → copy_operands tag src ≡ err data_malformed
unfolding copy_operands
missing_four tag src kind short = rw (copy_operands, low_two tag, kind, short) refl

-- A literal stands at the front whose length escapes.
abbrev pub Escaping : Space → ℕ → List ℕ → Type 0
Escaping sp tag src = (tag % 4 ≡ 0) × (n : ℕ) × LiteralLength (tag / 4) src n × Escapes sp n

-- Such a literal stands somewhere.
abbrev pub HasEscaping : Space → List ℕ → Type 0
HasEscaping sp src =
    (front : List ℕ) × (tag : ℕ) × (rest : List ℕ) × (src ≡ front ++ (tag ∷ rest))
    × Escaping sp tag rest

HasEscaping-Behind :
    (sp : Space) (tag : ℕ) {src rest : List ℕ}
    → Behind src rest
    → HasEscaping sp rest
    → HasEscaping sp (tag ∷ src)
HasEscaping-Behind sp tag b (front, t, more, e, x) = (
  tag ∷ b.front ++ front,
  t,
  more,
  ap (λ (x : List ℕ). tag ∷ x)
      (sym b.whole ∙ ap (λ (x : List ℕ). b.front ++ x) e ∙ sym (append_assoc b.front front _)),
  x,
)

-- One round: the tag and the bytes behind it.
module _ (sp : Space) (room tag : ℕ) (src out : List ℕ) (byte : tag < 256)
    (bytes : All (λ b. b < 256) src) (word : length src < 2 ^ 32) (inside : length out ≤ room) where
  abbrev Copies : Option (Element × List ℕ) → Type 0
  Copies here = Applied room here (Escaping sp tag src) out (decode_copy room tag src out)

  no_operands :
      (here : Option (Element × List ℕ)) → copy_operands tag src ≡ err data_malformed → Copies here
  unfolding decode_copy
  no_operands here o = rw o tt

  operands :
      {e : Element} {rest : List ℕ} {here : Option (Element × List ℕ)}
      → here ≡ some (e, rest)
      → (len : ℕ) × (offset : ℕ) × (1 ≤ len)
        × (copy offset len ≡ e)
        × (copy_operands tag src ≡ ok (len, offset, rest))
      → Copies here
  unfolding decode_copy
  operands {rest = rest} h (len, offset, pos, c, o) =
      rw (h, ← c, o) (finish_copy-Applied room (Escaping sp tag src) out len offset rest pos)

  Copies-one : tag % 4 ≡ 1 → Copies (copy_element (tag / 4 % 8 + 4) (tag / 32) 1 src)
  Copies-one kind = elim (Bool-cases (ltb (length src) 1)) [
    | inl short ↦ no_operands _ (missing_one tag src kind short)
    | inr there ↦
        (let (e, h) =
            copy_element-there (tag / 4 % 8 + 4) (tag / 32) 1 src (omega (tests, there)) in
          operands h (operands_one src bytes tag kind h))
  ]

  Copies-two : tag % 4 ≡ 2 → Copies (copy_element (tag / 4 + 1) 0 2 src)
  Copies-two kind = elim (Bool-cases (ltb (length src) 2)) [
    | inl short ↦ no_operands _ (missing_two tag src kind short)
    | inr there ↦
        (let (e, h) = copy_element-there (tag / 4 + 1) 0 2 src (omega (tests, there)) in
          operands h (operands_two src bytes tag kind h))
  ]

  Copies-four : tag % 4 ≡ 3 → Copies (copy_element (tag / 4 + 1) 0 4 src)
  Copies-four kind = elim (Bool-cases (ltb (length src) 4)) [
    | inl short ↦ no_operands _ (missing_four tag src kind short)
    | inr there ↦
        (let (e, h) = copy_element-there (tag / 4 + 1) 0 4 src (omega (tests, there)) in
          operands h (operands_four src bytes tag kind h))
  ]

  round-Applied : Applied room (element (tag ∷ src)) (Escaping sp tag src) out (
      if bit_and tag 3 == 0
      then decode_literal sp room (tag / 2 ^ 2 + 1) src out
      else decode_copy room tag src out)
  unfolding element
  round-Applied = rw (low_two tag) (elim (Bool-cases (tag % 4 == 0)) [
    | inl p ↦ rw p (
        decode_literal-Applied sp room (tag / 4) src out (omega arith) bytes word inside
          (Escaping sp tag src) (λ n l x. (==→eq _ _ p, n, l, x)))
    | inr p ↦ rw p (elim (Bool-cases (tag % 4 == 1)) [
      | inl q ↦ rw q (Copies-one (==→eq _ _ q))
      | inr q ↦ rw q (elim (Bool-cases (tag % 4 == 2)) [
        | inl r ↦ rw r (Copies-two (==→eq _ _ r))
        | inr r ↦ rw r (Copies-four (kind_three tag p q r))
      ])
    ])
  ])

-- The answers of the decoder: a block that expands within the room, an error, or a fault.
abbrev pub Verdict : Space → ℕ → List ℕ → List ℕ → Outcome (List ℕ) → Type 0
Verdict sp room src out (ok final) = Expands final src out × (length final ≤ room)
Verdict sp room src out (err s) = Unit
Verdict sp room src out fault = HasEscaping sp src

Verdict-next :
    (sp : Space) (room tag : ℕ) (src out : List ℕ) {rest out' : List ℕ} (e : Element)
    (r : Outcome (List ℕ))
    → element (tag ∷ src) ≡ some (e, rest)
    → apply e out ≡ some out'
    → Verdict sp room rest out' r
    → Verdict sp room (tag ∷ src) out r
Verdict-next sp room tag src out e (ok final) p a v = (next e p a v.0, v.1)
Verdict-next sp room tag src out e (err s) p a v = tt
Verdict-next sp room tag src out e fault p a v =
    HasEscaping-Behind sp tag (element-Behind tag src p) v

decode_loop-Verdict :
    (sp : Space) (fuel room : ℕ) (src out : List ℕ)
    → length src ≤ fuel
    → All (λ b. b < 256) src
    → length src < 2 ^ 32
    → length out ≤ room
    → Verdict sp room src out (decode_loop sp fuel room src out)
unfolding decode_loop
decode_loop-Verdict sp fuel room [] out enough bytes word inside = (done, inside)
decode_loop-Verdict sp zero room (tag ∷ src) out enough bytes word inside = absurd (omega arith)
decode_loop-Verdict sp (suc fuel) room (tag ∷ src) out enough bytes word inside =
    after _ (round-Applied sp room tag src out bytes.0 bytes.1 (omega arith) inside)
      (λ rest out'. decode_loop-Verdict sp fuel room rest out')
  where
    after :
        (r : Outcome (List ℕ × List ℕ))
        → Applied room (element (tag ∷ src)) (Escaping sp tag src) out r
        → ((rest out' : List ℕ)
            → length rest ≤ fuel
            → All (λ b. b < 256) rest
            → length rest < 2 ^ 32
            → length out' ≤ room
            → Verdict sp room rest out' (decode_loop sp fuel room rest out'))
        → Verdict sp room (tag ∷ src) out (r >>= λ x. decode_loop sp fuel room x.0 x.1)
    after (ok (rest, out')) (e, p, a, fits) again =
        let b = element-Behind tag src p in
        Verdict-next sp room tag src out e (decode_loop sp fuel room rest out') p a (
          again rest out' (omega (arith, b.not_longer)) (b.bytes bytes.1)
            (omega (arith, b.not_longer)) fits)
    after (err s) x again = tt
    after fault x again = ([], tag, src, refl, x)

-- For every input of bytes, with a length of 32 bits, every room and wherever the buffers are: if the
-- decoder for ARM answers CSNAPPY_E_OK, the input is a block that expands to what was written, which
-- is not more than the room. It leaves a buffer only if somewhere in the input a byte stands that, read as
-- the tag of a literal with what follows it, gives a length of 2^32 or of more than the addresses
-- behind `src_end` or those behind `dst_end`.
pub decompress_noheader-Verdict :
    (sp : Space) (src : List ℕ) (dst_len : ℕ)
    → All (λ b. b < 256) src
    → length src < 2 ^ 32
    → Verdict sp dst_len src [] (decompress_noheader sp src dst_len)
unfolding decompress_noheader
decompress_noheader-Verdict sp src dst_len bytes word =
    decode_loop-Verdict sp (length src) dst_len src [] (omega arith) bytes word (omega arith)
