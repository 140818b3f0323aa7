-- ===== src/ByteDecoder/Literals.antt =====
-- The branch of a literal does what the format says, where the output has room.
use csnappy.Common.{
  ℕ, zero, suc, ◌+◌, ◌-◌, ◌*◌, ◌%◌, ◌^◌, ◌≤◌, ◌<◌, ◌≡◌, arith, refl, ap, ◌∙◌, lt→ltb, le→ltb, List,
  ◌++◌, length, length-append, length-take, take, drop, All, some, false,
}
use csnappy.Common.Outcome.{ok}
use csnappy.Format.{Element, field, literal_of, literal_element, apply}
use csnappy.Format.Copies.{apply-literal}
use csnappy.ByteDecoder.{
  Space, past, read_bytes, rounds, literal_length, finish_literal, decode_literal,
}
use csnappy.Format.Parts.{literal_of-some, long_some}
use csnappy.ByteDecoder.Reads.{read_bytes-field}
use csnappy.ByteDecoder.Copying.{copy_literal_lem}
use native.Mathlib.Decide.{dec_lt}

-- A sum that stays within the buffer passes the check.
pub past-inside : (above end n : ℕ) → n ≤ end → past above end n ≡ false
unfolding past
past-inside above end n h = rw (le→ltb end n h) refl

pub rounds_lem : (n : ℕ) → 1 ≤ n → rounds n ≡ n
unfolding rounds
rounds_lem n h = ground arith

pub finish_literal_lem :
    (sp : Space)
    → (room len : ℕ) (src out : List ℕ) {e : Element} {rest out' : List ℕ} → 1 ≤ len
    → literal_of len src ≡ some (e, rest)
    → apply e out ≡ some out'
    → length out' ≤ room
    → finish_literal sp room len src out ≡ ok (rest, out')
unfolding finish_literal
finish_literal_lem sp room len src out {e} {rest} {out'} pos h a fits =
    let (le, el, er) = literal_of-some len src h in
    let eo : out ++ take len src ≡ out' = ground (arith, apply-literal (take len src) out) in
    let total : length out + len ≤ room =
      omega
        (arith, ap (length {A = ℕ}) eo, length-append out (take len src), length-take len src) in
    rw
      (
        past-inside sp.above_src (length src) len le,
        past-inside sp.above_dst room (length out + len) total,
        rounds_lem len pos,
      )
      (rw (copy_literal_lem len room src out le total) (ground arith))

pub literal_grows :
    (n : ℕ) (src out : List ℕ) {e : Element} {rest out' : List ℕ}
    → literal_of n src ≡ some (e, rest)
    → apply e out ≡ some out'
    → length out' ≡ length out + n
literal_grows n src out {out' = out'} h a =
    let (le, el, er) = literal_of-some n src h in
    let eo : out ++ take n src ≡ out' = ground (arith, apply-literal (take n src) out) in
    omega (arith, ap (length {A = ℕ}) eo, length-append out (take n src), length-take n src)

pub four_bytes : (n : ℕ) → n ≤ 4 → 2 ^ 0 * 256 ^ n ≤ 2 ^ 32
four_bytes zero h = omega arith
four_bytes (suc zero) h = omega arith
four_bytes (suc (suc zero)) h = omega arith
four_bytes (suc (suc (suc zero))) h = omega arith
four_bytes (suc (suc (suc (suc zero)))) h = omega arith
four_bytes (suc (suc (suc (suc (suc n))))) h = absurd (omega arith)

-- The byte loop from 0 on reads a field.
pub read_field :
    (n v : ℕ) (src rest : List ℕ)
    → n ≤ 4
    → All (λ b. b < 256) src
    → field n src ≡ some (v, rest)
    → read_bytes n 0 src 0 ≡ ok (v, rest)
read_field n v src rest h bytes f =
    read_bytes-field n 0 0 src bytes (omega arith) (four_bytes n h) f
    ∙ ap (λ (t : ℕ). ok (t, rest)) (omega arith)

-- The length of a literal, in the tag or behind it, as a reader of the format takes it.
pub decode_literal_lem :
    (sp : Space)
    → (room m : ℕ) (src out : List ℕ) {e : Element} {rest out' : List ℕ} → m < 64
    → All (λ b. b < 256) src
    → literal_element m src ≡ some (e, rest)
    → apply e out ≡ some out'
    → length out' ≤ room
    → room < 2 ^ 32
    → decode_literal sp room (m + 1) src out ≡ ok (rest, out')
unfolding decode_literal literal_length
decode_literal_lem sp room m src out {e} {rest} {out'} small bytes h a fits word =
    elim (dec_lt m 60) [
      | yes short ↦
          rw (le→ltb 60 (m + 1) (omega arith))
            (finish_literal_lem sp room (m + 1) src out (omega arith) (short_some short) a fits)
      | no long ↦
          (let (v, f, le, l) = long_some m src (omega arith) h in
            let n : m + 1 - 60 ≡ m - 59 = omega arith in
            rw (lt→ltb 60 (m + 1) (omega arith), n, le→ltb (length src) (m - 59) le)
              (rw (read_field (m - 59) v src _ (omega arith) bytes f) (
                rw (wrap v (omega (arith, literal_grows (v + 1) _ out l a))) (
                  finish_literal_lem sp room (v + 1) (drop (m - 59) src) out (omega arith) l a
                    fits))))
    ]
  where
    short_some : m < 60 → literal_of (m + 1) src ≡ some (e, rest)
    short_some short = unfold literal_element in (rw (lt→ltb m 60 short) at h)

    wrap : (v : ℕ) → v + 1 < 2 ^ 32 → (v + 1) % 2 ^ 32 ≡ v + 1
    wrap v lt = omega arith
