-- ===== src/FastDecoder/Loop.antt =====
-- The whole loop: what it accepts and what it refuses, for any bytes.
use csnappy.Common.{
  ℕ, zero, suc, ◌+◌, ◌-◌, ◌^◌, ◌≤◌, ◌<◌, ◌≡◌, ◌⊎◌, arith, refl, ap, ◌∙◌, List, [], All, length,
  take, take_all, inl, inr,
}
use native.Mathlib.Decide.{dec_le}
use csnappy.Common.Outcome.{Outcome, ok, err, fault, ◌>>=◌}
use csnappy.Format.{done}
use csnappy.Format.Consumes.{Expands-grows}
use csnappy.Writer.{Writer}
use csnappy.Writer.Outputs.{Holds}
use csnappy.FastDecoder.{Reader, advance, decode_element, decode_loop, decompress_noheader}
use csnappy.FastDecoder.Refill.{Good, Ready, ahead, rest, loop_cond-stops, loop_cond-Ready}
use csnappy.FastDecoder.Steps.{Stepped}
use csnappy.FastDecoder.Elements.{decode_element-Stepped}
use csnappy.FastDecoder.Verdict.{
  Verdict, Expands-front, Good-advance, some_ahead, Verdict-within, Verdict-behind, Verdict-wrapped,
}

-- Behind the end the loop stops.
at_end :
    (fuel : ℕ) (r : Reader) (w : Writer)
    → Good r
    → r.end ≤ r.src
    → 1 ≤ fuel
    → decode_loop fuel r w ≡ ok w
unfolding decode_loop
at_end zero r w good le h = absurd (omega arith)
at_end (suc fuel) r w good le h = rw (loop_cond-stops r good le) refl

-- What the rounds after this one do.
abbrev Later : ℕ → ℕ → Type 0
Later fuel room =
    (r : Reader) (w : Writer) (out : List ℕ)
    → Holds room out w
    → Good r
    → ahead r < fuel
    → Verdict room (rest r) out (decode_loop fuel r w)

-- One round, from a tag.
round :
    (fuel room : ℕ) (r : Reader) (out : List ℕ) (o : Outcome (Reader × Writer))
    → Later fuel room
    → Ready r
    → ahead r ≤ fuel
    → Stepped room r out o
    → Verdict room (rest r) out (o >>= λ x. decode_loop fuel x.0 x.1)
round fuel room r out (ok (r', w')) later ready enough (inl (k, e, x)) =
    elim (dec_le (r.src + k) r.end) [
      | yes le ↦ rw e (
          Verdict-within r ready room out k x (decode_loop fuel (advance r k) w') le (
            later (advance r k) w' x.out' x.holds (Good-advance r ready k x.reach)
              (omega (arith, x.some_bytes, ready.some_left))))
      | no lt ↦
          rw
            (
              e,
              at_end fuel (advance r k) w' (Good-advance r ready k x.reach) (omega (arith, lt))
                  (omega (arith, ready.some_left)),
            )
            (Verdict-behind r ready room out k x (omega (arith, lt))
              (five x.reach (omega (arith, lt))))
    ]
  where
    five : (r.src + k ≤ r.end) ⊎ (k ≤ 5) → r.end < r.src + k → k ≤ 5
    five (inl le) lt = absurd (omega arith)
    five (inr few) lt = few
round fuel room r out (ok (r', w')) later ready enough (inr (e, le, wrapped, none_there, holds)) =
    rw e (
      Verdict-wrapped r ready room out (decode_loop fuel (advance r 5) w') le wrapped none_there (
        later (advance r 5) w' out holds (Good-advance r ready 5 (inl le))
          (omega (arith, ready.some_left))))
round fuel room r out (err s) later ready enough refused = λ final d fits.
    (let (e, more, out', p, a, behind) = Expands-front d (some_ahead r ready) in
      refused e more out' p a (omega (arith, Expands-grows behind)))
round fuel room r out fault later ready enough never = never

decode_loop-Verdict :
    (fuel room : ℕ) (r : Reader) (w : Writer) (out : List ℕ)
    → room < 2 ^ 31
    → Holds room out w
    → Good r
    → ahead r < fuel
    → Verdict room (rest r) out (decode_loop fuel r w)
unfolding decode_loop
decode_loop-Verdict zero room r w out small holds good enough = absurd (omega arith)
decode_loop-Verdict (suc fuel) room r w out small holds good enough = elim (dec_le r.end r.src) [
  | yes over ↦
      (let none_left : ahead r ≡ 0 = omega arith in
        rw (loop_cond-stops r good over) (out, holds, inl ([], omega arith, rw none_left done)))
  | no there ↦
      (let (r', e, ready, same, as_far) = loop_cond-Ready r good (omega (arith, there)) in
        rw e (
          rw same at (
            round fuel room r' out (decode_element r' w)
              (λ r w out. decode_loop-Verdict fuel room r w out small) ready (omega (arith, as_far))
              (decode_element-Stepped room out w holds small r' ready))))
]

-- At the start.
abbrev pub start : List ℕ → List ℕ → Reader
start scratch src = record { memory = src; scratch = scratch; src = 0; end = length src }

pub Good-start :
    (scratch src : List ℕ)
    → length scratch ≡ 5
    → All (λ b. b < 256) scratch
    → All (λ b. b < 256) src
    → length src < 2 ^ 31
    → Good (start scratch src)
Good-start scratch src five scratch_bytes bytes small = record {
  five = five;
  inside = omega arith;
  small = small;
  near = omega arith;
  bytes = bytes;
  scratch_bytes = scratch_bytes;
}

pub rest-start : (scratch src : List ℕ) → rest (start scratch src) ≡ src
rest-start scratch src =
    let n : length src - 0 ≡ length src = omega arith in
    ap (λ (t : ℕ). take t src) n ∙ take_all (length src) src (omega arith)

pub Holds-start : (dst : List ℕ) → Holds (length dst) [] (record { buffer = dst; op = 0 })
Holds-start dst = record { roomy = refl; within = omega arith; output = refl }

-- For every input of bytes, shorter than 2^31, a buffer `dst` shorter than 2^31 and a scratch array of
-- five bytes, whatever the two hold at the start: if the optimised decoder answers CSNAPPY_E_OK, its
-- output is what the input, with up to four stale bytes behind it, expands to, or the input has a byte
-- 0xfc before four bytes 0xff; if it answers an error, the input is no block that expands to what `dst`
-- has room for; and it reads and writes inside its buffers, with the fuel that it is given.
pub fast_noheader-Verdict :
    (scratch src dst : List ℕ)
    → length scratch ≡ 5
    → All (λ b. b < 256) scratch
    → All (λ b. b < 256) src
    → length src < 2 ^ 31
    → length dst < 2 ^ 31
    → Verdict (length dst) src [] (decompress_noheader scratch src dst)
unfolding decompress_noheader
fast_noheader-Verdict scratch src dst five scratch_bytes bytes small roomy =
    rw (rest-start scratch src) at (
      decode_loop-Verdict (length src + 1) (length dst) (start scratch src)
        (record { buffer = dst; op = 0 }) [] roomy (Holds-start dst)
        (Good-start scratch src five scratch_bytes bytes small) (omega arith))
