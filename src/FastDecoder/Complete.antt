-- ===== src/FastDecoder/Complete.antt =====
-- Every block that `dst` has room for is decoded, and to what the format says.
use csnappy.Common.{
  ℕ, zero, suc, ◌+◌, ◌-◌, ◌^◌, ◌≤◌, ◌<◌, ◌≡◌, ◌⊎◌, arith, refl, sym, ap, ◌∙◌, List, [], ◌∷◌, ◌++◌,
  append-nil, All, length, length-append, length-drop, length-take, take, take-take, drop,
  take-append-drop, some, inl, inr,
}
use native.Mathlib.Decide.{dec_le}
use csnappy.Common.Outcome.{Outcome, ok, err, fault, ◌>>=◌}
use csnappy.Format.{Element, element, apply, Expands, done, next}
use csnappy.Format.Laws.{element-append}
use csnappy.Format.Consumes.{Expands-grows}
use csnappy.Writer.{Writer}
use csnappy.Writer.Outputs.{Holds, length-Holds}
use csnappy.ByteDecoder
use csnappy.ByteDecoder.Sound.{decompress_noheader-Verdict}
use csnappy.FastDecoder.{Reader, advance, decode_element, decode_loop, decompress_noheader}
use csnappy.FastDecoder.Refill.{Good, Ready, ahead, rest, loop_cond-stops, loop_cond-Ready}
use csnappy.FastDecoder.Steps.{Stepped, Read}
use csnappy.FastDecoder.Verdict.{rest-advance, Good-advance}
use csnappy.FastDecoder.Loop.{start, rest-start, Good-start, Holds-start}
use csnappy.FastDecoder.Elements.{decode_element-Stepped}

-- The loop writes `final`.
abbrev Writes : ℕ → List ℕ → Outcome Writer → Type 0
Writes room final o = (w : Writer) × (o ≡ ok w) × Holds room final w

module _ (room : ℕ) (r : Reader) (ready : Ready r) (out : List ℕ) where
  -- An element that is there is read from within the input.
  within :
      (k : ℕ) {w' : Writer} (x : Read room r out k w') {e : Element} {more : List ℕ}
      → element (rest r) ≡ some (e, more)
      → r.end < r.src + k
      → k ≤ 5
      → ⊥
  within k x {e} {more} p lt few =
      let read : List ℕ = take k (drop r.src r.memory) in
      let tail : List ℕ = drop (ahead r) read in
      let ahead_of : rest r ≡ take (ahead r) read =
        sym (take-take (ahead r) k (drop r.src r.memory) (omega arith)) in
      let whole : rest r ++ tail ≡ read ++ [] =
        ap (λ (t : List ℕ). t ++ tail) ahead_of
        ∙ take-append-drop (ahead r) read
        ∙ sym (append-nil read) in
      let one : element (read ++ []) ≡ some (e, more ++ tail) =
        sym (ap element whole) ∙ element-append (rest r) tail p in
      let none_left : more ++ tail ≡ [] = ground (arith, one, x.spells []) in
      omega (
        arith,
        ap (length {A = ℕ}) none_left,
        length-append more tail,
        length-drop (ahead r) read,
        length-take k (drop r.src r.memory),
        length-drop r.src r.memory,
        ready.readable,
        ready.some_left,
      )

  step_within :
      (k : ℕ) {w' : Writer} (x : Read room r out k w') {e : Element} {more : List ℕ}
      → element (rest r) ≡ some (e, more)
      → r.src + k ≤ r.end
  step_within k x p = elim (dec_le (r.src + k) r.end) [
    | yes le ↦ le
    | no lt ↦ absurd (within k x p (omega (arith, lt)) (five x.reach (omega (arith, lt))))
  ]
    where
      five : (r.src + k ≤ r.end) ⊎ (k ≤ 5) → r.end < r.src + k → k ≤ 5
      five (inl le) lt = absurd (omega arith)
      five (inr few) lt = few

length-rest : (r : Reader) → Good r → length (rest r) ≡ r.end - r.src
length-rest r good = omega (
  arith,
  length-take (r.end - r.src) (drop r.src r.memory),
  length-drop r.src r.memory,
  good.inside,
)

element-some :
    (src : List ℕ) {e : Element} {more : List ℕ} → element src ≡ some (e, more) → 1 ≤ length src
unfolding element
element-some [] p = absurd (ground arith)
element-some (x ∷ xs) p = omega arith

-- What the rounds after this one do.
abbrev Later : ℕ → ℕ → List ℕ → Type 0
Later fuel room final =
    (r : Reader) (w : Writer) (out src : List ℕ)
    → rest r ≡ src
    → Expands final src out
    → Holds room out w
    → Good r
    → ahead r < fuel
    → Writes room final (decode_loop fuel r w)

round :
    (fuel room : ℕ) (final : List ℕ) (r : Reader) (out : List ℕ) (o : Outcome (Reader × Writer))
    → Later fuel room final
    → Ready r
    → ahead r ≤ fuel
    → length final ≤ room
    → (e : Element) (more out' : List ℕ) → element (rest r) ≡ some (e, more)
    → apply e out ≡ some out'
    → Expands final more out'
    → Stepped room r out o
    → Writes room final (o >>= λ x. decode_loop fuel x.0 x.1)
round fuel room final r out (ok (r', w')) later ready enough fits e more out' p a d
      (inl (k, q, x)) =
    let le : r.src + k ≤ r.end = step_within room r ready out k x p in
    let whole : element (rest r) ≡ some (x.e, rest (advance r k)) =
      ap element (rest-advance r ready k le) ∙ x.spells (rest (advance r k)) in
    let same : x.e ≡ e = ground (arith, p, whole) in
    let left : rest (advance r k) ≡ more = ground (arith, p, whole) in
    let made : apply e out ≡ some x.out' = rw same at x.applied in
    let out_same : x.out' ≡ out' = ground (arith, made, a) in
    rw q (
      later (advance r k) w' out' more left d (rw out_same at x.holds)
        (Good-advance r ready k x.reach) (omega (arith, x.some_bytes, ready.some_left)))
round fuel room final r out (ok (r', w')) later ready enough fits e more out' p a d
      (inr (q, le, wrapped, refused, holds)) =
    absurd (refused e more out' p a (omega (arith, Expands-grows d)))
round fuel room final r out (err s) later ready enough fits e more out' p a d refused =
    absurd (refused e more out' p a (omega (arith, Expands-grows d)))
round fuel room final r out fault later ready enough fits e more out' p a d never = absurd never

decode_loop-Expands :
    (fuel room : ℕ) (final : List ℕ) → room < 2 ^ 31 → length final ≤ room → Later fuel room final
unfolding decode_loop
decode_loop-Expands zero room final small fits r w out src here d holds good enough =
    absurd (omega arith)
decode_loop-Expands (suc fuel) room final small fits r w out src here done holds good enough =
    let over : r.end ≤ r.src = omega (arith, ap (length {A = ℕ}) here, length-rest r good) in
    rw (loop_cond-stops r good over) (w, refl, holds)
decode_loop-Expands (suc fuel) room final small fits r w out src here
      (next {rest = more} {out' = out'} e p a d) holds good enough =
    let there : r.src < r.end =
      omega (arith, ap (length {A = ℕ}) here, length-rest r good, element-some src p) in
    let (r', found, ready, same, as_far) = loop_cond-Ready r good there in
    let q : element (rest r') ≡ some (e, more) = ap element (same ∙ here) ∙ p in
    rw found (
      round fuel room final r' out (decode_element r' w)
        (decode_loop-Expands fuel room final small fits) ready (omega (arith, as_far)) fits e more
        out' q a d (decode_element-Stepped room out w holds small r' ready))

-- For every block that expands to `final`, of bytes and shorter than 2^31, every buffer `dst` shorter
-- than 2^31 with room for `final`, and a scratch array of five bytes, whatever the two hold at the
-- start: the optimised decoder answers CSNAPPY_E_OK, its `*dst_len` is the length of `final`, and `dst`
-- starts with `final`.
pub fast_noheader-Expands :
    (scratch src dst final : List ℕ)
    → length scratch ≡ 5
    → All (λ b. b < 256) scratch
    → All (λ b. b < 256) src
    → length src < 2 ^ 31
    → length dst < 2 ^ 31
    → Expands final src []
    → length final ≤ length dst
    → (w : Writer) × (decompress_noheader scratch src dst ≡ ok w)
      × (w.op ≡ length final)
      × (take w.op w.buffer ≡ final)
unfolding decompress_noheader
fast_noheader-Expands scratch src dst final five scratch_bytes bytes small roomy d fits =
    let (w, e, holds) =
      decode_loop-Expands (length src + 1) (length dst) final roomy fits (start scratch src)
        (record { buffer = dst; op = 0 }) [] src (rest-start scratch src) d (Holds-start dst)
        (Good-start scratch src five scratch_bytes bytes small) (omega arith) in
    (w, e, sym (length-Holds holds), holds.output)

-- For bytes shorter than 2^31 and buffers as there, wherever those of the other decoder are: what the decoder for ARM accepts, with as much
-- room, the optimised one accepts, and it writes the same.
pub decompress_noheader-agrees :
    (sp : ByteDecoder.Space) (scratch src dst final : List ℕ)
    → length scratch ≡ 5
    → All (λ b. b < 256) scratch
    → All (λ b. b < 256) src
    → length src < 2 ^ 31
    → length dst < 2 ^ 31
    → ByteDecoder.decompress_noheader sp src (length dst) ≡ ok final
    → (w : Writer) × (decompress_noheader scratch src dst ≡ ok w) × (take w.op w.buffer ≡ final)
decompress_noheader-agrees sp scratch src dst final five scratch_bytes bytes small roomy e =
    let (d, fits) = rw e at (decompress_noheader-Verdict sp src (length dst) bytes (omega arith)) in
    let (w, f, n, out) =
      fast_noheader-Expands scratch src dst final five scratch_bytes bytes small roomy d fits in
    (w, f, out)
