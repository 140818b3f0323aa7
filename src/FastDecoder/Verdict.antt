-- ===== src/FastDecoder/Verdict.antt =====
-- What an answer says of the bytes to come, and how an element in front of them changes it.
use csnappy.Common.{
  ℕ, ◌+◌, ◌-◌, ◌≤◌, ◌<◌, ◌≡◌, ◌⊎◌, arith, sym, ap, ◌∙◌, List, [], ◌++◌, append_assoc, append-nil,
  length, length-drop, length-take, take, take-take, drop, drop-drop, take-append-slice,
  take-append-drop, some, inl, inr,
}
use csnappy.Common.Outcome.{Outcome, ok, err, fault}
use csnappy.Format.{Element, element, apply, Expands, done, next}
use csnappy.Format.Wrapped.{HasWrapped, HasWrapped-append}
use csnappy.Format.Consumes.{Expands-grows}
use csnappy.Words.Loads.{length-part}
use csnappy.Writer.{Writer}
use csnappy.Writer.Outputs.{Holds}
use csnappy.FastDecoder.{Reader, advance}
use csnappy.FastDecoder.Refill.{Good, Ready, ahead, rest}
use csnappy.FastDecoder.Steps.{Read, Refused, IsWrapped}

-- The answers, for the bytes to come and the output so far: they are a block, if up to four stale
-- bytes stand behind them, that expands to what the writer then holds, or have the literal that wraps;
-- or they are no block that expands within the room; and no access leaves a buffer.
abbrev pub Verdict : ℕ → List ℕ → List ℕ → Outcome Writer → Type 0
Verdict room src out (ok w) =
    (final : List ℕ) × Holds room final w
    × (((stale : List ℕ) × (length stale ≤ 4) × Expands final (src ++ stale) out) ⊎ HasWrapped src)
Verdict room src out (err s) = (final : List ℕ) → Expands final src out → length final ≤ room → ⊥
Verdict room src out fault = ⊥

-- How an expansion of something starts.
pub Expands-front :
    {final src out : List ℕ}
    → Expands final src out
    → 1 ≤ length src
    → (e : Element) × (more : List ℕ) × (out' : List ℕ) × (element src ≡ some (e, more))
      × (apply e out ≡ some out')
      × Expands final more out'
Expands-front done h = absurd (omega arith)
Expands-front (next {rest = more} {out' = out'} e p a d) h = (e, more, out', p, a, d)

module _ (r : Reader) (ready : Ready r) where
  -- The bytes that were read, and those still to come.
  pub rest-advance :
      (k : ℕ) → r.src + k ≤ r.end → rest r ≡ take k (drop r.src r.memory) ++ rest (advance r k)
  rest-advance k h =
      let n : k + (r.end - (r.src + k)) ≡ r.end - r.src = omega arith in
      sym (
        ap (λ (t : List ℕ). take k (drop r.src r.memory) ++ take (r.end - (r.src + k)) t)
          (sym (drop-drop k r.src r.memory))
        ∙ take-append-slice k (r.end - (r.src + k)) (drop r.src r.memory)
        ∙ ap (λ (t : ℕ). take t (drop r.src r.memory)) n)

  pub Good-advance : (k : ℕ) → (r.src + k ≤ r.end) ⊎ (k ≤ 5) → Good (advance r k)
  Good-advance k reach = record {
    five = ready.good.five;
    inside = ready.good.inside;
    small = ready.good.small;
    near = near reach;
    bytes = ready.good.bytes;
    scratch_bytes = ready.good.scratch_bytes;
  }
    where
      near : (r.src + k ≤ r.end) ⊎ (k ≤ 5) → r.src + k ≤ r.end + 4
      near (inl le) = omega arith
      near (inr five) = omega (arith, ready.some_left)

  pub some_ahead : 1 ≤ length (rest r)
  some_ahead = omega (
    arith,
    length-part r.memory r.src (r.end - r.src) (omega (arith, ready.some_left, ready.good.inside)),
    ready.some_left,
  )

  module _ (room : ℕ) (out : List ℕ) where
    -- Within the input.
    pub Verdict-within :
        (k : ℕ) {w' : Writer} (x : Read room r out k w') (o : Outcome Writer)
        → r.src + k ≤ r.end
        → Verdict room (rest (advance r k)) x.out' o
        → Verdict room (rest r) out o
    Verdict-within k x (ok w) le (final, holds, inl (stale, few, d)) = (
      final,
      holds,
      inl (
        stale,
        few,
        rw (rest-advance k le) (
            next x.e
              (ap element (append_assoc (take k (drop r.src r.memory)) (rest (advance r k)) stale)
                ∙ x.spells (rest (advance r k) ++ stale))
              x.applied d),
      ),
    )
    Verdict-within k x (ok w) le (final, holds, inr wrapped) = (
      final,
      holds,
      inr (rw (rest-advance k le) (HasWrapped-append (take k (drop r.src r.memory)) wrapped)),
    )
    Verdict-within k x (err s) le never = λ final d fits.
        (let (e, more, out', p, a, behind) = Expands-front d some_ahead in
          let whole : element (rest r) ≡ some (x.e, rest (advance r k)) =
            ap element (rest-advance k le) ∙ x.spells (rest (advance r k)) in
          let same : e ≡ x.e = ground (arith, p, whole) in
          let left : more ≡ rest (advance r k) = ground (arith, p, whole) in
          let made : apply x.e out ≡ some out' = rw same at a in
          let out_same : out' ≡ x.out' = ground (arith, made, x.applied) in
          never final (rw (left, out_same) at behind) fits)
    Verdict-within k x fault le never = never

    -- With operands behind the end: they are the stale bytes.
    pub Verdict-behind :
        (k : ℕ) {w' : Writer} (x : Read room r out k w')
        → r.end < r.src + k
        → k ≤ 5
        → Verdict room (rest r) out (ok w')
    Verdict-behind k x lt five =
        let read : List ℕ = take k (drop r.src r.memory) in
        let ahead_of : rest r ≡ take (ahead r) read =
          sym (take-take (ahead r) k (drop r.src r.memory) (omega arith)) in
        let whole : rest r ++ drop (ahead r) read ≡ read ++ [] =
          ap (λ (t : List ℕ). t ++ drop (ahead r) read) ahead_of
          ∙ take-append-drop (ahead r) read
          ∙ sym (append-nil read) in
        (
          x.out',
          x.holds,
          inl (
            drop (ahead r) read,
            omega (
              arith,
              length-drop (ahead r) read,
              length-take k (drop r.src r.memory),
              ready.some_left,
            ),
            next x.e (ap element whole ∙ x.spells []) x.applied done,
          ),
        )

    pub Verdict-wrapped :
        (o : Outcome Writer)
        → r.src + 5 ≤ r.end
        → IsWrapped (drop r.src r.memory)
        → Refused room (rest r) out
        → Verdict room (rest (advance r 5)) out o
        → Verdict room (rest r) out o
    Verdict-wrapped (ok w) le wrapped none_there (final, holds, v) = (
      final,
      holds,
      inr (
        [],
        rest (advance r 5),
        rest-advance 5 le ∙ ap (λ (t : List ℕ). t ++ rest (advance r 5)) wrapped,
      ),
    )
    Verdict-wrapped (err s) le wrapped none_there never = λ final d fits.
        (let (e, more, out', p, a, behind) = Expands-front d some_ahead in
          none_there e more out' p a (omega (arith, Expands-grows behind)))
    Verdict-wrapped fault le wrapped none_there never = never
