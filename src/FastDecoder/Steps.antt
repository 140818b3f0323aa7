-- ===== src/FastDecoder/Steps.antt =====
-- What the code for one element answers, against the format.
use csnappy.Common.{
  ℕ, ◌+◌, ◌≤◌, ◌<◌, ◌≡◌, ◌⊎◌, arith, refl, ap, List, [], ◌∷◌, ◌++◌, length, take, drop,
  take-append-drop, Option-cases, some, none, inl, inr,
}
use csnappy.Common.Outcome.{Outcome, ok, err, fault, ◌>>=◌, data_malformed}
use csnappy.Format.{Element, element, apply}
use csnappy.Format.Laws.{element-append}
use csnappy.Writer.{Writer}
use csnappy.Writer.Outputs.{Holds, Answers}
use csnappy.FastDecoder.{Reader, advance}
use csnappy.FastDecoder.Refill.{ahead, rest}

-- The first `k` bytes of `src` spell an element, whatever follows them.
abbrev pub Spells : List ℕ → ℕ → Element → Type 0
Spells src k e = (more : List ℕ) → element (take k src ++ more) ≡ some (e, more)

-- The literal with the wrapped length is all that `src` starts with.
abbrev pub IsWrapped : List ℕ → Type 0
IsWrapped src = take 5 src ≡ 0xfc ∷ 0xff ∷ 0xff ∷ 0xff ∷ 0xff ∷ []

-- No element at the front of `src` that the output accepts.
abbrev pub Refused : ℕ → List ℕ → List ℕ → Type 0
Refused room src out =
    (e : Element) (more out' : List ℕ)
    → element src ≡ some (e, more)
    → apply e out ≡ some out'
    → length out' ≤ room
    → ⊥

-- The element `e` was read from `k` bytes, which stand within the input, or else are five at most, and
-- it made the output of `w'`.
pub record Read (room : ℕ) (r : Reader) (out : List ℕ) (k : ℕ) (w' : Writer) : Type 0 where
  pub e : Element
  pub out' : List ℕ
  pub some_bytes : 1 ≤ k
  pub reach : (r.src + k ≤ r.end) ⊎ (k ≤ 5)
  pub spells : Spells (drop r.src r.memory) k e
  pub applied : apply e out ≡ some out'
  pub holds : Holds room out' w'

-- An answer: an element that was read, the literal that wraps, or an error where there is none.
abbrev pub Stepped : ℕ → Reader → List ℕ → Outcome (Reader × Writer) → Type 0
Stepped room r out (ok (r', w')) =
    ((k : ℕ) × (r' ≡ advance r k) × Read room r out k w')
    ⊎ ((r' ≡ advance r 5)
        × (r.src + 5 ≤ r.end)
        × IsWrapped (drop r.src r.memory)
        × Refused room (rest r) out
        × Holds room out w')
Stepped room r out (err s) = Refused room (rest r) out
Stepped room r out fault = ⊥

pub advance-advance : (r : Reader) (a b c : ℕ) → a + b ≡ c → advance (advance r a) b ≡ advance r c
advance-advance r a b c e =
    ap (λ (t : ℕ). record { memory = r.memory; scratch = r.scratch; src = t; end = r.end })
      (omega arith)

module _ (r : Reader) where
  -- What is at the front of the bytes to come is what the bytes spell.
  same_element :
      {e e' : Element} {more : List ℕ} (k : ℕ)
      → Spells (drop r.src r.memory) k e
      → element (rest r) ≡ some (e', more)
      → e' ≡ e
  same_element k spells h =
      let one = spells (drop k (drop r.src r.memory)) in
      let two = element-append (rest r) (drop (ahead r) (drop r.src r.memory)) h in
      let p = rw (take-append-drop k (drop r.src r.memory)) at one in
      let q = rw (take-append-drop (ahead r) (drop r.src r.memory)) at two in ground (arith, p, q)

  module _ (room : ℕ) (out : List ℕ) {e : Element} (k : ℕ) (some_bytes : 1 ≤ k)
      (reach : (r.src + k ≤ r.end) ⊎ (k ≤ 5)) (spells : Spells (drop r.src r.memory) k e) where
    Refused-none : apply e out ≡ none → Refused room (rest r) out
    Refused-none a e' more out' h b le =
        let same : e' ≡ e = same_element k spells h in
        let c : apply e out ≡ some out' = rw same at b in ground (arith, a, c)

    Refused-full :
        (made : List ℕ) → apply e out ≡ some made → room < length made → Refused room (rest r) out
    Refused-full made a lt e' more out' h b le =
        let same : e' ≡ e = same_element k spells h in
        let c : apply e out ≡ some out' = rw same at b in
        let d : made ≡ out' = ground (arith, a, c) in omega (arith, ap (length {A = ℕ}) d)

    -- An answer of the writer to the element.
    pub Stepped-Answers :
        (a : Outcome Writer)
        → Answers room (apply e out) a
        → Stepped room r out (a >>= λ w'. ok (advance r k, w'))
    Stepped-Answers a h = elim (Option-cases (apply e out)) [
      | inl q ↦ (let n : a ≡ err data_malformed = rw q at h in rw n (Refused-none q))
      | inr (made, q) ↦ by_room made q (rw q at h)
    ]
      where
        by_room :
            (made : List ℕ)
            → apply e out ≡ some made
            → Answers room (some made) a
            → Stepped room r out (a >>= λ w'. ok (advance r k, w'))
        by_room made q (inl (le, w', n, holds)) = rw n (
            inl (
              k,
              refl,
              record {
                e = e;
                out' = made;
                some_bytes = some_bytes;
                reach = reach;
                spells = spells;
                applied = q;
                holds = holds;
              },
            ))
        by_room made q (inr (lt, n)) = rw n (Refused-full made q lt)
