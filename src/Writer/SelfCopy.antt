-- ===== src/Writer/SelfCopy.antt =====
-- `SAW__AppendFromSelf` does what a copy element says, whichever way it copies.
use csnappy.Common.{
  ℕ, zero, suc, ◌+◌, ◌-◌, ◌*◌, ◌%◌, ◌^◌, ◌≤◌, ◌<◌, ◌≡◌, max, arith, tests, sym, ap, ◌∙◌, List, [],
  length, take, get_elem?, some, leb, le→ltb, Bool-cases, inl, inr, ◌&&◌,
}
use native.Mathlib.Nat.{add-mul-mod_self_left}
use csnappy.Common.Outcome.{ok, ◌>>=◌}
use csnappy.Format.{repeat_back}
use csnappy.Match.{Matches}
use csnappy.Fragment.Repeats.{repeat_back-Matches}
use csnappy.Writer.{incremental_copy, unaligned_copy64, incremental_copy_fast_path, copy_within}
use csnappy.Writer.Pattern.{Filled, Filled-start}
use csnappy.Writer.Doubling.{expand_pattern-Expanded}
use csnappy.Writer.Rounds.{Filled-at, Filled-eight, copy_bytes-Filled, copy_words-Filled}

-- What has been filled is the copy.
Matches-of_get :
    (n s1 s2 : ℕ) (buffer : List ℕ)
    → ((i : ℕ) → i < n → get_elem? buffer (s1 + i) ≡ get_elem? buffer (s2 + i))
    → Matches buffer s1 s2 n
Matches-of_get zero s1 s2 buffer h = tt
Matches-of_get (suc n) s1 s2 buffer h = (
  ap (get_elem? buffer) (omega arith) ∙ h 0 (omega arith) ∙ ap (get_elem? buffer) (omega arith),
  Matches-of_get n (suc s1) (suc s2) buffer (λ i lt.
      ap (get_elem? buffer) (omega arith)
      ∙ h (suc i) (omega arith)
      ∙ ap (get_elem? buffer) (omega arith)),
)

module _ (buffer : List ℕ) (op offset len : ℕ) (pos : 1 ≤ offset) (back : offset ≤ op)
    (some_len : 1 ≤ len) (fits : op + len ≤ length buffer) where
  -- The buffer behind the copy, and the bytes up to the new end.
  abbrev Copied : List ℕ → Type 0
  Copied next = Filled buffer (op - offset) offset (offset + len) next

  pub Copied-repeat_back :
      (next : List ℕ)
      → Copied next
      → repeat_back len offset (take op buffer) ≡ some (take (op + len) next)
  Copied-repeat_back next f =
      let from : op - (op - offset) ≡ offset = omega arith in
      let start : op - offset + offset ≡ op = omega arith in
      let front : take op next ≡ take op buffer = rw start at f.front in
      rw (from, front) at
        (repeat_back-Matches [] next len (op - offset) op (omega arith)
          (omega (arith, f.same_length))
          (Matches-of_get len (op - offset) op next λ i lt.
            f.repeats i (omega arith)
            ∙ ap (λ (t : ℕ). get_elem? buffer (op - offset + t))
                (sym (add-mul-mod_self_left i offset 1) ∙ ap (λ (t : ℕ). t % offset) (omega arith))
            ∙ sym (f.repeats (offset + i) (omega arith))
            ∙ ap (get_elem? next) (omega arith)))

  start_lem : op - offset + (0 + offset * 1) ≡ op
  start_lem = omega arith

  two_eights :
      8 ≤ offset
      → len ≤ 16
      → op + 16 ≤ length buffer
      → (next : List ℕ) × ((unaligned_copy64 buffer (op - offset) op >>= λ b.
            unaligned_copy64 b (op - offset + 8) (op + 8))
          ≡ ok next)
        × Copied next
  two_eights wide short room =
      let (b, e, f) =
        Filled-eight buffer (op - offset) offset 1 (omega arith) buffer 0
          (Filled-at buffer (op - offset) offset buffer (omega arith)
            (Filled-start buffer (op - offset) offset))
          (omega arith) pos in
      let (next, e', g) =
        Filled-eight buffer (op - offset) offset 1 (omega arith) b 8
          (Filled-at buffer (op - offset) offset b (omega arith) f) (omega arith) pos in
      let p : op - offset + 0 ≡ op - offset = omega arith in
      let q : op - offset + (8 + offset * 1) ≡ op + 8 = omega arith in
      (
        next,
        rw (rw (p, start_lem) at e) (rw q at e'),
        Filled-at buffer (op - offset) offset next (omega arith) g,
      )

  one_by_one :
      (next : List ℕ) × (incremental_copy buffer (op - offset) op len ≡ ok next) × Copied next
  unfolding incremental_copy
  one_by_one =
      let (next, e, f) =
        copy_bytes-Filled buffer (op - offset) offset 1 (omega arith) len 0 buffer pos
          (Filled-at buffer (op - offset) offset buffer (omega arith)
            (Filled-start buffer (op - offset) offset))
          (omega arith) in
      let p : op - offset + 0 ≡ op - offset = omega arith in
      let rounds : max 1 len ≡ len = omega arith in
      (
        next,
        rw rounds (rw (p, start_lem) at e),
        Filled-at buffer (op - offset) offset next (omega arith) f,
      )

  by_words :
      op + len + 10 ≤ length buffer
      → (next : List ℕ) × (incremental_copy_fast_path buffer (op - offset) op len ≡ ok next)
        × Copied next
  unfolding incremental_copy_fast_path
  by_words room =
      let x = expand_pattern-Expanded buffer (op - offset) offset pos len (omega arith) in
      let (next, e, f) =
        copy_words-Filled buffer (op - offset) offset x.times x.some_times (x.left + 1) x.left 0
          x.now (omega arith) x.wide pos
          (Filled-at buffer (op - offset) offset x.now (omega arith) x.filled)
          (λ h. omega (arith, x.exact h)) in
      let p : op - offset + 0 ≡ op - offset = omega arith in
      let q : op - offset + offset * 1 ≡ op = omega arith in
      let r : 0 + offset * x.times ≡ offset * x.times = omega arith in
      (
        next,
        rw (rw q at x.result) (rw (p, r) at e),
        Filled-at buffer (op - offset) offset next (omega (arith, x.enough)) f,
      )

  pub copy_within-Copied :
      len + 10 < 2 ^ 32
      → (next : List ℕ) × (copy_within buffer op offset len ≡ ok next) × Copied next
  unfolding copy_within
  copy_within-Copied small =
      elim (Bool-cases ((leb len 16 && leb 8 offset) && leb 16 (length buffer - op))) [
        | inl quick ↦ rw quick (two_eights (ground arith) (ground arith) (ground arith))
        | inr other ↦ elim (Bool-cases (leb ((len + 10) % 2 ^ 32) (length buffer - op))) [
          | inl room ↦ rw (other, room) (by_words (omega (tests, room)))
          | inr tight ↦ rw (other, tight, le→ltb (length buffer - op) len (omega arith)) one_by_one
        ]
      ]
