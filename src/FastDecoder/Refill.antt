-- ===== src/FastDecoder/Refill.antt =====
-- `LOOP_COND()`: it stops at the end of the input, and else leaves the reader on a tag with four bytes
-- behind it that may be read, with the same bytes to come.
use csnappy.Common.{
  ℕ, ◌+◌, ◌-◌, ◌%◌, ◌^◌, ◌≤◌, ◌<◌, ◌≡◌, arith, refl, ap, ◌∙◌, List, length, take, take_all, All,
  All-drop, All-append, some, none, ltb, lt→ltb, le→ltb, lt→leb, le→leb, true, false,
}
use native.Mathlib.Decide.{dec_le, dec_lt}
use csnappy.Common.Memory.{write_at, store_lem, length-write_at, take_front}
use csnappy.Common.Outcome.{ok}
use csnappy.Words.{part}
use csnappy.Words.Loads.{slice_lem, length-part, part-IsByte}
use csnappy.FastDecoder.{Reader, available, lt_int32, loop_cond}

-- The bytes to come.
abbrev pub ahead : Reader → ℕ
ahead r = r.end - r.src

abbrev pub rest : Reader → List ℕ
rest r = part r.memory r.src (ahead r)

-- Between two elements. Operands behind the end may have moved `src` past it.
pub record Good (r : Reader) : Type 0 where
  pub five : length r.scratch ≡ 5
  pub inside : r.end ≤ length r.memory
  pub small : length r.memory < 2 ^ 31
  pub near : r.src ≤ r.end + 4
  pub bytes : All (λ b. b < 256) r.memory
  pub scratch_bytes : All (λ b. b < 256) r.scratch

-- On a tag.
pub record Ready (r : Reader) : Type 0 where
  pub good : Good r
  pub some_left : r.src < r.end
  pub readable : r.src + 5 ≤ length r.memory

pub lt_int32_lem : (a b : ℕ) → a < 2 ^ 31 → b < 2 ^ 31 → lt_int32 a b ≡ ltb a b
unfolding lt_int32
lt_int32_lem a b ha hb =
    let p : (a + 2 ^ 31) % 2 ^ 32 ≡ a + 2 ^ 31 = omega arith in
    let q : (b + 2 ^ 31) % 2 ^ 32 ≡ b + 2 ^ 31 = omega arith in rw (p, q) (ground arith)

pub available_lem : (r : Reader) → r.end < 2 ^ 31 → r.src ≤ r.end → available r ≡ r.end - r.src
unfolding available
available_lem r small le = omega arith

pub available-past :
    (r : Reader)
    → r.end < 2 ^ 31
    → r.end < r.src
    → r.src ≤ r.end + 8
    → (b : ℕ) → b < 2 ^ 31
    → (lt_int32 b (available r) ≡ false) × (lt_int32 (available r) b ≡ true)
unfolding available lt_int32
available-past r small lt near b hb =
    let p : (r.end + (2 ^ 32 - r.src % 2 ^ 32)) % 2 ^ 32 ≡ 2 ^ 32 - (r.src - r.end) = omega arith in
    rw p (
      le→ltb ((b + 2 ^ 31) % 2 ^ 32) ((2 ^ 32 - (r.src - r.end) + 2 ^ 31) % 2 ^ 32) (omega arith),
      lt→ltb ((2 ^ 32 - (r.src - r.end) + 2 ^ 31) % 2 ^ 32) ((b + 2 ^ 31) % 2 ^ 32) (omega arith),
    )

module _ (r : Reader) (g : Good r) where
  pub loop_cond-stops : r.end ≤ r.src → loop_cond r ≡ ok none
  unfolding loop_cond
  loop_cond-stops h = rw (le→leb r.end (r.src + 5) (omega arith), none_left) refl
    where
      none_left : lt_int32 0 (available r) ≡ false
      none_left = elim (dec_lt r.end r.src) [
        | yes past ↦
            (available-past r (omega (arith, g.inside, g.small)) past (omega (arith, g.near)) 0
              (omega arith)).0
        | no there ↦
            rw
              (
                available_lem r (omega (arith, g.inside, g.small)) (omega arith),
                lt_int32_lem 0 (r.end - r.src) (omega arith) (omega (arith, g.inside, g.small)),
              )
              (le→ltb 0 (r.end - r.src) (omega arith))
      ]

  -- The last bytes move into the scratch buffer.
  abbrev moved : List ℕ
  moved = write_at r.scratch 0 (part r.memory r.src (r.end - r.src))

  abbrev pub refilled : Reader
  refilled = record { memory = moved; scratch = moved; src = 0; end = r.end - r.src }

  count : r.src < r.end → length (part r.memory r.src (r.end - r.src)) ≡ r.end - r.src
  count h = length-part r.memory r.src (r.end - r.src) (omega (arith, g.inside))

  loop_cond-refills : r.src < r.end → r.end ≤ r.src + 5 → loop_cond r ≡ ok (some refilled)
  unfolding loop_cond
  loop_cond-refills h le =
      rw
        (
          le→leb r.end (r.src + 5) le,
          available_lem r (omega (arith, g.inside, g.small)) (omega arith),
          lt_int32_lem 0 (r.end - r.src) (omega arith) (omega (arith, g.inside, g.small)),
          lt→ltb 0 (r.end - r.src) (omega arith),
          slice_lem r.memory r.src (r.end - r.src) (omega (arith, g.inside)),
          store_lem r.scratch 0 (part r.memory r.src (r.end - r.src))
              (omega (arith, count h, g.five)),
        )
        refl

  loop_cond-stays : r.src + 5 < r.end → loop_cond r ≡ ok (some r)
  unfolding loop_cond
  loop_cond-stays h = rw (lt→leb r.end (r.src + 5) h) refl

  length-moved : r.src < r.end → r.end ≤ r.src + 5 → length moved ≡ 5
  length-moved h le =
      length-write_at r.scratch 0 (part r.memory r.src (r.end - r.src))
        (omega (arith, count h, g.five))
      ∙ g.five

  moved-IsByte : All (λ b. b < 256) moved
  moved-IsByte =
      All-append _ (part r.memory r.src (r.end - r.src)) _
        (part-IsByte r.memory r.src (r.end - r.src) g.bytes)
        (All-drop _ (0 + length (part r.memory r.src (r.end - r.src))) r.scratch g.scratch_bytes)

  Ready-refilled : r.src < r.end → r.end ≤ r.src + 5 → Ready refilled
  Ready-refilled h le = record {
    good = record {
      five = length-moved h le;
      inside = omega (arith, length-moved h le);
      small = omega (arith, length-moved h le);
      near = omega arith;
      bytes = moved-IsByte;
      scratch_bytes = moved-IsByte;
    };
    some_left = omega arith;
    readable = omega (arith, length-moved h le);
  }

  rest-refilled : r.src < r.end → rest refilled ≡ rest r
  rest-refilled h =
      let same : r.end - r.src - 0 ≡ r.end - r.src = omega arith in
      ap (λ (t : ℕ). take t moved) same
      ∙ take_front (r.end - r.src) (rest r) _ (omega (arith, count h))
      ∙ take_all (r.end - r.src) (rest r) (omega (arith, count h))

  pub loop_cond-Ready :
      r.src < r.end
      → (r' : Reader) × (loop_cond r ≡ ok (some r'))
        × Ready r'
        × (rest r' ≡ rest r)
        × (ahead r' ≡ ahead r)
  loop_cond-Ready h = elim (dec_le r.end (r.src + 5)) [
    | yes le ↦ (refilled, loop_cond-refills h le, Ready-refilled h le, rest-refilled h, omega arith)
    | no far ↦ (
      r,
      loop_cond-stays (omega arith),
      record { good = g; some_left = h; readable = omega (arith, g.inside) },
      refl,
      refl,
    )
  ]
