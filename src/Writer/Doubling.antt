-- ===== src/Writer/Doubling.antt =====
-- The first loop of `IncrementalCopyFastPath`: the pattern doubles until it is eight bytes wide.
use csnappy.Common.{
  ℕ, suc, ◌+◌, ◌-◌, ◌*◌, ◌≤◌, ◌<◌, ◌≡◌, arith, refl, ◌∙◌, List, length, lt→ltb, le→ltb,
}
use native.Mathlib.Decide.{dec_lt}
use csnappy.Common.Outcome.{Outcome, ok}
use csnappy.Writer.{unaligned_copy64, expand_pattern}
use csnappy.Writer.Pattern.{Filled, Filled-start}
use csnappy.Writer.Rounds.{Filled-at, Filled-eight}

expand_pattern_stop :
    (fuel : ℕ) (buffer : List ℕ) (src op len : ℕ)
    → 8 ≤ op - src
    → expand_pattern (suc fuel) buffer src op len ≡ ok (buffer, op, len)
unfolding expand_pattern
expand_pattern_stop fuel buffer src op len h = rw (expand_pattern, le→ltb (op - src) 8 h) refl

expand_pattern_more :
    (fuel : ℕ) (buffer next : List ℕ) (src op len : ℕ)
    → op - src < 8
    → unaligned_copy64 buffer src op ≡ ok next
    → expand_pattern (suc fuel) buffer src op len
      ≡ expand_pattern fuel next src (op + (op - src)) (len - (op - src))
unfolding expand_pattern
expand_pattern_more fuel buffer next src op len h e =
    rw (expand_pattern, lt→ltb (op - src) 8 h, e) refl

-- What the loop that doubles the pattern leaves.
pub record Expanded (before : List ℕ) (src offset q len : ℕ) (r : Outcome (List ℕ × ℕ × ℕ))
    : Type 0 where
  pub now : List ℕ
  pub times : ℕ
  pub left : ℕ
  pub result : r ≡ ok (now, src + offset * times, left)
  pub some_times : 1 ≤ times
  pub wide : 8 ≤ offset * times
  pub filled : Filled before src offset (offset * times) now
  pub enough : len + offset * q ≤ left + offset * times
  pub less : left ≤ len
  pub exact : 0 < left → left + offset * times ≡ len + offset * q

module _ (before : List ℕ) (src offset : ℕ) (pos : 1 ≤ offset) where
  Expanded-stop :
      (fuel q len : ℕ) (now : List ℕ)
      → 1 ≤ q
      → 8 ≤ offset * q
      → Filled before src offset (offset * q) now
      → Expanded before src offset q len (expand_pattern (suc fuel) now src (src + offset * q) len)
  Expanded-stop fuel q len now one wide f = record {
    now = now;
    times = q;
    left = len;
    result = expand_pattern_stop fuel now src (src + offset * q) len (omega arith);
    some_times = one;
    wide = wide;
    filled = f;
    enough = omega arith;
    less = omega arith;
    exact = λ h. refl;
  }

  Expanded-next :
      (fuel q len : ℕ) (now : List ℕ)
      → 1 ≤ q
      → offset * q < 8
      → src + offset * q + 8 ≤ length before
      → Filled before src offset (offset * q) now
      → ((next : List ℕ)
          → Filled before src offset (offset * (2 * q)) next
          → Expanded before src offset
              (2 * q)
              (len - offset * q)
              (expand_pattern fuel next src (src + offset * (2 * q)) (len - offset * q)))
      → Expanded before src offset q len (expand_pattern (suc fuel) now src (src + offset * q) len)
  Expanded-next fuel q len now one narrow fits f again =
      let z : 0 + offset * q ≡ offset * q = omega arith in
      let (next, e, g) =
        Filled-eight before src offset q one now 0 (Filled-at before src offset now (omega arith) f)
          (omega arith) pos in
      let x = again next (Filled-at before src offset next (grind arith) g) in
      let p : src + 0 ≡ src = omega arith in
      let d : src + offset * q - src ≡ offset * q = omega arith in
      let r : src + offset * q + offset * q ≡ src + offset * (2 * q) = grind arith in
      record {
        now = x.now;
        times = x.times;
        left = x.left;
        result =
            expand_pattern_more fuel now next src (src + offset * q) len (omega arith)
              (rw (p, z) at e)
            ∙ rw (d, r) x.result;
        some_times = x.some_times;
        wide = x.wide;
        filled = x.filled;
        enough = grind (arith, x.enough);
        less = omega (arith, x.less);
        exact = λ h. grind (arith, x.exact h, x.less);
      }

  -- From the distance `offset` on: it doubles three times at most.
  from_eight :
      (fuel q len : ℕ) (now : List ℕ)
      → 1 ≤ q
      → 8 ≤ q
      → Filled before src offset (offset * q) now
      → Expanded before src offset q len (expand_pattern (suc fuel) now src (src + offset * q) len)
  from_eight fuel q len now one h f = Expanded-stop fuel q len now one (grind arith) f

  -- A round, where it is needed, in front of rounds from twice the distance on.
  from_half :
      (fuel q len : ℕ) (now : List ℕ)
      → 1 ≤ q
      → (offset * q < 8 → offset * q ≤ offset + 3)
      → src + offset + 11 ≤ length before
      → Filled before src offset (offset * q) now
      → ((l : ℕ) (next : List ℕ)
          → Filled before src offset (offset * (2 * q)) next
          → Expanded before src offset
              (2 * q)
              l
              (expand_pattern (suc fuel) next src (src + offset * (2 * q)) l))
      → Expanded before src offset q len
          (expand_pattern (suc (suc fuel)) now src (src + offset * q) len)
  from_half fuel q len now one near fits f again = elim (dec_lt (offset * q) 8) [
    | yes narrow ↦
        Expanded-next (suc fuel) q len now one narrow (omega (arith, near narrow)) f
          (λ next g. again (len - offset * q) next g)
    | no wide ↦ Expanded-stop (suc fuel) q len now one (omega arith) f
  ]

  pub expand_pattern-Expanded :
      (len : ℕ)
      → src + offset + 11 ≤ length before
      → Expanded before src offset 1 len (expand_pattern 4 before src (src + offset * 1) len)
  expand_pattern-Expanded len fits =
      from_half 2 1 len before (omega arith) (λ h. omega arith) fits
        (Filled-at before src offset before (omega arith) (Filled-start before src offset))
        (λ l b f.
          from_half 1 2 l b (omega arith) (λ h. omega arith) fits f
            (λ l' b' f'.
              from_half 0 4 l' b' (omega arith) (λ h. omega arith) fits f'
                (λ l'' b'' f''. from_eight 0 8 l'' b'' (omega arith) (omega arith) f'')))
