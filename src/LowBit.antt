-- ===== src/LowBit.antt =====
-- `FindLSBSetNonZero` and `FindLSBSetNonZero64` of csnappy_internal_userspace.h, without a builtin.
mod Runs
use csnappy.Common.{
  ℕ, zero, suc, ◌+◌, ◌-◌, ◌*◌, ◌/◌, ◌%◌, ◌^◌, ◌≤◌, ◌<◌, ◌≡◌, arith, tests, ap, ◌∙◌, ◌==◌,
  if◌then◌else◌, Bool-cases, inl, inr,
}
use csnappy.Common.Xor.{mod_pow_le, mod_pow_scaled, pow_add}

-- One round: `x = n << shift; if (x != 0) { n = x; rc -= shift; }`.
unfoldable pub shift_round : ℕ → ℕ × ℕ → ℕ × ℕ
shift_round shift (n, rc) =
    let x = n * 2 ^ shift % 2 ^ 32 in if x == 0 then (n, rc) else (x, rc - shift)

-- The rounds with `shift` = 16, 8, 4, 2, 1.
unfoldable pub find_lsb_set_non_zero : ℕ → ℕ
unfolding shift_round
find_lsb_set_non_zero n =
    (shift_round 1 (shift_round 2 (shift_round 4 (shift_round 8 (shift_round 16 (n, 31)))))).1

-- For a number from 1 to 2^32 - 1, the answer is the place of its lowest bit that is 1.
pub find_lsb_set_non_zero-lowest :
    (n : ℕ)
    → 0 < n
    → n < 2 ^ 32
    → (n % 2 ^ (find_lsb_set_non_zero n + 1) ≡ 2 ^ find_lsb_set_non_zero n)
      × (find_lsb_set_non_zero n < 32)
unfolding find_lsb_set_non_zero
find_lsb_set_non_zero-lowest n pos lt = ground arith

-- The 64-bit version scans the low half, or the high half if the low one is 0.
unfoldable pub find_lsb_set_non_zero64 : ℕ → ℕ
find_lsb_set_non_zero64 n =
    let bottombits = n % 2 ^ 32 in
    if bottombits == 0
    then 32 + find_lsb_set_non_zero (n / 2 ^ 32 % 2 ^ 32)
    else find_lsb_set_non_zero bottombits

-- For a number from 1 to 2^64 - 1, the 64-bit version answers the place of its lowest bit that is 1.
pub find_lsb_set_non_zero64-lowest :
    (n : ℕ)
    → 0 < n
    → n < 2 ^ 64
    → (n % 2 ^ (find_lsb_set_non_zero64 n + 1) ≡ 2 ^ find_lsb_set_non_zero64 n)
      × (find_lsb_set_non_zero64 n < 64)
unfolding find_lsb_set_non_zero64
find_lsb_set_non_zero64-lowest n pos lt = elim (Bool-cases (n % 2 ^ 32 == 0)) [
  | inl high ↦
      (let h : ℕ = n / 2 ^ 32 % 2 ^ 32 in
        let whole : n ≡ h * 2 ^ 32 = omega (tests, high) in
        let (e, small) = find_lsb_set_non_zero-lowest h (omega (arith, whole)) (omega arith) in
        let r : ℕ = find_lsb_set_non_zero h in
        let at_place : n % 2 ^ (32 + r + 1) ≡ 2 ^ (32 + r) =
          ap (λ (t : ℕ). n % 2 ^ t) (let a : 32 + r + 1 ≡ 32 + (r + 1) = omega arith in a)
          ∙ ap (λ (t : ℕ). t % 2 ^ (32 + (r + 1))) whole
          ∙ mod_pow_scaled 32 (r + 1) h
          ∙ omega (arith, e, pow_add 32 r) in
        rw high (at_place, omega arith))
  | inr low ↦
      (let (e, small) = find_lsb_set_non_zero-lowest (n % 2 ^ 32) (ground arith) (omega arith) in
        rw low (
          mod_pow_le (find_lsb_set_non_zero (n % 2 ^ 32) + 1) 32 n (n % 2 ^ 32) (omega arith)
                (omega arith)
              ∙ e,
          omega arith,
        ))
]
