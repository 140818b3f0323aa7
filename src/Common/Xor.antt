-- ===== src/Common/Xor.antt =====
-- `^` as arithmetic: where two numbers first differ, from the lowest bit on.
use Prim.Native.Nat.{
  ℕ, zero, suc, ◌+◌, ◌*◌, ◌/◌, ◌%◌, ◌^◌, ◌≤◌, ◌<◌, bit_xor, differ, bit_xor-bitwise,
}
use mathlib.Core.Path.{◌≡◌, sym, ap, ◌∙◌}
use mathlib.Core.Logic.{◌≢◌}
use native.Mathlib.Nat.{pow-suc, div-add-mod, div-div-eq-div-mul}
use native.Mathlib.Omega.{arith}
use csnappy.Common.Bits.{fuel_irrelevant}

zero-bit_xor : (b : ℕ) → bit_xor 0 b ≡ b
zero-bit_xor b = bit_xor-bitwise 0 b

differ_digits : (x y : ℕ) → x < 2 → y < 2 → differ x y ≡ (x + y) % 2
differ_digits zero y p q = omega arith
differ_digits (suc zero) zero p q = omega arith
differ_digits (suc zero) (suc zero) p q = omega arith
differ_digits (suc zero) (suc (suc y)) p q = absurd (omega arith)
differ_digits (suc (suc x)) y p q = absurd (omega arith)

-- The lowest digit of `^`.
bit_xor_halves : (a b : ℕ) → bit_xor a b ≡ bit_xor (a / 2) (b / 2) * 2 + (a % 2 + b % 2) % 2
bit_xor_halves zero b = omega (arith, zero-bit_xor b, zero-bit_xor (b / 2))
bit_xor_halves (suc a) b = omega (
  arith,
  bit_xor-bitwise (suc a) b,
  bit_xor-bitwise (suc a / 2) (b / 2),
  fuel_irrelevant (λ y. y) differ a (suc a / 2) (suc a / 2) (b / 2) (omega arith) (omega arith),
  differ_digits (suc a % 2) (b % 2) (omega arith) (omega arith),
)

-- The result has no more bits than the numbers.
pub bit_xor-lt : (k a b : ℕ) → a < 2 ^ k → b < 2 ^ k → bit_xor a b < 2 ^ k
bit_xor-lt zero a b p q =
    let e : a ≡ 0 = omega arith in omega (arith, ap (λ (t : ℕ). bit_xor t b) e, zero-bit_xor b)
bit_xor-lt (suc k) a b p q = omega (
  arith,
  bit_xor_halves a b,
  pow-suc 2 k,
  bit_xor-lt k (a / 2) (b / 2) (omega (arith, pow-suc 2 k)) (omega (arith, pow-suc 2 k)),
)

-- It is 0 only for equal numbers.
pub bit_xor-zero : (k a b : ℕ) → a < 2 ^ k → b < 2 ^ k → bit_xor a b ≡ 0 → a ≡ b
bit_xor-zero zero a b p q e = omega arith
bit_xor-zero (suc k) a b p q e = omega (
  arith,
  bit_xor_halves a b,
  bit_xor-zero k (a / 2) (b / 2) (omega (arith, pow-suc 2 k)) (omega (arith, pow-suc 2 k))
      (omega (arith, bit_xor_halves a b)),
)

-- A remainder, halved.
mod_halves : (k x : ℕ) → x % 2 ^ suc k ≡ 2 * (x / 2 % 2 ^ k) + x % 2
mod_halves k x =
    ap (λ (t : ℕ). x % t) (pow-suc 2 k)
    ∙ omega (
      arith,
      div-add-mod x (2 ^ k * 2),
      div-add-mod (x / 2) (2 ^ k),
      ap (λ (t : ℕ). 2 ^ k * t) quotient,
    )
  where
    quotient : x / (2 ^ k * 2) ≡ x / 2 / 2 ^ k
    quotient = ap (λ (t : ℕ). x / t) (omega arith) ∙ sym (div-div-eq-div-mul x 2 (2 ^ k))

mod_halves_next : (k x : ℕ) → x % 2 ^ (suc k + 1) ≡ 2 * (x / 2 % 2 ^ (k + 1)) + x % 2
mod_halves_next k x =
    let e : suc k + 1 ≡ suc (k + 1) = omega arith in
    ap (λ (t : ℕ). x % 2 ^ t) e ∙ mod_halves (k + 1) x

-- Below the lowest bit of the result the numbers are the same, and at this bit they differ.
pub bit_xor-lowest :
    (k a b : ℕ)
    → bit_xor a b % 2 ^ (k + 1) ≡ 2 ^ k
    → (a % 2 ^ k ≡ b % 2 ^ k) × (a % 2 ^ (k + 1) ≢ b % 2 ^ (k + 1))
bit_xor-lowest zero a b h = (omega arith, λ e. omega (arith, bit_xor_halves a b))
bit_xor-lowest (suc k) a b h =
    let (same, other) = bit_xor-lowest k (a / 2) (b / 2) below in
    (
      omega (arith, mod_halves k a, mod_halves k b, same, even),
      λ e. other (omega (arith, mod_halves_next k a, mod_halves_next k b, e, even)),
    )
  where
    half : bit_xor a b / 2 ≡ bit_xor (a / 2) (b / 2)
    half = omega (arith, bit_xor_halves a b)

    below : bit_xor (a / 2) (b / 2) % 2 ^ (k + 1) ≡ 2 ^ k
    below = omega (
      arith,
      mod_halves_next k (bit_xor a b),
      bit_xor_halves a b,
      pow-suc 2 k,
      ap (λ (t : ℕ). t % 2 ^ (k + 1)) half,
    )

    even : a % 2 ≡ b % 2
    even = omega (arith, mod_halves_next k (bit_xor a b), bit_xor_halves a b, pow-suc 2 k)

-- Numbers that agree on low bits agree on fewer.
pub mod_pow_le : (q p a b : ℕ) → q ≤ p → a % 2 ^ p ≡ b % 2 ^ p → a % 2 ^ q ≡ b % 2 ^ q
mod_pow_le zero p a b h e = omega arith
mod_pow_le (suc q) zero a b h e = absurd (omega arith)
mod_pow_le (suc q) (suc p) a b h e = omega (
  arith,
  mod_halves p a,
  mod_halves p b,
  mod_halves q a,
  mod_halves q b,
  mod_pow_le q p (a / 2) (b / 2) (omega arith) (omega (arith, mod_halves p a, mod_halves p b, e)),
)

-- A multiple of a power of 2.
pub mod_pow_scaled : (s q x : ℕ) → x * 2 ^ s % 2 ^ (s + q) ≡ (x % 2 ^ q) * 2 ^ s
mod_pow_scaled zero q x =
    let e : zero + q ≡ q = omega arith in
    ap (λ (t : ℕ). x * 2 ^ zero % 2 ^ t) e
    ∙ (let f : x * 2 ^ zero ≡ x = omega arith in ap (λ (t : ℕ). t % 2 ^ q) f ∙ omega arith)
mod_pow_scaled (suc s) q x =
    let e : suc s + q ≡ suc (s + q) = omega arith in
    let twice : x * 2 ^ suc s ≡ 2 * (x * 2 ^ s) =
      omega (arith, ap (λ (t : ℕ). x * t) (pow-suc 2 s)) in
    let half : x * 2 ^ suc s / 2 ≡ x * 2 ^ s = omega (arith, twice) in
    ap (λ (t : ℕ). x * 2 ^ suc s % 2 ^ t) e
    ∙ omega (
      arith,
      mod_halves (s + q) (x * 2 ^ suc s),
      twice,
      ap (λ (t : ℕ). t % 2 ^ (s + q)) half,
      mod_pow_scaled s q x,
      ap (λ (t : ℕ). x % 2 ^ q * t) (pow-suc 2 s),
    )

pub pow_add : (a b : ℕ) → 2 ^ (a + b) ≡ 2 ^ b * 2 ^ a
pow_add zero b = let e : zero + b ≡ b = omega arith in ap (λ (t : ℕ). 2 ^ t) e ∙ omega arith
pow_add (suc a) b =
    let e : suc a + b ≡ suc (a + b) = omega arith in
    ap (λ (t : ℕ). 2 ^ t) e
    ∙ omega (arith, pow-suc 2 (a + b), pow_add a b, ap (λ (t : ℕ). 2 ^ b * t) (pow-suc 2 a))
