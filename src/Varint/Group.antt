-- ===== src/Varint/Group.antt =====
-- One byte of the header as arithmetic: `encode_varint32` splits off seven bits, and
-- `csnappy_get_uncompressed_length` adds them back below bit 32.
use csnappy.Common.{
  ℕ, zero, suc, ◌+◌, ◌*◌, ◌%◌, ◌^◌, ◌≤◌, ◌<◌, ◌≡◌, bit_and, bit_or, arith, ap, ◌∙◌,
}
use csnappy.Common.Bits.{bit_or_shifted, bit_and_low, bit_or-128}
use csnappy.Varint.{more, add_group}

pub more_eq : (v : ℕ) → more v ≡ v % 128 + 128
more_eq v = omega (arith, bit_or-128 v)

pub low_seven : (c : ℕ) → bit_and c 0x7f ≡ c % 128
low_seven c = bit_and_low 7 c

module _ (result c s top : ℕ) where
  -- `top` is what is left of a word above bit `s`.
  add_at :
      c % 128 * 2 ^ s % 2 ^ 32 ≡ c % 128 % top * 2 ^ s
      → result + c % 128 % top * 2 ^ s ≡ (result + c % 128 * 2 ^ s) % 2 ^ 32
      → result < 2 ^ s
      → add_group result c s ≡ (result + c % 128 * 2 ^ s) % 2 ^ 32
  unfolding add_group
  add_at cut fits h =
      ap (λ (t : ℕ). bit_or result (t * 2 ^ s % 2 ^ 32)) (low_seven c)
      ∙ ap (bit_or result) cut
      ∙ bit_or_shifted s (c % 128 % top) result h
      ∙ fits

-- The `j`-th byte adds its seven bits, modulo 2^32.
pub add_group_eq :
    (result c j : ℕ)
    → j ≤ 4
    → result < 2 ^ (7 * j)
    → add_group result c (7 * j) ≡ (result + c % 128 * 2 ^ (7 * j)) % 2 ^ 32
add_group_eq result c zero h fits = add_at result c 0 (2 ^ 32) (omega arith) (omega arith) fits
add_group_eq result c (suc zero) h fits =
    add_at result c 7 (2 ^ 25) (omega arith) (omega arith) fits
add_group_eq result c (suc (suc zero)) h fits =
    add_at result c 14 (2 ^ 18) (omega arith) (omega arith) fits
add_group_eq result c (suc (suc (suc zero))) h fits =
    add_at result c 21 (2 ^ 11) (omega arith) (omega arith) fits
add_group_eq result c (suc (suc (suc (suc zero)))) h fits =
    add_at result c 28 (2 ^ 4) (omega arith) (omega arith) fits
add_group_eq result c (suc (suc (suc (suc (suc j))))) h fits = absurd (omega arith)
