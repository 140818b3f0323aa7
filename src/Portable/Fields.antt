-- ===== src/Portable/Fields.antt =====
-- Words put together from bytes and taken apart into bytes, as arithmetic.
use csnappy.Common.{
  ℕ, zero, suc, ◌+◌, ◌*◌, ◌/◌, ◌%◌, ◌^◌, ◌<◌, ◌≡◌, arith, refl, ap, ◌∙◌, bit_and, bit_or, [], ◌∷◌,
}
use csnappy.Common.Bits.{bit_or_halves, bit_and_halves, bit_or-zero, bit_and_low}
use native.Mathlib.Nat.{one-le-pow, mul-div_cancel, pow-suc, div-div-eq-div-mul}
use csnappy.Portable.{
  join16, join32, join64, bytes16, bytes32, bytes64, low_bytes16, low_bytes32, low_bytes64,
}

-- The higher part first.
bit_or_high : (k q r : ℕ) → r < 2 ^ k → bit_or (q * 2 ^ k) r ≡ q * 2 ^ k + r
bit_or_high zero q r h = ground (arith, bit_or-zero q)
bit_or_high (suc k) q r h = ground (
  arith,
  bit_or_halves (q * 2 ^ suc k) r,
  ap (λ (t : ℕ). q * t) (pow-suc 2 k),
  bit_or_high k q (r / 2) (omega (arith, pow-suc 2 k)),
)

-- A mask above bit `k`.
bit_and_shifted : (k v m : ℕ) → bit_and v (m * 2 ^ k) ≡ bit_and (v / 2 ^ k) m * 2 ^ k
bit_and_shifted zero v m = ground arith
bit_and_shifted (suc k) v m =
    let double : m * 2 ^ suc k ≡ 2 * (m * 2 ^ k) =
      omega (arith, ap (λ (t : ℕ). m * t) (pow-suc 2 k)) in
    let half : m * 2 ^ suc k / 2 ≡ m * 2 ^ k = omega (arith, double) in
    let low : m * 2 ^ suc k % 2 ≡ 0 = omega (arith, double) in
    let twice : 2 * 2 ^ k ≡ 2 ^ suc k = omega (arith, pow-suc 2 k) in
    let quotient : v / 2 / 2 ^ k ≡ v / 2 ^ suc k =
      div-div-eq-div-mul v 2 (2 ^ k) ∙ ap (λ (t : ℕ). v / t) twice in
    let again : bit_and (v / 2) (m * 2 ^ suc k / 2) ≡ bit_and (v / 2 ^ suc k) m * 2 ^ k =
      ap (bit_and (v / 2)) half
      ∙ bit_and_shifted k (v / 2) m
      ∙ ap (λ (t : ℕ). bit_and t m * 2 ^ k) quotient in
    omega (
      arith,
      bit_and_halves v (m * 2 ^ suc k),
      again,
      low,
      ap (λ (t : ℕ). bit_and (v / 2 ^ suc k) m * t) (pow-suc 2 k),
    )

pub masked : (k v : ℕ) → bit_and v (255 * 2 ^ k) ≡ v / 2 ^ k % 256 * 2 ^ k
masked k v = bit_and_shifted k v 255 ∙ ap (λ (t : ℕ). t * 2 ^ k) (bit_and_low 8 (v / 2 ^ k))

pub join16_lem : (a b : ℕ) → b < 256 → join16 a b ≡ a * 2 ^ 8 + b
unfolding join16
join16_lem a b h = bit_or_high 8 a b h

pub join32_lem :
    (a b c d : ℕ)
    → b < 256
    → c < 256
    → d < 256
    → join32 a b c d ≡ a * 2 ^ 24 + b * 2 ^ 16 + c * 2 ^ 8 + d
unfolding join32
join32_lem a b c d hb hc hd =
    let p : bit_or (a * 2 ^ 24) (b * 2 ^ 16) ≡ (a * 2 ^ 8 + b) * 2 ^ 16 =
      omega (arith, bit_or_high 24 a (b * 2 ^ 16) (omega arith)) in
    let q : bit_or ((a * 2 ^ 8 + b) * 2 ^ 16) (c * 2 ^ 8) ≡ (a * 2 ^ 16 + b * 2 ^ 8 + c) * 2 ^ 8 =
      omega (arith, bit_or_high 16 (a * 2 ^ 8 + b) (c * 2 ^ 8) (omega arith)) in
    rw (p, q) (omega (arith, bit_or_high 8 (a * 2 ^ 16 + b * 2 ^ 8 + c) d hd))

pub join64_lem :
    (a b c d e f g h : ℕ)
    → b < 256
    → c < 256
    → d < 256
    → e < 256
    → f < 256
    → g < 256
    → h < 256
    → join64 a b c d e f g h
      ≡ (a * 2 ^ 24 + b * 2 ^ 16 + c * 2 ^ 8 + d) * 2 ^ 32
        + (e * 2 ^ 24 + f * 2 ^ 16 + g * 2 ^ 8 + h)
unfolding join64
join64_lem a b c d e f g h hb hc hd he hf hg hh =
    let two : bit_or (a * 2 ^ 56) (b * 2 ^ 48) ≡ (a * 2 ^ 8 + b) * 2 ^ 48 =
      omega (arith, bit_or_high 56 a (b * 2 ^ 48) (omega arith)) in
    let three : bit_or ((a * 2 ^ 8 + b) * 2 ^ 48) (c * 2 ^ 40)
        ≡ (a * 2 ^ 16 + b * 2 ^ 8 + c) * 2 ^ 40 =
      omega (arith, bit_or_high 48 (a * 2 ^ 8 + b) (c * 2 ^ 40) (omega arith)) in
    let four : bit_or ((a * 2 ^ 16 + b * 2 ^ 8 + c) * 2 ^ 40) (d * 2 ^ 32)
        ≡ (a * 2 ^ 24 + b * 2 ^ 16 + c * 2 ^ 8 + d) * 2 ^ 32 =
      omega (arith, bit_or_high 40 (a * 2 ^ 16 + b * 2 ^ 8 + c) (d * 2 ^ 32) (omega arith)) in
    let high : ℕ = a * 2 ^ 24 + b * 2 ^ 16 + c * 2 ^ 8 + d in
    let five : bit_or (high * 2 ^ 32) (e * 2 ^ 24) ≡ (high * 2 ^ 8 + e) * 2 ^ 24 =
      omega (arith, bit_or_high 32 high (e * 2 ^ 24) (omega arith)) in
    let six : bit_or ((high * 2 ^ 8 + e) * 2 ^ 24) (f * 2 ^ 16)
        ≡ (high * 2 ^ 16 + e * 2 ^ 8 + f) * 2 ^ 16 =
      omega (arith, bit_or_high 24 (high * 2 ^ 8 + e) (f * 2 ^ 16) (omega arith)) in
    let seven : bit_or ((high * 2 ^ 16 + e * 2 ^ 8 + f) * 2 ^ 16) (g * 2 ^ 8)
        ≡ (high * 2 ^ 24 + e * 2 ^ 16 + f * 2 ^ 8 + g) * 2 ^ 8 =
      omega (arith, bit_or_high 16 (high * 2 ^ 16 + e * 2 ^ 8 + f) (g * 2 ^ 8) (omega arith)) in
    rw (two, three, four, five, six, seven)
      (omega (arith, bit_or_high 8 (high * 2 ^ 24 + e * 2 ^ 16 + f * 2 ^ 8 + g) h hh))

-- The byte of a word at bit `k`.
abbrev pub byte_at : ℕ → ℕ → ℕ
byte_at v k = v / 2 ^ k % 256

pub bytes16_lem : (v : ℕ) → bytes16 v ≡ byte_at v 8 ∷ byte_at v 0 ∷ []
unfolding bytes16
bytes16_lem v =
    let p : bit_and v 0xff00 / 2 ^ 8 ≡ byte_at v 8 = omega (arith, masked 8 v) in
    let q : bit_and v 0xff ≡ byte_at v 0 = omega (arith, masked 0 v) in rw (p, q) refl

pub bytes32_lem : (v : ℕ) → bytes32 v ≡ byte_at v 24 ∷ byte_at v 16 ∷ byte_at v 8 ∷ byte_at v 0 ∷ []
unfolding bytes32
bytes32_lem v =
    let a : bit_and v 0xff00_0000 / 2 ^ 24 ≡ byte_at v 24 = omega (arith, masked 24 v) in
    let b : bit_and v 0x00ff_0000 / 2 ^ 16 ≡ byte_at v 16 = omega (arith, masked 16 v) in
    let c : bit_and v 0xff00 / 2 ^ 8 ≡ byte_at v 8 = omega (arith, masked 8 v) in
    let d : bit_and v 0xff ≡ byte_at v 0 = omega (arith, masked 0 v) in rw (a, b, c, d) refl

pub low_bytes16_lem : (v : ℕ) → low_bytes16 v ≡ byte_at v 0 ∷ byte_at v 8 ∷ []
unfolding low_bytes16
low_bytes16_lem v =
    let p : bit_and v 0xff00 / 2 ^ 8 ≡ byte_at v 8 = omega (arith, masked 8 v) in
    let q : bit_and v 0xff ≡ byte_at v 0 = omega (arith, masked 0 v) in rw (p, q) refl

pub low_bytes32_lem :
    (v : ℕ) → low_bytes32 v ≡ byte_at v 0 ∷ byte_at v 8 ∷ byte_at v 16 ∷ byte_at v 24 ∷ []
unfolding low_bytes32
low_bytes32_lem v =
    let a : bit_and v 0xff00_0000 / 2 ^ 24 ≡ byte_at v 24 = omega (arith, masked 24 v) in
    let b : bit_and v 0x00ff_0000 / 2 ^ 16 ≡ byte_at v 16 = omega (arith, masked 16 v) in
    let c : bit_and v 0xff00 / 2 ^ 8 ≡ byte_at v 8 = omega (arith, masked 8 v) in
    let d : bit_and v 0xff ≡ byte_at v 0 = omega (arith, masked 0 v) in rw (a, b, c, d) refl

-- The bytes of a word of 64 bits, by bit.
pub masked64 : (k : ℕ) (v : ℕ) → bit_and v (255 * 2 ^ k) / 2 ^ k ≡ byte_at v k
masked64 k v =
    ap (λ (t : ℕ). t / 2 ^ k) (masked k v)
    ∙ mul-div_cancel (byte_at v k) {n = 2 ^ k} (omega (arith, one-le-pow k 2 (omega arith)))

pub bytes64_lem :
    (v : ℕ)
    → bytes64 v
      ≡ byte_at v 56
        ∷ byte_at v 48
        ∷ byte_at v 40
        ∷ byte_at v 32
        ∷ byte_at v 24
        ∷ byte_at v 16
        ∷ byte_at v 8
        ∷ byte_at v 0
        ∷ []
unfolding bytes64
bytes64_lem v =
    let low : bit_and v 0xff ≡ byte_at v 0 = omega (arith, masked 0 v) in
    rw
      (
        masked64 56 v,
        masked64 48 v,
        masked64 40 v,
        masked64 32 v,
        masked64 24 v,
        masked64 16 v,
        masked64 8 v,
        low,
      )
      refl

pub low_bytes64_lem :
    (v : ℕ)
    → low_bytes64 v
      ≡ byte_at v 0
        ∷ byte_at v 8
        ∷ byte_at v 16
        ∷ byte_at v 24
        ∷ byte_at v 32
        ∷ byte_at v 40
        ∷ byte_at v 48
        ∷ byte_at v 56
        ∷ []
unfolding low_bytes64
low_bytes64_lem v =
    let low : bit_and v 0xff ≡ byte_at v 0 = omega (arith, masked 0 v) in
    rw
      (
        masked64 56 v,
        masked64 48 v,
        masked64 40 v,
        masked64 32 v,
        masked64 24 v,
        masked64 16 v,
        masked64 8 v,
        low,
      )
      refl
