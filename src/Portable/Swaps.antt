-- ===== src/Portable/Swaps.antt =====
-- The swaps turn the bytes of a word around.
use csnappy.Common.{ℕ, ◌+◌, ◌*◌, ◌/◌, ◌%◌, ◌^◌, ◌<◌, ◌≡◌, arith, ap, ◌∙◌, bit_and}
use csnappy.Common.Bits.{bit_or_shifted}
use csnappy.Portable.{bswap_16, bswap_32, bswap_64}
use csnappy.Portable.Fields.{masked, masked64, byte_at}

pub bswap_16_lem : (v : ℕ) → v < 2 ^ 16 → bswap_16 v ≡ byte_at v 0 * 2 ^ 8 + byte_at v 8
unfolding bswap_16
bswap_16_lem v h =
    let small : v % 2 ^ 16 ≡ v = omega arith in
    let a : bit_and v 0xff00 / 2 ^ 8 ≡ byte_at v 8 = omega (arith, masked 8 v) in
    let b : bit_and v 0xff * 2 ^ 8 ≡ byte_at v 0 * 2 ^ 8 = omega (arith, masked 0 v) in
    rw (small, a, b, bit_or_shifted 8 (byte_at v 0) (byte_at v 8) (omega arith)) (omega arith)

pub bswap_32_lem :
    (v : ℕ)
    → v < 2 ^ 32
    → bswap_32 v ≡ byte_at v 0 * 2 ^ 24 + byte_at v 8 * 2 ^ 16 + byte_at v 16 * 2 ^ 8 + byte_at v 24
unfolding bswap_32
bswap_32_lem v h =
    let small : v % 2 ^ 32 ≡ v = omega arith in
    let a : bit_and v 0xff00_0000 / 2 ^ 24 ≡ byte_at v 24 = omega (arith, masked 24 v) in
    let b : bit_and v 0x00ff_0000 / 2 ^ 8 ≡ byte_at v 16 * 2 ^ 8 = omega (arith, masked 16 v) in
    let c : bit_and v 0xff00 * 2 ^ 8 ≡ byte_at v 8 * 2 ^ 16 = omega (arith, masked 8 v) in
    let d : bit_and v 0xff * 2 ^ 24 ≡ byte_at v 0 * 2 ^ 24 = omega (arith, masked 0 v) in
    let p = bit_or_shifted 8 (byte_at v 16) (byte_at v 24) (omega arith) in
    let q = bit_or_shifted 16 (byte_at v 8) (byte_at v 24 + byte_at v 16 * 2 ^ 8) (omega arith) in
    let r =
      bit_or_shifted 24 (byte_at v 0) (byte_at v 24 + byte_at v 16 * 2 ^ 8 + byte_at v 8 * 2 ^ 16)
        (omega arith) in
    rw (small, a, b, c, d, p, q, r) (omega arith)

-- The lower half of a word of 64 bits, turned around.
abbrev turned : ℕ → ℕ
turned v = byte_at v 24 + byte_at v 16 * 2 ^ 8 + byte_at v 8 * 2 ^ 16 + byte_at v 0 * 2 ^ 24

pub bswap_64_lem : (v : ℕ) → v < 2 ^ 64 → bswap_64 v ≡ turned (v / 2 ^ 32) + turned v * 2 ^ 32
unfolding bswap_64
bswap_64_lem v h =
    let small : v % 2 ^ 64 ≡ v = omega arith in
    let a : bit_and v 0xff00_0000_0000_0000 / 2 ^ 56 ≡ byte_at v 56 = masked64 56 v in
    let b : bit_and v 0x00ff_0000_0000_0000 / 2 ^ 40 ≡ byte_at v 48 * 2 ^ 8 =
      omega (arith, masked 48 v) in
    let c : bit_and v 0x0000_ff00_0000_0000 / 2 ^ 24 ≡ byte_at v 40 * 2 ^ 16 =
      omega (arith, masked 40 v) in
    let d : bit_and v 0x0000_00ff_0000_0000 / 2 ^ 8 ≡ byte_at v 32 * 2 ^ 24 =
      omega (arith, masked 32 v) in
    let e : bit_and v 0xff00_0000 * 2 ^ 8 ≡ byte_at v 24 * 2 ^ 32 = omega (arith, masked 24 v) in
    let f : bit_and v 0x00ff_0000 * 2 ^ 24 ≡ byte_at v 16 * 2 ^ 40 = omega (arith, masked 16 v) in
    let g : bit_and v 0xff00 * 2 ^ 40 ≡ byte_at v 8 * 2 ^ 48 = omega (arith, masked 8 v) in
    let i : bit_and v 0xff * 2 ^ 56 ≡ byte_at v 0 * 2 ^ 56 = omega (arith, masked 0 v) in
    let s1 : ℕ = byte_at v 56 in
    let s2 : ℕ = s1 + byte_at v 48 * 2 ^ 8 in
    let s3 : ℕ = s2 + byte_at v 40 * 2 ^ 16 in
    let s4 : ℕ = s3 + byte_at v 32 * 2 ^ 24 in
    let s5 : ℕ = s4 + byte_at v 24 * 2 ^ 32 in
    let s6 : ℕ = s5 + byte_at v 16 * 2 ^ 40 in
    let s7 : ℕ = s6 + byte_at v 8 * 2 ^ 48 in
    rw
      (
        small,
        a,
        b,
        c,
        d,
        e,
        f,
        g,
        i,
        bit_or_shifted 8 (byte_at v 48) s1 (omega arith),
        bit_or_shifted 16 (byte_at v 40) s2 (omega arith),
        bit_or_shifted 24 (byte_at v 32) s3 (omega arith),
        bit_or_shifted 32 (byte_at v 24) s4 (omega arith),
        bit_or_shifted 40 (byte_at v 16) s5 (omega arith),
        bit_or_shifted 48 (byte_at v 8) s6 (omega arith),
        bit_or_shifted 56 (byte_at v 0) s7 (omega arith),
      )
      (omega arith)

turned_twice : (v : ℕ) → v < 2 ^ 32 → turned (turned v) ≡ v
turned_twice v h = omega arith

-- For a word of 32 or 64 bits, `bswap_32` and `bswap_64` are their own inverses.
pub bswap-bswap :
    (v w : ℕ) → v < 2 ^ 32 → w < 2 ^ 64 → (bswap_32 (bswap_32 v) ≡ v) × (bswap_64 (bswap_64 w) ≡ w)
bswap-bswap v w hv hw = (
  bswap_32_lem (bswap_32 v) (omega (arith, bswap_32_lem v hv)) ∙ omega (arith, bswap_32_lem v hv),
  bswap_64_lem (bswap_64 w) (omega (arith, bswap_64_lem w hw)) ∙ omega (arith, high, low),
)
  where
    both : bswap_64 w ≡ turned (w / 2 ^ 32) + turned w * 2 ^ 32
    both = bswap_64_lem w hw

    high : turned (bswap_64 w / 2 ^ 32) ≡ w % 2 ^ 32
    high =
        let q : bswap_64 w / 2 ^ 32 ≡ turned (w % 2 ^ 32) = omega (arith, both) in
        ap turned q ∙ turned_twice (w % 2 ^ 32) (omega arith)

    low : turned (bswap_64 w) ≡ w / 2 ^ 32
    low =
        let e : turned (bswap_64 w) ≡ turned (turned (w / 2 ^ 32)) = omega (arith, both) in
        e ∙ turned_twice (w / 2 ^ 32) (omega arith)
