-- ===== src/ByteDecoder/Reads.antt =====
-- The byte loop that reads a little-endian number reads the field of the format.
use csnappy.Common.{
  ℕ, zero, suc, ◌+◌, ◌*◌, ◌%◌, ◌^◌, ◌≤◌, ◌<◌, ◌≡◌, arith, ap, ◌∙◌, List, [], ◌∷◌, All, bit_or, some,
  Option-cases, inl, inr,
}
use mathlib.Core.Path.{ap₂}
use csnappy.Common.Bits.{bit_or_shifted}
use csnappy.Common.Outcome.{ok}
use csnappy.Format.{field}
use csnappy.ByteDecoder.{read_bytes}
use native.Mathlib.Nat.{pow-suc, one-le-pow}
use native.Mathlib.Numerals.{towards_suc}

pub pow_eight : (s : ℕ) → 2 ^ (s + 8) ≡ 256 * 2 ^ s
pow_eight s = simp towards_suc (omega arith)

-- One byte joins those below it.
join_byte :
    (acc b s : ℕ)
    → acc < 2 ^ s
    → b < 256
    → 2 ^ s * 256 ≤ 2 ^ 32
    → bit_or acc (b * 2 ^ s % 2 ^ 32) ≡ acc + b * 2 ^ s
join_byte acc b s h hb fits =
    ap (bit_or acc) (let lt : b * 2 ^ s < 2 ^ 32 = grind arith in omega arith)
    ∙ bit_or_shifted s b acc h

room_for_one : (p q : ℕ) → 1 ≤ q → p * (q * 256) ≤ 2 ^ 32 → p * 256 ≤ 2 ^ 32
room_for_one p q h le = grind arith

below : (acc b s : ℕ) → acc < 2 ^ s → b < 256 → acc + b * 2 ^ s < 2 ^ (s + 8)
below acc b s h hb = grind (arith, pow_eight s)

pub read_bytes-field :
    (n s acc : ℕ) (src : List ℕ) {v : ℕ} {rest : List ℕ}
    → All (λ b. b < 256) src
    → acc < 2 ^ s
    → 2 ^ s * 256 ^ n ≤ 2 ^ 32
    → field n src ≡ some (v, rest)
    → read_bytes n s src acc ≡ ok (acc + v * 2 ^ s, rest)
unfolding read_bytes field
read_bytes-field zero s acc src bytes h fits e = ground arith
read_bytes-field (suc n) s acc [] bytes h fits e = cc
read_bytes-field (suc n) s acc (b ∷ src) {v} {rest} bytes h fits e =
    elim (Option-cases (field n src)) [
      | inl q ↦ ground arith
      | inr ((w, r), q) ↦
          (let p : 2 ^ s * (256 ^ n * 256) ≤ 2 ^ 32 =
              omega (arith, fits, ap (λ (t : ℕ). 2 ^ s * t) (pow-suc 256 n)) in
            let room : 2 ^ s * 256 ≤ 2 ^ 32 =
              room_for_one (2 ^ s) (256 ^ n) (one-le-pow n 256 (omega arith)) p in
            rw (join_byte acc b s h bytes.0 room) (
              read_bytes-field n (s + 8) (acc + b * 2 ^ s) src bytes.1 (below acc b s h bytes.0)
                (omega (arith, p, ap (λ (t : ℕ). t * 256 ^ n) (pow_eight s))) q
              ∙ ap₂ (λ (t : ℕ) (u : List ℕ). ok (t, u))
                  (let ev : b + 256 * w ≡ v = ground arith in
                    omega
                      (arith, ap (λ (t : ℕ). t * 2 ^ s) ev, ap (λ (t : ℕ). w * t) (pow_eight s)))
                  (ground arith)))
    ]
