-- ===== src/ByteDecoder/Fields.antt =====
-- The bound of the number behind the tag of a long literal.
use csnappy.Common.{
  ℕ, zero, suc, ◌+◌, ◌*◌, ◌^◌, ◌<◌, ◌≡◌, arith, List, [], ◌∷◌, All, some, Option-cases, inl, inr,
}
use csnappy.Format.{field}
use native.Mathlib.Nat.{pow-suc}

pub field-lt :
    (n : ℕ) (src : List ℕ) {v : ℕ} {rest : List ℕ}
    → All (λ b. b < 256) src
    → field n src ≡ some (v, rest)
    → v < 256 ^ n
unfolding field
field-lt zero src bytes e = ground arith
field-lt (suc n) [] bytes e = absurd (ground arith)
field-lt (suc n) (b ∷ src) {v} bytes e = elim (Option-cases (field n src)) [
  | inl q ↦ absurd (ground arith)
  | inr ((w, r), q) ↦
      (let ev : b + 256 * w ≡ v = ground arith in
        omega (arith, bytes.0, field-lt n src bytes.1 q, pow-suc 256 n))
]
