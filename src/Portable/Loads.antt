-- ===== src/Portable/Loads.antt =====
-- What the loads return.
use csnappy.Common.{
  ℕ, ◌+◌, ◌*◌, ◌%◌, ◌^◌, ◌≤◌, ◌<◌, ◌≡◌, arith, refl, sym, ap, ◌∙◌, List, [], ◌∷◌, length,
  length-drop, drop, take, All, All-drop, get_elem?, some,
}
use csnappy.Common.Memory.{get_elem?-drop}
use csnappy.Words.{part, le_value, load32}
use csnappy.Words.Loads.{load32_lem}
use csnappy.Portable.{load32_be, load32_le, get_le32_be, get_le32_bytes}
use csnappy.Portable.Fields.{join32_lem}
use csnappy.Portable.Swaps.{bswap_32_lem}
use csnappy.Common.Bits.{bit_or_shifted}

-- The bytes at a place.
pub record Four (xs : List ℕ) : Type 0 where
  pub a : ℕ
  pub b : ℕ
  pub c : ℕ
  pub d : ℕ
  pub more : List ℕ
  pub front : xs ≡ a ∷ b ∷ c ∷ d ∷ more
  pub a_lt : a < 256
  pub b_lt : b < 256
  pub c_lt : c < 256
  pub d_lt : d < 256

pub four_there : (xs : List ℕ) → 4 ≤ length xs → All (λ b. b < 256) xs → Four xs
four_there [] h bytes = absurd (omega arith)
four_there (a ∷ []) h bytes = absurd (omega arith)
four_there (a ∷ b ∷ []) h bytes = absurd (omega arith)
four_there (a ∷ b ∷ c ∷ []) h bytes = absurd (omega arith)
four_there (a ∷ b ∷ c ∷ d ∷ more) h bytes = record {
  a = a;
  b = b;
  c = c;
  d = d;
  more = more;
  front = refl;
  a_lt = bytes.0;
  b_lt = bytes.1.0;
  c_lt = bytes.1.1.0;
  d_lt = bytes.1.1.1.0;
}

module _ (memory : List ℕ) (p : ℕ) (bytes : All (λ b. b < 256) memory) where
  module _ (fits : p + 4 ≤ length memory) where
    here : Four (drop p memory)
    here =
        four_there (drop p memory) (omega (arith, length-drop p memory)) (All-drop _ p memory bytes)

    at :
        (i : ℕ)
        → get_elem? memory (p + i) ≡ get_elem? (here.a ∷ here.b ∷ here.c ∷ here.d ∷ here.more) i
    at i = sym (get_elem?-drop p i memory) ∙ ap (λ (t : List ℕ). get_elem? t i) here.front

    at_first : get_elem? memory p ≡ some here.a
    at_first = let e : p ≡ p + 0 = omega arith in ap (get_elem? memory) e ∙ at 0

    value :
        le_value (part memory p 4)
        ≡ here.a + 256 * (here.b + 256 * (here.c + 256 * (here.d + 256 * 0)))
    unfolding le_value
    value = ap (λ (t : List ℕ). le_value (take 4 t)) here.front

    -- The loads of a little-endian machine read the word with its lowest byte first.
    load32_le-load32 : load32_le memory p ≡ load32 memory p
    unfolding load32_le
    load32_le-load32 =
        rw (at 3, at 2, at 1, at_first, load32_lem memory p fits)
          (ap (λ (t : ℕ). some t)
            (join32_lem here.d here.c here.b here.a here.c_lt here.b_lt here.a_lt
              ∙ omega (arith, value)))

    load32_be_lem :
        load32_be memory p ≡ some (here.a * 2 ^ 24 + here.b * 2 ^ 16 + here.c * 2 ^ 8 + here.d)
    unfolding load32_be
    load32_be_lem =
        rw (at 3, at 2, at 1, at_first)
          (ap (λ (t : ℕ). some t)
            (join32_lem here.a here.b here.c here.d here.b_lt here.c_lt here.d_lt))

    -- On a big-endian machine the swap makes up for the order.
    get_le32_be-load32 : get_le32_be memory p ≡ load32 memory p
    unfolding get_le32_be
    get_le32_be-load32 =
        rw (load32_be_lem, load32_lem memory p fits)
          (ap (λ (t : ℕ). some t)
            (bswap_32_lem (here.a * 2 ^ 24 + here.b * 2 ^ 16 + here.c * 2 ^ 8 + here.d)
                (omega (arith, here.a_lt, here.b_lt, here.c_lt, here.d_lt))
              ∙ omega (arith, value, here.a_lt, here.b_lt, here.c_lt, here.d_lt)))

    get_le32_bytes-load32 : get_le32_bytes memory p ≡ load32 memory p
    unfolding get_le32_bytes
    get_le32_bytes-load32 =
        rw
          (
            at 3,
            at 2,
            at 1,
            at_first,
            load32_lem memory p fits,
            bit_or_shifted 8 here.b here.a here.a_lt,
            bit_or_shifted 16 here.c (here.a + here.b * 2 ^ 8)
                (omega (arith, here.a_lt, here.b_lt)),
            bit_or_shifted 24 here.d (here.a + here.b * 2 ^ 8 + here.c * 2 ^ 16)
                (omega (arith, here.a_lt, here.b_lt, here.c_lt)),
          )
          (let sum : (here.a + here.b * 2 ^ 8 + here.c * 2 ^ 16 + here.d * 2 ^ 24) % 2 ^ 32
                ≡ le_value (part memory p 4) =
              omega (arith, value, here.a_lt, here.b_lt, here.c_lt, here.d_lt) in
            ap (λ (t : ℕ). some t) sum)

-- Inside a memory of bytes, where four of them are there: `get_unaligned_le32` reads the word with its
-- lowest byte first, on a little-endian machine, on a big-endian one, and where the order is another.
pub get_unaligned_le32-load32 :
    (memory : List ℕ) (p : ℕ)
    → All (λ b. b < 256) memory
    → p + 4 ≤ length memory
    → (load32_le memory p ≡ load32 memory p)
      × (get_le32_be memory p ≡ load32 memory p)
      × (get_le32_bytes memory p ≡ load32 memory p)
get_unaligned_le32-load32 memory p bytes fits = (
  load32_le-load32 memory p bytes fits,
  get_le32_be-load32 memory p bytes fits,
  get_le32_bytes-load32 memory p bytes fits,
)
