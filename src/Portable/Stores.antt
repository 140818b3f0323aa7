-- ===== src/Portable/Stores.antt =====
-- What the stores write, the loads read back.
use csnappy.Common.{
  ℕ, ◌+◌, ◌*◌, ◌/◌, ◌%◌, ◌^◌, ◌≤◌, ◌<◌, ◌≡◌, arith, refl, sym, ap, ◌∙◌, List, [], ◌∷◌, length,
  get_elem?, Option, some, bit_and,
}
use csnappy.Common.Bits.{bit_and_low}
use csnappy.Common.Memory.{write_at, store, store_lem, get_elem?-write_inside}
use csnappy.Common.Outcome.{Outcome, ok}
use csnappy.Portable.{
  join64, load16_be, load32_be, load64_be, load32_le, load64_le, store16_be, store32_be, store64_be,
  store16_le, store32_le, store64_le, bswap_16, put_le16_be, put_le16_bytes,
}
use mathlib.Core.Path.{ap₂}
use csnappy.Portable.Swaps.{bswap_16_lem}
use csnappy.Portable.Fields.{
  join16_lem, join32_lem, join64_lem, bytes16_lem, bytes32_lem, bytes64_lem, low_bytes16_lem,
  low_bytes32_lem, low_bytes64_lem, byte_at,
}

module _ (memory : List ℕ) (p : ℕ) where
  -- A byte of a block that was stored.
  stored :
      (chunk : List ℕ)
      → p ≤ length memory
      → (i : ℕ) → i < length chunk
      → get_elem? (write_at memory p chunk) (p + i) ≡ get_elem? chunk i
  stored chunk h i lt = get_elem?-write_inside memory p i chunk lt h

  first :
      (chunk : List ℕ)
      → p ≤ length memory
      → 1 ≤ length chunk
      → get_elem? (write_at memory p chunk) p ≡ get_elem? chunk 0
  first chunk h lt =
      let e : p ≡ p + 0 = omega arith in
      ap (get_elem? (write_at memory p chunk)) e ∙ stored chunk h 0 lt

  -- What a load reads of a store.
  abbrev pub ReadsBack : (List ℕ → ℕ → ℕ → Outcome (List ℕ)) → (List ℕ → ℕ → Option ℕ) → ℕ → Type 0
  ReadsBack write read v =
      (memory' : List ℕ) × (write memory p v ≡ ok memory') × (read memory' p ≡ some v)

  module _ (v : ℕ) where
    load16_be-store16_be : p + 2 ≤ length memory → v < 2 ^ 16 → ReadsBack store16_be load16_be v
    unfolding load16_be store16_be
    load16_be-store16_be fits small =
        let bs : List ℕ = byte_at v 8 ∷ byte_at v 0 ∷ [] in
        let h : p ≤ length memory = omega arith in
        (
          write_at memory p bs,
          ap (store memory p) (bytes16_lem v) ∙ store_lem memory p bs fits,
          rw (stored bs h 1 (omega arith), first bs h (omega arith))
              (ap (λ (t : ℕ). some t)
                (join16_lem (byte_at v 8) (byte_at v 0) (omega arith) ∙ omega arith)),
        )

    load32_be-store32_be : p + 4 ≤ length memory → v < 2 ^ 32 → ReadsBack store32_be load32_be v
    unfolding load32_be store32_be
    load32_be-store32_be fits small =
        let bs : List ℕ = byte_at v 24 ∷ byte_at v 16 ∷ byte_at v 8 ∷ byte_at v 0 ∷ [] in
        let h : p ≤ length memory = omega arith in
        (
          write_at memory p bs,
          ap (store memory p) (bytes32_lem v) ∙ store_lem memory p bs fits,
          rw
              (
                stored bs h 3 (omega arith),
                stored bs h 2 (omega arith),
                stored bs h 1 (omega arith),
                first bs h (omega arith),
              )
              (ap (λ (t : ℕ). some t)
                (join32_lem (byte_at v 24) (byte_at v 16) (byte_at v 8) (byte_at v 0) (omega arith)
                    (omega arith) (omega arith)
                  ∙ omega arith)),
        )

    load32_le-store32_le : p + 4 ≤ length memory → v < 2 ^ 32 → ReadsBack store32_le load32_le v
    unfolding load32_le store32_le
    load32_le-store32_le fits small =
        let bs : List ℕ = byte_at v 0 ∷ byte_at v 8 ∷ byte_at v 16 ∷ byte_at v 24 ∷ [] in
        let h : p ≤ length memory = omega arith in
        (
          write_at memory p bs,
          ap (store memory p) (low_bytes32_lem v) ∙ store_lem memory p bs fits,
          rw
              (
                stored bs h 3 (omega arith),
                stored bs h 2 (omega arith),
                stored bs h 1 (omega arith),
                first bs h (omega arith),
              )
              (ap (λ (t : ℕ). some t)
                (join32_lem (byte_at v 24) (byte_at v 16) (byte_at v 8) (byte_at v 0) (omega arith)
                    (omega arith) (omega arith)
                  ∙ omega arith)),
        )

    load64_le-store64_le : p + 8 ≤ length memory → v < 2 ^ 64 → ReadsBack store64_le load64_le v
    unfolding load64_le store64_le
    load64_le-store64_le fits small =
        let bs : List ℕ =
          byte_at v 0
          ∷ byte_at v 8
          ∷ byte_at v 16
          ∷ byte_at v 24
          ∷ byte_at v 32
          ∷ byte_at v 40
          ∷ byte_at v 48
          ∷ byte_at v 56
          ∷ [] in
        let h : p ≤ length memory = omega arith in
        (
          write_at memory p bs,
          ap (store memory p) (low_bytes64_lem v) ∙ store_lem memory p bs fits,
          rw
              (
                stored bs h 7 (omega arith),
                stored bs h 6 (omega arith),
                stored bs h 5 (omega arith),
                stored bs h 4 (omega arith),
                stored bs h 3 (omega arith),
                stored bs h 2 (omega arith),
                stored bs h 1 (omega arith),
                first bs h (omega arith),
              )
              (ap (λ (t : ℕ). some t)
                (join64_lem (byte_at v 56) (byte_at v 48) (byte_at v 40) (byte_at v 32)
                    (byte_at v 24) (byte_at v 16) (byte_at v 8) (byte_at v 0) (omega arith)
                    (omega arith) (omega arith) (omega arith) (omega arith) (omega arith)
                    (omega arith)
                  ∙ omega arith)),
        )

    -- What `put_unaligned_le16` writes on a big-endian machine, and where the byte order is another.
    put_le16_be-store16_le : v < 2 ^ 16 → put_le16_be v memory p ≡ store16_le memory p v
    unfolding put_le16_be store16_le
    put_le16_be-store16_le small =
        let swapped : bswap_16 v ≡ byte_at v 0 * 2 ^ 8 + byte_at v 8 = bswap_16_lem v small in
        let one : byte_at (bswap_16 v) 8 ≡ byte_at v 0 = omega (arith, swapped) in
        let two : byte_at (bswap_16 v) 0 ≡ byte_at v 8 = omega (arith, swapped) in
        ap (store memory p) (
          bytes16_lem (bswap_16 v)
          ∙ ap₂ (λ (s t : ℕ). s ∷ t ∷ []) one two
          ∙ sym (low_bytes16_lem v))

    put_le16_bytes-store16_le : v < 2 ^ 16 → put_le16_bytes v memory p ≡ store16_le memory p v
    unfolding put_le16_bytes store16_le
    put_le16_bytes-store16_le small =
        let one : bit_and v 255 ≡ byte_at v 0 = omega (arith, bit_and_low 8 v) in
        let two : v / 2 ^ 8 % 2 ^ 8 ≡ byte_at v 8 = refl in
        ap (store memory p) (ap₂ (λ (s t : ℕ). s ∷ t ∷ []) one two ∙ sym (low_bytes16_lem v))

-- Where eight bytes are there, what a store of 32 bits in either order, of 16 bits on a big-endian machine or
-- of 64 bits on a little-endian one writes, for numbers that have no more, the load of the same size and
-- order reads back.
pub stores_read_back :
    (memory : List ℕ) (p u v w : ℕ)
    → p + 8 ≤ length memory
    → u < 2 ^ 16
    → v < 2 ^ 32
    → w < 2 ^ 64
    → ReadsBack memory p store16_be load16_be u
      × ReadsBack memory p store32_be load32_be v
      × ReadsBack memory p store32_le load32_le v
      × ReadsBack memory p store64_le load64_le w
stores_read_back memory p u v w fits hu hv hw = (
  load16_be-store16_be memory p u (omega arith) hu,
  load32_be-store32_be memory p v (omega arith) hv,
  load32_le-store32_le memory p v (omega arith) hv,
  load64_le-store64_le memory p w (omega arith) hw,
)

-- Where eight bytes are there, what the load of 64 bits on a big-endian machine reads behind the store
-- of `v`, a number of 64 bits, differs from `v` by the third lowest byte in the place of the second:
-- it is `v` only where these two are equal.
pub load64_be-store64_be :
    (memory : List ℕ) (p v : ℕ)
    → p + 8 ≤ length memory
    → v < 2 ^ 64
    → (memory' : List ℕ) × (v' : ℕ) × (store64_be memory p v ≡ ok memory')
      × (load64_be memory' p ≡ some v')
      × (v' + byte_at v 8 * 256 ≡ v + byte_at v 16 * 256)
unfolding load64_be store64_be
load64_be-store64_be memory p v fits small =
    let bs : List ℕ =
      byte_at v 56
      ∷ byte_at v 48
      ∷ byte_at v 40
      ∷ byte_at v 32
      ∷ byte_at v 24
      ∷ byte_at v 16
      ∷ byte_at v 8
      ∷ byte_at v 0
      ∷ [] in
    let h : p ≤ length memory = omega arith in
    (
      write_at memory p bs,
      join64 (byte_at v 56) (byte_at v 48) (byte_at v 40) (byte_at v 32) (byte_at v 24)
          (byte_at v 16) (byte_at v 16) (byte_at v 0),
      ap (store memory p) (bytes64_lem v) ∙ store_lem memory p bs fits,
      rw
          (
            stored memory p bs h 7 (omega arith),
            stored memory p bs h 5 (omega arith),
            stored memory p bs h 4 (omega arith),
            stored memory p bs h 3 (omega arith),
            stored memory p bs h 2 (omega arith),
            stored memory p bs h 1 (omega arith),
            first memory p bs h (omega arith),
          )
          refl,
      omega (
        arith,
        join64_lem (byte_at v 56) (byte_at v 48) (byte_at v 40) (byte_at v 32) (byte_at v 24)
            (byte_at v 16) (byte_at v 16) (byte_at v 0) (omega arith) (omega arith) (omega arith)
            (omega arith) (omega arith) (omega arith) (omega arith),
      ),
    )

-- For a number of 16 bits, `put_unaligned_le16` makes the store of a little-endian machine, on a
-- big-endian one too, and where the order is another.
pub put_unaligned_le16-store16_le :
    (memory : List ℕ) (p v : ℕ)
    → v < 2 ^ 16
    → (put_le16_be v memory p ≡ store16_le memory p v)
      × (put_le16_bytes v memory p ≡ store16_le memory p v)
put_unaligned_le16-store16_le memory p v small =
    (put_le16_be-store16_le memory p v small, put_le16_bytes-store16_le memory p v small)
