-- ===== src/Decompress/Streams.antt =====
-- What `csnappy_decompress` answers, by the length in the header.
use csnappy.Common.{
  ℕ, ◌%◌, ◌^◌, ◌≤◌, ◌<◌, ◌≡◌, arith, refl, ap, ◌∙◌, Bool-cases, inl, inr, if◌then◌else◌, List, [],
  length, length-drop, drop, All, All-drop, Option, some, none, ltb, le→ltb,
}
use csnappy.Common.Outcome.{Outcome, ok, err, header_bad, output_insuf}
use csnappy.Varint.{get_uncompressed_length}
use csnappy.Varint.Value.{base_128, Reads, get_uncompressed_length-Reads}
use csnappy.Format.{Expands}
use csnappy.Decompress.{BlockDecoder, decompress, decompress_body}

-- The answer, by the number in base 128 at the front of the input.
abbrev pub answer : BlockDecoder → List ℕ → ℕ → Option (ℕ × ℕ) → Outcome (List ℕ)
answer d src dst_len none = err header_bad
answer d src dst_len (some (n, v)) =
    if ltb dst_len (v % 2 ^ 32)
    then err output_insuf
    else d.decompress_noheader (drop n src) (v % 2 ^ 32)

-- For every block decoder and input: without a number of at most five bytes in base 128 at the
-- front, `csnappy_decompress` answers CSNAPPY_E_HEADER_BAD. With one, it answers
-- CSNAPPY_E_OUTPUT_INSUF if the number modulo 2^32 is above `dst_len`, and otherwise what the block
-- decoder answers for the bytes behind the number, with that much room.
pub decompress-answer :
    (d : BlockDecoder) (src : List ℕ) (dst_len : ℕ)
    → decompress d src dst_len ≡ answer d src dst_len (base_128 5 src)
unfolding decompress decompress_body
decompress-answer d src dst_len =
    by_header (base_128 5 src) (get_uncompressed_length src) (get_uncompressed_length-Reads src)
  where
    by_header :
        (o : Option (ℕ × ℕ)) (out : Outcome ℕ × ℕ)
        → Reads o out
        → decompress_body d src dst_len out ≡ answer d src dst_len o
    by_header none (status, olen) h =
        ap (λ (t : Outcome ℕ). decompress_body d src dst_len (t, olen)) h
    by_header (some (n, v)) out h =
        ap (decompress_body d src dst_len) h
        ∙ (elim (Bool-cases (ltb dst_len (v % 2 ^ 32))) [ inl p ↦ rw p refl | inr p ↦ rw p refl ])

-- If the input is bytes and begins with such a number, the number modulo 2^32 is not above
-- `dst_len`, the length of the input and this number are below the limits of the block decoder, and
-- what follows it expands to a list that is not longer than the number, then
-- `csnappy_decompress` answers CSNAPPY_E_OK with this list, also where it is shorter.
pub decompress-Expands :
    (d : BlockDecoder) (src final : List ℕ) (n v dst_len : ℕ)
    → All (λ b. b < 256) src
    → base_128 5 src ≡ some (n, v)
    → v % 2 ^ 32 ≤ dst_len
    → length final ≤ v % 2 ^ 32
    → length src < d.src_limit
    → v % 2 ^ 32 < d.dst_limit
    → Expands final (drop n src) []
    → decompress d src dst_len ≡ ok final
decompress-Expands d src final n v dst_len bytes e fits le short low x =
    decompress-answer d src dst_len
    ∙ ap (answer d src dst_len) e
    ∙ rw (le→ltb dst_len (v % 2 ^ 32) fits) (
        d.decodes (drop n src) final (v % 2 ^ 32) (All-drop (λ b. b < 256) n src bytes)
          (omega (arith, length-drop n src)) le low x)
