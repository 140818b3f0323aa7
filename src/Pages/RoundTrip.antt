-- ===== src/Pages/RoundTrip.antt =====
-- What `do_compress` of block_compressor.c writes, its `do_decompress` reads back, but for a last page
-- that is short and does not shrink.
use csnappy.Common.{
  ℕ, zero, suc, ◌+◌, ◌-◌, ◌*◌, ◌/◌, ◌^◌, ◌≤◌, ◌<◌, ◌≡◌, ◌⊎◌, inl, inr, arith, tests, refl, ap, ◌∙◌,
  List, [], ◌∷◌, length, length-take, take, take_all, drop, All, All-take, All-drop, leb, le→leb,
  lt→leb, ◌==◌, true, false, Bool-cases,
}
use csnappy.Pages.{Codec, returns, Counts, decompress_page, do_compress, do_decompress}
use csnappy.Pages.Layout.{image, cut, contents-cut}
use csnappy.Pages.Writing.{IsStored, AreStored, do_compress-image}
use csnappy.Pages.Reading.{IsRestored, AreRestored, do_decompress-image, do_decompress-one}

-- What the program relies on in a compressor: every page is compressed, and where that makes it
-- shorter, it is decompressed again.
pub record IsLossless (codec : Codec) (page_size : ℕ) : Type 0 where
  pub compresses :
      (page : List ℕ)
      → All (λ b. b < 256) page
      → length page ≤ page_size
      → (out : List ℕ) × (codec.compress page (2 * page_size) ≡ returns out)
  pub restores :
      (page out : List ℕ)
      → All (λ b. b < 256) page
      → length page ≤ page_size
      → codec.compress page (2 * page_size) ≡ returns out
      → length out < length page
      → codec.decompress out page_size ≡ returns page

-- A page that is full or that compression makes shorter.
abbrev pub Readable : Codec → ℕ → List ℕ → Type 0
Readable codec page_size page =
    (length page ≡ page_size)
    ⊎ ((out : List ℕ) × (codec.compress page (2 * page_size) ≡ returns out)
        × (length out < length page))

module _ (codec : Codec) (page_size : ℕ) (lossless : IsLossless codec page_size)
    (some_size : 1 ≤ page_size) (small : page_size < 2 ^ 31) where
  IsStored-raw :
      (page out : List ℕ)
      → codec.compress page (2 * page_size) ≡ returns out
      → length page ≡ page_size
      → length page ≤ length out
      → IsStored codec page_size page page × IsRestored codec page_size small page page
  unfolding decompress_page
  IsStored-raw page out e full long =
      let raw : leb (length page) (length out) ≡ true = le→leb (length page) (length out) long in
      let whole : (length page == page_size) ≡ true = ground arith in
      (
        record { out = out; compressed = e; chosen = rw raw refl },
        record { fits = omega arith; restored = rw whole refl },
      )

  IsStored-short :
      (page out : List ℕ)
      → All (λ b. b < 256) page
      → length page ≤ page_size
      → codec.compress page (2 * page_size) ≡ returns out
      → length out < length page
      → IsStored codec page_size page out × IsRestored codec page_size small page out
  unfolding decompress_page
  IsStored-short page out bytes le e short =
      let packed : leb (length page) (length out) ≡ false =
        lt→leb (length page) (length out) short in
      let partial : (length out == page_size) ≡ false = ground arith in
      (
        record { out = out; compressed = e; chosen = rw packed refl },
        record {
          fits = omega arith;
          restored = rw partial (lossless.restores page out bytes le e short);
        },
      )

  stored :
      (page : List ℕ)
      → All (λ b. b < 256) page
      → length page ≤ page_size
      → Readable codec page_size page
      → (chunk : List ℕ) × IsStored codec page_size page chunk
        × IsRestored codec page_size small page chunk
  stored page bytes le (inr (out, e, short)) =
      let (s, r) = IsStored-short page out bytes le e short in (out, s, r)
  stored page bytes le (inl full) =
      let (out, e) = lossless.compresses page bytes le in
      elim (Bool-cases (leb (length page) (length out))) [
        | inl long ↦
            (let (s, r) = IsStored-raw page out e full (omega (tests, long)) in (page, s, r))
        | inr short ↦
            (let (s, r) = IsStored-short page out bytes le e (omega (tests, short)) in (out, s, r))
      ]

  chunks_of :
      (n : ℕ) (input : List ℕ)
      → All (λ b. b < 256) input
      → All (Readable codec page_size) (cut page_size n input)
      → (chunks : List (List ℕ)) × (length chunks ≡ n)
        × AreStored codec page_size (cut page_size n input) chunks
        × AreRestored codec page_size small (cut page_size n input) chunks
  chunks_of zero input bytes r = ([], refl, tt, tt)
  chunks_of (suc n) input bytes r =
      let page : List ℕ = take page_size input in
      let (c, s, t) =
        stored page (All-take (λ b. b < 256) page_size input bytes)
          (omega (arith, length-take page_size input)) r.0 in
      let (cs, count, ss, ts) =
        chunks_of n (drop page_size input) (All-drop (λ b. b < 256) page_size input bytes) r.1 in
      (c ∷ cs, ap suc count, (s, ss), (t, ts))

  enough_pages : (m : ℕ) → m ≤ (m + page_size - 1) / page_size * page_size
  enough_pages m = grind arith

  -- For every compressor that is lossless, every page size from 1 to below 2^31 and every input of bytes of
  -- less than 2^32 - 1 pages, each of which is full or becomes shorter: `do_compress` of
  -- block_compressor returns a file, and `do_decompress` of this file returns the input.
  pub pages_read_back :
      (input : List ℕ)
      → All (λ b. b < 256) input
      → (length input + page_size - 1) / page_size < 2 ^ 32 - 1
      → All
          (Readable codec page_size)
          (cut page_size ((length input + page_size - 1) / page_size) input)
      → (file : List ℕ) × (counts : Counts) × (do_compress codec page_size input
          ≡ returns (file, counts))
        × (do_decompress codec page_size file ≡ returns input)
  pages_read_back input bytes few readable =
      let n : ℕ = (length input + page_size - 1) / page_size in
      let (chunks, count, s, r) = chunks_of n input bytes readable in
      let (counts, e) =
        do_compress-image codec page_size input chunks n refl (omega arith) s count in
      (
        image chunks,
        counts,
        e,
        do_decompress-image codec page_size small (cut page_size n input) chunks (omega arith) r
            ∙ ap (λ (t : List ℕ). returns t)
                (contents-cut page_size n input
                  ∙ take_all (n * page_size) input (enough_pages (length input))),
      )

module _ (codec : Codec) (page_size : ℕ) (small : page_size < 2 ^ 31) where
  -- For every compressor and every page size below 2^31: an input of a byte at least that is shorter than a
  -- page and does not become shorter is written raw, and `do_decompress` then answers what the decompressor
  -- makes of the raw bytes.
  pub short_page_undone :
      (page out : List ℕ)
      → 1 ≤ length page
      → length page < page_size
      → codec.compress page (2 * page_size) ≡ returns out
      → length page ≤ length out
      → (file : List ℕ) × (counts : Counts) × (do_compress codec page_size page
          ≡ returns (file, counts))
        × (do_decompress codec page_size file ≡ codec.decompress page page_size)
  unfolding decompress_page
  short_page_undone page out some short e long =
      let alone : take page_size page ≡ page = take_all page_size page (omega arith) in
      let raw : leb (length page) (length out) ≡ true = le→leb (length page) (length out) long in
      let partial : (length page == page_size) ≡ false = ground arith in
      let one : (length page + page_size - 1) / page_size ≡ 1 = grind arith in
      let (counts, w) =
        do_compress-image codec page_size page (page ∷ []) 1 one (omega arith)
          (rw alone (record { out = out; compressed = e; chosen = rw raw refl }), tt) refl in
      (
        image (page ∷ []),
        counts,
        w,
        do_decompress-one codec page_size small page (omega arith)
            ∙ rw (decompress_page, partial) refl,
      )
