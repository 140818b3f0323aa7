-- ===== src/Pages/Snappy.antt =====
-- The entry of csnappy in `compressors[]`: `csnappy_compress_fragment` on a page and
-- `csnappy_decompress_noheader`.
use csnappy.Common.{
  ℕ, ◌+◌, ◌*◌, ◌^◌, ◌≤◌, ◌<◌, ◌≡◌, arith, refl, sym, ap, ◌∙◌, List, [], length, take, take_all, All,
  some, none, ltb, leb, le→leb, if◌then◌else◌,
}
use csnappy.Common.Outcome.{ok, err, fault}
use csnappy.Format.{Expands}
use csnappy.Emit.{Out}
use csnappy.Fragment.Table.{IsPower}
use csnappy.Compress.{BlockCompressor}
use csnappy.Decompress.{BlockDecoder}
use csnappy.Pages
use csnappy.Pages.{Run, returns, exits, Codec}
use csnappy.Pages.RoundTrip.{IsLossless}

-- `WMSIZE_ORDER`
abbrev pub wmsize_order : ℕ → ℕ
wmsize_order page_shift = if ltb 14 page_shift then 15 else page_shift + 1

-- The output buffer has `room` bytes; `ibuf` ends behind the page.
unfoldable pub snappy_compress : BlockCompressor → ℕ → List ℕ → ℕ → Run (List ℕ)
snappy_compress c page_shift page room =
    elim (c.compress_fragment page (length page) (record { bytes = []; reach = 0 })
      (wmsize_order page_shift)) [
        | none ↦ Pages.fault
        | some out ↦ if leb out.reach room then returns out.bytes else Pages.fault
      ]

unfoldable pub snappy_decompress : BlockDecoder → List ℕ → ℕ → Run (List ℕ)
snappy_decompress d chunk room = elim (d.decompress_noheader chunk room) [
  | ok out ↦ returns out
  | err e ↦ exits
  | fault ↦ Pages.fault
]

abbrev pub snappy_codec : BlockCompressor → BlockDecoder → ℕ → Codec
snappy_codec c d page_shift = record {
  compress = snappy_compress c page_shift;
  decompress = snappy_decompress d;
}

snappy_compress_lem :
    (c : BlockCompressor) (page_shift room : ℕ) (page : List ℕ) (out : Out)
    → c.compress_fragment page
        (length page)
        (record { bytes = []; reach = 0 })
        (wmsize_order page_shift)
      ≡ some out
    → out.reach ≤ room
    → snappy_compress c page_shift page room ≡ returns out.bytes
unfolding snappy_compress
snappy_compress_lem c page_shift room page out e reach =
    rw (snappy_compress, e, le→leb out.reach room reach) refl

snappy_decompress_lem :
    (d : BlockDecoder) (chunk page : List ℕ) (room : ℕ)
    → d.decompress_noheader chunk room ≡ ok page
    → snappy_decompress d chunk room ≡ returns page
unfolding snappy_decompress
snappy_decompress_lem d chunk page room e = rw (snappy_decompress, e) refl

-- For pages of 2^8 to 2^15 bytes, a page shift of 8 or more, every block compressor without a margin and every
-- block decoder whose limits are 2^16 or more: csnappy's entry compresses every page of bytes within the output
-- buffer, and decompresses it again where it became shorter.
pub snappy_codec-IsLossless :
    (c : BlockCompressor) (d : BlockDecoder) (page_size page_shift : ℕ)
    → c.margin ≡ 0
    → 2 ^ 16 ≤ d.src_limit
    → 2 ^ 16 ≤ d.dst_limit
    → 8 ≤ page_shift
    → 2 ^ 8 ≤ page_size
    → page_size ≤ 2 ^ 15
    → IsLossless (snappy_codec c d page_shift) page_size
snappy_codec-IsLossless c d page_size page_shift margin src dst shift lo hi = record {
  compresses = λ page bytes le.
      let (out, e, reach, expands, are_bytes) = compressed page bytes le in
      (out.bytes, snappy_compress_lem c page_shift (2 * page_size) page out e reach);
  restores = λ page out bytes le e short.
      let (o, e', reach, expands, are_bytes) = compressed page bytes le in
      let same : out ≡ o.bytes =
        taken o.bytes out
          (sym (snappy_compress_lem c page_shift (2 * page_size) page o e' reach) ∙ e) in
      let decoded : d.decompress_noheader out page_size ≡ ok page =
        d.decodes out page page_size (rw same are_bytes) (omega arith) le (omega arith)
          (rw same expands) in
      snappy_decompress_lem d out page page_size decoded;
}
  where
    taken : (a b : List ℕ) → ◌≡◌ {A = Run (List ℕ)} (returns a) (returns b) → b ≡ a
    taken a b h = ground arith

    power : IsPower (wmsize_order page_shift)
    power = record { at_least = ground arith; at_most = ground arith }

    compressed :
        (page : List ℕ)
        → All (λ b. b < 256) page
        → length page ≤ page_size
        → (out : Out) × (c.compress_fragment page
              (length page)
              (record { bytes = []; reach = 0 })
              (wmsize_order page_shift)
            ≡ some out)
          × (out.reach ≤ 2 * page_size)
          × Expands page out.bytes []
          × All (λ b. b < 256) out.bytes
    compressed page bytes le =
        let (out, e, x) =
          c.compresses [] page (length page) (record { bytes = []; reach = 0 })
            (wmsize_order page_shift) power bytes (omega arith) (omega arith) in
        let whole : take (length page) page ≡ page = take_all (length page) page (omega arith) in
        let ex : Expands (take (length page) page) out.bytes [] = rw x.appended x.expands in
        (
          out,
          e,
          omega (
            arith,
            x.bounded,
            x.small,
            ap (length {A = ℕ}) whole,
            ap (length {A = ℕ}) x.appended,
          ),
          rw whole at ex,
          rw x.appended x.are_bytes,
        )
