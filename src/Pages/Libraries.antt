-- ===== src/Pages/Libraries.antt =====
-- The entries of LZO and zlib in `compressors[]`, over the calls of these libraries, which are parameters:
-- a call answers its status and what it wrote. A stream of zlib is reset after every use, so that it
-- carries nothing from one page to the next.
use csnappy.Common.{ℕ, zero, suc, List, length, leb, ◌==◌, if◌then◌else◌}
use csnappy.Pages.{Codec, Run, returns, exits, fault}

-- `lzo1x_1_compress` is not told the size of the output buffer, and its status is not looked at.
unfoldable pub lzo_compress : (List ℕ → List ℕ) → List ℕ → ℕ → Run (List ℕ)
lzo_compress lzo1x_1_compress page room =
    let out = lzo1x_1_compress page in if leb (length out) room then returns out else fault

-- A status other than 0 is an error.
unfoldable pub lzo_decompress : (List ℕ → ℕ → ℕ × List ℕ) → List ℕ → ℕ → Run (List ℕ)
lzo_decompress lzo1x_decompress_safe chunk room =
    let (status, out) = lzo1x_decompress_safe chunk room in
    if status == 0 then returns out else exits

-- `Z_STREAM_END` is 1, `Z_OK` is 0; `reset` is the status of `deflateReset` or `inflateReset`.
unfoldable pub zlib_run : (List ℕ → ℕ → ℕ × List ℕ) → ℕ → List ℕ → ℕ → Run (List ℕ)
zlib_run call reset bytes room =
    let (status, out) = call bytes room in
    if status == 1 then (if reset == 0 then returns out else exits) else exits

abbrev pub lzo_codec : (List ℕ → List ℕ) → (List ℕ → ℕ → ℕ × List ℕ) → Codec
lzo_codec lzo1x_1_compress lzo1x_decompress_safe = record {
  compress = lzo_compress lzo1x_1_compress;
  decompress = lzo_decompress lzo1x_decompress_safe;
}

abbrev pub zlib_codec : (List ℕ → ℕ → ℕ × List ℕ) → ℕ → (List ℕ → ℕ → ℕ × List ℕ) → ℕ → Codec
zlib_codec deflate deflate_reset inflate inflate_reset = record {
  compress = zlib_run deflate deflate_reset;
  decompress = zlib_run inflate inflate_reset;
}

-- `compressors[]`, by `LZO`, `SNAPPY` and `ZLIB`.
abbrev pub compressors : Codec → Codec → Codec → ℕ → Codec
compressors lzo snappy zlib zero = lzo
compressors lzo snappy zlib (suc zero) = snappy
compressors lzo snappy zlib (suc (suc n)) = zlib
