-- ===== src/Pages.antt =====
-- The file of block_compressor.c: a count of pages, a table of their sizes and their data, over the
-- compressors that the program knows. A file is the list of its bytes.
pub mod Layout
pub mod Writing
pub mod Reading
pub mod RoundTrip
pub mod Snappy
pub mod Libraries
pub mod Clock
pub mod Command
mod Runs
use csnappy.Common.{
  ℕ, zero, suc, ◌+◌, ◌-◌, ◌*◌, ◌/◌, ◌%◌, ◌^◌, List, [], ◌∷◌, ◌++◌, length, take, drop, replicate,
  Option, some, none, ltb, leb, ◌==◌, true, false, if◌then◌else◌,
}
use csnappy.Words.{le_value, part}

-- How a function ends: `exits` is `handle_error`, `fault` an access outside a buffer.
pub data Run {ℓ} (A : Type ℓ) : Type ℓ where
  returns : A → Run A
  exits : Run A
  fault : Run A

infixl 5 ◌>>=◌ ◌>>◌
abbrev pub ◌>>=◌ {ℓ κ} : {A : Type ℓ} {B : Type κ} → Run A → (A → Run B) → Run B
returns a >>= f = f a
exits >>= f = exits
fault >>= f = fault

abbrev pub ◌>>◌ {ℓ} : {B : Type ℓ} → Run (Unit {0}) → Run B → Run B
m >> k = m >>= λ _. k

-- An entry of `compressors[]`: what `compress` writes into the output buffer and what `decompress`
-- does, with the room in its buffer.
pub record Codec : Type 0 where
  pub compress : List ℕ → ℕ → Run (List ℕ)
  pub decompress : List ℕ → ℕ → Run (List ℕ)

-- The four bytes of `union intbytes` on a little-endian machine.
unfoldable pub int_bytes : ℕ → List ℕ
int_bytes i = i % 256 ∷ i / 2 ^ 8 % 256 ∷ i / 2 ^ 16 % 256 ∷ i / 2 ^ 24 % 256 ∷ []

-- `fwrite` at a position: what lies between the end of the file and the position becomes zeros.
unfoldable pub write_file : List ℕ → ℕ → List ℕ → List ℕ
write_file file pos bytes =
    take pos (file ++ replicate (pos - length file) 0) ++ (bytes ++ drop (pos + length bytes) file)

-- `fread` of `n` bytes at a position, of which none may be missing.
unfoldable pub read_file : List ℕ → ℕ → ℕ → Run (List ℕ)
read_file file pos n = if leb n (length file - pos) then returns (part file pos n) else exits

-- `counts[3]`, of pages that shrink to half, that shrink less, and that do not shrink.
pub record Counts : Type 0 where
  pub to_half : ℕ
  pub less : ℕ
  pub raw : ℕ

abbrev pub no_counts : Counts
no_counts = record { to_half = 0; less = 0; raw = 0 }

unfoldable pub count_page : ℕ → ℕ → ℕ → Counts → Counts
count_page page_size ilen olen counts =
    if leb ilen olen
    then record counts { raw = (counts.raw + 1) % 2 ^ 32 }
    else if ltb (page_size / 2) olen
    then record counts { less = (counts.less + 1) % 2 ^ 32 }
    else record counts { to_half = (counts.to_half + 1) % 2 ^ 32 }

module _ (codec : Codec) (page_size : ℕ) where
  -- What is written for a page: the page itself, if compression does not make it shorter.
  abbrev pub chunk_of : List ℕ → List ℕ → List ℕ
  chunk_of page out = if leb (length page) (length out) then page else out

  -- `for (i = 0; i < nr_pages; i++)`: the rounds left, the input not yet read, the file and `counts`.
  unfoldable pub compress_pages : ℕ → List ℕ → List ℕ → ℕ → Counts → Run (List ℕ × Counts)
  unfolding write_file int_bytes count_page
  compress_pages zero input file i counts = returns (file, counts)
  compress_pages (suc rounds) input file i counts = do
    let page = take page_size input
    out ← codec.compress page (2 * page_size)
    let chunk = chunk_of page out
    let file' = write_file file ((i + 1) * 4) (int_bytes (length chunk))
    compress_pages rounds (drop page_size input) (write_file file' (length file') chunk) (i + 1)
        (count_page page_size (length page) (length out) counts)

  -- What the output file holds at the end.
  unfoldable pub do_compress : List ℕ → Run (List ℕ × Counts)
  unfolding compress_pages
  do_compress input =
      let nr_pages = (length input + page_size - 1) / page_size in
      if ltb (2 ^ 32 - 1) nr_pages
      then exits
      else (let file = write_file [] 0 (int_bytes nr_pages) in
          compress_pages nr_pages input (write_file file (nr_pages * 4) (int_bytes nr_pages)) 0
            no_counts)

  -- A page is what its chunk holds, if that has the size of a page.
  unfoldable pub decompress_page : List ℕ → Run (List ℕ)
  decompress_page chunk =
      if length chunk == page_size then returns chunk else codec.decompress chunk page_size

  -- A read into `ibuf` must not be longer than this.
  unfoldable pub read_chunk : List ℕ → ℕ → ℕ → Run (List ℕ)
  unfolding read_file
  read_chunk file ipos ilen =
      if ltb (2 * page_size) ilen
      then (if ltb (2 * page_size) (length file - ipos) then fault else exits)
      else read_file file ipos ilen

  -- The loop of `do_decompress`: the rounds left, `i`, `ipos` and what is written.
  unfoldable pub decompress_pages : ℕ → List ℕ → ℕ → ℕ → List ℕ → Run (List ℕ)
  unfolding read_file read_chunk decompress_page
  decompress_pages zero file i ipos written = returns written
  decompress_pages (suc rounds) file i ipos written = do
    size ← read_file file ((i + 1) % 2 ^ 32 * 4) 4
    let ilen = le_value size
    chunk ← read_chunk file ipos ilen
    page ← decompress_page chunk
    decompress_pages rounds file (i + 1) (ipos + ilen) (written ++ page)

  unfoldable pub do_decompress : List ℕ → Run (List ℕ)
  unfolding read_file decompress_pages
  do_decompress file = do
    count ← read_file file 0 4
    let nr_pages = le_value count
    decompress_pages nr_pages file 0 ((nr_pages + 1) % 2 ^ 32 * 4) []
