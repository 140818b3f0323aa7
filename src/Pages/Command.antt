-- ===== src/Pages/Command.antt =====
-- `main` of block_compressor.c. `getopt`'s answers are `Opt`, with the characters of an argument, and
-- what it leaves are the operands; a file name is a number.
use csnappy.Common.{
  ℕ, ◌+◌, ◌-◌, ◌/◌, ◌^◌, ◌≤◌, ◌<◌, ◌≡◌, ◌≢◌, refl, List, [], ◌∷◌, length, Bool, true, false, ◌&&◌,
  All, Option, some, none, leb, ◌==◌, if◌then◌else◌,
}
use csnappy.Tester.Command.{System, put_file, differ, written-file}
use csnappy.Pages
use csnappy.Pages.{Codec, Run, returns, exits, fault, Counts, ◌>>=◌}
use csnappy.Pages.Layout.{cut}
use csnappy.Pages.RoundTrip.{IsLossless, Readable, pages_read_back}

pub data Opt : Type 0 where
  with_compressor : List ℕ → Opt
  to_decompress : Opt
  unexpected : Opt

-- `strcasecmp(a, b) == 0` on letters of ASCII.
abbrev pub to_lower : ℕ → ℕ
to_lower letter = if leb 65 letter && leb letter 90 then letter + 32 else letter

unfoldable pub same_name : List ℕ → List ℕ → Bool
same_name [] [] = true
same_name [] (b ∷ bs) = false
same_name (a ∷ as_) [] = false
same_name (a ∷ as_) (b ∷ bs) = (to_lower a == to_lower b) && same_name as_ bs

-- `COMPRESSORS`: "LZO", "SNAPPY" and "ZLIB".
abbrev pub lzo_name : List ℕ
lzo_name = 76 ∷ 90 ∷ 79 ∷ []

abbrev pub snappy_name : List ℕ
snappy_name = 83 ∷ 78 ∷ 65 ∷ 80 ∷ 80 ∷ 89 ∷ []

abbrev pub zlib_name : List ℕ
zlib_name = 90 ∷ 76 ∷ 73 ∷ 66 ∷ []

-- `compressor` is -1, which is `none`, until `-c` sets it.
pub record Options : Type 0 where
  pub compressor : Option ℕ
  pub decompress : Bool

-- One answer of `getopt`; `none` is `goto usage`.
unfoldable pub set_option : Opt → Options → Option Options
unfolding same_name
set_option (with_compressor name) o =
    if same_name name lzo_name
    then some (record o { compressor = some 0 })
    else if same_name name snappy_name
    then some (record o { compressor = some 1 })
    else if same_name name zlib_name
    then some (record o { compressor = some 2 })
    else none
set_option to_decompress o = some (record o { decompress = true })
set_option unexpected o = none

unfoldable pub get_options : List Opt → Options → Option Options
unfolding set_option
get_options [] o = some o
get_options (x ∷ xs) o = elim (set_option x o) [ none ↦ none | some o' ↦ get_options xs o' ]

module _ (codecs : ℕ → Codec) (page_size : ℕ) where
  -- `compressors[method]` with `method` -1 is an access outside the array.
  unfoldable pub convert : Options → List ℕ → Run (List ℕ)
  unfolding Pages.do_compress Pages.do_decompress
  convert o content = elim o.compressor [
    | none ↦ fault
    | some method ↦
        if o.decompress
        then Pages.do_decompress (codecs method) page_size content
        else (do (file, counts) ← Pages.do_compress (codecs method) page_size content; returns file)
  ]

  unfoldable pub convert_files : Options → List ℕ → System → Run (ℕ × System)
  convert_files o [] s = returns (1, s)
  convert_files o (ifile ∷ []) s = returns (1, s)
  convert_files o (ifile ∷ ofile ∷ more) s = elim (s.files ifile) [
    | none ↦ returns (2, s)
    | some before ↦
        if s.writable ofile
        then (let s' = put_file s ofile [] in
            elim (s'.files ifile) [
              | none ↦ exits
              | some content ↦ (do file ← convert o content; returns (0, put_file s' ofile file))
            ])
        else returns (3, s)
  ]

  unfoldable pub main : List Opt → List ℕ → System → Run (ℕ × System)
  unfolding get_options convert_files
  main opts operands s =
      elim (get_options opts (record { compressor = none; decompress = false })) [
        | none ↦ returns (1, s)
        | some o ↦ convert_files o operands s
      ]

  convert_files_lem :
      (o : Options) (ifile ofile : ℕ) (content : List ℕ) (s : System) (r : Run (List ℕ))
      → s.files ifile ≡ some content
      → s.writable ofile ≡ true
      → ifile ≢ ofile
      → convert o content ≡ r
      → convert_files o (ifile ∷ ofile ∷ []) s
        ≡ (r >>= λ file. returns (0, put_file (put_file s ofile []) ofile file))
  unfolding convert_files
  convert_files_lem o ifile ofile content s r here w apart e =
      rw (convert_files, here, w, differ ifile ofile apart, here, e) refl

  convert_lem :
      (method : ℕ) (content file : List ℕ) (counts : Counts)
      → Pages.do_compress (codecs method) page_size content ≡ returns (file, counts)
      → convert (record { compressor = some method; decompress = false }) content ≡ returns file
  unfolding convert
  convert_lem method content file counts e = rw e refl

  -- If csnappy's compressor is lossless for pages of a size below 2^31, every file `a` of bytes of less than
  -- 2^32 - 1 pages, each of which is full or becomes shorter, and other writable names `b` and `e`:
  -- `block_compressor -c snappy a b` and then `block_compressor -c snappy -d b e` exit with 0, and then
  -- `e` holds what `a` held.
  pub main_restores :
      (a b e : ℕ) (content : List ℕ) (s : System)
      → IsLossless (codecs 1) page_size
      → 1 ≤ page_size
      → page_size < 2 ^ 31
      → All (λ x. x < 256) content
      → (length content + page_size - 1) / page_size < 2 ^ 32 - 1
      → All
          (Readable (codecs 1) page_size)
          (cut page_size ((length content + page_size - 1) / page_size) content)
      → s.files a ≡ some content
      → s.writable b ≡ true
      → s.writable e ≡ true
      → a ≢ b
      → b ≢ e
      → (s' s'' : System) × (main (with_compressor snappy_name ∷ []) (a ∷ b ∷ []) s
          ≡ returns (0, s'))
        × (main (with_compressor snappy_name ∷ to_decompress ∷ []) (b ∷ e ∷ []) s'
            ≡ returns (0, s''))
        × (s''.files e ≡ some content)
  unfolding main get_options set_option same_name convert
  main_restores a b e content s lossless some_size small bytes few readable here wb we ab be =
      let (file, counts, written, read) =
        pages_read_back (codecs 1) page_size lossless some_size small content bytes few readable in
      let s' : System = put_file (put_file s b []) b file in
      (
        s',
        put_file (put_file s' e []) e content,
        convert_files_lem (record { compressor = some 1; decompress = false }) a b content s
            (returns file) here wb ab (convert_lem 1 content file counts written),
        convert_files_lem (record { compressor = some 1; decompress = true }) b e file s'
            (returns content) (written-file (put_file s b []) b file) we be read,
        written-file (put_file s' e []) e content,
      )
