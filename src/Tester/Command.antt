-- ===== src/Tester/Command.antt =====
-- `main` of cl_tester.c. `getopt`'s answers are `Opt`, with the first character of an argument, and what
-- it leaves are the operands; a file name is a number.
use csnappy.Common.{
  ℕ, ◌+◌, ◌/◌, ◌≤◌, ◌<◌, ◌≡◌, ◌≢◌, arith, refl, ap, ◌∙◌, List, [], ◌∷◌, ◌++◌, length, Bool, true,
  false, All, Option, some, none, ◌==◌, if◌then◌else◌, Bool-cases, ==→eq, inl, inr,
}
use csnappy.Common.Partial.{◌>>=◌}
use csnappy.Compress.{BlockCompressor}
use csnappy.Decompress.{BlockDecoder}
use csnappy.Tester.{max_input_size, Process, do_compress, do_decompress}
use csnappy.Tester.Sessions.{do_decompress-do_compress}

pub data Opt : Type 0 where
  self_test : ℕ → Opt
  to_decompress : Opt
  to_stdout : Opt
  unexpected : Opt

pub record Options : Type 0 where
  pub decompress : Bool
  pub files : Bool
  pub selftest_compression : Bool
  pub selftest_decompression : Bool

abbrev pub defaults : Options
defaults = record {
  decompress = false;
  files = true;
  selftest_compression = false;
  selftest_decompression = false;
}

-- One answer of `getopt`; `none` is `goto usage`.
unfoldable pub set_option : Opt → Options → Option Options
set_option (self_test letter) o =
    if letter == 99
    then some (record o { selftest_compression = true })
    else if letter == 100
    then some (record o { selftest_decompression = true })
    else none
set_option to_decompress o = some (record o { decompress = true })
set_option to_stdout o = some (record o { files = false })
set_option unexpected o = none

unfoldable pub get_options : List Opt → Options → Option Options
unfolding set_option
get_options [] o = some o
get_options (x ∷ xs) o = do o' ← set_option x o; get_options xs o'

-- The files by name, the names that can be opened for writing, and the standard streams.
pub record System : Type 0 where
  pub files : ℕ → Option (List ℕ)
  pub writable : ℕ → Bool
  pub stdin : List ℕ
  pub stdout : List ℕ

abbrev pub put_file : System → ℕ → List ℕ → System
put_file s name content = record s { files = λ n. if n == name then some content else s.files n }

pub differ : (i j : ℕ) → i ≢ j → (i == j) ≡ false
differ i j apart = elim (Bool-cases (i == j)) [
  | inl same ↦ absurd (apart (==→eq i j same))
  | inr no_match ↦ no_match
]

pub written-file :
    (s : System) (name : ℕ) (content : List ℕ) → (put_file s name content).files name ≡ some content
written-file s name content = let e : (name == name) ≡ true = ground arith in rw e refl

-- A process with both files open.
abbrev pub started : Process
started = record { input_open = true; output_open = true; live = 0; written = [] }

module _ (c : BlockCompressor) (d : BlockDecoder) (malloc : ℕ → ℕ → Bool) (fill : ℕ → List ℕ) where
  abbrev pub convert : Bool → List ℕ → Option (ℕ × Process)
  convert true content = do_decompress d malloc fill content started
  convert false content = do_compress c malloc fill content started

  -- The two `fopen` calls: the output is emptied before the input is read.
  unfoldable pub convert_files : Bool → List ℕ → System → Option (ℕ × System)
  convert_files decompress [] s = some (1, s)
  convert_files decompress (ifile ∷ []) s = some (1, s)
  convert_files decompress (ifile ∷ ofile ∷ more) s = elim (s.files ifile) [
    | none ↦ some (2, s)
    | some before ↦
        if s.writable ofile
        then (do
          let s' = put_file s ofile []
          content ← s'.files ifile
          (status, p) ← convert decompress content
          some (status, put_file s' ofile p.written))
        else some (3, s)
  ]

  unfoldable pub convert_streams : Bool → System → Option (ℕ × System)
  convert_streams decompress s = do
    (status, p) ← convert decompress s.stdin
    some (status, record s { stdin = []; stdout = s.stdout ++ p.written })

  -- The exit status and the system behind `main`; the self-tests answer a status of their own.
  unfoldable pub main : Option ℕ → Option ℕ → List Opt → List ℕ → System → Option (ℕ × System)
  unfolding get_options convert_files convert_streams
  main compression_test decompression_test opts operands s = elim (get_options opts defaults) [
    | none ↦ some (1, s)
    | some o ↦
        if o.selftest_compression
        then (do status ← compression_test; some (status, s))
        else if o.selftest_decompression
        then (do status ← decompression_test; some (status, s))
        else if o.files
        then convert_files o.decompress operands s
        else convert_streams o.decompress s
  ]

  convert_files_lem :
      (decompress : Bool) (ifile ofile status : ℕ) (content : List ℕ) (p : Process) (s : System)
      → s.files ifile ≡ some content
      → s.writable ofile ≡ true
      → ifile ≢ ofile
      → convert decompress content ≡ some (status, p)
      → convert_files decompress (ifile ∷ ofile ∷ []) s
        ≡ some (status, put_file (put_file s ofile []) ofile p.written)
  unfolding convert_files
  convert_files_lem decompress ifile ofile status content p s here w apart e =
      rw (convert_files, here, w, differ ifile ofile apart, here, e) refl

  -- If every buffer is to be had, for every file `a` of bytes whose length n and 32 + n + n / 6 are below 10 MiB
  -- and the limits of the decoder, and whose margin the input buffer has, and other writable names `b` and
  -- `e`: `cl_tester a b` and then `cl_tester -d b e` both exit with 0, and then `e` holds what `a` held.
  pub main-main :
      (t1 t2 : Option ℕ) (a b e : ℕ) (content : List ℕ) (s : System)
      → ((k n : ℕ) → malloc k n ≡ true)
      → ((n : ℕ) → length (fill n) ≡ n)
      → ((n : ℕ) → All (λ b. b < 256) (fill n))
      → All (λ b. b < 256) content
      → length content + c.margin ≤ max_input_size
      → 32 + length content + length content / 6 < max_input_size
      → 32 + length content + length content / 6 < d.src_limit
      → length content < d.dst_limit
      → s.files a ≡ some content
      → s.writable b ≡ true
      → s.writable e ≡ true
      → a ≢ b
      → b ≢ e
      → (s' : System) × (s'' : System) × (main t1 t2 [] (a ∷ b ∷ []) s ≡ some (0, s'))
        × (main t1 t2 (to_decompress ∷ []) (b ∷ e ∷ []) s' ≡ some (0, s''))
        × (s''.files e ≡ some content)
  unfolding main get_options set_option
  main-main t1 t2 a b e content s there full fresh bytes readable small short low here wb we ab be =
      let (q, eq, r, (q', eq', w', r')) =
        do_decompress-do_compress d malloc fill there full c content started started fresh bytes
          readable small short low refl in
      let s' : System = put_file (put_file s b []) b q.written in
      (
        s',
        put_file (put_file s' e []) e q'.written,
        convert_files_lem false a b 0 content q s here wb ab eq,
        convert_files_lem true b e 0 q.written q' s' (written-file (put_file s b []) b q.written) we
            be eq',
        written-file (put_file s' e []) e q'.written ∙ ap (λ (t : List ℕ). some t) w',
      )
