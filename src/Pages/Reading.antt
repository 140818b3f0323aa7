-- ===== src/Pages/Reading.antt =====
-- What `do_decompress` of block_compressor.c reads: the pages of the chunks, and what `do_compress`
-- wrote.
use csnappy.Common.{
  ℕ, suc, ◌+◌, ◌-◌, ◌*◌, ◌%◌, ◌^◌, ◌≤◌, ◌<◌, ◌≡◌, arith, refl, sym, ap, ◌∙◌, List, [], ◌∷◌, ◌++◌,
  append_assoc, append-nil, length, length-append, le→ltb, lt→ltb, ltb, true,
}
use csnappy.Words.{le_value}
use csnappy.Pages.{
  Codec, Run, returns, exits, fault, int_bytes, read_file, read_chunk, decompress_page,
  decompress_pages, do_decompress, ◌>>=◌,
}
use csnappy.Pages.Layout.{
  table, contents, image, length-table, length-int_bytes, le_value-int_bytes, read_file_part,
}

module _ (codec : Codec) (page_size : ℕ) (small : page_size < 2 ^ 31) where
  -- Which page a chunk is read as, and which pages chunks are.
  pub record IsRestored (page chunk : List ℕ) : Type 0 where
    pub fits : length chunk ≤ 2 * page_size
    pub restored : decompress_page codec page_size chunk ≡ returns page

  abbrev pub AreRestored : List (List ℕ) → List (List ℕ) → Type 0
  AreRestored [] [] = Unit
  AreRestored [] (c ∷ cs) = ⊥
  AreRestored (p ∷ ps) [] = ⊥
  AreRestored (p ∷ ps) (c ∷ cs) = IsRestored p c × AreRestored ps cs

  read_chunk_part :
      (front chunk rest : List ℕ) (pos n : ℕ)
      → length front ≡ pos
      → length chunk ≡ n
      → n ≤ 2 * page_size
      → read_chunk codec page_size (front ++ (chunk ++ rest)) pos n ≡ returns chunk
  unfolding read_chunk
  read_chunk_part front chunk rest pos n e f le =
      rw (le→ltb (2 * page_size) n le) (read_file_part front chunk rest pos n e f)

  nothing_left :
      (file : List ℕ) (i ipos : ℕ) (written : List ℕ)
      → decompress_pages codec page_size 0 file i ipos written ≡ returns written
  unfolding decompress_pages
  nothing_left file i ipos written = refl

  -- A round, with the table from the size of the next chunk on, and the data from the chunk on.
  decompress_pages-round :
      (cs : List (List ℕ)) (c front data_part written : List ℕ) (i ipos rounds : ℕ)
      → length front ≡ (i + 1) * 4
      → ipos ≡ length front + length (table (c ∷ cs)) + length data_part
      → i + 1 < 2 ^ 32
      → length c ≤ 2 * page_size
      → let file = front ++ (table (c ∷ cs) ++ (data_part ++ contents (c ∷ cs))) in
        decompress_pages codec page_size (suc rounds) file i ipos written ≡ (
          decompress_page codec page_size c >>= λ page.
          decompress_pages codec page_size rounds file (i + 1) (ipos + length c) (written ++ page))
  unfolding decompress_pages
  decompress_pages-round cs c front data_part written i ipos rounds e at few fits =
      let size : List ℕ = int_bytes (length c) in
      let file : List ℕ = front ++ ((size ++ table cs) ++ (data_part ++ (c ++ contents cs))) in
      let entry : file ≡ front ++ (size ++ (table cs ++ (data_part ++ (c ++ contents cs)))) =
        simp append_assoc refl in
      let block : file ≡ (front ++ ((size ++ table cs) ++ data_part)) ++ (c ++ contents cs) =
        simp append_assoc refl in
      let place : (i + 1) % 2 ^ 32 * 4 ≡ (i + 1) * 4 = omega arith in
      let sizes : read_file file ((i + 1) % 2 ^ 32 * 4) 4 ≡ returns size =
        ap (λ (t : ℕ). read_file file t 4) place
        ∙ ap (λ (t : List ℕ). read_file t ((i + 1) * 4) 4) entry
        ∙ read_file_part front size _ ((i + 1) * 4) 4 e (length-int_bytes (length c)) in
      let ilen : le_value size ≡ length c = le_value-int_bytes (length c) (omega arith) in
      let chunk : read_chunk codec page_size file ipos (length c) ≡ returns c =
        ap (λ (t : List ℕ). read_chunk codec page_size t ipos (length c)) block
        ∙ read_chunk_part _ c (contents cs) ipos (length c)
            (omega (
              arith,
              length-append front ((size ++ table cs) ++ data_part),
              length-append (size ++ table cs) data_part,
            ))
            refl fits in
      rw (sizes, ilen, chunk) refl

  decompress_pages-contents :
      (pages chunks : List (List ℕ)) (front data_part written : List ℕ) (i ipos : ℕ)
      → length front ≡ (i + 1) * 4
      → ipos ≡ length front + length (table chunks) + length data_part
      → i + length chunks < 2 ^ 32
      → AreRestored pages chunks
      → decompress_pages codec page_size
          (length chunks)
          (front ++ (table chunks ++ (data_part ++ contents chunks)))
          i
          ipos
          written
        ≡ returns (written ++ contents pages)
  decompress_pages-contents [] [] front data_part written i ipos e at few r =
      nothing_left _ i ipos written ∙ ap (λ (t : List ℕ). returns t) (sym (append-nil written))
  decompress_pages-contents [] (c ∷ cs) front data_part written i ipos e at few r = absurd r
  decompress_pages-contents (p ∷ ps) [] front data_part written i ipos e at few r = absurd r
  decompress_pages-contents (p ∷ ps) (c ∷ cs) front data_part written i ipos e at few r =
      let size : List ℕ = int_bytes (length c) in
      let file : List ℕ = front ++ ((size ++ table cs) ++ (data_part ++ (c ++ contents cs))) in
      let moved : file ≡ (front ++ size) ++ (table cs ++ ((data_part ++ c) ++ contents cs)) =
        simp append_assoc refl in
      let goes_on = λ (page : List ℕ).
        decompress_pages codec page_size (length cs) file (i + 1) (ipos + length c)
          (written ++ page) in
      decompress_pages-round cs c front data_part written i ipos (length cs) e at (omega arith)
        r.0.fits
      ∙ ap (λ (t : Run (List ℕ)). t >>= goes_on) r.0.restored
      ∙ ap
          (λ (t : List ℕ).
            decompress_pages codec page_size (length cs) t (i + 1) (ipos + length c) (written ++ p))
          moved
      ∙ decompress_pages-contents ps cs (front ++ size) (data_part ++ c) (written ++ p) (i + 1)
          (ipos + length c) (omega (arith, length-append front size, length-int_bytes (length c)))
          (omega (
            arith,
            length-append front size,
            length-append size (table cs),
            length-append data_part c,
          ))
          (omega arith) r.1
      ∙ ap (λ (t : List ℕ). returns t) (append_assoc written p (contents ps))

  -- The file of the chunks is read as their pages.
  pub do_decompress-image :
      (pages chunks : List (List ℕ))
      → length chunks < 2 ^ 32 - 1
      → AreRestored pages chunks
      → do_decompress codec page_size (image chunks) ≡ returns (contents pages)
  unfolding do_decompress
  do_decompress-image pages chunks few r =
      let size : List ℕ = int_bytes (length chunks) in
      let count : read_file (image chunks) 0 4 ≡ returns size =
        read_file_part [] size _ 0 4 refl (length-int_bytes (length chunks)) in
      let number : le_value size ≡ length chunks =
        le_value-int_bytes (length chunks) (omega arith) in
      rw (count, number)
        (decompress_pages-contents pages chunks size [] [] 0 ((length chunks + 1) % 2 ^ 32 * 4)
          (omega (arith, length-int_bytes (length chunks)))
          (omega (arith, length-int_bytes (length chunks), length-table chunks)) (omega arith) r)

  -- Of a file of one chunk, the chunk is read as a page, or decompressed.
  pub do_decompress-one :
      (chunk : List ℕ)
      → length chunk ≤ 2 * page_size
      → do_decompress codec page_size (image (chunk ∷ [])) ≡ decompress_page codec page_size chunk
  unfolding do_decompress
  do_decompress-one chunk fits =
      let size : List ℕ = int_bytes 1 in
      let count : read_file (image (chunk ∷ [])) 0 4 ≡ returns size =
        read_file_part [] size _ 0 4 refl (length-int_bytes 1) in
      let number : le_value size ≡ 1 = le_value-int_bytes 1 (omega arith) in
      rw (count, number)
        (decompress_pages-round [] chunk size [] [] 0 8 0 (length-int_bytes 1)
            (omega (arith, length-int_bytes 1, length-table (chunk ∷ []))) (omega arith) fits
          ∙ as_it_is (image (chunk ∷ [])) (8 + length chunk)
              (decompress_page codec page_size chunk))
    where
      as_it_is :
          (file : List ℕ) (ipos : ℕ) (r : Run (List ℕ))
          → (r >>= λ page. decompress_pages codec page_size 0 file (0 + 1) ipos ([] ++ page)) ≡ r
      as_it_is file ipos (returns page) = nothing_left file 1 ipos page
      as_it_is file ipos exits = refl
      as_it_is file ipos fault = refl

  -- For pages below 2^31 bytes, if a file of one chunk says that the chunk has more than two pages, a
  -- length below 2^32, and so many bytes stand there, `do_decompress` writes past its input buffer.
  pub do_decompress-fault :
      (chunk : List ℕ)
      → 2 * page_size < length chunk
      → length chunk < 2 ^ 32
      → do_decompress codec page_size (image (chunk ∷ [])) ≡ fault
  unfolding do_decompress decompress_pages read_chunk
  do_decompress-fault chunk long word =
      let front : List ℕ = int_bytes 1 in
      let size : List ℕ = int_bytes (length chunk) in
      let file : List ℕ = image (chunk ∷ []) in
      let count : read_file file 0 4 ≡ returns front =
        read_file_part [] front _ 0 4 refl (length-int_bytes 1) in
      let entry : file ≡ front ++ (size ++ (chunk ++ [])) = simp append_assoc refl in
      let sizes : read_file file 4 4 ≡ returns size =
        ap (λ (t : List ℕ). read_file t 4 4) entry
        ∙ read_file_part front size (chunk ++ []) 4 4 (length-int_bytes 1)
            (length-int_bytes (length chunk)) in
      let number : le_value front ≡ 1 = le_value-int_bytes 1 (omega arith) in
      let ilen : le_value size ≡ length chunk = le_value-int_bytes (length chunk) word in
      let over : ltb (2 * page_size) (length chunk) ≡ true = lt→ltb _ _ long in
      let there : ltb (2 * page_size) (length file - 8) ≡ true = lt→ltb _ _ (
        omega (
          arith,
          ap (length {A = ℕ}) entry,
          length-append front (size ++ (chunk ++ [])),
          length-append size (chunk ++ []),
          length-append chunk [],
          length-int_bytes 1,
          length-int_bytes (length chunk),
        )) in
      rw (count, number, sizes, ilen, over, there) refl
