-- ===== src/Pages/Writing.antt =====
-- What `do_compress` of block_compressor.c writes: the file of the chunks of its pages.
use csnappy.Common.{
  ℕ, zero, suc, ◌+◌, ◌-◌, ◌*◌, ◌/◌, ◌^◌, ◌≤◌, ◌<◌, ◌≡◌, arith, refl, sym, ap, ◌∙◌, List, [], ◌∷◌,
  ◌++◌, append_assoc, append-nil, length, length-append, length-take, length-drop, length-replicate,
  take, drop, replicate, take-append-drop, le→ltb,
}
use csnappy.Pages.{
  Codec, returns, Counts, no_counts, int_bytes, count_page, chunk_of, write_file, compress_pages,
  do_compress,
}
use csnappy.Pages.Layout.{
  table, contents, image, cut, length-int_bytes, write_file_part, write_file_end, write_file_past,
}

no_bytes : (xs : List ℕ) → length xs ≡ 0 → xs ≡ []
no_bytes [] h = refl
no_bytes (x ∷ xs) h = absurd (omega arith)

-- The file before the first page: the count, and room for the table.
opened_file :
    (n : ℕ)
    → (gap : List ℕ) × (length gap ≡ 4 * n)
      × (write_file (write_file [] 0 (int_bytes n)) (n * 4) (int_bytes n)
          ≡ int_bytes n ++ (gap ++ []))
opened_file zero =
    let size = int_bytes 0 in
    (
      [],
      refl,
      ap (λ (t : List ℕ). write_file t 0 size) (write_file_end [] size 0 refl)
          ∙ ap (λ (t : List ℕ). write_file t 0 size) (sym (append-nil size))
          ∙ write_file_part [] size size [] 0 refl refl,
    )
opened_file (suc k) =
    let size = int_bytes (suc k) in
    let past : suc k * 4 ≡ length size + 4 * k = omega (arith, length-int_bytes (suc k)) in
    (
      replicate (4 * k) 0 ++ size,
      omega (
        arith,
        length-append (replicate (4 * k) 0) size,
        length-replicate {A = ℕ} (4 * k) 0,
        length-int_bytes (suc k),
      ),
      ap (λ (t : List ℕ). write_file t (suc k * 4) size) (write_file_end [] size 0 refl)
          ∙ ap (λ (t : ℕ). write_file size t size) past
          ∙ write_file_past size size (4 * k)
          ∙ ap (λ (t : List ℕ). size ++ t) (sym (append-nil (replicate (4 * k) 0 ++ size))),
    )

module _ (codec : Codec) (page_size : ℕ) where
  -- Which chunk stands for a page, and which chunks for pages.
  pub record IsStored (page chunk : List ℕ) : Type 0 where
    pub out : List ℕ
    pub compressed : codec.compress page (2 * page_size) ≡ returns out
    pub chosen : chunk ≡ chunk_of codec page_size page out

  abbrev pub AreStored : List (List ℕ) → List (List ℕ) → Type 0
  AreStored [] [] = Unit
  AreStored [] (c ∷ cs) = ⊥
  AreStored (p ∷ ps) [] = ⊥
  AreStored (p ∷ ps) (c ∷ cs) = IsStored p c × AreStored ps cs

  -- One round: the size goes into the next place of the table, the chunk to the end of the file.
  round :
      (front gap data_part chunk : List ℕ) (i : ℕ)
      → length front ≡ (i + 1) * 4
      → 4 ≤ length gap
      → let file =
          write_file (front ++ (gap ++ data_part)) ((i + 1) * 4) (int_bytes (length chunk)) in
        write_file file (length file) chunk
        ≡ (front ++ int_bytes (length chunk)) ++ (drop 4 gap ++ (data_part ++ chunk))
  round front gap data_part chunk i e room =
      let size : List ℕ = int_bytes (length chunk) in
      let split : gap ++ data_part ≡ take 4 gap ++ (drop 4 gap ++ data_part) =
        sym (ap (λ (t : List ℕ). t ++ data_part) (take-append-drop 4 gap))
        ∙ append_assoc (take 4 gap) (drop 4 gap) data_part in
      let entry : write_file (front ++ (gap ++ data_part)) ((i + 1) * 4) size
          ≡ front ++ (size ++ (drop 4 gap ++ data_part)) =
        ap (λ (t : List ℕ). write_file (front ++ t) ((i + 1) * 4) size) split
        ∙ write_file_part front (take 4 gap) size (drop 4 gap ++ data_part) ((i + 1) * 4) e
            (omega (arith, length-take 4 gap, length-int_bytes (length chunk))) in
      write_file_end _ chunk _ refl ∙ ap (λ (t : List ℕ). t ++ chunk) entry ∙ simp append_assoc refl

  pub compress_pages-image :
      (rounds : ℕ) (input front gap data_part : List ℕ) (i : ℕ) (counts : Counts)
      (chunks : List (List ℕ))
      → length front ≡ (i + 1) * 4
      → length gap ≡ 4 * rounds
      → AreStored (cut page_size rounds input) chunks
      → (counts' : Counts) × (compress_pages codec page_size rounds input
            (front ++ (gap ++ data_part))
            i
            counts
          ≡ returns (front ++ (table chunks ++ (data_part ++ contents chunks)), counts'))
  unfolding compress_pages
  compress_pages-image zero input front gap data_part i counts [] e g s = (
    counts,
    ap (λ (t : List ℕ). returns (t, counts))
        (ap (λ (t : List ℕ). front ++ (t ++ data_part)) (no_bytes gap (omega arith))
          ∙ ap (λ (t : List ℕ). front ++ t) (sym (append-nil data_part))),
  )
  compress_pages-image zero input front gap data_part i counts (c ∷ cs) e g s = absurd s
  compress_pages-image (suc rounds) input front gap data_part i counts [] e g s = absurd s
  compress_pages-image (suc rounds) input front gap data_part i counts (c ∷ cs) e g s =
      let page : List ℕ = take page_size input in
      let size : List ℕ = int_bytes (length c) in
      let counted : Counts = count_page page_size (length page) (length s.0.out) counts in
      let (counts', again) =
        compress_pages-image rounds (drop page_size input) (front ++ size) (drop 4 gap)
          (data_part ++ c) (i + 1) counted cs
          (omega (arith, length-append front size, length-int_bytes (length c)))
          (omega (arith, length-drop 4 gap)) s.1 in
      let joined : (front ++ size) ++ (table cs ++ ((data_part ++ c) ++ contents cs))
          ≡ front ++ ((size ++ table cs) ++ (data_part ++ (c ++ contents cs))) =
        simp append_assoc refl in
      let first : compress_pages codec page_size (suc rounds) input (front ++ (gap ++ data_part)) i
            counts
          ≡ compress_pages codec page_size rounds (drop page_size input)
              ((front ++ size) ++ (drop 4 gap ++ (data_part ++ c))) (i + 1) counted =
        rw (s.0.compressed, ← s.0.chosen, round front gap data_part c i e (omega arith)) refl in
      (counts', first ∙ again ∙ ap (λ (t : List ℕ). returns (t, counts')) joined)

  -- If the number of pages is below 2^32 and every page has a chunk, the file of block_compressor is the
  -- image of the chunks.
  pub do_compress-image :
      (input : List ℕ) (chunks : List (List ℕ)) (n : ℕ)
      → (length input + page_size - 1) / page_size ≡ n
      → n < 2 ^ 32
      → AreStored (cut page_size n input) chunks
      → length chunks ≡ n
      → (counts : Counts) × (do_compress codec page_size input ≡ returns (image chunks, counts))
  unfolding do_compress
  do_compress-image input chunks n pages few s count =
      let (gap, g, opened) = opened_file n in
      let (counts, e) =
        compress_pages-image n input (int_bytes n) gap [] 0 no_counts chunks
          (omega (arith, length-int_bytes n)) g s in
      (
        counts,
        rw (pages, le→ltb (2 ^ 32 - 1) n (omega arith), opened) e
            ∙ ap (λ (t : ℕ). returns (int_bytes t ++ (table chunks ++ contents chunks), counts))
                (sym count),
      )
