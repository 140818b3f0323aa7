-- ===== src/Pages/Layout.antt =====
-- Reads and writes inside a file whose parts are known.
use csnappy.Common.{
  ℕ, zero, suc, ◌+◌, ◌-◌, ◌*◌, ◌^◌, ◌<◌, ◌≡◌, arith, refl, sym, ap, ◌∙◌, List, [], ◌∷◌, ◌++◌,
  append_assoc, append-nil, length, length-append, length-replicate, take, take_all,
  take-append-slice, drop, drop_all, drop_front, drop-drop, replicate, leb, le→leb, true,
}
use csnappy.Common.Memory.{take_front, take_both}
use csnappy.Words.{le_value}
use csnappy.Pages.{returns, int_bytes, write_file, read_file}

pub le_value-int_bytes : (i : ℕ) → i < 2 ^ 32 → le_value (int_bytes i) ≡ i
unfolding le_value int_bytes
le_value-int_bytes i h = omega arith

pub length-int_bytes : (i : ℕ) → length (int_bytes i) ≡ 4
unfolding int_bytes
length-int_bytes i = refl

-- A part that stands behind `front`.
pub read_file_part :
    (front bytes rest : List ℕ) (pos n : ℕ)
    → length front ≡ pos
    → length bytes ≡ n
    → read_file (front ++ (bytes ++ rest)) pos n ≡ returns bytes
unfolding read_file
read_file_part front bytes rest pos n e f =
    let room : leb n (length (front ++ (bytes ++ rest)) - pos) ≡ true =
      le→leb n _ (omega (arith, length-append front (bytes ++ rest), length-append bytes rest)) in
    let there : drop pos (front ++ (bytes ++ rest)) ≡ bytes ++ rest =
      ap (λ (t : ℕ). drop t (front ++ (bytes ++ rest))) (sym e)
      ∙ drop_front front (bytes ++ rest) in
    let found : take n (bytes ++ rest) ≡ bytes =
      take_front n bytes rest (omega arith) ∙ take_all n bytes (omega arith) in
    rw (room, there, found) refl

-- A part behind `front` is replaced by one of its length.
pub write_file_part :
    (front old new rest : List ℕ) (pos : ℕ)
    → length front ≡ pos
    → length old ≡ length new
    → write_file (front ++ (old ++ rest)) pos new ≡ front ++ (new ++ rest)
unfolding write_file
write_file_part front old new rest pos e same =
    let file : List ℕ = front ++ (old ++ rest) in
    let none_missing : pos - length file ≡ 0 = omega (arith, length-append front (old ++ rest)) in
    let before : take pos (file ++ replicate (pos - length file) 0) ≡ front =
      ap (λ (t : ℕ). take pos (file ++ replicate t 0)) none_missing
      ∙ ap (take pos) (append-nil file)
      ∙ take_front pos front (old ++ rest) (omega arith)
      ∙ take_all pos front (omega arith) in
    let behind : drop (pos + length new) file ≡ rest =
      sym (drop-drop (length new) pos file)
      ∙ ap (λ (t : ℕ). drop (length new) (drop t file)) (sym e)
      ∙ ap (drop (length new)) (drop_front front (old ++ rest))
      ∙ ap (λ (t : ℕ). drop t (old ++ rest)) (sym same)
      ∙ drop_front old rest in
    rw (before, behind) refl

-- A write at the end appends.
pub write_file_end :
    (file bytes : List ℕ) (pos : ℕ) → length file ≡ pos → write_file file pos bytes ≡ file ++ bytes
unfolding write_file
write_file_end file bytes pos e =
    let none_missing : pos - length file ≡ 0 = omega arith in
    let before : take pos (file ++ replicate (pos - length file) 0) ≡ file =
      ap (λ (t : ℕ). take pos (file ++ replicate t 0)) none_missing
      ∙ ap (take pos) (append-nil file)
      ∙ take_all pos file (omega arith) in
    let behind : drop (pos + length bytes) file ≡ [] =
      drop_all (pos + length bytes) file (omega arith) in
    rw (before, behind) (ap (λ (t : List ℕ). file ++ t) (append-nil bytes))

-- A write past the end: what lies between is zeros.
pub write_file_past :
    (file bytes : List ℕ) (gap : ℕ)
    → write_file file (length file + gap) bytes ≡ file ++ (replicate gap 0 ++ bytes)
unfolding write_file
write_file_past file bytes gap =
    let missing : length file + gap - length file ≡ gap = omega arith in
    let before : take (length file + gap) (file ++ replicate (length file + gap - length file) 0)
        ≡ file ++ replicate gap 0 =
      ap (λ (t : ℕ). take (length file + gap) (file ++ replicate t 0)) missing
      ∙ take_both gap file (replicate gap 0)
      ∙ ap (λ (t : List ℕ). file ++ t)
          (take_all gap (replicate gap 0) (omega (arith, length-replicate {A = ℕ} gap 0))) in
    let behind : drop (length file + gap + length bytes) file ≡ [] =
      drop_all (length file + gap + length bytes) file (omega arith) in
    rw (before, behind)
      (ap (λ (t : List ℕ). (file ++ replicate gap 0) ++ t) (append-nil bytes)
        ∙ append_assoc file (replicate gap 0) bytes)

-- What a file of these chunks is: the count, the table of sizes, and the data.
abbrev pub table : List (List ℕ) → List ℕ
table [] = []
table (c ∷ cs) = int_bytes (length c) ++ table cs

abbrev pub contents : List (List ℕ) → List ℕ
contents [] = []
contents (c ∷ cs) = c ++ contents cs

abbrev pub image : List (List ℕ) → List ℕ
image cs = int_bytes (length cs) ++ (table cs ++ contents cs)

pub length-table : (cs : List (List ℕ)) → length (table cs) ≡ 4 * length cs
length-table [] = refl
length-table (c ∷ cs) = omega (
  arith,
  length-append (int_bytes (length c)) (table cs),
  length-int_bytes (length c),
  length-table cs,
)

-- The pages of an input.
abbrev pub cut : ℕ → ℕ → List ℕ → List (List ℕ)
cut page_size zero input = []
cut page_size (suc n) input = take page_size input ∷ cut page_size n (drop page_size input)

pub length-cut : (page_size n : ℕ) (input : List ℕ) → length (cut page_size n input) ≡ n
length-cut page_size zero input = refl
length-cut page_size (suc n) input = ap suc (length-cut page_size n (drop page_size input))

pub contents-cut :
    (page_size n : ℕ) (input : List ℕ)
    → contents (cut page_size n input) ≡ take (n * page_size) input
contents-cut page_size zero input =
    let e : 0 ≡ 0 * page_size = omega arith in ap (λ (t : ℕ). take t input) e
contents-cut page_size (suc n) input =
    let e : page_size + n * page_size ≡ suc n * page_size = grind arith in
    ap (λ (t : List ℕ). take page_size input ++ t) (contents-cut page_size n (drop page_size input))
    ∙ take-append-slice page_size (n * page_size) input
    ∙ ap (λ (t : ℕ). take t input) e
