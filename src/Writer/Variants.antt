-- ===== src/Writer/Variants.antt =====
-- The variants of `UnalignedCopy64` for other machines.
use csnappy.Common.{
  ℕ, zero, suc, ◌+◌, ◌≤◌, ◌≡◌, arith, refl, sym, ap, ◌∙◌, List, [], ◌∷◌, ◌++◌, append_assoc, length,
  length-append, length-take, take, take_all, take-drop-take, take-append-slice, take-append-drop,
  drop, drop-drop,
}
use mathlib.Core.Path.{ap₂}
use csnappy.Common.Memory.{write_at, store_lem, length-write_at, take-write_at, take-write_at_end}
use csnappy.Common.Outcome.{ok}
use csnappy.Words.{part}
use csnappy.Words.Loads.{slice_lem, length-part}
use csnappy.Writer.{copy_bytes, unaligned_copy64, copy64_halves, copy64_bytes}
use csnappy.Writer.Rounds.{unaligned_copy64_lem, copy_byte_lem}

part-write_at :
    (memory chunk : List ℕ) (at s n : ℕ)
    → s + n ≤ at
    → at ≤ length memory
    → part (write_at memory at chunk) s n ≡ part memory s n
part-write_at memory chunk at s n h le =
    sym (take-drop-take n s at (write_at memory at chunk) (omega arith))
    ∙ ap (λ (t : List ℕ). take n (drop s t)) (take-write_at memory at at chunk (omega arith) le)
    ∙ take-drop-take n s at memory (omega arith)

drop_both : (xs ys : List ℕ) (n : ℕ) → drop (length xs + n) (xs ++ ys) ≡ drop n ys
drop_both [] ys n = let e : 0 + n ≡ n = omega arith in ap (λ (t : ℕ). drop t ys) e
drop_both (x ∷ xs) ys n =
    let e : suc (length xs) + n ≡ suc (length xs + n) = omega arith in
    ap (λ (t : ℕ). drop t (x ∷ (xs ++ ys))) e ∙ drop_both xs ys n

-- Two blocks, one behind the other, are one.
write_at-write_at :
    (memory a b : List ℕ) (at next : ℕ)
    → at + length a ≡ next
    → at ≤ length memory
    → write_at (write_at memory at a) next b ≡ write_at memory at (a ++ b)
write_at-write_at memory a b at next e le =
    ap₂ (λ (s t : List ℕ). s ++ (b ++ t)) front behind
    ∙ append_assoc (take at memory) a _
    ∙ ap (λ (t : List ℕ). take at memory ++ t) (sym (append_assoc a b _))
  where
    front : take next (write_at memory at a) ≡ take at memory ++ a
    front =
        ap (λ (t : ℕ). take t (write_at memory at a)) (sym e)
        ∙ take-write_at_end memory at (length a) a le (omega arith)
        ∙ ap (λ (t : List ℕ). take at memory ++ t) (take_all (length a) a (omega arith))

    behind : drop (next + length b) (write_at memory at a) ≡ drop (at + length (a ++ b)) memory
    behind =
        let n : next + length b ≡ length (take at memory) + (length a + length b) =
          omega (arith, length-take at memory) in
        let m : at + length a + length b ≡ at + length (a ++ b) =
          omega (arith, length-append a b) in
        ap (λ (t : ℕ). drop t (write_at memory at a)) n
        ∙ drop_both (take at memory) (a ++ drop (at + length a) memory) (length a + length b)
        ∙ drop_both a (drop (at + length a) memory) (length b)
        ∙ drop-drop (length b) (at + length a) memory
        ∙ ap (λ (t : ℕ). drop t memory) m

part-append :
    (memory : List ℕ) (src a b c : ℕ)
    → a + b ≡ c
    → part memory src a ++ part memory (src + a) b ≡ part memory src c
part-append memory src a b c e =
    ap (λ (t : List ℕ). part memory src a ++ take b t) (sym (drop-drop a src memory))
    ∙ take-append-slice a b (drop src memory)
    ∙ ap (λ (t : ℕ). take t (drop src memory)) e

-- Blocks that do not overlap are copied by bytes as at once.
copy_bytes-write_at :
    (n src dst : ℕ) (memory : List ℕ)
    → src + n ≤ dst
    → dst + n ≤ length memory
    → copy_bytes n memory src dst ≡ ok (write_at memory dst (part memory src n))
unfolding copy_bytes
copy_bytes-write_at zero src dst memory h fits =
    let none : dst + 0 ≡ dst = omega arith in
    ap (λ (t : List ℕ). ok t)
      (sym (take-append-drop dst memory)
        ∙ ap (λ (t : ℕ). take dst memory ++ drop t memory) (sym none))
copy_bytes-write_at (suc n) src dst memory h fits =
    let one : List ℕ = part memory src 1 in
    let l : length one ≡ 1 = length-part memory src 1 (omega arith) in
    let m : List ℕ = write_at memory dst one in
    let same : length m ≡ length memory = length-write_at memory dst one (omega (arith, l)) in
    rw (copy_byte_lem memory src dst (omega arith) (omega arith)) (
      copy_bytes-write_at n (src + 1) (dst + 1) m (omega arith) (omega (arith, same))
      ∙ ap (λ (t : List ℕ). ok (write_at m (dst + 1) t))
          (part-write_at memory one dst (src + 1) n (omega arith) (omega arith))
      ∙ ap (λ (t : List ℕ). ok t)
          (write_at-write_at memory one (part memory (src + 1) n) dst (dst + 1) (omega (arith, l))
              (omega arith)
            ∙ ap (write_at memory dst) (part-append memory src 1 n (suc n) (omega arith))))

-- For a block of eight bytes that ends at or before its target, all inside the buffer, the three
-- variants of `UnalignedCopy64` do the same.
pub copy64-unaligned_copy64 :
    (memory : List ℕ) (src dst : ℕ)
    → src + 8 ≤ dst
    → dst + 8 ≤ length memory
    → (copy64_halves memory src dst ≡ unaligned_copy64 memory src dst)
      × (copy64_bytes memory src dst ≡ unaligned_copy64 memory src dst)
unfolding copy64_halves copy64_bytes
copy64-unaligned_copy64 memory src dst h fits = (
  rw
      (
        slice_lem memory src 4 (omega arith),
        store_lem memory dst low (omega (arith, l)),
        slice_lem m (src + 4) 4 (omega (arith, same)),
        part-write_at memory low dst (src + 4) 4 (omega arith) (omega arith),
        store_lem m (dst + 4) high (omega (arith, k, same)),
      )
      (ap (λ (t : List ℕ). ok t)
          (write_at-write_at memory low high dst (dst + 4) (omega (arith, l)) (omega arith)
            ∙ ap (write_at memory dst) (part-append memory src 4 4 8 refl))
        ∙ sym (unaligned_copy64_lem memory src dst (omega arith) fits)),
  copy_bytes-write_at 8 src dst memory h fits
      ∙ sym (unaligned_copy64_lem memory src dst (omega arith) fits),
)
  where
    low : List ℕ
    low = part memory src 4

    high : List ℕ
    high = part memory (src + 4) 4

    m : List ℕ
    m = write_at memory dst (part memory src 4)

    l : length (part memory src 4) ≡ 4
    l = length-part memory src 4 (omega arith)

    k : length (part memory (src + 4) 4) ≡ 4
    k = length-part memory (src + 4) 4 (omega arith)

    same : length (write_at memory dst (part memory src 4)) ≡ length memory
    same = length-write_at memory dst (part memory src 4) (omega (arith, l))
