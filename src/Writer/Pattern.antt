-- ===== src/Writer/Pattern.antt =====
-- Copies within the output spread the `offset` bytes in front of it: how far they have come.
use csnappy.Common.{
  ℕ, ◌+◌, ◌-◌, ◌*◌, ◌%◌, ◌≤◌, ◌<◌, ◌≡◌, min, arith, refl, sym, ap, ◌∙◌, List, length, take, drop,
  get_elem?,
}
use native.Mathlib.Nat.{add-mul-mod_self_left, mod-eq_of_lt}
use native.Mathlib.Decide.{dec_lt}
use csnappy.Common.Memory.{
  write_at, length-write_at, take-write_at, get_elem?-write_before, get_elem?-write_inside,
  get_elem?-take, get_elem?-drop,
}
use csnappy.Words.{part}
use csnappy.Words.Loads.{length-part}

-- From `src` on, `n` bytes of `now` repeat the first `offset` ones of `before`, and the output in
-- front of `src + offset` is what it was.
pub record Filled (before : List ℕ) (src offset n : ℕ) (now : List ℕ) : Type 0 where
  pub same_length : length now ≡ length before
  pub front : take (src + offset) now ≡ take (src + offset) before
  pub repeats : (i : ℕ) → i < n → get_elem? now (src + i) ≡ get_elem? before (src + i % offset)

pub Filled-start : (before : List ℕ) (src offset : ℕ) → Filled before src offset offset before
Filled-start before src offset = record {
  same_length = refl;
  front = refl;
  repeats = λ i h. ap (λ (t : ℕ). get_elem? before (src + t)) (sym (mod-eq_of_lt h));
}

pub get_elem?-part :
    (buffer : List ℕ) (pos n i : ℕ)
    → i < n
    → get_elem? (part buffer pos n) i ≡ get_elem? buffer (pos + i)
get_elem?-part buffer pos n i h =
    get_elem?-take n i (drop pos buffer) h ∙ get_elem?-drop pos i buffer

-- Copying `width` bytes from `src + s` to the end of the part that is filled, at a distance that is a
-- multiple of `offset`.
pub Filled-copy :
    (before now : List ℕ) (src offset s q width : ℕ)
    → offset ≤ s + offset * q
    → Filled before src offset (s + offset * q) now
    → src + (s + offset * q) + width ≤ length before
    → Filled before src offset
        (s + offset * q + min width (offset * q))
        (write_at now (src + (s + offset * q)) (part now (src + s) width))
Filled-copy before now src offset s q width start f fits = record {
  same_length = length-write_at now _ chunk inside ∙ f.same_length;
  front =
      take-write_at now (src + offset) at chunk (omega arith) (omega (arith, f.same_length))
      ∙ f.front;
  repeats = λ i h. elim (dec_lt i (s + offset * q)) [
    | yes old ↦
        get_elem?-write_before now at (src + i) chunk (omega arith) (omega (arith, f.same_length))
        ∙ f.repeats i old
    | no new ↦
        (let j : ℕ = i - (s + offset * q) in
          let place : src + i ≡ at + j = omega arith in
          let residue : (s + j) % offset ≡ i % offset =
            sym (add-mul-mod_self_left (s + j) offset q)
            ∙ ap (λ (t : ℕ). t % offset) (omega arith) in
          ap (get_elem? (write_at now at chunk)) place
          ∙ get_elem?-write_inside now at j chunk (omega (arith, width_lem))
              (omega (arith, f.same_length))
          ∙ get_elem?-part now (src + s) width j (omega arith)
          ∙ ap (get_elem? now) (omega arith)
          ∙ f.repeats (s + j) (omega arith)
          ∙ ap (λ (t : ℕ). get_elem? before (src + t)) residue)
  ];
}
  where
    at : ℕ
    at = src + (s + offset * q)

    chunk : List ℕ
    chunk = part now (src + s) width

    width_lem : length (part now (src + s) width) ≡ width
    width_lem = length-part now (src + s) width (omega (arith, f.same_length))

    inside : src + (s + offset * q) + length (part now (src + s) width) ≤ length now
    inside = omega (arith, width_lem, f.same_length)
