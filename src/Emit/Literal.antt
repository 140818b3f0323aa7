-- ===== src/Emit/Literal.antt =====
-- What `EmitLiteral` writes is a literal element with the bytes it was given.
use csnappy.Common.{
  ℕ, ◌+◌, ◌-◌, ◌*◌, ◌/◌, ◌%◌, ◌^◌, ◌≤◌, ◌<◌, ◌≡◌, max, arith, refl, ap, ◌∙◌, List, [], ◌∷◌, ◌++◌,
  append_assoc, length, length-append, take, drop, All, take-take, Bool, true, some, ltb, leb,
  bit_or, if◌then◌else◌, Bool-cases, inl, inr, ◌&&◌,
}
use csnappy.Common.Bits.{zero-bit_or}
use csnappy.Format.{Element, literal, split_at, literal_of, literal_element, element}
use csnappy.Words.{part}
use csnappy.Words.Loads.{slice_lem, length-part, part-IsByte}
use csnappy.Emit.{Out, put, put_slice, put_sixteen, emit_literal}
use csnappy.Emit.Length.{length_bytes, length-length_bytes_pos, field-length_bytes}

-- What an emitter has done to the output: it appended a block of at most `size` bytes that spells
-- the element `e`, and wrote at most `slack` bytes past the new end.
pub record Emitted (e : Element) (size slack : ℕ) (out out' : Out) : Type 0 where
  pub chunk : List ℕ
  pub appended : out'.bytes ≡ out.bytes ++ chunk
  pub spells : element chunk ≡ some (e, [])
  pub are_bytes : All (λ b. b < 256) chunk
  pub small : length chunk ≤ size
  pub bounded : out'.reach ≤ max out.reach (length out'.bytes + slack)

-- A literal of `len` bytes with its tag and length.
unfoldable pub literal_size : ℕ → ℕ
literal_size len =
    if ltb len 61
    then len + 1
    else if ltb len 257
    then len + 2
    else if ltb len 65537
    then len + 3
    else len + 5

split_at_all : (bytes : List ℕ) → split_at (length bytes) bytes ≡ some (bytes, [])
unfolding split_at
split_at_all [] = refl
split_at_all (b ∷ bytes) = rw (split_at_all bytes)

pub short_spells :
    (n : ℕ) (bytes : List ℕ)
    → n < 60
    → length bytes ≡ n + 1
    → element ((n * 4) ∷ bytes) ≡ some (literal bytes, [])
unfolding element literal_element literal_of
short_spells n bytes h e =
    ground (arith, split_at_all bytes, ap (λ (t : ℕ). split_at t bytes) e, four)
  where
    four : n * 4 / 4 ≡ n
    four = omega arith

pub long_spells :
    (n : ℕ) (bytes : List ℕ)
    → 60 ≤ n
    → n < 2 ^ 31
    → length bytes ≡ n + 1
    → element (((59 + length (length_bytes 4 n)) * 4) ∷ (length_bytes 4 n ++ bytes))
      ≡ some (literal bytes, [])
unfolding element literal_element literal_of
long_spells n bytes h lt e = ground (
  arith,
  split_at_all bytes,
  ap (λ (t : ℕ). split_at t bytes) e,
  field-length_bytes 4 n bytes (omega arith),
  length-length_bytes_pos 3 n (omega arith),
  tag,
  again,
)
  where
    tag : (59 + length (length_bytes 4 n)) * 4 / 4 ≡ 59 + length (length_bytes 4 n)
    tag = omega arith

    again : 59 + length (length_bytes 4 n) - 59 ≡ length (length_bytes 4 n)
    again = omega arith

-- Up to 60 bytes: the length stands in the tag.
module _ (input : List ℕ) (out : Out) (pos len : ℕ) (pos_len : 1 ≤ len) (short : len ≤ 60)
    (fits : pos + len ≤ length input) (bytes : All (λ b. b < 256) input) where
  abbrev short_end : ℕ → Out
  short_end n = record {
    bytes = (out.bytes ++ (((len - 1) * 4) ∷ [])) ++ part input pos len;
    reach = max (max out.reach (length out.bytes + 1)) (length out.bytes + 1 + n);
  }

  short_Emitted :
      (n : ℕ)
      → len ≤ n
      → n ≤ len + 15
      → Emitted (literal (part input pos len)) (len + 1) 15 out (short_end n)
  short_Emitted n lo hi = record {
    chunk = ((len - 1) * 4) ∷ part input pos len;
    appended = append_assoc out.bytes (((len - 1) * 4) ∷ []) (part input pos len);
    spells =
        short_spells (len - 1) (part input pos len) (omega arith)
          (omega (arith, length-part input pos len fits));
    are_bytes = (omega arith, part-IsByte input pos len bytes);
    small = omega (arith, length-part input pos len fits);
    bounded = omega (
      arith,
      length-append (out.bytes ++ (((len - 1) * 4) ∷ [])) (part input pos len),
      length-append out.bytes (((len - 1) * 4) ∷ []),
      length-part input pos len fits,
    );
  }

  tag_byte : bit_or 0 ((len - 1) * 2 ^ 2) % 256 ≡ (len - 1) * 4
  tag_byte = ap (λ (t : ℕ). t % 256) (zero-bit_or ((len - 1) * 2 ^ 2)) ∙ omega arith

  block_part : len ≤ 16 → take len (part input pos 16) ≡ part input pos len
  block_part h = take-take len 16 (drop pos input) h

  put_sixteen_lem :
      len ≤ 16
      → pos + 16 ≤ length input
      → put_sixteen input (put out (bit_or 0 ((len - 1) * 2 ^ 2))) pos len ≡ some (short_end 16)
  unfolding put_sixteen put
  put_sixteen_lem h room = rw (slice_lem input pos 16 room, block_part h, tag_byte, length-append)

  put_slice_lem :
      put_slice input (put out (bit_or 0 ((len - 1) * 2 ^ 2))) pos len ≡ some (short_end len)
  unfolding put_slice put
  put_slice_lem = rw (slice_lem input pos len fits, tag_byte, length-append)

  -- The branch for a length that fits the tag, on the fast path and off it.
  pub emit_short :
      (fast : Bool)
      → (fast ≡ true → pos + 16 ≤ length input)
      → (out' : Out) × (emit_literal input out pos len fast ≡ some out')
        × Emitted (literal (part input pos len)) (len + 1) 15 out out'
  unfolding emit_literal
  emit_short fast room = elim (Bool-cases (fast && leb len 16)) [
    | inl go ↦ (
      short_end 16,
      rw (in_tag, go) (put_sixteen_lem (fast_len go) (room (fast_on fast go))),
      short_Emitted 16 (omega (arith, fast_len go)) (omega arith),
    )
    | inr slow ↦ (
      short_end len,
      rw (in_tag, slow) put_slice_lem,
      short_Emitted len (omega arith) (omega arith),
    )
  ]
    where
      in_tag : ltb (len - 1) 60 ≡ true
      in_tag = ground arith

      fast_len : (fast && leb len 16) ≡ true → len ≤ 16
      fast_len go = ground arith

      fast_on : (b : Bool) → (b && leb len 16) ≡ true → b ≡ true
      fast_on b go = ground arith
