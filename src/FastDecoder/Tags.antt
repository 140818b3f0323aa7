-- ===== src/FastDecoder/Tags.antt =====
-- What the entries of the table say of the tags of copies, in the terms of the format.
use csnappy.Common.{
  ℕ, ◌+◌, ◌*◌, ◌/◌, ◌%◌, ◌^◌, ◌≤◌, ◌<◌, ◌≡◌, arith, refl, List, ◌∷◌, every, every-below, Bool, true,
  ◌&&◌, ◌||◌, false, leb, ◌==◌, bit_and, if◌then◌else◌,
}
use csnappy.Format.{element, copy_element}
use csnappy.CharTable.{entry}

-- Length, high part of the offset and number of bytes that follow, of a tag that is not a literal's.
abbrev pub copy_length : ℕ → ℕ
copy_length tag = if tag % 4 == 1 then tag / 4 % 8 + 4 else tag / 4 + 1

abbrev pub copy_high : ℕ → ℕ
copy_high tag = if tag % 4 == 1 then tag / 32 else 0

abbrev pub copy_extra : ℕ → ℕ
copy_extra tag = if tag % 4 == 1 then 1 else if tag % 4 == 2 then 2 else 4

pub element-copy :
    (tag : ℕ) (src : List ℕ)
    → (tag % 4 == 0) ≡ false
    → element (tag ∷ src) ≡ copy_element (copy_length tag) (copy_high tag) (copy_extra tag) src
unfolding element
element-copy tag src e = ground arith

-- The entry of such a tag.
pub record Spelled (tag : ℕ) : Type 0 where
  pub len : bit_and (entry tag) 0xff ≡ copy_length tag
  pub high : bit_and (entry tag) 0x700 ≡ copy_high tag * 256
  pub extra : entry tag / 2 ^ 11 ≡ copy_extra tag
  pub some_len : 1 ≤ copy_length tag
  pub short : copy_length tag ≤ 64
  pub few : copy_extra tag ≤ 4
  pub word : copy_high tag * 256 + 256 ^ copy_extra tag ≤ 2 ^ 32

spelled : ℕ → Bool
unfolding entry
spelled tag =
    tag % 4 == 0
    || ((bit_and (entry tag) 0xff == copy_length tag)
        && ((bit_and (entry tag) 0x700 == copy_high tag * 256)
            && ((entry tag / 2 ^ 11 == copy_extra tag)
                && (leb 1 (copy_length tag)
                    && (leb (copy_length tag) 64
                        && (leb (copy_extra tag) 4
                            && leb (copy_high tag * 256 + 256 ^ copy_extra tag) (2 ^ 32)))))))

all_spelled : every spelled 256 ≡ true
unfolding spelled
all_spelled = refl

pub entry-Spelled : (tag : ℕ) → tag < 256 → (tag % 4 == 0) ≡ false → Spelled tag
unfolding spelled
entry-Spelled tag h e =
    let t : spelled tag ≡ true = every-below spelled 256 tag all_spelled h in
    record {
      len = ground (arith, t);
      high = ground (arith, t);
      extra = ground (arith, t);
      some_len = ground (arith, t);
      short = ground (arith, t);
      few = ground (arith, t);
      word = ground (arith, t);
    }
