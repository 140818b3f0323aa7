-- ===== src/FastDecoder/Copies.antt =====
-- The branch of a copy: the table and the masked load give the element that the format says.
use csnappy.Common.{
  ℕ, suc, ◌+◌, ◌*◌, ◌%◌, ◌^◌, ◌<◌, ◌≡◌, arith, refl, ◌∙◌, List, ◌∷◌, ◌++◌, length, drop, All-drop,
  some, inr, false, ◌==◌,
}
use csnappy.Format.{copy, copy_element}
use csnappy.Format.Parts.{field-append_given}
use csnappy.Words.{part, le_value}
use csnappy.Words.Loads.{length-part}
use csnappy.Words.Eight.{le_value-take-lt}
use csnappy.Words.Masked.{get_unaligned_le_lem}
use csnappy.CharTable.{char_table-entry}
use csnappy.Writer.{Writer}
use csnappy.Writer.Outputs.{Holds}
use csnappy.Writer.Backward.{append_from_self-Answers}
use csnappy.FastDecoder.{Reader, advance, decode_copy}
use csnappy.FastDecoder.Tags.{
  copy_length, copy_high, copy_extra, element-copy, Spelled, entry-Spelled,
}
use csnappy.FastDecoder.Refill.{Ready}
use csnappy.FastDecoder.Steps.{Spells, advance-advance, Stepped, Stepped-Answers}

copy_element_lem :
    (len high n : ℕ) (xs more : List ℕ)
    → length xs ≡ n
    → copy_element len high n (xs ++ more) ≡ some (copy (high * 256 + le_value xs) len, more)
unfolding copy_element
copy_element_lem len high n xs more e = rw (copy_element, ← e, field-append_given xs more) refl

module _ (room : ℕ) (out : List ℕ) (w : Writer) (h : Holds room out w) (small : room < 2 ^ 31)
    (r : Reader) (ready : Ready r) (tag : ℕ) (byte : tag < 256)
    (front : drop r.src r.memory ≡ tag ∷ drop (r.src + 1) r.memory)
    (kind : (tag % 4 == 0) ≡ false) where
  spelled : Spelled tag
  spelled = entry-Spelled tag byte kind

  operand : List ℕ
  operand = part r.memory (r.src + 1) (copy_extra tag)

  length-operand : length (part r.memory (r.src + 1) (copy_extra tag)) ≡ copy_extra tag
  length-operand =
      length-part r.memory (r.src + 1) (copy_extra tag) (omega (arith, spelled.few, ready.readable))

  offset : ℕ
  offset = copy_high tag * 256 + le_value (part r.memory (r.src + 1) (copy_extra tag))

  spells : Spells (drop r.src r.memory) (suc (copy_extra tag)) (
      copy
        (copy_high tag * 256 + le_value (part r.memory (r.src + 1) (copy_extra tag)))
        (copy_length tag))
  spells more = rw front (
      element-copy tag (part r.memory (r.src + 1) (copy_extra tag) ++ more) kind
      ∙ copy_element_lem (copy_length tag) (copy_high tag) (copy_extra tag)
          (part r.memory (r.src + 1) (copy_extra tag)) more length-operand)

  value_lt : le_value (part r.memory (r.src + 1) (copy_extra tag)) < 256 ^ copy_extra tag
  value_lt =
      le_value-take-lt (copy_extra tag) (drop (r.src + 1) r.memory)
        (All-drop _ (r.src + 1) r.memory ready.good.bytes)

  pub decode_copy-Stepped : Stepped room r out (decode_copy (advance r 1) w tag)
  unfolding decode_copy
  decode_copy-Stepped =
      let v : ℕ = le_value (part r.memory (r.src + 1) (copy_extra tag)) in
      let sum : (v + copy_high tag * 256) % 2 ^ 32 ≡ copy_high tag * 256 + v =
        omega (arith, value_lt, spelled.word) in
      rw
        (
          char_table-entry tag byte,
          spelled.extra,
          spelled.high,
          spelled.len,
          get_unaligned_le_lem r.memory (r.src + 1) (copy_extra tag) ready.good.bytes
              (omega (arith, ready.readable)) spelled.few,
          sum,
          advance-advance r 1 (copy_extra tag) (suc (copy_extra tag)) (omega arith),
        )
        (Stepped-Answers r room out (suc (copy_extra tag)) (omega arith)
          (inr (omega (arith, spelled.few))) spells _
          (append_from_self-Answers room out w h (copy_high tag * 256 + v) (copy_length tag)
            (omega (arith, value_lt, spelled.word)) (omega arith) spelled.some_len
            (omega (arith, spelled.short))))
