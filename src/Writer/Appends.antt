-- ===== src/Writer/Appends.antt =====
-- Appending bytes of the input: it is done, or refused for want of room.
use csnappy.Common.{
  ℕ, ◌+◌, ◌-◌, ◌≤◌, ◌<◌, ◌≡◌, arith, refl, sym, ap, ◌∙◌, List, ◌++◌, append_assoc, length,
  length-append, take, take-take, take_all, take-append-slice, drop, drop-drop, some, lt→ltb,
  le→ltb, lt→leb, le→leb, inl, inr,
}
use native.Mathlib.Decide.{dec_le}
use csnappy.Common.Memory.{write_at, take_both, store_lem, length-write_at}
use csnappy.Common.Outcome.{err, output_overrun}
use csnappy.Words.{part}
use csnappy.Words.Loads.{slice_lem, length-part}
use csnappy.Writer.{Writer, append, append_fast_path}
use csnappy.Writer.Outputs.{Holds, length-Holds, Holds-take, Holds-store, Answers}

module _ (room : ℕ) (out : List ℕ) (w : Writer) (h : Holds room out w) where
  full :
      (len : ℕ) (chunk : List ℕ)
      → length chunk ≡ len
      → room < w.op + len
      → room < length (out ++ chunk)
  full len chunk e lt = omega (arith, length-append out chunk, length-Holds h)

  pub append-full :
      (input : List ℕ) (ip len : ℕ) → room < w.op + len → append w input ip len ≡ err output_overrun
  unfolding append
  append-full input ip len lt =
      rw (lt→ltb (length w.buffer - w.op) len (omega (arith, h.roomy, h.within))) refl

  -- `SAW__Append` of bytes of the input: they are appended, or the room is not enough.
  pub append-Answers :
      (input : List ℕ) (ip len : ℕ)
      → ip + len ≤ length input
      → Answers room (some (out ++ part input ip len)) (append w input ip len)
  unfolding append
  append-Answers input ip len fits = elim (dec_le (w.op + len) room) [
    | yes there ↦
        (let chunk : List ℕ = part input ip len in
          let n : length chunk ≡ len = length-part input ip len fits in
          inl (
            omega (arith, length-append out chunk, length-Holds h, n),
            record { buffer = write_at w.buffer w.op chunk; op = w.op + len },
            rw
                (
                  le→ltb (length w.buffer - w.op) len (omega (arith, h.roomy)),
                  slice_lem input ip len fits,
                  store_lem w.buffer w.op chunk (omega (arith, n, h.roomy)),
                )
                refl,
            rw (take_whole len chunk n) at
                (Holds-store room out w h chunk len (omega (arith, n)) (omega (arith, n))),
          ))
    | no missing ↦ inr (
      full len (part input ip len) (length-part input ip len fits) (omega arith),
      append-full input ip len (omega arith),
    )
  ]
    where
      take_whole : (n : ℕ) (xs : List ℕ) → length xs ≡ n → take n xs ≡ xs
      take_whole n xs e = take_all n xs (omega arith)

  -- Sixteen bytes in two blocks, of which `len` count.
  Holds-sixteen :
      (input : List ℕ) (ip len : ℕ)
      → len ≤ 16
      → ip + 16 ≤ length input
      → w.op + 16 ≤ room
      → Holds room (out ++ part input ip len) (record {
        buffer =
            write_at (write_at w.buffer w.op (part input ip 8)) (w.op + 8) (part input (ip + 8) 8);
        op = w.op + len;
      })
  Holds-sixteen input ip len short fits roomy = rw sixteen at (
      Holds-take room (w.op + len) (omega arith) (
        Holds-store room (out ++ take 8 first) (record { buffer = middle; op = w.op + 8 })
          (Holds-store room out w h first 8 (omega (arith, n)) (omega (arith, n))) second 8
          (omega (arith, m)) (omega (arith, m))))
    where
      first : List ℕ
      first = part input ip 8

      second : List ℕ
      second = part input (ip + 8) 8

      middle : List ℕ
      middle = write_at w.buffer w.op (part input ip 8)

      n : length (part input ip 8) ≡ 8
      n = length-part input ip 8 (omega arith)

      m : length (part input (ip + 8) 8) ≡ 8
      m = length-part input (ip + 8) 8 (omega arith)

      joined : take 8 (part input ip 8) ++ take 8 (part input (ip + 8) 8) ≡ part input ip 16
      joined =
          ap (λ (t : List ℕ). t ++ take 8 (part input (ip + 8) 8))
            (take_all 8 (part input ip 8) (omega (arith, n)))
          ∙ ap (λ (t : List ℕ). part input ip 8 ++ t)
              (take_all 8 (part input (ip + 8) 8) (omega (arith, m))
                ∙ ap (take 8) (sym (drop-drop 8 ip input)))
          ∙ take-append-slice 8 8 (drop ip input)

      sixteen :
          take (w.op + len) ((out ++ take 8 (part input ip 8)) ++ take 8 (part input (ip + 8) 8))
          ≡ out ++ part input ip len
      sixteen =
          ap (take (w.op + len)) (append_assoc out _ _ ∙ ap (λ (t : List ℕ). out ++ t) joined)
          ∙ ap (λ (t : ℕ). take (t + len) (out ++ part input ip 16)) (sym (length-Holds h))
          ∙ take_both len out (part input ip 16)
          ∙ ap (λ (t : List ℕ). out ++ t) (take-take len 16 (drop ip input) short)

  pub append_fast_path-Answers :
      (input : List ℕ) (ip len : ℕ)
      → len ≤ 16
      → ip + 16 ≤ length input
      → Answers room (some (out ++ part input ip len)) (append_fast_path w input ip len)
  unfolding append_fast_path
  append_fast_path-Answers input ip len short fits = elim (dec_le 16 (room - w.op)) [
    | yes quick ↦
        (let first : List ℕ = part input ip 8 in
          let second : List ℕ = part input (ip + 8) 8 in
          let n : length first ≡ 8 = length-part input ip 8 (omega arith) in
          let m : length second ≡ 8 = length-part input (ip + 8) 8 (omega arith) in
          let middle : List ℕ = write_at w.buffer w.op first in
          let same : length middle ≡ length w.buffer =
            length-write_at w.buffer w.op first (omega (arith, n, h.roomy)) in
          inl (
            omega (
              arith,
              length-append out (part input ip len),
              length-Holds h,
              length-part input ip len (omega arith),
            ),
            record { buffer = write_at middle (w.op + 8) second; op = w.op + len },
            rw
                (
                  le→leb 16 (length w.buffer - w.op) (omega (arith, h.roomy)),
                  slice_lem input ip 8 (omega arith),
                  store_lem w.buffer w.op first (omega (arith, n, h.roomy)),
                  slice_lem input (ip + 8) 8 (omega arith),
                  store_lem middle (w.op + 8) second (omega (arith, m, same, h.roomy)),
                )
                refl,
            Holds-sixteen input ip len short fits (omega (arith, h.within)),
          ))
    | no slow ↦
        rw (lt→leb 16 (length w.buffer - w.op) (omega (arith, h.roomy)))
          (append-Answers input ip len (omega arith))
  ]
