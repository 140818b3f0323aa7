-- ===== src/Writer/Rounds.antt =====
-- The loops of the copies within the output fill what they should, and stay inside the buffer.
use csnappy.Common.{
  ℕ, zero, suc, ◌+◌, ◌-◌, ◌*◌, ◌≤◌, ◌<◌, ◌≡◌, min, arith, refl, ap, ◌∙◌, List, [], ◌∷◌, length,
  take, lt→ltb,
}
use native.Mathlib.Decide.{dec_lt}
use csnappy.Common.Memory.{write_at, store_lem}
use csnappy.Common.Outcome.{ok}
use csnappy.Words.{part}
use csnappy.Words.Loads.{slice_lem, length-part, drop_get}
use csnappy.Writer.{copy_byte, copy_bytes, unaligned_copy64, copy_words}
use csnappy.Writer.Pattern.{Filled, Filled-copy}

pub unaligned_copy64_lem :
    (buffer : List ℕ) (src op : ℕ)
    → src + 8 ≤ length buffer
    → op + 8 ≤ length buffer
    → unaligned_copy64 buffer src op ≡ ok (write_at buffer op (part buffer src 8))
unfolding unaligned_copy64
unaligned_copy64_lem buffer src op h k =
    rw (slice_lem buffer src 8 h)
      (store_lem buffer op (part buffer src 8) (omega (arith, length-part buffer src 8 h)))

pub copy_byte_lem :
    (buffer : List ℕ) (src op : ℕ)
    → src < length buffer
    → op < length buffer
    → copy_byte buffer src op ≡ ok (write_at buffer op (part buffer src 1))
unfolding copy_byte
copy_byte_lem buffer src op h k =
    let (b, g, d) = drop_get buffer src h in
    let one : part buffer src 1 ≡ b ∷ [] = ap (take 1) d in
    rw (g, one) (store_lem buffer op (b ∷ []) (omega arith))

pub Filled-at :
    (before : List ℕ) (src offset : ℕ) (now : List ℕ) {n m : ℕ}
    → m ≤ n
    → Filled before src offset n now
    → Filled before src offset m now
Filled-at before src offset now h f = record {
  same_length = f.same_length;
  front = f.front;
  repeats = λ i lt. f.repeats i (omega arith);
}

copy_words_stop :
    (fuel : ℕ) (buffer : List ℕ) (src op len : ℕ)
    → len ≡ 0
    → copy_words (suc fuel) buffer src op len ≡ ok buffer
unfolding copy_words
copy_words_stop fuel buffer src op len h = ground arith

copy_words_more :
    (fuel : ℕ) (buffer next : List ℕ) (src op len : ℕ)
    → 0 < len
    → unaligned_copy64 buffer src op ≡ ok next
    → copy_words (suc fuel) buffer src op len ≡ copy_words fuel next (src + 8) (op + 8) (len - 8)
unfolding copy_words
copy_words_more fuel buffer next src op len h e = rw (copy_words, lt→ltb 0 len h, e) refl

module _ (before : List ℕ) (src offset q : ℕ) (start : 1 ≤ q) where
  -- One round that copies eight bytes.
  pub Filled-eight :
      (now : List ℕ) (s : ℕ)
      → Filled before src offset (s + offset * q) now
      → src + (s + offset * q) + 8 ≤ length before
      → 1 ≤ offset
      → (next : List ℕ) × (unaligned_copy64 now (src + s) (src + (s + offset * q)) ≡ ok next)
        × Filled before src offset (s + offset * q + min 8 (offset * q)) next
  Filled-eight now s f fits pos =
      let far : offset ≤ offset * q = grind arith in
      (
        write_at now (src + (s + offset * q)) (part now (src + s) 8),
        unaligned_copy64_lem now (src + s) (src + (s + offset * q)) (omega (arith, f.same_length))
            (omega (arith, f.same_length)),
        Filled-copy before now src offset s q 8 (omega arith) f fits,
      )

  pub copy_bytes-Filled :
      (n s : ℕ) (now : List ℕ)
      → 1 ≤ offset
      → Filled before src offset (s + offset * q) now
      → src + (s + offset * q) + n ≤ length before
      → (next : List ℕ) × (copy_bytes n now (src + s) (src + (s + offset * q)) ≡ ok next)
        × Filled before src offset (s + offset * q + n) next
  unfolding copy_bytes
  copy_bytes-Filled zero s now pos f fits =
      (now, refl, Filled-at before src offset now (omega arith) f)
  copy_bytes-Filled (suc n) s now pos f fits =
      let far : offset ≤ offset * q = grind arith in
      let now' = write_at now (src + (s + offset * q)) (part now (src + s) 1) in
      let g = Filled-copy before now src offset s q 1 (omega arith) f (omega arith) in
      let (next, e, h) =
        copy_bytes-Filled n (s + 1) now' pos (Filled-at before src offset now' (omega arith) g)
          (omega arith) in
      let p : src + (s + 1) ≡ src + s + 1 = omega arith in
      let r : src + (s + 1 + offset * q) ≡ src + (s + offset * q) + 1 = omega arith in
      (
        next,
        rw
            (copy_byte_lem now (src + s) (src + (s + offset * q)) (omega (arith, f.same_length))
              (omega (arith, f.same_length)))
            (rw (p, r) at e),
        Filled-at before src offset next (omega arith) h,
      )

  pub copy_words-Filled :
      (fuel len s : ℕ) (now : List ℕ)
      → len < fuel
      → 8 ≤ offset * q
      → 1 ≤ offset
      → Filled before src offset (s + offset * q) now
      → (0 < len → src + (s + offset * q) + len + 7 ≤ length before)
      → (next : List ℕ) × (copy_words fuel now (src + s) (src + (s + offset * q)) len ≡ ok next)
        × Filled before src offset (s + offset * q + len) next
  copy_words-Filled zero len s now enough wide pos f fits = absurd (omega arith)
  copy_words-Filled (suc fuel) len s now enough wide pos f fits = elim (dec_lt 0 len) [
    | no stop ↦ (
      now,
      copy_words_stop fuel now (src + s) (src + (s + offset * q)) len (omega arith),
      Filled-at before src offset now (omega arith) f,
    )
    | yes more ↦
        (let (now', e, g) = Filled-eight now s f (omega (arith, fits more)) pos in
          let (next, e', h) =
            copy_words-Filled fuel (len - 8) (s + 8) now' (omega arith) wide pos
              (Filled-at before src offset now' (omega arith) g) (λ lt. omega (arith, fits more)) in
          let p : src + (s + 8) ≡ src + s + 8 = omega arith in
          let r : src + (s + 8 + offset * q) ≡ src + (s + offset * q) + 8 = omega arith in
          (
            next,
            copy_words_more fuel now now' (src + s) (src + (s + offset * q)) len more e
                ∙ (rw (p, r) at e'),
            Filled-at before src offset next (omega arith) h,
          ))
  ]
