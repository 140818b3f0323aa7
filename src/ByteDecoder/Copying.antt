-- ===== src/ByteDecoder/Copying.antt =====
-- The copy loops append what the format says, as far as the buffers allow.
use csnappy.Common.Memory.{get_elem?-lt}
use csnappy.Common.{
  ℕ, zero, suc, ◌+◌, ◌-◌, ◌≤◌, ◌<◌, ◌≡◌, arith, refl, sym, ap, ◌∙◌, lt→ltb, List, [], ◌∷◌, ◌++◌,
  append_assoc, append-nil, length, length-append, take, some,
}
use csnappy.Common.Outcome.{ok}
use csnappy.Format.{repeat_back}
use csnappy.Format.Copies.{repeat_back-suc}
use csnappy.ByteDecoder.{put_byte, copy_literal, copy_back}

pub put_byte_lem :
    (room b : ℕ) (out : List ℕ) → length out < room → put_byte room b out ≡ ok (out ++ (b ∷ []))
unfolding put_byte
put_byte_lem room b out h = rw (lt→ltb (length out) room h)

pub copy_literal_lem :
    (n room : ℕ) (src out : List ℕ)
    → n ≤ length src
    → length out + n ≤ room
    → copy_literal n room src out ≡ ok (out ++ take n src)
unfolding copy_literal
copy_literal_lem zero room src out h fits = ap (λ (t : List ℕ). ok t) (sym (append-nil out))
copy_literal_lem (suc n) room [] out h fits = absurd (omega arith)
copy_literal_lem (suc n) room (b ∷ src) out h fits = rw (put_byte_lem room b out (omega arith)) (
    copy_literal_lem n room src (out ++ (b ∷ [])) (omega arith)
      (omega (arith, length-append out (b ∷ [])))
    ∙ ap (λ (t : List ℕ). ok t) (append_assoc out (b ∷ []) (take n src)))

-- A copy from within the output succeeds.
pub copy_back_lem :
    (n room offset : ℕ) (out : List ℕ)
    → 1 ≤ offset
    → offset ≤ length out
    → length out + n ≤ room
    → (out' : List ℕ) × (copy_back n room offset out ≡ ok out')
      × (repeat_back n offset out ≡ some out')
unfolding copy_back repeat_back
copy_back_lem zero room offset out pos le fits = (out, refl, refl)
copy_back_lem (suc n) room offset out pos le fits =
    let (b, gb) = get_elem?-lt out (length out - offset) (omega arith) in
    let (out', e, r) =
      copy_back_lem n room offset (out ++ (b ∷ [])) pos (omega (arith, length-append out (b ∷ [])))
        (omega (arith, length-append out (b ∷ []))) in
    (out', rw (gb, put_byte_lem room b out (omega arith)) e, repeat_back-suc n offset out b gb ∙ r)
