-- ===== src/Format/Wrapped.antt =====
-- Where a block may have a literal whose length, counted in 32 bits, is 0.
use csnappy.Common.{ℕ, ◌≡◌, sym, ap, ◌∙◌, append_assoc, List, ◌∷◌, ◌++◌}
use csnappy.Format.Consumes.{Behind}

-- Somewhere in the block a byte 0xfc, the tag of a literal with a length of four bytes, stands before
-- four bytes 0xff.
abbrev pub HasWrapped : List ℕ → Type 0
HasWrapped src =
    (front : List ℕ) × (rest : List ℕ) × (src ≡ front ++ (0xfc ∷ 0xff ∷ 0xff ∷ 0xff ∷ 0xff ∷ rest))

pub HasWrapped-Behind :
    (tag : ℕ) {src rest : List ℕ} → Behind src rest → HasWrapped rest → HasWrapped (tag ∷ src)
HasWrapped-Behind tag b (front, more, e) = (
  tag ∷ b.front ++ front,
  more,
  ap (λ (x : List ℕ). tag ∷ x)
      (sym b.whole ∙ ap (λ (x : List ℕ). b.front ++ x) e ∙ sym (append_assoc b.front front _)),
)

pub HasWrapped-append : (front : List ℕ) {src : List ℕ} → HasWrapped src → HasWrapped (front ++ src)
HasWrapped-append front (before, more, e) =
    (front ++ before, more, ap (λ (x : List ℕ). front ++ x) e ∙ sym (append_assoc front before _))
