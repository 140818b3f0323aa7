-- ===== src/Fragment/Repeats.antt =====
-- A match is a copy: bytes that repeat those `offset` before them are what a copy element appends.
use csnappy.Common.{
  ℕ, zero, suc, ◌+◌, ◌-◌, ◌≤◌, ◌<◌, ◌≡◌, arith, ap, ◌∙◌, List, [], ◌∷◌, ◌++◌, append_assoc, length,
  length-append, length-take, take, get_elem?, some,
}
use native.Mathlib.Nat.{add-zero}
use csnappy.Common.Memory.{get_elem?-append_right, get_elem?-take}
use csnappy.Format.{repeat_back}
use csnappy.Format.Copies.{repeat_back-suc}
use csnappy.Words.Loads.{drop_get}
use csnappy.Match.{Matches}

pub take-suc :
    (input : List ℕ) (n b : ℕ)
    → get_elem? input n ≡ some b
    → take n input ++ (b ∷ []) ≡ take (suc n) input
take-suc [] n b h = cc
take-suc (x ∷ xs) zero b h = ground arith
take-suc (x ∷ xs) (suc n) b h = ap (λ (t : List ℕ). x ∷ t) (take-suc xs n b h)

module _ (prefix input : List ℕ) where
  -- The output before the byte at `ip`: what stood before the block, and the block up to `ip`.
  abbrev upto : ℕ → List ℕ
  upto ip = prefix ++ take ip input

  upto_back :
      (candidate ip : ℕ)
      → candidate < ip
      → ip ≤ length input
      → get_elem? (upto ip) (length (upto ip) - (ip - candidate)) ≡ get_elem? input candidate
  upto_back candidate ip lt le =
      let e : length (upto ip) - (ip - candidate) ≡ length prefix + candidate =
        omega (arith, length-append prefix (take ip input), length-take ip input) in
      rw e (
        get_elem?-append_right prefix (take ip input) candidate
        ∙ get_elem?-take ip candidate input lt)

  -- Copying from the candidate reproduces the block from `ip` on, as far as they match.
  pub repeat_back-Matches :
      (n candidate ip : ℕ)
      → candidate < ip
      → ip + n ≤ length input
      → Matches input candidate ip n
      → repeat_back n (ip - candidate) (upto ip) ≡ some (upto (ip + n))
  unfolding repeat_back
  repeat_back-Matches zero candidate ip lt le m = rw (add-zero ip)
  repeat_back-Matches (suc n) candidate ip lt le m =
      let (b, gb, db) = drop_get input ip (omega arith) in
      repeat_back-suc n (ip - candidate) (upto ip) b
        (upto_back candidate ip lt (omega arith) ∙ m.0 ∙ gb)
      ∙ one_more b gb
          (repeat_back-Matches n (suc candidate) (suc ip) (omega arith) (omega arith) m.1)
    where
      one_more :
          (b : ℕ)
          → get_elem? input ip ≡ some b
          → repeat_back n (suc ip - suc candidate) (upto (suc ip)) ≡ some (upto (suc ip + n))
          → repeat_back n (ip - candidate) (upto ip ++ (b ∷ [])) ≡ some (upto (ip + suc n))
      one_more b gb shifted =
          let e : suc ip - suc candidate ≡ ip - candidate = omega arith in
          let f : suc ip + n ≡ ip + suc n = omega arith in
          rw (append_assoc, take-suc input ip b gb, ← e, ← f) shifted
