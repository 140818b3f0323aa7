-- ===== src/SimpleFragment.antt =====
-- `csnappy_compress_fragment` of the simple compressor of csnappy_compress.c, for ARM without
-- unaligned access. A pointer into the block is a position in `memory`: the bytes that may be read, of
-- which the first `input_size` are the block.
pub mod Lengths
pub mod Window
pub mod Next
pub mod Blocks
mod Runs
use csnappy.Common.{
  ℕ, zero, suc, ◌+◌, ◌-◌, ◌*◌, ◌/◌, ◌%◌, ◌^◌, List, get_elem?, replicate, Option, none, some, ltb,
  leb, ◌==◌, true, false, if◌then◌else◌, bit_or,
}
use csnappy.Common.Partial.{◌>>=◌}
use csnappy.Words.{load32}
use csnappy.Emit.{Out}
use csnappy.Fragment.{Scanned, exhausted, found, put_table}
use csnappy.SimpleEmit.{emit_literal, emit_copy}

-- `while (s2 < s2_end && *s1++ == *s2++);` and the place of `s2` behind it, which is past a byte that
-- differs.
unfoldable pub match_run : ℕ → List ℕ → ℕ → ℕ → ℕ → Option ℕ
match_run zero memory s1 s2 s2_end = none
match_run (suc fuel) memory s1 s2 s2_end =
    if ltb s2 s2_end
    then (do
      a ← get_elem? memory s1
      b ← get_elem? memory s2
      elim (a == b) [
        | true ↦ match_run fuel memory (s1 + 1) (s2 + 1) s2_end
        | false ↦ some (s2 + 1)
      ])
    else some s2

-- A round takes a byte; `s2 - s2_start - 1` wraps at 0.
unfoldable pub find_match_length : List ℕ → ℕ → ℕ → ℕ → Option ℕ
unfolding match_run
find_match_length memory s1 s2 s2_end = do
  s2' ← match_run (s2_end - s2 + 1) memory s1 s2 s2_end
  some ((s2' - s2 + (2 ^ 32 - 1)) % 2 ^ 32)

unfoldable pub hash : ℕ → ℕ
hash v = v * 0x1e35a7bd % 2 ^ 32

-- `curr_val` at the head of the outer loop, with its low byte still to be shifted out.
unfoldable pub first_window : List ℕ → ℕ → Option ℕ
first_window memory src = do
  a ← get_elem? memory (src + 1)
  b ← get_elem? memory (src + 2)
  c ← get_elem? memory (src + 3)
  some (bit_or (bit_or (a * 2 ^ 8) (b * 2 ^ 16)) (c * 2 ^ 24))

module _ (memory : List ℕ) (input_size shift : ℕ) where
  -- The `do … while (curr_val != match_val)`: it leaves by `goto the_end`, or with a match at `src`.
  unfoldable pub next_match : ℕ → List ℕ → ℕ → ℕ → Option Scanned
  unfolding hash put_table
  next_match zero wm base curr_val = none
  next_match (suc fuel) wm base curr_val =
      let src = base + 1 in
      if leb (input_size - 4) src then some exhausted else (do
        b ← get_elem? memory (src + 3)
        let curr_val' = bit_or (curr_val / 2 ^ 8) (b * 2 ^ 24)
        let curr_hash = hash curr_val' / 2 ^ shift
        match ← get_elem? wm curr_hash
        wm' ← put_table wm curr_hash src
        match_val ← load32 memory match
        let rest = next_match fuel wm' src curr_val'
        (if curr_val' == match_val then some (found src match wm') else rest))

  -- The outer loop, with the output and `done_upto` at `the_end`. Every round of a loop advances
  -- `src`, so the length of the block and one are enough rounds.
  unfoldable pub emit_matches : ℕ → List ℕ → Out → ℕ → ℕ → Option (Out × ℕ)
  unfolding first_window next_match
  emit_matches zero wm out done_upto src = none
  emit_matches (suc fuel) wm out done_upto src = do
    curr_val ← first_window memory src
    scanned ← next_match (input_size + 1) wm src curr_val
    elim scanned [
      | exhausted ↦ some (out, done_upto)
      | found at match wm' ↦ (do
        n ← find_match_length memory (match + 4) (at + 4) input_size
        let len = (4 + n) % 2 ^ 32
        out' ← emit_literal memory out done_upto (at - done_upto)
        out'' ← emit_copy out' (at - match) len
        emit_matches fuel wm' out'' (at + len) (at + len - 1))
    ]

-- The table is `2 ^ power` bytes of `uint16_t`; `shift` is `33 - power`.
unfoldable pub compress_fragment : List ℕ → ℕ → Out → ℕ → Option Out
unfolding emit_matches
compress_fragment memory input_size out power =
    if ltb input_size 4 then emit_literal memory out 0 input_size else (do
      (out', done_upto) ←
          emit_matches memory input_size (33 - power) (input_size + 1)
            (replicate (2 ^ (power - 1)) 0) out 0 0
      emit_literal memory out' done_upto (input_size - done_upto))
