-- ===== src/Fragment.antt =====
-- `csnappy_compress_fragment` of csnappy_compress.c (the optimised one), over any `FindMatchLength`.
-- Pointers are positions in the block: `base_ip` is 0, `ip_end` the block's length. Each `goto` is a
-- result of the loop that it leaves.
pub mod Table
pub mod Repeats
pub mod Progress
pub mod Scan
pub mod Copies
pub mod Blocks
mod Runs
use csnappy.Common.{
  ℕ, zero, suc, ◌+◌, ◌-◌, ◌*◌, ◌/◌, ◌%◌, ◌^◌, List, length, get_elem?, set, replicate, true, false,
  Option, some, none, ltb, leb, ◌==◌, if◌then◌else◌,
}
use csnappy.Common.Partial.{◌>>=◌, ◌>>◌, guard}
use csnappy.Words.{load32, load64, get_uint32_at_offset}
use csnappy.Emit.{Out, emit_literal, emit_copy}
use csnappy.Match.{Matcher}

-- `(bytes * kMul) >> shift`, in 32 bits.
unfoldable pub hash_bytes : ℕ → ℕ → ℕ
hash_bytes bytes shift = bytes * 0x1e35a7bd % 2 ^ 32 / 2 ^ shift

unfoldable pub hash : List ℕ → ℕ → ℕ → Option ℕ
unfolding hash_bytes
hash input p shift = do v ← load32 input p; some (hash_bytes v shift)

-- `table[h] = v`, of type `uint16_t`.
unfoldable pub put_table : List ℕ → ℕ → ℕ → Option (List ℕ)
put_table table h v = do guard (ltb h (length table)); some (set table h (v % 2 ^ 16))

abbrev pub input_margin_bytes : ℕ
input_margin_bytes = 15

-- How the loop of step 1 ends: near the end of the input, or with a 4-byte match.
pub data Scanned : Type 0 where
  exhausted : Scanned
  found : ℕ → ℕ → List ℕ → Scanned

-- How the loop of step 3 ends: near the end of the input, with `next_emit`, or without a match,
-- with `ip`, the table and `next_hash`.
pub data Copied : Type 0 where
  stopped : Out → ℕ → Copied
  unmatched : Out → ℕ → List ℕ → ℕ → Copied

module _ (m : Matcher) (input : List ℕ) (shift ip_limit : ℕ) where
  -- Step 1, at `next_ip`.
  unfoldable pub scan : ℕ → List ℕ → ℕ → ℕ → ℕ → Option Scanned
  unfolding hash put_table
  scan zero table ip hash_ip skip = none
  scan (suc fuel) table ip hash_ip skip =
      let next_ip = ip + skip / 2 ^ 5 in
      if ltb ip_limit next_ip then some exhausted else (do
        next_hash ← hash input next_ip shift
        candidate ← get_elem? table hash_ip
        table' ← put_table table hash_ip ip
        here ← load32 input ip
        there ← load32 input candidate
        let rest = scan fuel table' next_ip next_hash ((skip + 1) % 2 ^ 32)
        (if here == there then some (found ip candidate table') else rest))

  -- Step 3, with a match at `ip`.
  unfoldable pub copy_matches : ℕ → Out → ℕ → ℕ → List ℕ → Option Copied
  unfolding hash_bytes put_table
  copy_matches zero out ip candidate table = none
  copy_matches (suc fuel) out base candidate table = do
    n ← m.find input (candidate + 4) (base + 4) (length input)
    let matched = 4 + n
    let ip = base + matched
    out' ← emit_copy out (base - candidate) matched
    (if leb ip_limit ip then some (stopped out' ip) else (do
      input_bytes ← load64 input (ip - 1)
      let prev_hash = hash_bytes (get_uint32_at_offset input_bytes 0) shift
      table1 ← put_table table prev_hash (ip - 1)
      let cur_hash = hash_bytes (get_uint32_at_offset input_bytes 1) shift
      candidate' ← get_elem? table1 cur_hash
      candidate_bytes ← load32 input candidate'
      table2 ← put_table table1 cur_hash ip
      let next_hash = hash_bytes (get_uint32_at_offset input_bytes 2) shift
      let rest = copy_matches fuel out' ip candidate' table2
      (if get_uint32_at_offset input_bytes 1 == candidate_bytes
          then rest
          else some (unmatched out' ip table2 next_hash))))

  -- `main_loop`, with the output and `next_emit` at `emit_remainder`. Every round of a loop advances
  -- the position, so the length of the block and one are enough rounds.
  unfoldable pub main_loop : ℕ → Out → ℕ → ℕ → ℕ → List ℕ → Option (Out × ℕ)
  unfolding scan copy_matches
  main_loop zero out next_emit ip next_hash table = none
  main_loop (suc fuel) out next_emit ip next_hash table = do
    scanned ← scan (length input + 1) table ip next_hash 32
    elim scanned [
      | exhausted ↦ some (out, next_emit)
      | found at candidate table' ↦ (do
        out' ← emit_literal input out next_emit (at - next_emit) true
        copied ← copy_matches (length input + 1) out' at candidate table'
        elim copied [
          | stopped out'' end ↦ some (out'', end)
          | unmatched out'' end table'' hash' ↦ main_loop fuel out'' end (end + 1) hash' table''
        ])
    ]

-- `emit_remainder`
unfoldable pub emit_remainder : List ℕ → Out → ℕ → Option Out
emit_remainder input out next_emit =
    if ltb next_emit (length input)
    then emit_literal input out next_emit (length input - next_emit) false
    else some out

-- The table is `2 ^ power` bytes of `uint16_t`, and `shift` is `33 - power`.
unfoldable pub compress_fragment : Matcher → List ℕ → Out → ℕ → Option Out
unfolding main_loop emit_remainder
compress_fragment m input out power =
    if ltb (length input) input_margin_bytes then emit_remainder input out 0 else (do
      next_hash ← hash input 1 (33 - power)
      (out', next_emit) ←
          main_loop m input (33 - power) (length input - input_margin_bytes) (length input + 1) out
            0 1 next_hash (replicate (2 ^ (power - 1)) 0)
      emit_remainder input out' next_emit)
