-- ===== src/Compress/Stream.antt =====
-- What `csnappy_compress` writes: a header with the length, and blocks that expand to the input.
use csnappy.Common.{
  ℕ, zero, suc, ◌+◌, ◌-◌, ◌*◌, ◌/◌, ◌%◌, ◌^◌, ◌≤◌, ◌<◌, ◌≡◌, min, max, arith, sym, ap, ◌∙◌, List,
  [], ◌++◌, append_assoc, append-nil, length, length-append, length-take, length-drop, take, drop,
  take-append-slice, All, All-append, All-drop, some,
}
use csnappy.Format.{Expands, done}
use csnappy.Format.Laws.{Expands-append}
use csnappy.Varint.{encode_varint32}
use csnappy.Varint.RoundTrip.{encode_varint32_shape}
use csnappy.Emit.{Out}
use csnappy.Fragment.Table.{IsPower}
use csnappy.Fragment.Blocks.{IsCompressed}
use csnappy.Compress.{
  BlockCompressor, block_size, max_compressed_length, shrink_workmem, choose_workmem,
  compress_blocks, compress,
}

shrink_workmem_bounds :
    (rounds w n : ℕ) → (w ≤ shrink_workmem rounds w n) × (shrink_workmem rounds w n ≤ w + rounds)
unfolding shrink_workmem
shrink_workmem_bounds zero w n = omega arith
shrink_workmem_bounds (suc rounds) w n = ground (arith, shrink_workmem_bounds rounds (w + 1) n)

-- If the caller's memory has `2 ^ power` bytes, with `power` from 9 to 16, then the table that
-- `csnappy_compress` chooses for a block of any length lies within it, and has at least 2^9 bytes.
pub choose_workmem-IsPower :
    (power n : ℕ)
    → IsPower power
    → IsPower (choose_workmem power n) × (choose_workmem power n ≤ power)
unfolding choose_workmem
choose_workmem-IsPower power n h = ground (arith, shrink_workmem_bounds (power - 9) 9 n)

-- The blocks of an input.
pub record IsStream (prefix input : List ℕ) (start out : Out) : Type 0 where
  pub body : List ℕ
  pub appended : out.bytes ≡ start.bytes ++ body
  pub expands : Expands (prefix ++ input) body prefix
  pub are_bytes : All (λ b. b < 256) body
  pub small : 61 * length body ≤ 63 * length input + 61 * min 1 (length input)
  pub bounded : out.reach ≤ max start.reach (length out.bytes + 15)

IsStream-none : (prefix : List ℕ) (start : Out) → IsStream prefix [] start start
IsStream-none prefix start = record {
  body = [];
  appended = sym (append-nil start.bytes);
  expands = rw (append-nil prefix) done;
  are_bytes = tt;
  small = omega arith;
  bounded = omega arith;
}

-- A block in front of a stream: the block is full, or the stream is empty.
IsStream-cons :
    (prefix block rest : List ℕ) (start middle out : Out)
    → length block ≡ min (length block + length rest) block_size
    → 1 ≤ length block
    → IsCompressed prefix block start middle
    → IsStream (prefix ++ block) rest middle out
    → IsStream prefix (block ++ rest) start out
IsStream-cons prefix block rest start middle out full pos c s = record {
  body = c.written ++ s.body;
  appended = s.appended ∙ rw c.appended (append_assoc start.bytes c.written s.body);
  expands = Expands-append s.body c.expands (rw (append_assoc prefix block rest) at s.expands);
  are_bytes = All-append (λ b. b < 256) c.written s.body c.are_bytes s.are_bytes;
  small =
      omega
        (arith, length-append c.written s.body, length-append block rest, c.small, s.small, full);
  bounded = omega (
    arith,
    c.bounded,
    s.bounded,
    ap (length {A = ℕ}) s.appended,
    length-append middle.bytes s.body,
  );
}

-- The blocks of a memory are cut off it one by one.
IsStream-step :
    (prefix memory : List ℕ) (n : ℕ) (start middle out : Out)
    → 1 ≤ n
    → n ≤ length memory
    → IsCompressed prefix (take (min n block_size) memory) start middle
    → IsStream
        (prefix ++ take (min n block_size) memory)
        (take (n - min n block_size) (drop (min n block_size) memory))
        middle
        out
    → IsStream prefix (take n memory) start out
IsStream-step prefix memory n start middle out pos fits c s =
    let k : ℕ = min n block_size in
    let whole : k + (n - k) ≡ n = omega arith in
    let block : length (take k memory) ≡ k = omega (arith, length-take k memory) in
    let rest : length (take (n - k) (drop k memory)) ≡ n - k =
      omega (arith, length-take (n - k) (drop k memory), length-drop k memory) in
    let joined : take k memory ++ take (n - k) (drop k memory) ≡ take n memory =
      take-append-slice k (n - k) memory ∙ ap (λ (t : ℕ). take t memory) whole in
    rw joined at (
      IsStream-cons prefix (take k memory) (take (n - k) (drop k memory)) start middle out
        (omega (arith, block, rest)) (omega (arith, block)) c s)

compress_blocks-IsStream :
    (fuel : ℕ) (c : BlockCompressor) (prefix memory : List ℕ) (n : ℕ) (start : Out)
    (written power : ℕ)
    → n ≤ fuel
    → n + c.margin ≤ length memory
    → IsPower power
    → All (λ b. b < 256) memory
    → written ≡ length start.bytes % 2 ^ 32
    → (out : Out) × (compress_blocks fuel c memory n start written power
        ≡ some (out, length out.bytes % 2 ^ 32))
      × IsStream prefix (take n memory) start out
unfolding compress_blocks
compress_blocks-IsStream fuel c prefix memory zero start written power le fits ok bytes w =
    (start, ap (λ (t : ℕ). some (start, t)) w, IsStream-none prefix start)
compress_blocks-IsStream zero c prefix memory (suc n) start written power le fits ok bytes w =
    absurd (omega arith)
compress_blocks-IsStream (suc fuel) c prefix memory (suc n) start written power le fits ok bytes w =
    let k : ℕ = min (suc n) block_size in
    let (middle, e, b) =
      c.compresses prefix memory k start (choose_workmem power k)
        (choose_workmem-IsPower power k ok).0 bytes (omega arith) (omega arith) in
    let (out, f, s) =
      compress_blocks-IsStream fuel c (prefix ++ take k memory) (drop k memory) (suc n - k) middle
        ((written + (length middle.bytes - length start.bytes)) % 2 ^ 32) power (omega arith)
        (omega (arith, length-drop k memory)) ok (All-drop (λ b. b < 256) k memory bytes)
        (omega (arith, ap (length {A = ℕ}) b.appended, length-append start.bytes b.written)) in
    (
      out,
      rw e f,
      IsStream-step prefix memory (suc n) start middle out (omega arith) (omega arith) b s,
    )

-- For every block compressor, every memory of bytes, every input at its start that a 32-bit length can
-- count and behind which the compressor's margin can be read, and every table of 2^9 to 2^16 bytes:
-- `csnappy_compress` returns, with no access outside the memory and the table. Its output is the header of the
-- input's length and a body that expands to the input; `*compressed_length` is the size of the output
-- modulo 2^32; and the output is not longer than `32 + n + n / 6`, and no byte is written at or past
-- this, which is `csnappy_max_compressed_length` where that does not wrap.
pub compress-IsStream :
    (c : BlockCompressor) (memory : List ℕ) (input_length power : ℕ)
    → IsPower power
    → All (λ b. b < 256) memory
    → input_length < 2 ^ 32
    → input_length + c.margin ≤ length memory
    → (out : Out) × (body : List ℕ) × (compress c memory input_length power
        ≡ some (out, length out.bytes % 2 ^ 32))
      × (out.bytes ≡ encode_varint32 input_length ++ body)
      × Expands (take input_length memory) body []
      × All (λ b. b < 256) body
      × (length out.bytes ≤ 32 + input_length + input_length / 6)
      × (out.reach ≤ 32 + input_length + input_length / 6)
unfolding compress
compress-IsStream c memory n power ok bytes small fits =
    let header : List ℕ = encode_varint32 n in
    let start : Out = record { bytes = header; reach = length header } in
    let (hb, lo, hi) = encode_varint32_shape n in
    let (out, e, s) =
      compress_blocks-IsStream n c [] memory n start (length header) power (omega arith) fits ok
        bytes (omega arith) in
    let count : length (take n memory) ≡ n = omega (arith, length-take n memory) in
    let total = length-append header s.body in
    (
      out,
      s.body,
      e,
      s.appended,
      s.expands,
      s.are_bytes,
      omega (arith, s.small, count, ap (length {A = ℕ}) s.appended, total),
      omega (arith, s.bounded, s.small, count, ap (length {A = ℕ}) s.appended, total),
    )

-- For every block compressor, every memory of bytes, every input at its start behind which the
-- compressor's margin can be read, and every table of 2^9 to 2^16 bytes, if
-- `csnappy_max_compressed_length` does not wrap, `csnappy_compress` returns and writes nothing at or past this length.
pub compress-max_compressed_length :
    (c : BlockCompressor) (memory : List ℕ) (input_length power : ℕ)
    → IsPower power
    → All (λ b. b < 256) memory
    → 32 + input_length + input_length / 6 < 2 ^ 32
    → input_length + c.margin ≤ length memory
    → (out : Out) × (compress c memory input_length power ≡ some (out, length out.bytes % 2 ^ 32))
      × (out.reach ≤ max_compressed_length input_length)
unfolding max_compressed_length
compress-max_compressed_length c memory n power ok bytes low fits =
    let (out, body, e, b, x, bb, size, reach) =
      compress-IsStream c memory n power ok bytes (omega arith) fits in
    (out, e, omega (arith, reach))
