-- ===== src/Tester/Encoding.antt =====
-- What `do_compress` answers, and what it leaves behind.
use csnappy.Common.{
  ℕ, ◌+◌, ◌-◌, ◌/◌, ◌%◌, ◌^◌, ◌≤◌, ◌<◌, ◌≡◌, ◌⊎◌, arith, tests, refl, ◌∙◌, List, [], length,
  length-append, length-drop, take, take_all, drop, ◌++◌, Bool, true, false, All, All-append,
  All-drop, Option, some, ltb, lt→ltb, leb, le→leb, Bool-cases, inl, inr,
}
use csnappy.Common.Memory.{take_front}
use csnappy.Format.{Expands}
use csnappy.Varint.{encode_varint32}
use csnappy.Fragment.Table.{IsPower}
use csnappy.Compress.{BlockCompressor, max_compressed_length}
use csnappy.Compress.Stream.{compress-IsStream}
use csnappy.Tester.{
  max_input_size, workmem_power, Process, allocated, freed, close_input, close_output, fwrite,
  encode_block, encode_input, do_compress,
}
use csnappy.Tester.Decoding.{Released}

pub workmem-IsPower : IsPower 16
workmem-IsPower = record { at_least = omega arith; at_most = omega arith }

-- What is left of the process where the output buffer is not freed.
pub record Leaked (before after : Process) : Type 0 where
  pub input_closed : after.input_open ≡ false
  pub output_closed : after.output_open ≡ false
  pub leak : after.live ≡ before.live + 1

-- A stream for `content`: the header of its length and a body that expands to it.
pub record IsStreamOf (content stream : List ℕ) : Type 0 where
  pub body : List ℕ
  pub shape : stream ≡ encode_varint32 (length content) ++ body
  pub expands : Expands content body []
  pub are_bytes : All (λ b. b < 256) body
  pub small : length stream ≤ 32 + length content + length content / 6

module _ (c : BlockCompressor) (malloc : ℕ → ℕ → Bool) (fill : ℕ → List ℕ)
    (full : (n : ℕ) → length (fill n) ≡ n) (fresh : (n : ℕ) → All (λ b. b < 256) (fill n))
    (content : List ℕ) (bytes : All (λ b. b < 256) content)
    (short : length content < max_input_size)
    (readable : length content + c.margin ≤ max_input_size) where
  -- The whole of the input buffer.
  abbrev buffer : List ℕ
  buffer = content ++ drop (length content) (fill max_input_size)

  encode_block_lem :
      (p : Process)
      → (stream : List ℕ) × (encode_block c malloc fill buffer (length content) p
          ≡ some (0, freed (close_output (fwrite stream (freed (freed p))))))
        × IsStreamOf content stream
  unfolding encode_block max_compressed_length
  encode_block_lem p =
      let rest : List ℕ = drop (length content) (fill max_input_size) in
      let (out, body, e, b, x, bb, size, reach) =
        compress-IsStream c buffer (length content) workmem_power workmem-IsPower
          (All-append (λ b. b < 256) content rest bytes
            (All-drop (λ b. b < 256) (length content) (fill max_input_size) (fresh max_input_size)))
          (omega arith)
          (omega (
            arith,
            length-append content rest,
            length-drop (length content) (fill max_input_size),
            full max_input_size,
          )) in
      let front : take (length content) buffer ≡ content =
        take_front (length content) content rest (omega arith)
        ∙ take_all (length content) content (omega arith) in
      let whole : take (length out.bytes % 2 ^ 32) out.bytes ≡ out.bytes =
        take_all (length out.bytes % 2 ^ 32) out.bytes (omega arith) in
      let room : leb out.reach ((32 + length content + length content / 6) % 2 ^ 32) ≡ true =
        le→leb out.reach _ (omega arith) in
      (
        out.bytes,
        rw (e, room, whole) refl,
        record { body = body; shape = b; expands = rw front at x; are_bytes = bb; small = size },
      )

  -- For every block compressor and every file of bytes below 10 MiB whose margin the input buffer has,
  -- if all three buffers are to be had: `do_compress` exits with 0, has closed both files and freed every
  -- buffer, and has written a stream of at most 32 + n + n / 6 bytes, for n the length of the file, that
  -- expands to the file.
  pub do_compress-IsStreamOf :
      (p : Process)
      → malloc 0 max_input_size ≡ true
      → malloc 1 (max_compressed_length (length content)) ≡ true
      → malloc 2 (2 ^ workmem_power) ≡ true
      → (stream : List ℕ) × (q : Process) × (do_compress c malloc fill content p ≡ some (0, q))
        × (q.written ≡ p.written ++ stream)
        × IsStreamOf content stream
        × Released p q
  unfolding do_compress encode_input
  do_compress-IsStreamOf p m0 m1 m2 =
      let (stream, e, s) = encode_block_lem (allocated (allocated (close_input (allocated p)))) in
      (
        stream,
        record {
          input_open = false;
          output_open = false;
          live = p.live + 1 + 1 + 1 - 1 - 1 - 1;
          written = p.written ++ stream;
        },
        rw (m0, lt→ltb (length content) max_input_size short, m1, m2) e,
        refl,
        s,
        record { input_closed = refl; output_closed = refl; no_leak = omega arith },
      )

-- What is left behind: everything is given back, or the output buffer is not, where the working memory
-- was not to be had.
abbrev pub Left : (ℕ → ℕ → Bool) → Process → ℕ → Process → Type 0
Left malloc p status q =
    Released p q ⊎ ((malloc 2 (2 ^ workmem_power) ≡ false) × (status ≡ 4) × Leaked p q)

-- How a run of `do_compress` ends.
abbrev Ending : (ℕ → ℕ → Bool) → Process → Option (ℕ × Process) → Type 0
Ending malloc p r =
    (status : ℕ) × (q : Process) × (r ≡ some (status, q))
    × Left malloc p status q
    × ((status ≡ 0) ⊎ (q.written ≡ p.written))

-- The exits that give everything back and write nothing.
refused-Ending :
    (malloc : ℕ → ℕ → Bool) (p : Process) (status : ℕ) (q : Process)
    → q.input_open ≡ false
    → q.output_open ≡ false
    → q.live ≡ p.live
    → q.written ≡ p.written
    → Ending malloc p (some (status, q))
refused-Ending malloc p status q i o l w =
    (status, q, refl, inl (record { input_closed = i; output_closed = o; no_leak = l }), inr w)

-- From `csnappy_max_compressed_length` on, with one buffer on the heap and the input closed.
encode_input-Ending :
    (c : BlockCompressor) (malloc : ℕ → ℕ → Bool) (fill : ℕ → List ℕ) (content : List ℕ)
    (p : Process)
    → ((n : ℕ) → length (fill n) ≡ n)
    → ((n : ℕ) → All (λ b. b < 256) (fill n))
    → All (λ b. b < 256) content
    → length content < max_input_size
    → length content + c.margin ≤ max_input_size
    → Ending malloc p (
        encode_input c malloc fill
          (content ++ drop (length content) (fill max_input_size))
          (length content)
          (close_input (allocated p)))
unfolding encode_input
encode_input-Ending c malloc fill content p full fresh bytes short readable =
    elim (Bool-cases (malloc 1 (max_compressed_length (length content)))) [
      | inr m1 ↦ rw m1 (
          refused-Ending malloc p 4 (close_output (freed (close_input (allocated p)))) refl refl
            (omega arith) refl)
      | inl m1 ↦ rw m1 (elim (Bool-cases (malloc 2 (2 ^ workmem_power))) [
        | inr m2 ↦ rw m2 (
          4,
          close_output (freed (allocated (close_input (allocated p)))),
          refl,
          inr (
            refl,
            refl,
            record { input_closed = refl; output_closed = refl; leak = omega arith },
          ),
          inr refl,
        )
        | inl m2 ↦
            (let held = allocated (allocated (close_input (allocated p))) in
              let (stream, e, s) =
                encode_block_lem c malloc fill full fresh content bytes short readable held in
              rw m2 (
                0,
                freed (close_output (fwrite stream (freed (freed held)))),
                e,
                inl (record { input_closed = refl; output_closed = refl; no_leak = omega arith }),
                inl refl,
              ))
      ])
    ]

-- For every block compressor, every file of bytes and every outcome of the calls of `malloc`, if a file
-- below 10 MiB leaves the compressor's margin in the input buffer: `do_compress` returns. It has closed both
-- files, and with an exit status other than 0 it has written nothing; it has freed every buffer, but for one
-- where `malloc` of the working memory fails.
pub do_compress-Left :
    (c : BlockCompressor) (malloc : ℕ → ℕ → Bool) (fill : ℕ → List ℕ) (content : List ℕ)
    (p : Process)
    → ((n : ℕ) → length (fill n) ≡ n)
    → ((n : ℕ) → All (λ b. b < 256) (fill n))
    → All (λ b. b < 256) content
    → (length content < max_input_size → length content + c.margin ≤ max_input_size)
    → (status : ℕ) × (q : Process) × (do_compress c malloc fill content p ≡ some (status, q))
      × Left malloc p status q
      × ((status ≡ 0) ⊎ (q.written ≡ p.written))
unfolding do_compress
do_compress-Left c malloc fill content p full fresh bytes readable =
    elim (Bool-cases (malloc 0 max_input_size)) [
      | inr m0 ↦
          rw m0 (refused-Ending malloc p 4 (close_output (close_input p)) refl refl refl refl)
      | inl m0 ↦ rw m0 (elim (Bool-cases (ltb (length content) max_input_size)) [
        | inr long ↦ rw long (
            refused-Ending malloc p 5 (close_output (close_input (freed (allocated p)))) refl refl
              (omega arith) refl)
        | inl short ↦ rw short (
            encode_input-Ending c malloc fill content p full fresh bytes (omega (tests, short))
              (readable (omega (tests, short))))
      ])
    ]
