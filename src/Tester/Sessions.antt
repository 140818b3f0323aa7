-- ===== src/Tester/Sessions.antt =====
-- A file that cl_tester compresses and then decompresses.
use csnappy.Common.{
  ℕ, ◌+◌, ◌/◌, ◌%◌, ◌^◌, ◌≤◌, ◌<◌, ◌≡◌, arith, ap, ◌∙◌, List, [], ◌++◌, length, take, take_all,
  drop, drop_front, Bool, true, All, All-append, some,
}
use csnappy.Common.Memory.{take_front}
use csnappy.Varint.{encode_varint32}
use csnappy.Varint.RoundTrip.{encode_varint32_shape, base_128-encode_varint32}
use csnappy.Compress.{BlockCompressor}
use csnappy.Decompress.{BlockDecoder}
use csnappy.Tester.{max_input_size, Process, do_compress, do_decompress}
use csnappy.Tester.Decoding.{Released, do_decompress-Expands}
use csnappy.Tester.Encoding.{IsStreamOf, do_compress-IsStreamOf}

module _ (d : BlockDecoder) (malloc : ℕ → ℕ → Bool) (fill : ℕ → List ℕ)
    (there : (k n : ℕ) → malloc k n ≡ true) (full : (n : ℕ) → length (fill n) ≡ n) where
  -- Any stream for `content` is decompressed to it.
  do_decompress-IsStreamOf :
      (content stream : List ℕ) (p : Process)
      → All (λ b. b < 256) content
      → 32 + length content + length content / 6 < max_input_size
      → 32 + length content + length content / 6 < d.src_limit
      → length content < d.dst_limit
      → IsStreamOf content stream
      → (q : Process) × (do_decompress d malloc fill stream p ≡ some (0, q))
        × (q.written ≡ p.written ++ content)
        × Released p q
  do_decompress-IsStreamOf content stream p bytes small short low s =
      let n : ℕ = length content in
      let header : List ℕ = encode_varint32 n in
      let size : n % 2 ^ 32 ≡ n = omega arith in
      let (q, e, w, r) =
        do_decompress-Expands d malloc fill (header ++ s.body) content (length header) n p
          (there 0 max_input_size) (there 1 (n % 2 ^ 32))
          (omega (arith, s.small, ap (length {A = ℕ}) s.shape))
          (All-append (λ b. b < 256) header s.body (encode_varint32_shape n).0 s.are_bytes)
          (base_128-encode_varint32 n s.body (omega arith)) (omega arith)
          (omega (arith, s.small, ap (length {A = ℕ}) s.shape)) (omega arith)
          (rw (drop_front header s.body) s.expands) in
      let left : List ℕ =
        drop n (d.leaves (drop (length header) (header ++ s.body)) (fill (n % 2 ^ 32))) in
      let whole : take (n % 2 ^ 32) (content ++ left) ≡ content =
        ap (λ (t : ℕ). take t (content ++ left)) size
        ∙ take_front n content left (omega arith)
        ∙ take_all n content (omega arith) in
      (
        q,
        ap (λ (t : List ℕ). do_decompress d malloc fill t p) s.shape ∙ e,
        w ∙ ap (λ (t : List ℕ). p.written ++ t) whole,
        r,
      )

  -- For every block compressor and block decoder, if every buffer is to be had, a file of bytes whose
  -- length n and 32 + n + n / 6 are below 10 MiB and the limits of the decoder, and whose margin the input
  -- buffer has: `do_compress` into an empty file exits with 0, and `do_decompress` of what it
  -- wrote exits with 0 and has written the file; all is closed and freed after both.
  pub do_decompress-do_compress :
      (c : BlockCompressor) (content : List ℕ) (p p' : Process)
      → ((n : ℕ) → All (λ b. b < 256) (fill n))
      → All (λ b. b < 256) content
      → length content + c.margin ≤ max_input_size
      → 32 + length content + length content / 6 < max_input_size
      → 32 + length content + length content / 6 < d.src_limit
      → length content < d.dst_limit
      → p.written ≡ []
      → (q : Process) × (do_compress c malloc fill content p ≡ some (0, q))
        × Released p q
        × ((q' : Process) × (do_decompress d malloc fill q.written p' ≡ some (0, q'))
            × (q'.written ≡ p'.written ++ content)
            × Released p' q')
  do_decompress-do_compress c content p p' fresh bytes readable small short low empty =
      let (stream, q, e, w, s, r) =
        do_compress-IsStreamOf c malloc fill full fresh content bytes (omega arith) readable p
          (there 0 _) (there 1 _) (there 2 _) in
      let alone : q.written ≡ stream = w ∙ ap (λ (t : List ℕ). t ++ stream) empty in
      let (q', e', w', r') = do_decompress-IsStreamOf content stream p' bytes small short low s in
      (q, e, r, (q', ap (λ (t : List ℕ). do_decompress d malloc fill t p') alone ∙ e', w', r'))
