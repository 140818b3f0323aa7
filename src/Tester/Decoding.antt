-- ===== src/Tester/Decoding.antt =====
-- What `do_decompress` answers, and what it leaves behind.
use csnappy.Common.{
  ℕ, ◌+◌, ◌-◌, ◌%◌, ◌^◌, ◌≤◌, ◌<◌, ◌≡◌, ◌≢◌, ◌⊎◌, arith, tests, refl, sym, ◌∙◌, List, length, take,
  take_all, drop, length-drop, All-drop, ◌++◌, Bool, true, false, All, Option, some, none, ltb,
  lt→ltb, Bool-cases, inl, inr, [],
}
use csnappy.Common.Outcome.{Outcome, ok, err, fault, output_insuf, ◌>>=◌}
use csnappy.Varint.{get_uncompressed_length}
use csnappy.Varint.Value.{base_128, Reads, get_uncompressed_length-Reads}
use csnappy.Format.{Expands}
use csnappy.Decompress.{BlockDecoder, decompress}
use csnappy.Decompress.Streams.{answer, decompress-answer, decompress-Expands}
use csnappy.Writer.{Writer}
use csnappy.FastDecoder
use csnappy.FastDecoder.Verdict.{Verdict}
use csnappy.FastDecoder.Loop.{fast_noheader-Verdict}
use csnappy.Decompress.Decoders.{decode_into, fast_decoder}
use csnappy.Tester.{
  max_input_size, Process, allocated, freed, close_input, close_output, fwrite, buffer_of,
  decode_block, decode_sized, decode_input, do_decompress,
}

-- Both files are closed and every buffer that was allocated is freed.
pub record Released (before after : Process) : Type 0 where
  pub input_closed : after.input_open ≡ false
  pub output_closed : after.output_open ≡ false
  pub no_leak : after.live ≡ before.live

module _ (d : BlockDecoder) (malloc : ℕ → ℕ → Bool) (fill : ℕ → List ℕ) where
  pub do_decompress-Expands :
      (content final : List ℕ) (n v : ℕ) (p : Process)
      → malloc 0 max_input_size ≡ true
      → malloc 1 (v % 2 ^ 32) ≡ true
      → length content < max_input_size
      → All (λ b. b < 256) content
      → base_128 5 content ≡ some (n, v)
      → length final ≤ v % 2 ^ 32
      → length content < d.src_limit
      → v % 2 ^ 32 < d.dst_limit
      → Expands final (drop n content) []
      → (q : Process) × (do_decompress d malloc fill content p ≡ some (0, q))
        × (q.written
            ≡ p.written
              ++ take
                  (v % 2 ^ 32)
                  (final ++ drop (length final) (d.leaves (drop n content) (fill (v % 2 ^ 32)))))
        × Released p q
  unfolding do_decompress decode_input decode_sized decode_block buffer_of
  do_decompress-Expands content final n v p m0 m1 size bytes e le short low x =
      let whole = take_all max_input_size content (omega arith) in
      let header : get_uncompressed_length content ≡ (ok n, v % 2 ^ 32) =
        rw e at (get_uncompressed_length-Reads content) in
      let decoded : decompress d content (v % 2 ^ 32) ≡ ok final =
        decompress-Expands d content final n v (v % 2 ^ 32) bytes e (omega arith) le short low x in
      (
        record {
          input_open = false;
          output_open = false;
          live = p.live + 1 + 1 - 1 - 1;
          written =
              p.written
              ++ take (v % 2 ^ 32)
                  (final ++ drop (length final) (d.leaves (drop n content) (fill (v % 2 ^ 32))));
        },
        rw (m0, lt→ltb (length content) max_input_size size, whole, header, m1, decoded) refl,
        refl,
        record { input_closed = refl; output_closed = refl; no_leak = omega arith },
      )

  -- How a run ends: the files are closed, the buffers freed, and with an exit status other than 0
  -- nothing is written.
  abbrev Ends : Process → Option (ℕ × Process) → Type 0
  Ends p r =
      (status : ℕ) × (q : Process) × (r ≡ some (status, q))
      × Released p q
      × ((status ≡ 0) ⊎ (q.written ≡ p.written))

  -- Where one buffer is on the heap and the input is closed.
  abbrev Busy : Process → Process → Type 0
  Busy p p' = (p'.input_open ≡ false) × (p'.live ≡ p.live + 1) × (p'.written ≡ p.written)

  -- The exits that give the first buffer back and write nothing.
  refused-Ends :
      (status : ℕ) (p p' : Process) → Busy p p' → Ends p (some (status, close_output (freed p')))
  refused-Ends status p p' b = (
    status,
    close_output (freed p'),
    refl,
    record { input_closed = b.0; output_closed = refl; no_leak = omega (arith, b.1) },
    inr b.2,
  )

  answer-Ends :
      (o : Outcome (List ℕ)) (ibuf : List ℕ) (hlen olen : ℕ) (p p' : Process)
      → Busy p p'
      → o ≢ fault
      → Ends p (elim o [
        | ok out ↦
            (let obuf = buffer_of d malloc fill ibuf hlen olen out in
              some (0, close_output (freed (fwrite (take olen obuf) (freed (allocated p'))))))
        | err e ↦ some (7, close_output (freed (freed (allocated p'))))
        | fault ↦ none
      ])
  answer-Ends (ok out) ibuf hlen olen p p' b safe = (
    0,
    close_output (
        freed
          (fwrite (take olen (buffer_of d malloc fill ibuf hlen olen out)) (freed (allocated p')))),
    refl,
    record { input_closed = b.0; output_closed = refl; no_leak = omega (arith, b.1) },
    inl refl,
  )
  answer-Ends (err e) ibuf hlen olen p p' b safe =
      refused-Ends 7 p (freed (allocated p')) (b.0, omega (arith, b.1), b.2)
  answer-Ends fault ibuf hlen olen p p' b safe = absurd (safe refl)

  decode_sized-Ends :
      (ibuf : List ℕ) (p p' : Process) (o : Outcome ℕ) (olen : ℕ)
      → Busy p p'
      → o ≢ fault
      → (malloc 1 olen ≡ true → decompress d ibuf olen ≢ fault)
      → Ends p (decode_sized d malloc fill ibuf p' o olen)
  unfolding decode_sized decode_block
  decode_sized-Ends ibuf p p' (ok n) olen b header safe = elim (Bool-cases (malloc 1 olen)) [
    | inl m ↦ rw m (answer-Ends (decompress d ibuf olen) ibuf n olen p p' b (safe m))
    | inr m ↦ rw m (refused-Ends 4 p p' b)
  ]
  decode_sized-Ends ibuf p p' (err e) olen b header safe = refused-Ends 6 p p' b
  decode_sized-Ends ibuf p p' fault olen b header safe = absurd (header refl)

  no_fault : (content : List ℕ) → (get_uncompressed_length content).0 ≢ fault
  no_fault content = by_header (base_128 5 content) (get_uncompressed_length-Reads content)
    where
      by_header :
          (o : Option (ℕ × ℕ))
          → Reads o (get_uncompressed_length content)
          → (get_uncompressed_length content).0 ≢ fault
      by_header none h e = ground (arith, sym h ∙ e)
      by_header (some (n, v)) h e = ground (arith, h, e)

  -- It returns if `csnappy_decompress` stays inside its buffers, where it is called.
  pub do_decompress-Ends :
      (content : List ℕ) (p : Process)
      → (length content < max_input_size
          → malloc 1 (get_uncompressed_length content).1 ≡ true
          → decompress d content (get_uncompressed_length content).1 ≢ fault)
      → (status : ℕ) × (q : Process) × (do_decompress d malloc fill content p ≡ some (status, q))
        × Released p q
        × ((status ≡ 0) ⊎ (q.written ≡ p.written))
  unfolding do_decompress decode_input
  do_decompress-Ends content p safe = elim (Bool-cases (malloc 0 max_input_size)) [
    | inl m ↦ rw m (elim (Bool-cases (ltb (length content) max_input_size)) [
      | inl short ↦
          (let whole = take_all max_input_size content (omega (tests, short)) in
            rw (short, whole)
              (decode_sized-Ends content p (close_input (allocated p))
                (get_uncompressed_length content).0 (get_uncompressed_length content).1
                (refl, refl, refl) (no_fault content) (safe (omega (tests, short)))))
      | inr long ↦ rw long (refused-Ends 5 p (close_input (allocated p)) (refl, refl, refl))
    ])
    | inr m ↦ rw m (
      4,
      close_output (close_input p),
      refl,
      record { input_closed = refl; output_closed = refl; no_leak = refl },
      inr refl,
    )
  ]

-- The optimised decoder leaves no buffer, whatever the input is.
decode_into-safe :
    (scratch : List ℕ) (fill : ℕ → List ℕ)
    → length scratch ≡ 5
    → All (λ b. b < 256) scratch
    → ((n : ℕ) → length (fill n) ≡ n)
    → (src : List ℕ) (dst_len : ℕ) → All (λ b. b < 256) src
    → length src < 2 ^ 31
    → dst_len < 2 ^ 31
    → decode_into scratch fill src dst_len ≢ fault
unfolding decode_into
decode_into-safe scratch fill five scratch_bytes full src dst_len bytes short low =
    by_verdict (FastDecoder.decompress_noheader scratch src (fill dst_len)) (
      fast_noheader-Verdict scratch src (fill dst_len) five scratch_bytes bytes short
        (omega (arith, full dst_len)))
  where
    by_verdict :
        (o : Outcome Writer)
        → Verdict (length (fill dst_len)) src [] o
        → (o >>= λ w. ok (take w.op w.buffer)) ≢ fault
    by_verdict (ok w) v e = ground (arith, e)
    by_verdict (err s) v e = ground (arith, e)
    by_verdict fault v e = v

-- Nor does `csnappy_decompress` over it.
decompress-safe :
    (scratch : List ℕ) (fill : ℕ → List ℕ) (five : length scratch ≡ 5)
    (scratch_bytes : All (λ b. b < 256) scratch) (full : (n : ℕ) → length (fill n) ≡ n)
    (content : List ℕ) (olen : ℕ)
    → All (λ b. b < 256) content
    → length content < 2 ^ 31
    → olen < 2 ^ 31
    → decompress (fast_decoder scratch fill five scratch_bytes full) content olen ≢ fault
decompress-safe scratch fill five scratch_bytes full content olen bytes short low e =
    by_header (base_128 5 content)
      (sym (decompress-answer (fast_decoder scratch fill five scratch_bytes full) content olen) ∙ e)
  where
    by_header :
        (o : Option (ℕ × ℕ))
        → answer (fast_decoder scratch fill five scratch_bytes full) content olen o ≡ fault
        → ⊥
    by_header none h = ground (arith, h)
    by_header (some (n, v)) h = elim (Bool-cases (ltb olen (v % 2 ^ 32))) [
      | inl big ↦ (let no_room : err output_insuf ≡ fault = rw big at h in ground (arith, no_room))
      | inr fits ↦
          decode_into-safe scratch fill five scratch_bytes full (drop n content) (v % 2 ^ 32)
            (All-drop (λ b. b < 256) n content bytes) (omega (arith, length-drop n content))
            (omega (tests, fits)) (rw fits at h)
    ]

-- For every file of bytes, shorter than 10 MiB or not, every outcome of the calls of `malloc`, of which the
-- one for the output fails from 2 GiB on, and what the buffers and the scratch array hold at the start:
-- with the optimised decoder `do_decompress` returns. It has closed both files and freed every buffer, on
-- every branch, and with an exit status other than 0 it has written nothing.
pub do_decompress-Released :
    (scratch : List ℕ) (fill : ℕ → List ℕ) (five : length scratch ≡ 5)
    (scratch_bytes : All (λ b. b < 256) scratch) (full : (n : ℕ) → length (fill n) ≡ n)
    (malloc : ℕ → ℕ → Bool) (content : List ℕ) (p : Process)
    → All (λ b. b < 256) content
    → ((n : ℕ) → malloc 1 n ≡ true → n < 2 ^ 31)
    → (status : ℕ) × (q : Process) × (do_decompress
          (fast_decoder scratch fill five scratch_bytes full)
          malloc
          fill
          content
          p
        ≡ some (status, q))
      × Released p q
      × ((status ≡ 0) ⊎ (q.written ≡ p.written))
do_decompress-Released scratch fill five scratch_bytes full malloc content p bytes limit =
    do_decompress-Ends (fast_decoder scratch fill five scratch_bytes full) malloc fill content p
      (λ short there.
        decompress-safe scratch fill five scratch_bytes full content
          (get_uncompressed_length content).1 bytes (omega arith) (limit _ there))
