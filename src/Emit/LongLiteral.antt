-- ===== src/Emit/LongLiteral.antt =====
-- A literal of more than 60 bytes, and what `EmitLiteral` does at every length.
use csnappy.Common.{
  ℕ, ◌+◌, ◌-◌, ◌*◌, ◌%◌, ◌^◌, ◌≤◌, ◌<◌, ◌≡◌, max, arith, ap, ◌∙◌, List, [], ◌∷◌, ◌++◌, append_assoc,
  length, length-append, All, All-append, set-append, Bool, true, false, some, ltb, lt→ltb, bit_or,
}
use csnappy.Common.Bits.{zero-bit_or}
use native.Mathlib.Decide.{dec_le}
use csnappy.Format.{literal}
use csnappy.Words.{part}
use csnappy.Words.Loads.{slice_lem, length-part, part-IsByte}
use csnappy.Emit.{Out, skip, put_at, put_length, emit_literal}
use csnappy.Emit.Length.{
  length_bytes, length-length_bytes, length-length_bytes_pos, length_bytes-IsByte, Lengthened,
  put_length-Lengthened,
}
use csnappy.Emit.Literal.{Emitted, literal_size, long_spells, emit_short}

module _ (input : List ℕ) (out : Out) (pos len : ℕ) (long : 60 < len) (int : len < 2 ^ 31)
    (fits : pos + len ≤ length input) (bytes : All (λ b. b < 256) input) where
  abbrev size_bytes : List ℕ
  size_bytes = length_bytes 4 (len - 1)

  size_bytes_bounds : (1 ≤ length size_bytes) × (length size_bytes ≤ 4)
  size_bytes_bounds = (
    length-length_bytes_pos 3 (len - 1) (omega arith),
    length-length_bytes 4 4 (len - 1) (omega arith),
  )

  abbrev tag : ℕ
  tag = (59 + length size_bytes) * 4

  -- The state after the loop, with the tag put in and the bytes behind.
  with_tag :
      (e : Out)
      → e.bytes ≡ (out.bytes ++ (0 ∷ [])) ++ size_bytes
      → (put_at e (length out.bytes) (bit_or 0 ((59 + (0 + length size_bytes)) * 2 ^ 2))).bytes
        ≡ out.bytes ++ (tag ∷ size_bytes)
  unfolding put_at
  with_tag e eq =
      rw (eq, append_assoc, set-append) (ap (λ (t : ℕ). out.bytes ++ (t ∷ size_bytes)) tag_byte)
    where
      tag_byte : bit_or 0 ((59 + (0 + length size_bytes)) * 2 ^ 2) % 256 ≡ tag
      tag_byte = ap (λ (t : ℕ). t % 256) (zero-bit_or _) ∙ omega (arith, size_bytes_bounds)

  chunk_size : length (tag ∷ (size_bytes ++ part input pos len)) ≤ literal_size len
  unfolding literal_size
  chunk_size = ground (
    arith,
    length-append size_bytes (part input pos len),
    length-part input pos len fits,
    size_bytes_bounds,
    length-length_bytes 4 1 (len - 1),
    length-length_bytes 4 2 (len - 1),
  )

  after_loop : Lengthened (skip out) size_bytes 0 (put_length 4 (skip out) (len - 1) 0)
  after_loop = put_length-Lengthened 4 (skip out) (len - 1) 0 (omega arith)

  abbrev tagged : Out
  tagged =
      put_at after_loop.end (length out.bytes) (bit_or 0 ((59 + (0 + length size_bytes)) * 2 ^ 2))

  abbrev long_end : Out
  long_end = record {
    bytes = tagged.bytes ++ part input pos len;
    reach = max tagged.reach (length tagged.bytes + len);
  }

  tagged_bytes : tagged.bytes ≡ out.bytes ++ (tag ∷ size_bytes)
  unfolding skip
  tagged_bytes = with_tag after_loop.end after_loop.appended

  tagged_reach : tagged.reach ≤ max out.reach (length tagged.bytes)
  unfolding put_at skip
  tagged_reach = omega (
    arith,
    after_loop.bounded,
    ap (length {A = ℕ}) tagged_bytes,
    length-append out.bytes (tag ∷ size_bytes),
    length-append out.bytes (0 ∷ []),
  )

  long-Emitted : Emitted (literal (part input pos len)) (literal_size len) 15 out long_end
  long-Emitted = record {
    chunk = tag ∷ (size_bytes ++ part input pos len);
    appended =
        ap (λ (t : List ℕ). t ++ part input pos len) tagged_bytes
        ∙ append_assoc out.bytes (tag ∷ size_bytes) (part input pos len);
    spells =
        long_spells (len - 1) (part input pos len) (omega arith) (omega arith)
          (omega (arith, length-part input pos len fits));
    are_bytes = (
      omega (arith, size_bytes_bounds),
      All-append (λ b. b < 256) size_bytes _ (length_bytes-IsByte 4 (len - 1))
          (part-IsByte input pos len bytes),
    );
    small = chunk_size;
    bounded = omega (
      arith,
      tagged_reach,
      length-append tagged.bytes (part input pos len),
      length-part input pos len fits,
    );
  }

  emit_long : (fast : Bool) → emit_literal input out pos len fast ≡ some long_end
  unfolding emit_literal
  emit_long fast = rw (not_in_tag, after_loop.result) (rw (slice_lem input pos len fits))
    where
      not_in_tag : ltb (len - 1) 60 ≡ false
      not_in_tag = ground arith

-- `EmitLiteral` of one or more bytes, fewer than 2^31, inside an input of bytes succeeds, and appends a
-- literal element of these bytes. If the fast path is allowed, sixteen bytes of input from the literal
-- on must be there. At most fifteen bytes are written past the new end.
pub emit_literal-Emitted :
    (input : List ℕ) (out : Out) (pos len : ℕ) (fast : Bool)
    → 1 ≤ len
    → len < 2 ^ 31
    → pos + len ≤ length input
    → All (λ b. b < 256) input
    → (fast ≡ true → pos + 16 ≤ length input)
    → (out' : Out) × (emit_literal input out pos len fast ≡ some out')
      × Emitted (literal (part input pos len)) (literal_size len) 15 out out'
unfolding literal_size
emit_literal-Emitted input out pos len fast pos_len int fits bytes room = elim (dec_le len 60) [
  | yes short ↦
      (let (out', e, m) = emit_short input out pos len pos_len short fits bytes fast room in
        (out', e, rw (lt→ltb len 61 (omega arith)) m))
  | no long ↦ (
    long_end input out pos len (omega arith) int fits bytes,
    emit_long input out pos len (omega arith) int fits bytes fast,
    long-Emitted input out pos len (omega arith) int fits bytes,
  )
]
