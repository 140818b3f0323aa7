-- ===== src/Writer/Outputs.antt =====
-- The output that a writer holds, and what an operation on it may answer.
use csnappy.Common.{
  ℕ, ◌+◌, ◌≤◌, ◌<◌, ◌≡◌, ◌⊎◌, arith, sym, ap, ◌∙◌, List, ◌++◌, length, length-take, take, take-take,
  Option, some, none,
}
use csnappy.Common.Memory.{write_at, length-write_at, take-write_at_end}
use csnappy.Common.Outcome.{Outcome, ok, err, output_overrun, data_malformed}
use csnappy.Writer.{Writer}

-- The writer has `out` before `op`, in a buffer of `room` bytes.
pub record Holds (room : ℕ) (out : List ℕ) (w : Writer) : Type 0 where
  pub roomy : length w.buffer ≡ room
  pub within : w.op ≤ room
  pub output : take w.op w.buffer ≡ out

pub length-Holds : {room : ℕ} {out : List ℕ} {w : Writer} → Holds room out w → length out ≡ w.op
length-Holds {room} {out} {w} h =
    omega (arith, ap (length {A = ℕ}) h.output, length-take w.op w.buffer, h.roomy, h.within)

-- Less of it.
pub Holds-take :
    (room m : ℕ) {out : List ℕ} {w : Writer}
    → m ≤ w.op
    → Holds room out w
    → Holds room (take m out) (record { buffer = w.buffer; op = m })
Holds-take room m {out} {w} le h = record {
  roomy = h.roomy;
  within = omega (arith, h.within);
  output = sym (take-take m w.op w.buffer le) ∙ ap (take m) h.output;
}

-- The answer of an operation that is to make the output `some out'`, or to refuse malformed data.
abbrev pub Answers : ℕ → Option (List ℕ) → Outcome Writer → Type 0
Answers room none r = r ≡ err data_malformed
Answers room (some out') r =
    ((length out' ≤ room) × (w' : Writer) × (r ≡ ok w') × Holds room out' w')
    ⊎ ((room < length out') × (r ≡ err output_overrun))

-- A block of bytes that is stored at `op` counts up to `len`.
pub Holds-store :
    (room : ℕ) (out : List ℕ) (w : Writer)
    → Holds room out w
    → (chunk : List ℕ) (len : ℕ) → len ≤ length chunk
    → w.op + length chunk ≤ room
    → Holds room
        (out ++ take len chunk)
        (record { buffer = write_at w.buffer w.op chunk; op = w.op + len })
Holds-store room out w h chunk len le fits = record {
  roomy = length-write_at w.buffer w.op chunk (omega (arith, h.roomy)) ∙ h.roomy;
  within = omega arith;
  output =
      take-write_at_end w.buffer w.op len chunk (omega (arith, h.roomy, h.within)) le
      ∙ ap (λ (t : List ℕ). t ++ take len chunk) h.output;
}
