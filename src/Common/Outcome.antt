-- ===== src/Common/Outcome.antt =====
-- The return values of csnappy.h, and the result of a function that may also leave its buffers.
use mathlib.Core.Bool.{Bool, true, false}
use mathlib.Core.Option.{Option, none, some}

-- The negative return values; CSNAPPY_E_OK is `Outcome.ok`.
pub data Status : Type 0 where
  header_bad output_insuf output_overrun input_not_consumed data_malformed : Status

-- `fault`: an access outside a buffer, which C leaves undefined, or a loop out of fuel.
pub data Outcome {ℓ} (A : Type ℓ) : Type ℓ where
  ok : A → Outcome A
  err : Status → Outcome A
  fault : Outcome A

infixl 5 ◌>>=◌ ◌>>◌
abbrev pub ◌>>=◌ {ℓ κ} : {A : Type ℓ} {B : Type κ} → Outcome A → (A → Outcome B) → Outcome B
ok a >>= f = f a
err e >>= f = err e
fault >>= f = fault

abbrev pub ◌>>◌ {ℓ} : {B : Type ℓ} → Outcome (Unit {0}) → Outcome B → Outcome B
m >> k = m >>= λ _. k

-- `if (bad) return e;`
abbrev pub reject_if : Bool → Status → Outcome (Unit {0})
reject_if true e = err e
reject_if false e = ok tt

-- An access that the buffer must allow.
abbrev pub allow_if : Bool → Outcome (Unit {0})
allow_if true = ok tt
allow_if false = fault

abbrev pub access {ℓ} : {A : Type ℓ} → Option A → Outcome A
access none = fault
access (some a) = ok a
