-- ===== src/Varint/RoundTrip.antt =====
-- What `encode_varint32` writes, `csnappy_get_uncompressed_length` reads back.
use csnappy.Common.{ℕ, ◌/◌, ◌^◌, ◌≤◌, ◌<◌, ◌≡◌, arith, List, ◌++◌, length, All, some, ap, ◌∙◌}
use csnappy.Common.Outcome.{ok}
use csnappy.Varint.{encode_varint32, get_uncompressed_length}
use csnappy.Varint.Group.{more_eq}
use csnappy.Varint.Value.{base_128, get_uncompressed_length-Reads}

-- Every header is one to five bytes.
pub encode_varint32_shape :
    (v : ℕ)
    → All (λ b. b < 256) (encode_varint32 v)
      × (1 ≤ length (encode_varint32 v))
      × (length (encode_varint32 v) ≤ 5)
unfolding encode_varint32
encode_varint32_shape v = ground arith

pub base_128-encode_varint32 :
    (v : ℕ) (rest : List ℕ)
    → v < 2 ^ 32
    → base_128 5 (encode_varint32 v ++ rest) ≡ some (length (encode_varint32 v), v)
unfolding encode_varint32 base_128
base_128-encode_varint32 v rest h =
    ground (arith, more_eq v, more_eq (v / 2 ^ 7), more_eq (v / 2 ^ 14), more_eq (v / 2 ^ 21))

-- `csnappy_get_uncompressed_length` reads a length below 2^32 that `encode_varint32` wrote, whatever
-- follows, and reports the bytes that were written.
pub get_uncompressed_length-encode_varint32 :
    (v : ℕ) (rest : List ℕ)
    → v < 2 ^ 32
    → get_uncompressed_length (encode_varint32 v ++ rest) ≡ (ok (length (encode_varint32 v)), v)
get_uncompressed_length-encode_varint32 v rest h =
    (rw (base_128-encode_varint32 v rest h) at
      (get_uncompressed_length-Reads (encode_varint32 v ++ rest)))
    ∙ ap (λ (t : ℕ). (ok (length (encode_varint32 v)), t)) (omega arith)
