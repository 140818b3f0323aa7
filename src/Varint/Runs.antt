-- ===== src/Varint/Runs.antt =====
-- Concrete headers, and the theorems at concrete inputs.
use csnappy.Common.{◌≡◌, refl, arith, [], ◌∷◌, ◌++◌, length}
use csnappy.Common.Outcome.{ok, err, header_bad}
use csnappy.Varint.{encode_varint32, get_uncompressed_length, length_loop, add_group}
use csnappy.Varint.Value.{base_128, get_uncompressed_length-Reads}
use csnappy.Varint.RoundTrip.{get_uncompressed_length-encode_varint32}

encode_2097150 : encode_varint32 2097150 ≡ 0xfe ∷ 0xff ∷ 0x7f ∷ []
unfolding encode_varint32
encode_2097150 = refl

encode_max : encode_varint32 0xffff_ffff ≡ 0xff ∷ 0xff ∷ 0xff ∷ 0xff ∷ 0x0f ∷ []
unfolding encode_varint32
encode_max = refl

-- The bits of the fifth byte above bit 31 are dropped.
read_too_wide :
    get_uncompressed_length (0xff ∷ 0xff ∷ 0xff ∷ 0xff ∷ 0x7f ∷ []) ≡ (ok 5, 0xffff_ffff)
unfolding get_uncompressed_length length_loop add_group
read_too_wide = refl

read_six_bytes :
    get_uncompressed_length (0x80 ∷ 0x80 ∷ 0x80 ∷ 0x80 ∷ 0x80 ∷ 0 ∷ []) ≡ (err header_bad, 0)
unfolding get_uncompressed_length length_loop add_group
read_six_bytes = refl

get_uncompressed_length-Reads_example : get_uncompressed_length (0xac ∷ 0x02 ∷ 9 ∷ []) ≡ (ok 2, 300)
unfolding base_128
get_uncompressed_length-Reads_example = get_uncompressed_length-Reads (0xac ∷ 0x02 ∷ 9 ∷ [])

get_uncompressed_length-encode_varint32_example :
    get_uncompressed_length (encode_varint32 300 ++ 9 ∷ [])
    ≡ (ok (length (encode_varint32 300)), 300)
get_uncompressed_length-encode_varint32_example =
    get_uncompressed_length-encode_varint32 300 (9 ∷ []) (omega arith)
