-- ===== src/Decompress/Decoders.antt =====
-- The two decoders of csnappy_decompress.c as block decoders.
use csnappy.Common.{ℕ, ◌^◌, ◌≤◌, ◌<◌, ◌≡◌, arith, refl, List, [], length, take, All}
use csnappy.Common.Outcome.{Outcome, ok, err, fault, ◌>>=◌}
use csnappy.Format.{Expands}
use csnappy.ByteDecoder
use csnappy.ByteDecoder.Decodes.{decompress_noheader-Expands}
use csnappy.FastDecoder
use csnappy.FastDecoder.Complete.{fast_noheader-Expands}
use csnappy.Decompress.{BlockDecoder}

-- The decoder for ARM without unaligned access, wherever its buffers are. It writes its output only.
abbrev pub byte_decoder : ByteDecoder.Space → BlockDecoder
byte_decoder sp = record {
  src_limit = 2 ^ 33;
  dst_limit = 2 ^ 32;
  decompress_noheader = ByteDecoder.decompress_noheader sp;
  leaves = λ src dst. dst;
  decodes = λ src final dst_len bytes short. decompress_noheader-Expands sp src final dst_len bytes;
}

-- The buffer after the optimised decoder, whose fast paths write behind the output.
unfoldable pub buffer_after : List ℕ → List ℕ → List ℕ → List ℕ
unfolding FastDecoder.decompress_noheader
buffer_after scratch src dst = elim (FastDecoder.decompress_noheader scratch src dst) [
  | ok w ↦ w.buffer
  | err e ↦ dst
  | fault ↦ dst
]

-- The optimised decoder, with a scratch array and a buffer for every length, whatever they hold at the
-- start; the number of bytes written is cut off from the buffer.
unfoldable pub decode_into : List ℕ → (ℕ → List ℕ) → List ℕ → ℕ → Outcome (List ℕ)
unfolding FastDecoder.decompress_noheader
decode_into scratch fill src dst_len = do
  w ← FastDecoder.decompress_noheader scratch src (fill dst_len)
  ok (take w.op w.buffer)

pub decode_into-Expands :
    (scratch : List ℕ) (fill : ℕ → List ℕ)
    → length scratch ≡ 5
    → All (λ b. b < 256) scratch
    → ((n : ℕ) → length (fill n) ≡ n)
    → (src final : List ℕ) (dst_len : ℕ) → All (λ b. b < 256) src
    → length src < 2 ^ 31
    → length final ≤ dst_len
    → dst_len < 2 ^ 31
    → Expands final src []
    → decode_into scratch fill src dst_len ≡ ok final
unfolding decode_into
decode_into-Expands scratch fill five scratch_bytes full src final dst_len bytes small fits low d =
    let (w, e, n, out) =
      fast_noheader-Expands scratch src (fill dst_len) final five scratch_bytes bytes small
        (omega (arith, full dst_len)) d (omega (arith, full dst_len)) in
    rw (e, out) refl

abbrev pub fast_decoder :
    (scratch : List ℕ) (fill : ℕ → List ℕ)
    → length scratch ≡ 5
    → All (λ b. b < 256) scratch
    → ((n : ℕ) → length (fill n) ≡ n)
    → BlockDecoder
fast_decoder scratch fill five scratch_bytes full = record {
  src_limit = 2 ^ 31;
  dst_limit = 2 ^ 31;
  decompress_noheader = decode_into scratch fill;
  leaves = λ src dst. buffer_after scratch src dst;
  decodes = decode_into-Expands scratch fill five scratch_bytes full;
}
