-- ===== src/Tester.antt =====
-- `do_compress` and `do_decompress` of cl_tester.c, over a block compressor and a block decoder. A file
-- is the list of its bytes. Which calls of `malloc` succeed is `malloc`, by the call's number in the
-- function and its size; what a fresh buffer holds is `fill`, by its size.
pub mod Decoding
pub mod Encoding
pub mod Sessions
pub mod Selftest
pub mod Command
mod Runs
use csnappy.Common.{
  ℕ, ◌+◌, ◌-◌, ◌*◌, ◌^◌, List, length, take, drop, ◌++◌, Bool, true, false, Option, some, none, ltb,
  leb, if◌then◌else◌,
}
use csnappy.Common.Outcome.{Outcome, ok, err, fault}
use csnappy.Common.Partial.{◌>>=◌, ◌>>◌, guard}
use csnappy.Varint.{get_uncompressed_length}
use csnappy.Compress.{BlockCompressor, compress, max_compressed_length}
use csnappy.Decompress.{BlockDecoder, decompress}

abbrev pub max_input_size : ℕ
max_input_size = 10 * 1024 * 1024

abbrev pub workmem_power : ℕ
workmem_power = 16

-- What the process holds: its two files, the number of buffers on the heap, and what is written.
pub record Process : Type 0 where
  pub input_open : Bool
  pub output_open : Bool
  pub live : ℕ
  pub written : List ℕ

abbrev pub allocated : Process → Process
allocated p = record p { live = p.live + 1 }

abbrev pub freed : Process → Process
freed p = record p { live = p.live - 1 }

abbrev pub close_input : Process → Process
close_input p = record p { input_open = false }

abbrev pub close_output : Process → Process
close_output p = record p { output_open = false }

abbrev pub fwrite : List ℕ → Process → Process
fwrite bytes p = record p { written = p.written ++ bytes }

-- `fread(ibuf, 1, size, ifile)` and then `feof(ifile)`: the end is seen if the file ends within it.
abbrev pub fread : ℕ → List ℕ → List ℕ
fread size content = take size content

abbrev pub feof : ℕ → List ℕ → Bool
feof size content = ltb (length content) size

module _ (d : BlockDecoder) (malloc : ℕ → ℕ → Bool) (fill : ℕ → List ℕ) where
  -- What `obuf` holds when `csnappy_decompress` has answered CSNAPPY_E_OK: the output, and behind it what
  -- the decoder of the block, `hlen` bytes into the input, leaves there.
  unfoldable pub buffer_of : List ℕ → ℕ → ℕ → List ℕ → List ℕ
  buffer_of ibuf hlen olen out = out ++ drop (length out) (d.leaves (drop hlen ibuf) (fill olen))

  -- From `malloc(olen)` on, with the two exits of `csnappy_decompress`. `olen` bytes are written, also
  -- where the output has fewer.
  unfoldable pub decode_block : List ℕ → ℕ → ℕ → Process → Option (ℕ × Process)
  unfolding buffer_of
  decode_block ibuf hlen olen p =
      if malloc 1 olen
      then elim (decompress d ibuf olen) [
        | ok out ↦
            (let obuf = buffer_of ibuf hlen olen out in
              some (0, close_output (freed (fwrite (take olen obuf) (freed (allocated p))))))
        | err e ↦ some (7, close_output (freed (freed (allocated p))))
        | fault ↦ none
      ]
      else some (4, close_output (freed p))

  -- By what `csnappy_get_uncompressed_length` returns and stores.
  unfoldable pub decode_sized : List ℕ → Process → Outcome ℕ → ℕ → Option (ℕ × Process)
  unfolding decode_block
  decode_sized ibuf p (ok n) olen = decode_block ibuf n olen p
  decode_sized ibuf p (err e) olen = some (6, close_output (freed p))
  decode_sized ibuf p fault olen = none

  unfoldable pub decode_input : List ℕ → Process → Option (ℕ × Process)
  unfolding decode_sized
  decode_input ibuf p =
      let (status, olen) = get_uncompressed_length ibuf in decode_sized ibuf p status olen

  -- The exit status and the process at the end. The file that is read holds `content`.
  unfoldable pub do_decompress : List ℕ → Process → Option (ℕ × Process)
  unfolding decode_input
  do_decompress content p =
      if malloc 0 max_input_size
      then (if feof max_input_size content
          then decode_input (fread max_input_size content) (close_input (allocated p))
          else some (5, close_output (close_input (freed (allocated p)))))
      else some (4, close_output (close_input p))

module _ (c : BlockCompressor) (malloc : ℕ → ℕ → Bool) (fill : ℕ → List ℕ) where
  -- The call of `csnappy_compress`, which must stay inside `obuf`, and what follows.
  unfoldable pub encode_block : List ℕ → ℕ → Process → Option (ℕ × Process)
  encode_block ibuf ilen p = do
    (out, olen) ← compress c ibuf ilen workmem_power
    guard (leb out.reach (max_compressed_length ilen))
    some (0, freed (close_output (fwrite (take olen out.bytes) (freed (freed p)))))

  -- From `csnappy_max_compressed_length` on. `ibuf` is the whole buffer, of which `ilen` bytes are read
  -- in. Where the working memory is not there, `obuf` is not freed.
  unfoldable pub encode_input : List ℕ → ℕ → Process → Option (ℕ × Process)
  unfolding encode_block
  encode_input ibuf ilen p =
      if malloc 1 (max_compressed_length ilen)
      then (if malloc 2 (2 ^ workmem_power)
          then encode_block ibuf ilen (allocated (allocated p))
          else some (4, close_output (freed (allocated p))))
      else some (4, close_output (freed p))

  unfoldable pub do_compress : List ℕ → Process → Option (ℕ × Process)
  unfolding encode_input
  do_compress content p =
      if malloc 0 max_input_size
      then (if feof max_input_size content
          then (let ibuf = content ++ drop (length content) (fill max_input_size) in
              encode_input ibuf (length content) (close_input (allocated p)))
          else some (5, close_output (close_input (freed (allocated p)))))
      else some (4, close_output (close_input p))
