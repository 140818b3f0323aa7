-- ===== src/Lib.antt =====
-- csnappy: a port of Google's Snappy to C, for user space and the Linux kernel. This library models
-- its compressor and its decompressor and proves them against the format.
--
-- The program's parts, and the files that model them:
--   csnappy_compress.c     `encode_varint32` writes the length of the input in front of the stream
--                          (Varint). `csnappy_compress` cuts the input into blocks of 32 KiB
--                          (Compress) and calls `csnappy_compress_fragment` for each (Fragment),
--                          which looks four-byte words up in a hash table (Words), measures a match
--                          by `FindMatchLength` (Match), and writes literals and copies by
--                          `EmitLiteral` and `EmitCopy` (Emit).
--                          For ARM without unaligned access there is a simple compressor of
--                          blocks (SimpleFragment) with emitters of its own (SimpleEmit).
--   csnappy_internal_userspace.h   the portable `FindLSBSetNonZero`, by which `FindMatchLength` counts
--                          the equal bytes of two words (LowBit), the loads (Words), and what stands
--                          for these on machines with strict alignment or another byte order, with
--                          the variants of csnappy_internal.h (Portable; `UnalignedCopy64` in Writer).
--   csnappy_decompress.c   `csnappy_get_uncompressed_length` reads the header (Varint).
--                          `csnappy_decompress` checks it and calls `csnappy_decompress_noheader`
--                          (Decompress). Of the two decoders under this name, the file compiles one:
--                          the one for ARM without unaligned access (ByteDecoder), or the optimised
--                          one (FastDecoder), which looks a tag up in `char_table` (CharTable), reads
--                          operands by `get_unaligned_le` of csnappy_internal.h (Words) and writes by
--                          `struct SnappyArrayWriter` (Writer).
--   cl_tester.c            `do_compress` and `do_decompress` with their exit codes (Tester), the
--                          self-tests (Tester.Selftest) and `main` (Tester.Command).
--   block_compressor.c     compresses a file page by page into a file with a table of sizes, and
--                          back (Pages), with the entries of csnappy (Pages.Snappy), LZO and zlib
--                          (Pages.Libraries) in `compressors[]`, its clock (Pages.Clock) and `main`
--                          (Pages.Command).
-- Format is no code: it says which elements a block is a sequence of and what they expand to, and
-- both sides are proved against it. Common has the shared helpers.
--
-- How the code is translated: a buffer is the list of its bytes, and a pointer into it is a
-- position. The output of the compressor is the list of the bytes before `op`, together with how far
-- a byte was written, since the fast path of `EmitLiteral` writes past `op`. The optimised decoder has
-- its buffers whole, with what they hold at the start. A `uint32_t` has its wrap-around written out
-- where it can occur; in the byte-wise decoder, for 32-bit ARM, so has the sum of a pointer and the
-- length of a literal (`Space`). In the optimised decoder such sums take no part in a check; elsewhere
-- a pointer plus a length does not wrap. The compressor answers
-- `none`, and the decompressor `fault`, for an access outside a buffer, and `err` for an error that
-- the code returns.
--
-- Fuel: the loops of the compressor have fuel from the length of the block, since each round
-- advances the position; the decoders have the length of their input, since each round reads a byte at
-- least. The theorems say that a result is returned, so that the fuel is enough. The loops of
-- `EmitLiteral` over an `int` take four rounds, and those of the header five.
--
-- What is a parameter: `FindMatchLength` is an interface (`Matcher`) to the optimised compressor, filled
-- by each of its three variants; a compressor of blocks is one (`BlockCompressor`) to `csnappy_compress`,
-- filled by both compressors; a decoder of blocks is one (`BlockDecoder`) to `csnappy_decompress`,
-- filled by both decoders; and an entry of `compressors[]` is one (`Codec`) to block_compressor. The
-- calls of LZO and zlib, which calls of malloc succeed, what a fresh buffer holds and what getopt
-- answers are parameters too. The loads in the compressor and the optimised decoder are those of a
-- little-endian machine, and `UnalignedCopy64` in the decoder is the one with words of 64 bits.
--
-- What is not modelled: the choice among variants by macros; the messages of the programs, and
-- failures of the calls of the operating system other than malloc in cl_tester.c and fopen;
-- unaligned_test.c, which measures loads; the Python scripts, which are a second implementation in
-- another language; the patches of other projects, the build files and the data.
pub mod Common
pub mod Varint
pub mod Format
pub mod Words
pub mod Emit
pub mod SimpleEmit
pub mod Match
pub mod SimpleFragment
pub mod Tester
pub mod Pages
pub mod LowBit
pub mod Fragment
pub mod Compress
pub mod Writer
pub mod Portable
pub mod CharTable
pub mod FastDecoder
pub mod ByteDecoder
pub mod Decompress
