-- ===== src/Compress/Compressors.antt =====
-- The two compressors of csnappy_compress.c as block compressors.
use csnappy.Common.{◌<◌, arith, length-take, take, All-take}
use csnappy.Match.{Matcher}
use csnappy.Fragment
use csnappy.Fragment.Blocks.{compress_fragment-IsCompressed}
use csnappy.SimpleFragment
use csnappy.SimpleFragment.Blocks.{simple_fragment-IsCompressed}
use csnappy.Compress.{BlockCompressor}

-- The optimised one reads nothing behind its block.
abbrev pub fast_compressor : Matcher → BlockCompressor
fast_compressor m = record {
  margin = 0;
  compress_fragment = λ memory n out power. Fragment.compress_fragment m (take n memory) out power;
  compresses = λ prefix memory n start power ok bytes block fits.
      compress_fragment-IsCompressed m prefix (take n memory) start power ok
        (All-take (λ b. b < 256) n memory bytes) (omega (arith, length-take n memory));
}

-- The one for ARM without unaligned access.
abbrev pub simple_compressor : BlockCompressor
simple_compressor = record {
  margin = 2;
  compress_fragment = SimpleFragment.compress_fragment;
  compresses = λ prefix memory n start power ok bytes block fits.
      simple_fragment-IsCompressed prefix memory n start power ok bytes block fits;
}
