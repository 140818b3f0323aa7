-- ===== src/CharTable.antt =====
-- The table of the optimised decoder of csnappy_decompress.c, from a tag to the length in the low eight
-- bits, the high bits of the offset in the next three, and above them the number of bytes that follow.
mod Runs
use csnappy.Common.{
  ℕ, zero, suc, ◌+◌, ◌-◌, ◌*◌, ◌/◌, ◌%◌, ◌<◌, ◌≡◌, arith, refl, ap, List, [], ◌∷◌, length,
  get_elem?, some, ltb, ◌==◌, Bool, true, false, ◌&&◌, tests, and-left, and-right, if◌then◌else◌,
}

unfoldable pub char_table : List ℕ
char_table =
    0x0001 ∷ 0x0804 ∷ 0x1001 ∷ 0x2001 ∷ 0x0002 ∷ 0x0805 ∷ 0x1002 ∷ 0x2002 ∷ 0x0003 ∷ 0x0806 ∷ 0x1003
    ∷ 0x2003 ∷ 0x0004 ∷ 0x0807 ∷ 0x1004 ∷ 0x2004 ∷ 0x0005 ∷ 0x0808 ∷ 0x1005 ∷ 0x2005 ∷ 0x0006
    ∷ 0x0809 ∷ 0x1006 ∷ 0x2006 ∷ 0x0007 ∷ 0x080a ∷ 0x1007 ∷ 0x2007 ∷ 0x0008 ∷ 0x080b ∷ 0x1008
    ∷ 0x2008 ∷ 0x0009 ∷ 0x0904 ∷ 0x1009 ∷ 0x2009 ∷ 0x000a ∷ 0x0905 ∷ 0x100a ∷ 0x200a ∷ 0x000b
    ∷ 0x0906 ∷ 0x100b ∷ 0x200b ∷ 0x000c ∷ 0x0907 ∷ 0x100c ∷ 0x200c ∷ 0x000d ∷ 0x0908 ∷ 0x100d
    ∷ 0x200d ∷ 0x000e ∷ 0x0909 ∷ 0x100e ∷ 0x200e ∷ 0x000f ∷ 0x090a ∷ 0x100f ∷ 0x200f ∷ 0x0010
    ∷ 0x090b ∷ 0x1010 ∷ 0x2010 ∷ 0x0011 ∷ 0x0a04 ∷ 0x1011 ∷ 0x2011 ∷ 0x0012 ∷ 0x0a05 ∷ 0x1012
    ∷ 0x2012 ∷ 0x0013 ∷ 0x0a06 ∷ 0x1013 ∷ 0x2013 ∷ 0x0014 ∷ 0x0a07 ∷ 0x1014 ∷ 0x2014 ∷ 0x0015
    ∷ 0x0a08 ∷ 0x1015 ∷ 0x2015 ∷ 0x0016 ∷ 0x0a09 ∷ 0x1016 ∷ 0x2016 ∷ 0x0017 ∷ 0x0a0a ∷ 0x1017
    ∷ 0x2017 ∷ 0x0018 ∷ 0x0a0b ∷ 0x1018 ∷ 0x2018 ∷ 0x0019 ∷ 0x0b04 ∷ 0x1019 ∷ 0x2019 ∷ 0x001a
    ∷ 0x0b05 ∷ 0x101a ∷ 0x201a ∷ 0x001b ∷ 0x0b06 ∷ 0x101b ∷ 0x201b ∷ 0x001c ∷ 0x0b07 ∷ 0x101c
    ∷ 0x201c ∷ 0x001d ∷ 0x0b08 ∷ 0x101d ∷ 0x201d ∷ 0x001e ∷ 0x0b09 ∷ 0x101e ∷ 0x201e ∷ 0x001f
    ∷ 0x0b0a ∷ 0x101f ∷ 0x201f ∷ 0x0020 ∷ 0x0b0b ∷ 0x1020 ∷ 0x2020 ∷ 0x0021 ∷ 0x0c04 ∷ 0x1021
    ∷ 0x2021 ∷ 0x0022 ∷ 0x0c05 ∷ 0x1022 ∷ 0x2022 ∷ 0x0023 ∷ 0x0c06 ∷ 0x1023 ∷ 0x2023 ∷ 0x0024
    ∷ 0x0c07 ∷ 0x1024 ∷ 0x2024 ∷ 0x0025 ∷ 0x0c08 ∷ 0x1025 ∷ 0x2025 ∷ 0x0026 ∷ 0x0c09 ∷ 0x1026
    ∷ 0x2026 ∷ 0x0027 ∷ 0x0c0a ∷ 0x1027 ∷ 0x2027 ∷ 0x0028 ∷ 0x0c0b ∷ 0x1028 ∷ 0x2028 ∷ 0x0029
    ∷ 0x0d04 ∷ 0x1029 ∷ 0x2029 ∷ 0x002a ∷ 0x0d05 ∷ 0x102a ∷ 0x202a ∷ 0x002b ∷ 0x0d06 ∷ 0x102b
    ∷ 0x202b ∷ 0x002c ∷ 0x0d07 ∷ 0x102c ∷ 0x202c ∷ 0x002d ∷ 0x0d08 ∷ 0x102d ∷ 0x202d ∷ 0x002e
    ∷ 0x0d09 ∷ 0x102e ∷ 0x202e ∷ 0x002f ∷ 0x0d0a ∷ 0x102f ∷ 0x202f ∷ 0x0030 ∷ 0x0d0b ∷ 0x1030
    ∷ 0x2030 ∷ 0x0031 ∷ 0x0e04 ∷ 0x1031 ∷ 0x2031 ∷ 0x0032 ∷ 0x0e05 ∷ 0x1032 ∷ 0x2032 ∷ 0x0033
    ∷ 0x0e06 ∷ 0x1033 ∷ 0x2033 ∷ 0x0034 ∷ 0x0e07 ∷ 0x1034 ∷ 0x2034 ∷ 0x0035 ∷ 0x0e08 ∷ 0x1035
    ∷ 0x2035 ∷ 0x0036 ∷ 0x0e09 ∷ 0x1036 ∷ 0x2036 ∷ 0x0037 ∷ 0x0e0a ∷ 0x1037 ∷ 0x2037 ∷ 0x0038
    ∷ 0x0e0b ∷ 0x1038 ∷ 0x2038 ∷ 0x0039 ∷ 0x0f04 ∷ 0x1039 ∷ 0x2039 ∷ 0x003a ∷ 0x0f05 ∷ 0x103a
    ∷ 0x203a ∷ 0x003b ∷ 0x0f06 ∷ 0x103b ∷ 0x203b ∷ 0x003c ∷ 0x0f07 ∷ 0x103c ∷ 0x203c ∷ 0x0801
    ∷ 0x0f08 ∷ 0x103d ∷ 0x203d ∷ 0x1001 ∷ 0x0f09 ∷ 0x103e ∷ 0x203e ∷ 0x1801 ∷ 0x0f0a ∷ 0x103f
    ∷ 0x203f ∷ 0x2001 ∷ 0x0f0b ∷ 0x1040 ∷ 0x2040 ∷ []

-- What the format says of a tag: its length, the high part of its offset and the number of bytes that
-- follow, in the places of the table. The length of a long literal is in the bytes that follow.
unfoldable pub entry : ℕ → ℕ
entry tag =
    if tag % 4 == 0
    then (if ltb (tag / 4) 60 then tag / 4 + 1 else (tag / 4 - 59) * 2048 + 1)
    else if tag % 4 == 1
    then tag / 4 % 8 + 4 + tag / 32 * 256 + 2048
    else if tag % 4 == 2
    then tag / 4 + 1 + 4096
    else tag / 4 + 1 + 8192

-- The entries from `tag` on.
agree : ℕ → List ℕ → Bool
unfolding entry
agree tag [] = true
agree tag (x ∷ xs) = x == entry tag && agree (suc tag) xs

agree-get :
    (tag i j : ℕ) (xs : List ℕ)
    → agree tag xs ≡ true
    → i < length xs
    → tag + i ≡ j
    → get_elem? xs i ≡ some (entry j)
unfolding agree
agree-get tag i j [] e h s = absurd (omega arith)
agree-get tag zero j (x ∷ xs) e h s =
    let same : x ≡ entry tag = omega (tests, and-left (x == entry tag) (agree (suc tag) xs) e) in
    let here : tag ≡ j = omega arith in ap (λ (t : ℕ). some t) (rw here at same)
agree-get tag (suc i) j (x ∷ xs) e h s =
    agree-get (suc tag) i j xs (and-right (x == entry tag) (agree (suc tag) xs) e) (omega arith)
      (omega arith)

all_agree : agree 0 char_table ≡ true
unfolding agree char_table entry
all_agree = refl

all_entries : length char_table ≡ 256
unfolding char_table
all_entries = refl

-- For every tag of eight bits the table has the length, the high part of the offset and the number of
-- extra bytes that the format gives it.
pub char_table-entry : (tag : ℕ) → tag < 256 → get_elem? char_table tag ≡ some (entry tag)
char_table-entry tag h =
    agree-get 0 tag tag char_table all_agree (omega (arith, all_entries)) (omega arith)
