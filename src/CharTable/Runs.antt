-- ===== src/CharTable/Runs.antt =====
-- Entries of the table, and the theorem at one of them.
use csnappy.Common.{◌≡◌, refl, arith, get_elem?, some}
use csnappy.CharTable.{char_table, entry, char_table-entry}

-- A copy of 11 bytes with an offset of 7 * 256 and the byte that follows.
copy_entry : get_elem? char_table 0xfd ≡ some 0x0f0b
unfolding char_table
copy_entry = refl

char_table-entry_example : get_elem? char_table 0xfd ≡ some (entry 0xfd)
char_table-entry_example = char_table-entry 0xfd (omega arith)
