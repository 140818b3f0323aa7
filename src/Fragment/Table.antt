-- ===== src/Fragment/Table.antt =====
-- The hash table: every hash is an index of it, and every entry is an earlier position.
use csnappy.Common.{
  ℕ, zero, suc, ◌+◌, ◌-◌, ◌%◌, ◌^◌, ◌≤◌, ◌<◌, ◌≡◌, arith, ◌∙◌, List, length, set, length-set,
  replicate, length-replicate, All, All-set, All-replicate, get_elem?, get_elem?-All, some, lt→ltb,
  [], ◌∷◌,
}
use csnappy.Words.{le_value, part}
use csnappy.Words.Loads.{load32_lem}
use csnappy.Fragment.{hash_bytes, hash, put_table}

pub record IsTable (size limit : ℕ) (table : List ℕ) : Type 0 where
  pub full : length table ≡ size
  pub earlier : All (λ v. v < limit) table

-- What the caller's `workmem_bytes_power_of_two` may be.
pub record IsPower (power : ℕ) : Type 0 where
  pub at_least : 9 ≤ power
  pub at_most : power ≤ 16

hash_bytes_from_nine : (k v : ℕ) → k ≤ 7 → hash_bytes v (33 - (k + 9)) < 2 ^ (k + 9 - 1)
unfolding hash_bytes
hash_bytes_from_nine zero v h = omega arith
hash_bytes_from_nine (suc zero) v h = omega arith
hash_bytes_from_nine (suc (suc zero)) v h = omega arith
hash_bytes_from_nine (suc (suc (suc zero))) v h = omega arith
hash_bytes_from_nine (suc (suc (suc (suc zero)))) v h = omega arith
hash_bytes_from_nine (suc (suc (suc (suc (suc zero))))) v h = omega arith
hash_bytes_from_nine (suc (suc (suc (suc (suc (suc zero)))))) v h = omega arith
hash_bytes_from_nine (suc (suc (suc (suc (suc (suc (suc zero))))))) v h = omega arith
hash_bytes_from_nine (suc (suc (suc (suc (suc (suc (suc (suc k)))))))) v h = absurd (omega arith)

-- For a table of `2 ^ power` bytes, with `power` from 9 to 16, `HashBytes` of any word with the shift
-- that `csnappy_compress_fragment` takes is an index of the table.
pub hash_bytes-lt : (power v : ℕ) → IsPower power → hash_bytes v (33 - power) < 2 ^ (power - 1)
hash_bytes-lt power v h =
    let e : power - 9 + 9 ≡ power = omega arith in
    rw e at (hash_bytes_from_nine (power - 9) v (omega arith))

pub fresh-IsTable : (size limit : ℕ) → 0 < limit → IsTable size limit (replicate size 0)
fresh-IsTable size limit h = record {
  full = length-replicate size 0;
  earlier = All-replicate (λ v. v < limit) size 0 h;
}

pub get-IsTable :
    {size limit : ℕ} {table : List ℕ} (h : ℕ)
    → IsTable size limit table
    → h < size
    → (v : ℕ) × (get_elem? table h ≡ some v) × (v < limit)
get-IsTable {limit = limit} {table} h t lt =
    get_elem?-All (λ v. v < limit) table h t.earlier (omega (arith, t.full))

All-lt_mono : (p q : ℕ) (xs : List ℕ) → p ≤ q → All (λ v. v < p) xs → All (λ v. v < q) xs
All-lt_mono p q [] h a = tt
All-lt_mono p q (x ∷ xs) h a = (omega (arith, a.0), All-lt_mono p q xs h a.1)

pub IsTable-later :
    {size : ℕ} {table : List ℕ} (p q : ℕ) → IsTable size p table → p ≤ q → IsTable size q table
IsTable-later {table = table} p q t h = record {
  full = t.full;
  earlier = All-lt_mono p q table h t.earlier;
}

-- A write within the table succeeds; the entry is the position, which 16 bits hold.
pub put-IsTable :
    {size limit : ℕ} {table : List ℕ} (h v limit' : ℕ)
    → IsTable size limit table
    → h < size
    → limit ≤ limit'
    → v < limit'
    → (t : List ℕ) × (put_table table h v ≡ some t) × IsTable size limit' t
unfolding put_table
put-IsTable {size} {limit} {table} h v limit' t lt le vlt = (
  set table h (v % 2 ^ 16),
  rw (lt→ltb h (length table) (omega (arith, t.full))),
  record {
    full = length-set table h _ ∙ t.full;
    earlier =
        All-set (λ x. x < limit') table h _ (omega arith)
          (All-lt_mono limit limit' table le t.earlier);
  },
)

-- Hashing a word inside the input.
pub hash_lem :
    (input : List ℕ) (p power : ℕ)
    → p + 4 ≤ length input
    → IsPower power
    → (h : ℕ) × (hash input p (33 - power) ≡ some h) × (h < 2 ^ (power - 1))
unfolding hash
hash_lem input p power fits ok = (
  hash_bytes (le_value (part input p 4)) (33 - power),
  rw (load32_lem input p fits),
  hash_bytes-lt power _ ok,
)
