-- ===== src/HashTable.antt =====
-- bf-ko/base/hash_table.h: the chained hash table of the kernel module. A list of bytes stands for a
-- key's buffer, a list of entries for a bucket's linked list, and the address of the structure that
-- holds an entry (what the macro hash_entry computes) for the entry's field `node`.
-- Allocations succeed, as the callers take for granted; locks are left out, since every writer runs
-- under the netlink mutex.
pub mod Laws
pub mod ForEach
use bf.Base.{
  ℕ, zero, suc, ◌%◌, ◌<◌, ◌≡◌, Bool, ◌&&◌, List, [], ◌∷◌, Option, none, some, length, get_or, set,
  take, replicate, find, erase_first, filter, All, ◌==◌,
}
use bf.Base.Bytes.{memcmp_zero}
use bf.Hash.{hash}

pub record HashEntry : Type 0 where
  pub key : List ℕ
  pub keylen : ℕ
  pub node : ℕ

pub record HashTable : Type 0 where
  pub table : List (List HashEntry)
  pub buckets : ℕ

unfoldable pub hash_table_hash_code : HashTable → List ℕ → ℕ → ℕ
hash_table_hash_code t key len = hash key len % t.buckets

unfoldable pub hash_entry_init : ℕ → List ℕ → ℕ → HashEntry
hash_entry_init node str len = record { key = take len str; keylen = len; node = node }

-- Each of the `b` buckets gets an empty list.
unfoldable pub hash_table_init : ℕ → HashTable
hash_table_init b = record { table = replicate b []; buckets = b }

-- `list_add` puts the new entry at the head of its bucket.
unfoldable pub hash_table_insert : HashTable → ℕ → List ℕ → ℕ → HashTable
unfolding hash_entry_init
hash_table_insert h node key len =
    let n = hash_table_hash_code h key len in
    record h { table = set h.table n (hash_entry_init node key len ∷ get_or h.table n []) }

-- The test in the loop of hash_table_lookup_key, with memcmp for `keycmp`.
unfoldable pub entry_matches : List ℕ → ℕ → HashEntry → Bool
entry_matches str len e = e.keylen == len && memcmp_zero e.key str e.keylen

unfoldable pub hash_table_lookup_key : HashTable → List ℕ → ℕ → Option HashEntry
hash_table_lookup_key h str len =
    find (entry_matches str len) (get_or h.table (hash_table_hash_code h str len) [])

-- `list_del_init` unlinks the entry that the lookup found, the first that matches.
unfoldable pub hash_table_del_key : HashTable → List ℕ → ℕ → Option HashEntry × HashTable
hash_table_del_key h str len = elim (hash_table_lookup_key h str len) [
  | none ↦ (none, h)
  | some e ↦
      let n = hash_table_hash_code h str len in
      (
        some e,
        record h {
          table = set h.table n (erase_first (entry_matches str len) (get_or h.table n []));
        },
      )
]

-- hash_table_del_key_safe is the same body between the lock and the unlock of the bucket.
unfoldable pub hash_table_del_key_safe : HashTable → List ℕ → ℕ → Option HashEntry × HashTable
unfolding hash_table_del_key
hash_table_del_key_safe h str len = hash_table_del_key h str len

-- The comparison that hash_table_lookup_key_safe makes instead: it has no test of the lengths.
unfoldable pub entry_matches_safe : List ℕ → HashEntry → Bool
entry_matches_safe str e = memcmp_zero e.key str e.keylen

unfoldable pub hash_table_lookup_key_safe : HashTable → List ℕ → ℕ → Option HashEntry
hash_table_lookup_key_safe h str len =
    find (entry_matches_safe str) (get_or h.table (hash_table_hash_code h str len) [])

-- hash_table_hash_code_safe computes the same between the lock and the unlock of the table.
unfoldable pub hash_table_hash_code_safe : HashTable → List ℕ → ℕ → ℕ
unfolding hash_table_hash_code
hash_table_hash_code_safe t key len = hash_table_hash_code t key len

unfoldable pub hash_table_insert_safe : HashTable → ℕ → List ℕ → ℕ → HashTable
unfolding hash_entry_init hash_table_hash_code_safe
hash_table_insert_safe h node key len =
    let n = hash_table_hash_code_safe h key len in
    record h { table = set h.table n (hash_entry_init node key len ∷ get_or h.table n []) }

unfoldable pub hash_table_lookup_hash_entry : HashTable → HashEntry → Option HashEntry
unfolding hash_table_lookup_key
hash_table_lookup_hash_entry h e = hash_table_lookup_key h e.key e.keylen

unfoldable pub hash_table_lookup_hash_entry_safe : HashTable → HashEntry → Option HashEntry
unfolding hash_table_lookup_key_safe
hash_table_lookup_hash_entry_safe h e = hash_table_lookup_key_safe h e.key e.keylen

unfoldable pub hash_table_del_hash_entry : HashTable → HashEntry → Option HashEntry × HashTable
unfolding hash_table_del_key
hash_table_del_hash_entry h e = hash_table_del_key h e.key e.keylen

unfoldable pub hash_table_del_hash_entry_safe : HashTable → HashEntry → Option HashEntry × HashTable
unfolding hash_table_del_key_safe
hash_table_del_hash_entry_safe h e = hash_table_del_key_safe h e.key e.keylen

-- The macros hash_table_for_each and hash_table_for_each_safe, with a body that leaves the table as it
-- is: the loop over a bucket, and the one over the buckets from the i-th on, of which `n` are left.
unfoldable pub for_bucket {ℓ} : {S : Type ℓ} → (S → HashEntry → S) → S → List HashEntry → S
for_bucket body s [] = s
for_bucket body s (hentry ∷ rest) = for_bucket body (body s hentry) rest

unfoldable pub for_buckets {ℓ} : {S : Type ℓ} → (S → HashEntry → S) → HashTable → ℕ → ℕ → S → S
unfolding for_bucket
for_buckets body h i zero s = s
for_buckets body h i (suc n) s =
    for_buckets body h (suc i) n (for_bucket body s (get_or h.table i []))

unfoldable pub hash_table_for_each {ℓ} : {S : Type ℓ} → (S → HashEntry → S) → HashTable → S → S
unfolding for_buckets
hash_table_for_each body h s = for_buckets body h 0 h.buckets s

-- The entries under a key, newest first: what the table holds, seen from outside.
abbrev pub held : HashTable → List ℕ → ℕ → List HashEntry
held h str len = filter (entry_matches str len) (get_or h.table (hash_table_hash_code h str len) [])

-- An entry's buffer has the length that it was made with.
pub record IsEntry (e : HashEntry) : Type 0 where
  pub key_len : length e.key ≡ e.keylen

abbrev pub IsBucket : List HashEntry → Type 0
IsBucket b = All IsEntry b

pub record IsTable (h : HashTable) : Type 0 where
  pub some_bucket : 0 < h.buckets
  pub all_buckets : length h.table ≡ h.buckets
  pub entries : All IsBucket h.table
