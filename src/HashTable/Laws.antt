-- ===== src/HashTable/Laws.antt =====
-- The hash table as a multimap: what insertion and deletion do to the entries under every key.
use bf.Base.{
  ℕ, ◌<◌, ◌%◌, ◌≡◌, refl, sym, ◌∙◌, Bool, true, false, List, [], ◌∷◌, none, length, get_or, take,
  head?, tail, filter, erase_first, All, length-set, get_or-set, take-length, length-replicate,
  find-head?, All-mono, All-set, All-get_or, All-replicate, All-erase_first, if◌then◌else◌, ◌==◌,
  ==_refl, ==_iff, Bool-cases, Option-cases, inl, inr, arith,
}
use bf.Base.Bytes.{memcmp_zero, eq_of_memcmp_zero}
use native.Mathlib.Nat.{mod-lt}
use bf.Hash.{hash}
use bf.HashTable.{
  HashEntry, HashTable, hash_table_hash_code, hash_entry_init, hash_table_init, hash_table_insert,
  entry_matches, hash_table_lookup_key, hash_table_del_key, hash_table_del_key_safe, held, IsEntry,
  IsBucket, IsTable,
}

pub hash_code-lt :
    (h : HashTable) (k : List ℕ) (n : ℕ) → IsTable h → hash_table_hash_code h k n < length h.table
unfolding hash_table_hash_code
hash_code-lt h k n v = grind (arith, mod-lt, v.all_buckets, v.some_bucket)

-- A lookup finds the newest entry under the key.
pub lookup-held :
    (h : HashTable) (k : List ℕ) (n : ℕ) → hash_table_lookup_key h k n ≡ head? (held h k n)
unfolding hash_table_lookup_key
lookup-held h k n = find-head? (entry_matches k n) _

module _ {ℓ} {A : Type ℓ} (p : A → Bool) where
  pub filter-erase_first_self : (xs : List A) → filter p (erase_first p xs) ≡ tail (filter p xs)
  filter-erase_first_self [] = refl
  filter-erase_first_self (x ∷ xs) = ground (arith, filter-erase_first_self xs)

  pub filter-erase_first_apart :
      (q : A → Bool) (xs : List A)
      → All (λ x. p x ≡ true → q x ≡ false) xs
      → filter q (erase_first p xs) ≡ filter q xs
  filter-erase_first_apart q [] h = refl
  filter-erase_first_apart q (x ∷ xs) h = ground (arith, h.0, filter-erase_first_apart q xs h.1)

tail_of_none {ℓ} : {A : Type ℓ} (xs : List A) → head? xs ≡ none → tail xs ≡ xs
tail_of_none [] h = refl
tail_of_none (x ∷ xs) h = cc

-- Keys of one length that compare equal are one key.
module _ (k j : List ℕ) (n : ℕ) (len_k : length k ≡ n) (len_j : length j ≡ n) where
  same_key : memcmp_zero k j n ≡ true → k ≡ j
  same_key = eq_of_memcmp_zero k j n len_k len_j

  matches_apart :
      (e : HashEntry)
      → IsEntry e
      → memcmp_zero k j n ≡ false
      → entry_matches k n e ≡ true
      → entry_matches j n e ≡ false
  unfolding entry_matches
  matches_apart e v differ hit = elim (Bool-cases (entry_matches j n e)) [
    | inr miss ↦ miss
    | inl also ↦
        let ek : e.keylen ≡ n = ground arith in
        let a : memcmp_zero e.key k n ≡ true = ground arith in
        let b : memcmp_zero e.key j n ≡ true = ground arith in
        let p = eq_of_memcmp_zero e.key k n (v.key_len ∙ ek) len_k a in cc (rw p at b)
  ]

-- Insertion puts the entry in front of those under its key, and leaves every other key alone.
pub held-insert :
    (h : HashTable) (node : ℕ) (k j : List ℕ) (n : ℕ)
    → length k ≡ n
    → length j ≡ n
    → IsTable h
    → held (hash_table_insert h node k n) j n
      ≡ (if memcmp_zero k j n then hash_entry_init node k n ∷ held h j n else held h j n)
unfolding hash_table_insert hash_entry_init hash_table_hash_code
held-insert h node k j n len_k len_j v =
    let entry = hash_entry_init node k n in
    let at_k = hash k n % h.buckets in
    let at_j = hash j n % h.buckets in
    let old = get_or h.table at_k [] in
    let stored : take n k ≡ k = rw (← len_k) (take-length k) in
    let write = get_or-set h.table at_k at_j (entry ∷ old) [] (hash_code-lt h k n v) in
    elim (Bool-cases (memcmp_zero k j n)) [
      | inl same ↦
          let p = same_key k j n len_k len_j same in
          let hit : (at_k == at_j) ≡ true = rw p (==_refl _) in
          let meets : entry_matches j n entry ≡ true =
            unfold entry_matches in rw (stored, same, ==_refl n) in
          rw (same, write, hit, meets) (rw p)
      | inr differ ↦
          let meets : entry_matches j n entry ≡ false =
            unfold entry_matches in rw (stored, differ, ==_refl n) in
          elim (Bool-cases (at_k == at_j)) [
            | inl hit ↦ rw (differ, write, hit, meets, (==_iff at_k at_j).0 hit)
            | inr miss ↦ rw (differ, write, miss)
          ]
    ]

-- Deletion takes the newest entry from under its key, and leaves every other key alone.
pub held-del :
    (h : HashTable) (k j : List ℕ) (n : ℕ)
    → length k ≡ n
    → length j ≡ n
    → IsTable h
    → held (hash_table_del_key_safe h k n).1 j n
      ≡ (if memcmp_zero k j n then tail (held h j n) else held h j n)
unfolding hash_table_del_key_safe hash_table_lookup_key hash_table_hash_code
held-del h k j n len_k len_j v =
    let at_k = hash k n % h.buckets in
    let at_j = hash j n % h.buckets in
    let old = get_or h.table at_k [] in
    let write =
      get_or-set h.table at_k at_j (erase_first (entry_matches k n) old) []
        (hash_code-lt h k n v) in
    elim (Option-cases (hash_table_lookup_key h k n)) [
      | inl absent ↦ elim (Bool-cases (memcmp_zero k j n)) [
        | inl same ↦
            let p = same_key k j n len_k len_j same in
            let nothing : head? (held h j n) ≡ none = rw (← p) (sym (lookup-held h k n) ∙ absent) in
            rw (absent, hash_table_del_key, same) (sym (tail_of_none _ nothing))
        | inr differ ↦ rw (absent, hash_table_del_key, differ)
      ]
      | inr (x, present) ↦ elim (Bool-cases (memcmp_zero k j n)) [
        | inl same ↦
            let p = same_key k j n len_k len_j same in
            let hit : (at_k == at_j) ≡ true = rw p (==_refl _) in
            rw (present, hash_table_del_key, same, write, hit)
              (rw p (filter-erase_first_self (entry_matches j n) _))
        | inr differ ↦ elim (Bool-cases (at_k == at_j)) [
          | inl hit ↦
              rw (present, hash_table_del_key, differ, write, hit, ← (==_iff at_k at_j).0 hit)
                (filter-erase_first_apart (entry_matches k n) (entry_matches j n) old (
                  All-mono IsEntry _ old (λ e u. matches_apart k j n len_k len_j e u differ)
                    (All-get_or IsBucket h.table at_k [] v.entries tt)))
          | inr miss ↦ rw (present, hash_table_del_key, differ, write, miss)
        ]
      ]
    ]

pub init-IsTable : (b : ℕ) → 0 < b → IsTable (hash_table_init b)
unfolding hash_table_init
init-IsTable b h = record {
  some_bucket = h;
  all_buckets = length-replicate b [];
  entries = All-replicate IsBucket b [] tt;
}

pub insert-IsTable :
    (h : HashTable) (node : ℕ) (k : List ℕ) (n : ℕ)
    → length k ≡ n
    → IsTable h
    → IsTable (hash_table_insert h node k n)
unfolding hash_table_insert hash_entry_init
insert-IsTable h node k n len_k v = record {
  some_bucket = v.some_bucket;
  all_buckets = length-set h.table _ _ ∙ v.all_buckets;
  entries = All-set IsBucket h.table _ _ v.entries (
    record { key_len = rw (← len_k, take-length k) },
    All-get_or IsBucket h.table _ [] v.entries tt,
  );
}

pub del-IsTable :
    (h : HashTable) (k : List ℕ) (n : ℕ) → IsTable h → IsTable (hash_table_del_key_safe h k n).1
unfolding hash_table_del_key_safe
del-IsTable h k n v = elim (Option-cases (hash_table_lookup_key h k n)) [
  | inl e ↦ rw (e, hash_table_del_key) v
  | inr (x, e) ↦
      rw (e, hash_table_del_key)
        (record {
          some_bucket = v.some_bucket;
          all_buckets = length-set h.table _ _ ∙ v.all_buckets;
          entries =
              All-set IsBucket h.table _ _ v.entries
                (All-erase_first IsEntry _ _ (All-get_or IsBucket h.table _ [] v.entries tt));
        })
]
