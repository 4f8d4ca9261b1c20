-- ===== src/HashTable/ForEach.antt =====
-- The loops over a whole table, and the invariant that every entry lies in the bucket of its key.
use bf.Base.{
  All-get_or, append-nil, zero, ℕ, zero, suc, ◌+◌, ◌<◌, ◌%◌, ◌≡◌, refl, sym, ◌∙◌, Bool, true, false,
  List, [], ◌∷◌, ◌++◌, length, get_or, take, erase_first, filter, filter-append, All,
  All-erase_first, get_or-set, get_or-replicate, take-length, if◌then◌else◌, ltb, not, ◌&&◌, ◌==◌,
  ==_iff, Bool-cases, Option-cases, inl, inr, if_cases, arith,
}
use bf.Base.Bytes.{memcmp_zero, eq_of_memcmp_zero}
use bf.Hash.{hash}
use bf.HashTable.{
  HashEntry, HashTable, hash_table_hash_code, hash_entry_init, hash_table_init, hash_table_insert,
  entry_matches, hash_table_lookup_key, hash_table_del_key, hash_table_del_key_safe, held, IsEntry,
  IsBucket, IsTable, for_bucket, for_buckets, hash_table_for_each,
}
use bf.HashTable.Laws.{hash_code-lt}
use mathlib.Core.List.{foldl}
use mathlib.Core.Path.{ap₂, subst}

-- The bucket of an entry's key
abbrev home : HashTable → HashEntry → ℕ
home h e = hash_table_hash_code h e.key e.keylen

-- Every entry lies in the bucket of its key.
pub IsPlaced : HashTable → Type 0
IsPlaced h = (i : ℕ) → All (λ e. home h e ≡ i) (get_or h.table i [])

pub init-IsPlaced : (b : ℕ) → IsPlaced (hash_table_init b)
unfolding hash_table_init IsPlaced
init-IsPlaced b i = rw (get_or-replicate {A = List HashEntry} b i []) tt

pub insert-IsPlaced :
    (h : HashTable) (node : ℕ) (k : List ℕ) (n : ℕ)
    → length k ≡ n
    → IsTable h
    → IsPlaced h
    → IsPlaced (hash_table_insert h node k n)
unfolding hash_table_insert hash_entry_init IsPlaced hash_table_hash_code
insert-IsPlaced h node k n len_k v placed i =
    let entry = hash_entry_init node k n in
    let at_k = hash k n % h.buckets in
    let stored : take n k ≡ k = rw (← len_k) (take-length k) in
    let P : List HashEntry → Type 0 = All (λ e. home h e ≡ i) in
    let write =
      get_or-set h.table at_k i (entry ∷ get_or h.table at_k []) [] (hash_code-lt h k n v) in
    subst P (sym write) (
      if_cases P (at_k == i) (λ e. let p = (==_iff at_k i).0 e in (rw stored p, rw p (placed i)))
        (λ e. placed i))

pub del-IsPlaced :
    (h : HashTable) (k : List ℕ) (n : ℕ)
    → IsTable h
    → IsPlaced h
    → IsPlaced (hash_table_del_key_safe h k n).1
unfolding hash_table_del_key_safe IsPlaced hash_table_hash_code
del-IsPlaced h k n v placed i = elim (Option-cases (hash_table_lookup_key h k n)) [
  | inl e ↦ rw (e, hash_table_del_key) (placed i)
  | inr (x, e) ↦
      let at_k = hash k n % h.buckets in
      let P : List HashEntry → Type 0 = All (λ e. home h e ≡ i) in
      let rest = erase_first (entry_matches k n) (get_or h.table at_k []) in
      let write = get_or-set h.table at_k i rest [] (hash_code-lt h k n v) in
      rw (e, hash_table_del_key)
        (subst P (sym write) (
          if_cases P (at_k == i)
            (λ e'.
              let p = (==_iff at_k i).0 e' in
              All-erase_first (λ x. home h x ≡ i) (entry_matches k n) (get_or h.table at_k [])
                (rw p (placed i)))
            (λ e'. placed i)))
]

-- The entries from the i-th bucket on.
abbrev entries_from : HashTable → ℕ → ℕ → List HashEntry
entries_from h i zero = []
entries_from h i (suc n) = get_or h.table i [] ++ entries_from h (suc i) n

module _ {ℓ} {S : Type ℓ} (body : S → HashEntry → S) where
  for_bucket-append :
      (s : S) (xs ys : List HashEntry)
      → for_bucket body s (xs ++ ys) ≡ for_bucket body (for_bucket body s xs) ys
  unfolding for_bucket
  for_bucket-append s [] ys = refl
  for_bucket-append s (x ∷ xs) ys = for_bucket-append (body s x) xs ys

  for_bucket-foldl : (s : S) (xs : List HashEntry) → for_bucket body s xs ≡ foldl body s xs
  unfolding for_bucket
  for_bucket-foldl s [] = refl
  for_bucket-foldl s (x ∷ xs) = for_bucket-foldl (body s x) xs

  for_buckets-entries :
      (h : HashTable) (i n : ℕ) (s : S)
      → for_buckets body h i n s ≡ for_bucket body s (entries_from h i n)
  unfolding for_buckets for_bucket
  for_buckets-entries h i zero s = refl
  for_buckets-entries h i (suc n) s =
      for_buckets-entries h (suc i) n (for_bucket body s (get_or h.table i []))
      ∙ sym (for_bucket-append s (get_or h.table i []) (entries_from h (suc i) n))

filter-none {ℓ} :
    {A : Type ℓ} (p : A → Bool) (xs : List A) → All (λ x. p x ≡ false) xs → filter p xs ≡ []
filter-none p [] h = refl
filter-none p (x ∷ xs) h = rw h.0 (filter-none p xs h.1)

module _ (h : HashTable) (placed : IsPlaced h) (v : IsTable h) (k : List ℕ) (n : ℕ)
    (len_k : length k ≡ n) where
  abbrev at_k : ℕ
  at_k = hash_table_hash_code h k n

  -- An entry that matches a key has the bucket of the key.
  home-matches : (e : HashEntry) → IsEntry e → entry_matches k n e ≡ true → home h e ≡ at_k
  unfolding entry_matches
  home-matches e u m =
      let ek : e.keylen ≡ n = ground arith in
      let a : memcmp_zero e.key k n ≡ true = ground arith in
      let p : e.key ≡ k = eq_of_memcmp_zero e.key k n (u.key_len ∙ ek) len_k a in rw (p, ek)

  bucket-apart :
      (i : ℕ) (xs : List HashEntry)
      → (i == at_k) ≡ false
      → All IsEntry xs
      → All (λ e. home h e ≡ i) xs
      → All (λ e. entry_matches k n e ≡ false) xs
  bucket-apart i [] d u w = tt
  bucket-apart i (e ∷ xs) d u w = (
    elim (Bool-cases (entry_matches k n e)) [
      | inr miss ↦ miss
      | inl hit ↦ let p = home-matches e u.0 hit in absurd (ground (arith, w.0))
    ],
    bucket-apart i xs d u.1 w.1,
  )

  bucket-matches :
      (i : ℕ)
      → filter (entry_matches k n) (get_or h.table i []) ≡ (if i == at_k then held h k n else [])
  unfolding IsPlaced
  bucket-matches i = elim (Bool-cases (i == at_k)) [
    | inl here ↦ rw (here, (==_iff i at_k).0 here)
    | inr apart ↦ rw apart (
        filter-none (entry_matches k n) (get_or h.table i []) (
          bucket-apart i (get_or h.table i []) apart (All-get_or IsBucket h.table i [] v.entries tt)
            (placed i)))
  ]

  entries_from-matches :
      (i m : ℕ)
      → filter (entry_matches k n) (entries_from h i m)
        ≡ (if not (ltb at_k i) && ltb at_k (i + m) then held h k n else [])
  entries_from-matches i zero = ground arith
  entries_from-matches i (suc m) =
      filter-append (entry_matches k n) (get_or h.table i []) (entries_from h (suc i) m)
      ∙ (ap₂ (◌++◌) (bucket-matches i) (entries_from-matches (suc i) m)
          ∙ ground (arith, append-nil (held h k n)))

-- The entries of a table, bucket by bucket.
abbrev pub visited : HashTable → List HashEntry
visited h = entries_from h 0 h.buckets

-- Where every entry lies in the bucket of its key, hash_table_for_each runs its body on a list of
-- entries in their order; in it the entries under any key are the ones that the table holds under that
-- key, the newest first, so that the loop misses none and repeats none.
pub hash_table_for_each-held {ℓ} :
    {S : Type ℓ} (h : HashTable) (body : S → HashEntry → S) (s : S) (k : List ℕ) (n : ℕ)
    → IsTable h
    → IsPlaced h
    → length k ≡ n
    → (hash_table_for_each body h s ≡ foldl body s (visited h))
      × (filter (entry_matches k n) (visited h) ≡ held h k n)
unfolding hash_table_for_each
hash_table_for_each-held h body s k n v placed e =
    let lt : hash_table_hash_code h k n < h.buckets =
      omega (arith, hash_code-lt h k n v, v.all_buckets) in
    (
      for_buckets-entries body h 0 h.buckets s ∙ for_bucket-foldl body s (visited h),
      entries_from-matches h placed v k n e 0 h.buckets ∙ ground arith,
    )
