-- ===== src/Store/Owners.antt =====
-- The hash table as an index of the full list: how insertion and deletion keep the two in step.
use bf.Base.{
  ℕ, ◌<◌, ◌≤◌, ◌≡◌, refl, ◌∙◌, true, not, List, [], ◌∷◌, ◌++◌, map, length, head?, tail, filter,
  All, filter-append, append-nil, Bool-cases, inl, inr, if◌then◌else◌, ==_ne, arith,
}
use bf.Rule.{FilterRule, FilterRuleBase, base_bytes, base_size, cmp_rule_zero}
use bf.Rule.Bytes.{length-base_bytes, cmp_rule_zero_comm, cmp_rule_zero_congr}
use bf.HashTable.{HashTable, HashEntry, hash_table_insert, hash_table_del_key_safe, hash_entry_init}
use bf.HashTable.Laws.{lookup-held, held-insert, held-del, insert-IsTable, del-IsTable}
use bf.Store.{
  entry_node, Heap, Store, poke, find_rule, is_node_of, owners, held_nodes, Keyed, delete_keys,
}

pub cmp_congr_right :
    (a b x : FilterRuleBase) → cmp_rule_zero a b ≡ true → cmp_rule_zero x a ≡ cmp_rule_zero x b
cmp_congr_right a b x h =
    cmp_rule_zero_comm x a ∙ (cmp_rule_zero_congr a b x h ∙ cmp_rule_zero_comm b x)

-- Bases that compare equal have the same owners.
pub owners_congr :
    (heap : Heap) (full : List ℕ) (a b : FilterRuleBase)
    → cmp_rule_zero a b ≡ true
    → owners heap full a ≡ owners heap full b
owners_congr heap [] a b h = refl
owners_congr heap (x ∷ full) a b h =
    ground (arith, cmp_congr_right a b (heap x).base h, owners_congr heap full a b h)

-- The table's answer is the first owner in the full list.
pub find_rule-owners :
    (s : Store) (b : FilterRuleBase)
    → Keyed s.heap s.full_list s.map_fr
    → find_rule s b ≡ head? (owners s.heap s.full_list b)
unfolding find_rule
find_rule-owners s b v =
    rw (lookup-held s.map_fr (base_bytes b) base_size, ← v.keyed b) (head_map _)
  where
    head_map :
        (es : List HashEntry) → entry_node (head? es) ≡ head? (map (λ (e : HashEntry). e.node) es)
    head_map [] = refl
    head_map (e ∷ es) = refl

held_nodes-insert :
    (t : HashTable) (node : ℕ) (k b : FilterRuleBase) (heap : Heap) (full : List ℕ)
    → Keyed heap full t
    → held_nodes (hash_table_insert t node (base_bytes k) base_size) b
      ≡ (if cmp_rule_zero k b then node ∷ held_nodes t b else held_nodes t b)
unfolding cmp_rule_zero hash_entry_init
held_nodes-insert t node k b heap full v =
    let e =
      held-insert t node (base_bytes k) (base_bytes b) base_size (length-base_bytes k)
        (length-base_bytes b) v.table in
    rw e (ground arith)

held_nodes-del :
    (t : HashTable) (k b : FilterRuleBase) (heap : Heap) (full : List ℕ)
    → Keyed heap full t
    → held_nodes (hash_table_del_key_safe t (base_bytes k) base_size).1 b
      ≡ (if cmp_rule_zero k b then tail (held_nodes t b) else held_nodes t b)
unfolding cmp_rule_zero
held_nodes-del t k b heap full v =
    let e =
      held-del t (base_bytes k) (base_bytes b) base_size (length-base_bytes k) (length-base_bytes b)
        v.table in
    rw e (ground (arith, tail_map _))
  where
    tail_map :
        (es : List HashEntry)
        → map (λ (e : HashEntry). e.node) (tail es) ≡ tail (map (λ (e : HashEntry). e.node) es)
    tail_map [] = refl
    tail_map (e ∷ es) = refl

-- A write to a node outside the list changes no owner in it.
pub owners-poke :
    (heap : Heap) (a : ℕ) (fr : FilterRule) (full : List ℕ) (b : FilterRuleBase)
    → All (λ x. x < a) full
    → owners (poke heap a fr) full b ≡ owners heap full b
unfolding poke
owners-poke heap a fr [] b h = refl
owners-poke heap a fr (x ∷ full) b h =
    rw (==_ne x a (λ e. absurd (omega (arith, e, h.0))))
      (ground (arith, owners-poke heap a fr full b h.1))

-- The node that add_rule appends owns its base, besides the owners before.
pub owners-add :
    (heap : Heap) (a : ℕ) (fr : FilterRule) (full : List ℕ) (b : FilterRuleBase)
    → All (λ x. x < a) full
    → owners (poke heap a fr) (full ++ a ∷ []) b
      ≡ owners heap full b ++ (if cmp_rule_zero fr.base b then a ∷ [] else [])
unfolding poke
owners-add heap a fr full b h =
    rw (filter-append (is_node_of (poke heap a fr) b) full (a ∷ []), owners-poke heap a fr full b h)
      (ground arith)

pub add-Keyed :
    (heap : Heap) (a : ℕ) (fr : FilterRule) (full : List ℕ) (t : HashTable)
    → Keyed heap full t
    → All (λ x. x < a) full
    → owners heap full fr.base ≡ []
    → Keyed (poke heap a fr) (full ++ a ∷ []) (hash_table_insert t a (base_bytes fr.base) base_size)
add-Keyed heap a fr full t v below new = record {
  table = insert-IsTable t a (base_bytes fr.base) base_size (length-base_bytes fr.base) v.table;
  keyed = λ b.
      rw (held_nodes-insert t a fr.base b heap full v, owners-add heap a fr full b below, v.keyed b)
        (elim (Bool-cases (cmp_rule_zero fr.base b)) [
          | inl same ↦ rw (same, ← owners_congr heap full fr.base b same, new)
          | inr differ ↦ rw (differ, append-nil)
        ]);
}

-- One round of the deleting loop.
pub drop-Keyed :
    (heap : Heap) (a : ℕ) (rest : List ℕ) (t : HashTable)
    → Keyed heap (a ∷ rest) t
    → Keyed heap rest (hash_table_del_key_safe t (base_bytes (heap a).base) base_size).1
drop-Keyed heap a rest t v = record {
  table = del-IsTable t (base_bytes (heap a).base) base_size v.table;
  keyed = λ b. rw (held_nodes-del t (heap a).base b heap (a ∷ rest) v, v.keyed b) (ground arith);
}

pub delete_keys-Keyed :
    (heap : Heap) (full : List ℕ) (t : HashTable)
    → Keyed heap full t
    → Keyed heap [] (delete_keys heap full t)
unfolding delete_keys
delete_keys-Keyed heap [] t v = v
delete_keys-Keyed heap (a ∷ rest) t v = delete_keys-Keyed heap rest _ (drop-Keyed heap a rest t v)

-- Filtering out the owners of one base leaves those of every other.
pub owners-delete :
    (heap : Heap) (full : List ℕ) (k b : FilterRuleBase)
    → owners heap (filter (λ a. not (is_node_of heap k a)) full) b
      ≡ (if cmp_rule_zero k b then [] else owners heap full b)
owners-delete heap [] k b = ground arith
owners-delete heap (x ∷ full) k b = ground (
  arith,
  owners-delete heap full k b,
  cmp_congr_right k b (heap x).base,
  cmp_rule_zero_congr (heap x).base k b,
)

tail_of_short : (xs : List ℕ) → length xs ≤ 1 → tail xs ≡ []
tail_of_short [] h = refl
tail_of_short (x ∷ []) h = refl
tail_of_short (x ∷ y ∷ xs) h = absurd (omega arith)

pub delete-Keyed :
    (heap : Heap) (full : List ℕ) (t : HashTable) (k : FilterRuleBase)
    → Keyed heap full t
    → ((b : FilterRuleBase) → length (owners heap full b) ≤ 1)
    → Keyed heap
        (filter (λ a. not (is_node_of heap k a)) full)
        (hash_table_del_key_safe t (base_bytes k) base_size).1
delete-Keyed heap full t k v unique = record {
  table = del-IsTable t (base_bytes k) base_size v.table;
  keyed = λ b. rw (
    held_nodes-del t k b heap full v,
    v.keyed b,
    owners-delete heap full k b,
    tail_of_short _ (unique b),
  );
}
