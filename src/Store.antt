-- ===== src/Store.antt =====
-- bf-ko/bf_module.c: the rule lists of the kernel module. A node (struct filter_rule_list) is its
-- address; `heap` is the memory that the addresses point into, so that the three lists and the hash
-- table share one copy of every rule, as in the source. `call_rcu` puts a node among the `retired`,
-- which the end of a grace period hands to kfree.
pub mod Owners
pub mod Invariant
pub mod Refines
pub mod Sorted
pub mod Rewrite
use bf.Base.{
  ℕ, suc, ◌+◌, ◌<◌, ◌≤◌, ◌≡◌, Bool, true, false, not, List, [], ◌∷◌, ◌++◌, map, Option, none, some,
  length, filter, erase_first, any, All, if◌then◌else◌, ltb, ◌==◌,
}
use bf.Rule.{
  FilterRule, FilterRuleBase, base_bytes, base_size, cmp_rule_zero, chain_input, chain_output,
}
use bf.HashTable.{
  HashTable, HashEntry, hash_table_init, hash_table_insert, hash_table_lookup_key,
  hash_table_del_key_safe, held, IsTable,
}

abbrev pub Heap : Type 0
Heap = ℕ → FilterRule

pub record Store : Type 0 where
  pub heap : Heap
  pub next_node : ℕ
  pub full_list : List ℕ
  pub chain_in : List ℕ
  pub chain_out : List ℕ
  pub map_fr : HashTable
  pub retired : List ℕ
  pub freed : List ℕ

-- A write through a pointer.
unfoldable pub poke : Heap → ℕ → FilterRule → Heap
poke heap a fr x = if x == a then fr else heap x

-- init_rules, with the list heads that init_module sets up
unfoldable pub init_rules : Heap → Store
init_rules heap = record {
  heap = heap;
  next_node = 0;
  full_list = [];
  chain_in = [];
  chain_out = [];
  map_fr = hash_table_init 10;
  retired = [];
  freed = [];
}

-- The number of fields that a rule leaves open, by which `sorted` compares.
unfoldable pub weight : FilterRule → ℕ
weight fr =
    (if fr.base.src_port == 0 then 1 else 0)
    + (if fr.base.dst_port == 0 then 1 else 0)
    + (if fr.base.s_addr == 0 then 1 else 0)
    + (if fr.base.d_addr == 0 then 1 else 0)

-- `sorted(fr1, fr2) < 0`
unfoldable pub sorted_lt : FilterRule → FilterRule → Bool
sorted_lt fr1 fr2 = ltb (weight fr1) (weight fr2)

-- add_entry_sort: the new node goes before the first that is lighter, or to the end.
unfoldable pub add_entry_sort : Heap → ℕ → List ℕ → List ℕ
add_entry_sort heap new [] = new ∷ []
add_entry_sort heap new (entry ∷ rest) =
    if sorted_lt (heap entry) (heap new)
    then new ∷ entry ∷ rest
    else entry ∷ add_entry_sort heap new rest

-- add_rule, as it is built: without TEST_SORT_ADD
unfoldable pub add_rule : Store → FilterRule → Store
unfolding poke
add_rule s fr =
    let a_new_fr = s.next_node in
    record s {
      heap = poke s.heap a_new_fr fr;
      next_node = suc s.next_node;
      full_list = s.full_list ++ a_new_fr ∷ [];
      map_fr = hash_table_insert s.map_fr a_new_fr (base_bytes fr.base) base_size;
      chain_in = if fr.base.chain == chain_input then s.chain_in ++ a_new_fr ∷ [] else s.chain_in;
      chain_out =
          if fr.base.chain == chain_input
          then s.chain_out
          else if fr.base.chain == chain_output
          then s.chain_out ++ a_new_fr ∷ []
          else s.chain_out;
    }

-- `cmp_rule(&a_rule->fr.base, &fr->base) == 0` of a node
abbrev pub is_node_of : Heap → FilterRuleBase → ℕ → Bool
is_node_of heap b a = cmp_rule_zero (heap a).base b

-- delete_rule: the loops over the chains stop at the first node, that over the full list does not.
unfoldable pub delete_rule : Store → FilterRule → Store
delete_rule s fr =
    let hit = is_node_of s.heap fr.base in
    record s {
      chain_in = erase_first hit s.chain_in;
      chain_out = erase_first hit s.chain_out;
      map_fr = (hash_table_del_key_safe s.map_fr (base_bytes fr.base) base_size).1;
      full_list = filter (λ a. not (hit a)) s.full_list;
      retired = s.retired ++ filter hit s.full_list;
    }

-- The loop over the full list in delete_rules and cleanup_rules, as it acts on the hash table.
unfoldable pub delete_keys : Heap → List ℕ → HashTable → HashTable
delete_keys heap [] t = t
delete_keys heap (a_rule ∷ rest) t =
    delete_keys heap rest (hash_table_del_key_safe t (base_bytes (heap a_rule).base) base_size).1

unfoldable pub delete_rules : Store → Store
unfolding delete_keys
delete_rules s = record s {
  chain_in = [];
  chain_out = [];
  map_fr = delete_keys s.heap s.full_list s.map_fr;
  full_list = [];
  retired = s.retired ++ s.full_list;
}

-- cleanup_rules frees the nodes at once; cleanup_module calls it when no reader is left.
unfoldable pub cleanup_rules : Store → Store
unfolding delete_keys
cleanup_rules s = record s {
  chain_in = [];
  chain_out = [];
  map_fr = delete_keys s.heap s.full_list s.map_fr;
  full_list = [];
  freed = s.freed ++ s.full_list;
}

-- The callbacks free_rule that run when a grace period has ended.
unfoldable pub free_retired : Store → Store
free_retired s = record s { retired = []; freed = s.freed ++ s.retired }

-- `hash_entry(hentry, struct filter_rule_list, entry)`, where there is an entry
abbrev pub entry_node : Option HashEntry → Option ℕ
entry_node none = none
entry_node (some hentry) = some hentry.node

-- find_rule, for the caller's base; `some a` is the result 0 with the node stored in `*res`
unfoldable pub find_rule : Store → FilterRuleBase → Option ℕ
find_rule s b = entry_node (hash_table_lookup_key s.map_fr (base_bytes b) base_size)

-- The nodes of a list whose rule has a given base, and the nodes that the table holds under it.
abbrev pub owners : Heap → List ℕ → FilterRuleBase → List ℕ
owners heap full b = filter (is_node_of heap b) full

abbrev pub held_nodes : HashTable → FilterRuleBase → List ℕ
held_nodes t b = map (λ (e : HashEntry). e.node) (held t (base_bytes b) base_size)

-- The table indexes exactly the nodes of the list, and no base has two.
pub record Keyed (heap : Heap) (full : List ℕ) (t : HashTable) : Type 0 where
  pub table : IsTable t
  pub keyed : (b : FilterRuleBase) → held_nodes t b ≡ owners heap full b

abbrev pub on_chain : Heap → ℕ → ℕ → Bool
on_chain heap chain a = (heap a).base.chain == chain

abbrev pub AbsentFrom : List ℕ → ℕ → Type 0
AbsentFrom xs a = any (λ x. a == x) xs ≡ false

-- What holds of the rule lists between two requests.
pub record IsStore (s : Store) : Type 0 where
  pub index : Keyed s.heap s.full_list s.map_fr
  pub unique : (b : FilterRuleBase) → length (owners s.heap s.full_list b) ≤ 1
  pub input : s.chain_in ≡ filter (on_chain s.heap chain_input) s.full_list
  pub output : s.chain_out ≡ filter (on_chain s.heap chain_output) s.full_list
  pub fresh : All (λ a. a < s.next_node) s.full_list
  pub retired_old : All (λ a. a < s.next_node) s.retired
  pub freed_old : All (λ a. a < s.next_node) s.freed
  pub alive : All (λ a. AbsentFrom s.retired a × AbsentFrom s.freed a) s.full_list

-- What the component promises: the rules in the order in which they were added.
abbrev pub rules : Store → List FilterRule
rules s = map s.heap s.full_list
