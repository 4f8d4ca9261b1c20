-- ===== src/Store/Invariant.antt =====
-- The invariant of the rule lists is kept by every operation on them.
use bf.Base.{
  get_or-replicate, ℕ, suc, ◌<◌, ◌≤◌, ◌≡◌, refl, sym, ap, ◌∙◌, Bool, true, false, not, List, [],
  ◌∷◌, ◌++◌, map, none, length, head?, filter, erase_first, All, All-mono, All-filter, All-append,
  filter_comm, filter-append, length-filter-le, erase_first-filter, append-nil, Bool-cases, inl,
  inr, if◌then◌else◌, ◌==◌, ==_ne, arith,
}
use bf.Rule.{
  FilterRule, FilterRuleBase, base_bytes, base_size, cmp_rule_zero, chain_input, chain_output,
}
use bf.HashTable.Laws.{init-IsTable}
use bf.HashTable.{HashEntry, hash_table_init, hash_table_hash_code, entry_matches}
use bf.Store.Owners.{
  find_rule-owners, owners_congr, owners-add, owners-delete, add-Keyed, delete-Keyed,
  delete_keys-Keyed,
}
use bf.Store.{
  held_nodes, Heap, Store, poke, init_rules, add_rule, delete_rule, delete_rules, cleanup_rules,
  free_retired, find_rule, is_node_of, on_chain, owners, Keyed, AbsentFrom, IsStore,
}

-- A missing rule has no owner, and a found node owns the base.
pub find_rule-none :
    (s : Store) (b : FilterRuleBase)
    → IsStore s
    → find_rule s b ≡ none
    → owners s.heap s.full_list b ≡ []
find_rule-none s b v h = nothing _ (sym (find_rule-owners s b v.index) ∙ h)
  where
    nothing : (xs : List ℕ) → head? xs ≡ none → xs ≡ []
    nothing [] e = refl
    nothing (x ∷ xs) e = cc

on_chain-poke :
    (heap : Heap) (a : ℕ) (fr : FilterRule) (chain : ℕ) (full : List ℕ)
    → All (λ x. x < a) full
    → filter (on_chain (poke heap a fr) chain) full ≡ filter (on_chain heap chain) full
unfolding poke
on_chain-poke heap a fr chain [] h = refl
on_chain-poke heap a fr chain (x ∷ full) h =
    rw (==_ne x a (λ e. absurd (omega (arith, e, h.0))))
      (ground (arith, on_chain-poke heap a fr chain full h.1))

on_chain-add :
    (heap : Heap) (a : ℕ) (fr : FilterRule) (chain : ℕ) (full : List ℕ)
    → All (λ x. x < a) full
    → filter (on_chain (poke heap a fr) chain) (full ++ a ∷ [])
      ≡ filter (on_chain heap chain) full ++ (if fr.base.chain == chain then a ∷ [] else [])
unfolding poke
on_chain-add heap a fr chain full h =
    rw
      (
        filter-append (on_chain (poke heap a fr) chain) full (a ∷ []),
        on_chain-poke heap a fr chain full h,
      )
      (ground arith)

-- A new node is none of the older ones.
absent_of_below : (xs : List ℕ) (a : ℕ) → All (λ x. x < a) xs → AbsentFrom xs a
absent_of_below [] a h = refl
absent_of_below (x ∷ xs) a h =
    rw (==_ne a x (λ e. absurd (omega (arith, e, h.0)))) (absent_of_below xs a h.1)

absent-append :
    (xs ys : List ℕ) (a : ℕ) → AbsentFrom xs a → AbsentFrom ys a → AbsentFrom (xs ++ ys) a
absent-append [] ys a h k = k
absent-append (x ∷ xs) ys a h k = ground (arith, absent-append xs ys a)

-- What a test rejects is not among what it selects.
absent-filter : (p : ℕ → Bool) (xs : List ℕ) (a : ℕ) → p a ≡ false → AbsentFrom (filter p xs) a
absent-filter p [] a h = refl
absent-filter p (x ∷ xs) a h = elim (Bool-cases (p x)) [
  | inr miss ↦ rw miss (absent-filter p xs a h)
  | inl hit ↦ rw (hit, ==_ne a x (λ e. cc (ap p e))) (absent-filter p xs a h)
]

All-filter_pass {ℓ} :
    (P : ℕ → Type ℓ) (p : ℕ → Bool) (xs : List ℕ)
    → All P xs
    → All (λ x. P x × (p x ≡ true)) (filter p xs)
All-filter_pass P p [] h = tt
All-filter_pass P p (x ∷ xs) h = elim (Bool-cases (p x)) [
  | inl hit ↦ rw hit ((h.0, hit), All-filter_pass P p xs h.1)
  | inr miss ↦ rw miss (All-filter_pass P p xs h.1)
]

rejected : (b : Bool) → not b ≡ true → b ≡ false
rejected true h = cc
rejected false h = refl

below_suc : (a x : ℕ) → x < a → x < suc a
below_suc a x h = omega arith

held_nodes-init : (n : ℕ) (b : FilterRuleBase) → held_nodes (hash_table_init n) b ≡ []
unfolding hash_table_init
held_nodes-init n b =
    ap
      (λ (bucket : List HashEntry).
        map (λ (e : HashEntry). e.node) (filter (entry_matches (base_bytes b) base_size) bucket))
      (get_or-replicate n (hash_table_hash_code (hash_table_init n) (base_bytes b) base_size) [])

-- The module starts with the invariant.
pub init_rules-IsStore : (heap : Heap) → IsStore (init_rules heap)
unfolding init_rules
init_rules-IsStore heap = record {
  index = record { table = init-IsTable 10 (omega arith); keyed = held_nodes-init 10 };
  unique = λ b. omega arith;
  input = refl;
  output = refl;
  fresh = tt;
  retired_old = tt;
  freed_old = tt;
  alive = tt;
}

-- Adding a rule whose base is not there keeps the invariant.
pub add_rule-IsStore :
    (s : Store) (fr : FilterRule) → IsStore s → find_rule s fr.base ≡ none → IsStore (add_rule s fr)
unfolding add_rule
add_rule-IsStore s fr v h =
    let new = find_rule-none s fr.base v h in
    let a = s.next_node in
    record {
      index = add-Keyed s.heap a fr s.full_list s.map_fr v.index v.fresh new;
      unique = λ b.
          rw (owners-add s.heap a fr s.full_list b v.fresh)
            (elim (Bool-cases (cmp_rule_zero fr.base b)) [
              | inl same ↦
                  rw (same, ← owners_congr s.heap s.full_list fr.base b same, new) (omega arith)
              | inr differ ↦ rw (differ, append-nil) (v.unique b)
            ]);
      input =
          rw (on_chain-add s.heap a fr chain_input s.full_list v.fresh, ← v.input)
            (ground (arith, append-nil s.chain_in));
      output =
          rw (on_chain-add s.heap a fr chain_output s.full_list v.fresh, ← v.output)
            (ground (arith, append-nil s.chain_out));
      fresh =
          All-append _ s.full_list _ (All-mono _ _ s.full_list (below_suc a) v.fresh)
            (omega arith, tt);
      retired_old = All-mono _ _ s.retired (below_suc a) v.retired_old;
      freed_old = All-mono _ _ s.freed (below_suc a) v.freed_old;
      alive =
          All-append _ s.full_list _ v.alive
            ((absent_of_below _ _ v.retired_old, absent_of_below _ _ v.freed_old), tt);
    }

-- A chain is the full list filtered, so it has one node of a base at most.
chain-delete :
    (s : Store) (fr : FilterRule) (chain : ℕ) (nodes : List ℕ)
    → IsStore s
    → nodes ≡ filter (on_chain s.heap chain) s.full_list
    → erase_first (is_node_of s.heap fr.base) nodes
      ≡ filter (on_chain s.heap chain) (filter (λ a. not (is_node_of s.heap fr.base a)) s.full_list)
chain-delete s fr chain nodes v e =
    let hit = is_node_of s.heap fr.base in
    let on = on_chain s.heap chain in
    let few : length (filter hit (filter on s.full_list)) ≤ 1 =
      rw (filter_comm hit on s.full_list)
        (omega (arith, length-filter-le on (filter hit s.full_list), v.unique fr.base)) in
    rw (e, erase_first-filter hit (filter on s.full_list) few)
      (filter_comm (λ a. not (hit a)) on s.full_list)

-- Deleting a rule keeps the invariant, whether or not the rule is there.
pub delete_rule-IsStore : (s : Store) (fr : FilterRule) → IsStore s → IsStore (delete_rule s fr)
unfolding delete_rule
delete_rule-IsStore s fr v =
    let hit = is_node_of s.heap fr.base in
    let rest = filter (λ a. not (hit a)) s.full_list in
    record {
      index = delete-Keyed s.heap s.full_list s.map_fr fr.base v.index v.unique;
      unique = λ b. rw (owners-delete s.heap s.full_list fr.base b) (ground (arith, v.unique b));
      input = chain-delete s fr chain_input s.chain_in v v.input;
      output = chain-delete s fr chain_output s.chain_out v v.output;
      fresh = All-filter _ _ s.full_list v.fresh;
      retired_old = All-append _ s.retired _ v.retired_old (All-filter hit _ s.full_list v.fresh);
      freed_old = v.freed_old;
      alive =
          All-mono _ _ rest
            (λ a h. (
              absent-append s.retired _ a h.0.0
                  (absent-filter hit s.full_list a (rejected (hit a) h.1)),
              h.0.1,
            ))
            (All-filter_pass _ (λ a. not (hit a)) s.full_list v.alive);
    }

-- A store whose lists are all empty and whose table holds nothing.
emptied-IsStore :
    (s : Store)
    → Keyed s.heap [] s.map_fr
    → s.full_list ≡ []
    → s.chain_in ≡ []
    → s.chain_out ≡ []
    → All (λ a. a < s.next_node) s.retired
    → All (λ a. a < s.next_node) s.freed
    → IsStore s
emptied-IsStore s k f i o r d = record {
  index = rw f k;
  unique = λ b. rw f (omega arith);
  input = rw (f, i);
  output = rw (f, o);
  fresh = rw f tt;
  retired_old = r;
  freed_old = d;
  alive = rw f tt;
}

-- Deleting all rules keeps the invariant; so does the clean-up at the module's exit.
pub delete_rules-IsStore : (s : Store) → IsStore s → IsStore (delete_rules s)
unfolding delete_rules
delete_rules-IsStore s v =
    emptied-IsStore _ (delete_keys-Keyed s.heap s.full_list s.map_fr v.index) refl refl refl
      (All-append _ s.retired _ v.retired_old v.fresh) v.freed_old

pub cleanup_rules-IsStore : (s : Store) → IsStore s → IsStore (cleanup_rules s)
unfolding cleanup_rules
cleanup_rules-IsStore s v =
    emptied-IsStore _ (delete_keys-Keyed s.heap s.full_list s.map_fr v.index) refl refl refl
      v.retired_old (All-append _ s.freed _ v.freed_old v.fresh)

-- The end of a grace period frees no node that a list still reaches.
pub free_retired-IsStore : (s : Store) → IsStore s → IsStore (free_retired s)
unfolding free_retired
free_retired-IsStore s v = record {
  index = v.index;
  unique = v.unique;
  input = v.input;
  output = v.output;
  fresh = v.fresh;
  retired_old = tt;
  freed_old = All-append _ s.freed _ v.freed_old v.retired_old;
  alive =
      All-mono _ _ s.full_list (λ a h. (refl, absent-append s.freed s.retired a h.1 h.0)) v.alive;
}
