-- ===== src/Store/Refines.antt =====
-- The rule lists refine a plain list of rules: each operation on the shared nodes and the table does
-- to the rules, in the order of their addition, what its name says.
use bf.Base.{
  ℕ, ◌<◌, ◌≡◌, refl, sym, ◌∙◌, Bool, not, List, [], ◌∷◌, ◌++◌, map, map-append, none, some, head?,
  find, filter, All, Option-cases, inl, inr, ◌==◌, ==_ne, arith,
}
use bf.Rule.{FilterRule, FilterRuleBase, cmp_rule_zero, chain_input, chain_output}
use bf.Store.Owners.{find_rule-owners}
use bf.Store.Invariant.{find_rule-none}
use bf.Store.{
  Heap, Store, poke, add_rule, delete_rule, delete_rules, find_rule, owners, IsStore, rules,
}

map-poke :
    (heap : Heap) (a : ℕ) (fr : FilterRule) (full : List ℕ)
    → All (λ x. x < a) full
    → map (poke heap a fr) full ≡ map heap full
unfolding poke
map-poke heap a fr [] h = refl
map-poke heap a fr (x ∷ full) h =
    rw (==_ne x a (λ e. absurd (omega (arith, e, h.0))), map-poke heap a fr full h.1)

-- Filtering nodes by their rules is filtering the rules.
pub map-filter_nodes :
    (p : FilterRule → Bool) (heap : Heap) (full : List ℕ)
    → map heap (filter (λ a. p (heap a)) full) ≡ filter p (map heap full)
map-filter_nodes p heap [] = refl
map-filter_nodes p heap (x ∷ full) = ground (arith, map-filter_nodes p heap full)

-- The test by which a rule is told from others: its base compares equal.
abbrev pub has_base : FilterRuleBase → FilterRule → Bool
has_base b r = cmp_rule_zero r.base b

-- add_rule appends the rule, and its copy is the one that was passed.
pub rules-add :
    (s : Store) (fr : FilterRule) → IsStore s → rules (add_rule s fr) ≡ rules s ++ fr ∷ []
unfolding add_rule poke
rules-add s fr v =
    rw
      (
        map-append (poke s.heap s.next_node fr) s.full_list (s.next_node ∷ []),
        map-poke s.heap s.next_node fr s.full_list v.fresh,
      )
      (ground arith)

-- delete_rule takes out the rules with the base, and keeps the others in order.
pub rules-delete :
    (s : Store) (fr : FilterRule)
    → rules (delete_rule s fr) ≡ filter (λ r. not (has_base fr.base r)) (rules s)
unfolding delete_rule
rules-delete s fr = map-filter_nodes (λ r. not (has_base fr.base r)) s.heap s.full_list

pub rules-delete_rules : (s : Store) → rules (delete_rules s) ≡ []
unfolding delete_rules
rules-delete_rules s = refl

find-map :
    (b : FilterRuleBase) (heap : Heap) (full : List ℕ) (a : ℕ)
    → head? (owners heap full b) ≡ some a
    → find (has_base b) (map heap full) ≡ some (heap a)
find-map b heap [] a h = cc
find-map b heap (x ∷ full) a h = ground (arith, find-map b heap full a)

find-map-none :
    (b : FilterRuleBase) (heap : Heap) (full : List ℕ)
    → owners heap full b ≡ []
    → find (has_base b) (map heap full) ≡ none
find-map-none b heap [] h = refl
find-map-none b heap (x ∷ full) h = ground (arith, find-map-none b heap full)

-- What a lookup through the hash table yields is what a search of the rules yields.
pub find_rule-find :
    (s : Store) (b : FilterRuleBase)
    → IsStore s
    → find (has_base b) (rules s)
      ≡ (elim (find_rule s b) [ none ↦ none | some a ↦ some (s.heap a) ])
find_rule-find s b v = elim (Option-cases (find_rule s b)) [
  | inl e ↦ rw e (find-map-none b s.heap s.full_list (find_rule-none s b v e))
  | inr (a, e) ↦ rw e (find-map b s.heap s.full_list a (sym (find_rule-owners s b v.index) ∙ e))
]

-- The chain that the hook walks is the rules of that chain, in the order of their addition.
pub chain_in-rules :
    (s : Store)
    → IsStore s
    → map s.heap s.chain_in ≡ filter (λ r. r.base.chain == chain_input) (rules s)
chain_in-rules s v =
    rw v.input (map-filter_nodes (λ r. r.base.chain == chain_input) s.heap s.full_list)

pub chain_out-rules :
    (s : Store)
    → IsStore s
    → map s.heap s.chain_out ≡ filter (λ r. r.base.chain == chain_output) (rules s)
chain_out-rules s v =
    rw v.output (map-filter_nodes (λ r. r.base.chain == chain_output) s.heap s.full_list)
