-- ===== src/Store/Rewrite.antt =====
-- Writes to the fields of a rule outside its base: the switch, the policy and the number.
use bf.Base.{ℕ, ◌≡◌, refl, List, [], ◌∷◌, filter}
use bf.Rule.{FilterRuleBase, chain_input, chain_output}
use bf.Store.{Heap, Store, on_chain, owners, IsStore}

-- Heaps that agree on every base are alike to the lists and the table.
abbrev pub SameBases : Heap → Heap → Type 0
SameBases h h' = (a : ℕ) → (h' a).base ≡ (h a).base

owners-rewrite :
    (h h' : Heap) (full : List ℕ) (b : FilterRuleBase)
    → SameBases h h'
    → owners h' full b ≡ owners h full b
owners-rewrite h h' [] b e = refl
owners-rewrite h h' (x ∷ full) b e = rw (e x, owners-rewrite h h' full b e)

on_chain-rewrite :
    (h h' : Heap) (chain : ℕ) (full : List ℕ)
    → SameBases h h'
    → filter (on_chain h' chain) full ≡ filter (on_chain h chain) full
on_chain-rewrite h h' chain [] e = refl
on_chain-rewrite h h' chain (x ∷ full) e = rw (e x, on_chain-rewrite h h' chain full e)

-- Writing fields outside the base keeps the invariant.
pub rewrite-IsStore :
    (s : Store) (heap : Heap)
    → SameBases s.heap heap
    → IsStore s
    → IsStore (record s { heap = heap })
rewrite-IsStore s heap e v = record {
  index = record {
    table = v.index.table;
    keyed = λ b. rw (owners-rewrite s.heap heap s.full_list b e) (v.index.keyed b);
  };
  unique = λ b. rw (owners-rewrite s.heap heap s.full_list b e) (v.unique b);
  input = rw (on_chain-rewrite s.heap heap chain_input s.full_list e) v.input;
  output = rw (on_chain-rewrite s.heap heap chain_output s.full_list e) v.output;
  fresh = v.fresh;
  retired_old = v.retired_old;
  freed_old = v.freed_old;
  alive = v.alive;
}
