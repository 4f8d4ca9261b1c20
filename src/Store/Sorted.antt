-- ===== src/Store/Sorted.antt =====
-- The sorting insertion that TEST_SORT_ADD would switch on.
use bf.Base.{ℕ, ◌≤◌, List, [], ◌∷◌, All, All-mono, ltb, Bool-cases, inl, inr, arith}
use bf.Store.{Heap, weight, sorted_lt, add_entry_sort}
use mathlib.Core.List.{Perm}
use mathlib.Core.List.Perm

-- Rules with more open fields stand before those with fewer.
abbrev pub Descending : Heap → List ℕ → Type 0
Descending heap [] = Unit
Descending heap (a ∷ rest) =
    All (λ x. weight (heap x) ≤ weight (heap a)) rest × Descending heap rest

All-insert :
    (P : ℕ → Type 0) (heap : Heap) (new : ℕ) (nodes : List ℕ)
    → P new
    → All P nodes
    → All P (add_entry_sort heap new nodes)
unfolding add_entry_sort
All-insert P heap new [] p h = (p, tt)
All-insert P heap new (x ∷ nodes) p h = ground (arith, All-insert P heap new nodes p h.1)

le_step : (m n k : ℕ) → m ≤ n → k ≤ m → k ≤ n
le_step m n k h l = omega arith

-- The insertion keeps a list descending by the number of open fields, and adds the new node only.
pub add_entry_sort-Descending :
    (heap : Heap) (new : ℕ) (nodes : List ℕ)
    → Descending heap nodes
    → Descending heap (add_entry_sort heap new nodes)
unfolding add_entry_sort sorted_lt
add_entry_sort-Descending heap new [] h = (tt, tt)
add_entry_sort-Descending heap new (x ∷ nodes) h =
    elim (Bool-cases (ltb (weight (heap x)) (weight (heap new)))) [
      | inl lighter ↦ rw lighter (
        (
          ground arith,
          All-mono _ _ nodes
              (λ y. le_step (weight (heap x)) (weight (heap new)) (weight (heap y)) (ground arith))
              h.0,
        ),
        h,
      )
      | inr heavier ↦ rw heavier (
        All-insert _ heap new nodes (ground arith) h.0,
        add_entry_sort-Descending heap new nodes h.1,
      )
    ]

pub add_entry_sort-Perm :
    (heap : Heap) (new : ℕ) (nodes : List ℕ) → Perm (add_entry_sort heap new nodes) (new ∷ nodes)
unfolding add_entry_sort
add_entry_sort-Perm heap new [] = Perm.refl _
add_entry_sort-Perm heap new (x ∷ nodes) = elim (Bool-cases (sorted_lt (heap x) (heap new))) [
  | inl lighter ↦ rw lighter (Perm.refl _)
  | inr heavier ↦
      rw heavier
        (Perm.trans (Perm.cons x (add_entry_sort-Perm heap new nodes)) (Perm.swap new x nodes))
]
