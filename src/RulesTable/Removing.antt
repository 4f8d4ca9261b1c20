-- ===== src/RulesTable/Removing.antt =====
-- removeItems of the rules table: the rows that are selected are gone, and the others are kept.
use bf.Base.{
  ℕ, zero, suc, ◌<◌, ◌≡◌, ◌⊎◌, inl, inr, refl, sym, ap, ◌∙◌, Bool, false, List, [], ◌∷◌, map,
  filter, length, Option, some, All, ltb, if◌then◌else◌, Bool-cases, arith,
}
use bf.Rule.{FilterRule}
use bf.RulesTable.{RulesTable, sort_rows, move_up, remove_at, remove_row, remove_rows, remove_items}
use bf.RulesTable.Ascending.{member, Different, ascending, sort_rows-ascending}

-- The items whose rows are not selected.
abbrev pub without : (ℕ → Bool) → List FilterRule → List FilterRule
without p [] = []
without p (x ∷ xs) = if p 0 then without (λ i. p (suc i)) xs else x ∷ without (λ i. p (suc i)) xs

-- Ascending rows, apart from the first, are those behind it.
record Behind (rows : List ℕ) : Type 0 where
  first : ℕ
  selected : ℕ → Bool
  bound : ℕ
  rest : rows ≡ first ∷ map suc (ascending selected bound)

ascending-Behind : (p : ℕ → Bool) (n : ℕ) → (ascending p n ≡ []) ⊎ Behind (ascending p n)
ascending-Behind p zero = inl refl
ascending-Behind p (suc n) =
    let more = ascending (λ i. p (suc i)) n in
    let rows_of : Bool → List ℕ = λ b. if b then 0 ∷ map suc more else map suc more in
    elim (Bool-cases (p 0)) [
      | inl y ↦
          inr (record { first = 0; selected = λ i. p (suc i); bound = n; rest = ap rows_of y })
      | inr no_row ↦ elim (ascending-Behind (λ i. p (suc i)) n) [
        | inl e ↦ inl (ap rows_of no_row ∙ ap (map suc) e)
        | inr b ↦ inr (record {
          first = suc b.first;
          selected = λ i. elim i [ zero ↦ false | suc k ↦ b.selected k ];
          bound = suc b.bound;
          rest = ap rows_of no_row ∙ ap (map suc) b.rest;
        })
      ]
    ]

abbrev somes : List ℕ → List (Option ℕ)
somes rows = map (λ i. some i) rows

move_up-somes : (rows : List ℕ) → map move_up (somes (map suc rows)) ≡ somes rows
unfolding move_up
move_up-somes [] = refl
move_up-somes (r ∷ rows) = ap (λ xs. some r ∷ xs) (move_up-somes rows)

-- Rows behind the first leave the first item alone.
remove_rows-suc :
    (fuel : ℕ) (p : ℕ → Bool) (n : ℕ) (x : FilterRule) (xs : List FilterRule)
    → remove_rows fuel (somes (map suc (ascending p n))) (x ∷ xs)
      ≡ x ∷ remove_rows fuel (somes (ascending p n)) xs
unfolding remove_rows remove_row remove_at
remove_rows-suc zero p n x xs = refl
remove_rows-suc (suc fuel) p n x xs = elim (ascending-Behind p n) [
  | inl e ↦ rw e refl
  | inr b ↦
      let more = ascending b.selected b.bound in
      let below = remove_at b.first xs in
      let left : remove_rows (suc fuel) (somes (map suc (b.first ∷ map suc more))) (x ∷ xs)
          ≡ x ∷ remove_rows fuel (somes more) below =
        ap (λ rows. remove_rows fuel rows (x ∷ below)) (move_up-somes (map suc more))
        ∙ remove_rows-suc fuel b.selected b.bound x below in
      let right : remove_rows (suc fuel) (somes (b.first ∷ map suc more)) xs
          ≡ remove_rows fuel (somes more) below =
        ap (λ rows. remove_rows fuel rows below) (move_up-somes more) in
      ap (λ rows. remove_rows (suc fuel) (somes (map suc rows)) (x ∷ xs)) b.rest
      ∙ left
      ∙ sym
          (ap (λ rows. x ∷ remove_rows (suc fuel) (somes rows) xs) b.rest ∙ ap (λ ys. x ∷ ys) right)
]

length-map-suc : (xs : List ℕ) → length (map suc xs) ≡ length xs
length-map-suc [] = refl
length-map-suc (x ∷ xs) = ap suc (length-map-suc xs)

remove_rows-without :
    (p : ℕ → Bool) (xs : List FilterRule)
    → let rows = ascending p (length xs) in remove_rows (length rows) (somes rows) xs ≡ without p xs
unfolding remove_rows remove_row remove_at
remove_rows-without p [] = refl
remove_rows-without p (x ∷ xs) =
    let q : ℕ → Bool = λ i. p (suc i) in
    let more = ascending q (length xs) in
    let ih = remove_rows-without q xs in
    let removed : Bool → List FilterRule = λ b.
      let rows = if b then 0 ∷ map suc more else map suc more in
      remove_rows (length rows) (somes rows) (x ∷ xs) in
    let kept : Bool → List FilterRule = λ b. if b then without q xs else x ∷ without q xs in
    elim (Bool-cases (p 0)) [
      | inl y ↦
          ap removed y
          ∙ (ap (λ k. remove_rows k (map move_up (somes (map suc more))) xs) (length-map-suc more)
              ∙ (ap (λ rows. remove_rows (length more) rows xs) (move_up-somes more)
                  ∙ (ih ∙ sym (ap kept y))))
      | inr no_row ↦
          ap removed no_row
          ∙ (ap (λ k. remove_rows k (somes (map suc more)) (x ∷ xs)) (length-map-suc more)
              ∙ (remove_rows-suc (length more) q (length xs) x xs
                  ∙ (ap (λ ys. x ∷ ys) ih ∙ sym (ap kept no_row))))
    ]

filter_valid : (n : ℕ) (rows : List ℕ) → All (λ i. i < n) rows → filter (λ i. ltb i n) rows ≡ rows
filter_valid n [] h = refl
filter_valid n (r ∷ rows) h = ground (arith, h.0, filter_valid n rows h.1)

-- removeItems takes out exactly the items of the selected rows, in whichever order the rows are given, if
-- there are such rows and none is given twice.
pub remove_items-without :
    (rows : List ℕ) (m : RulesTable)
    → All (λ i. i < length m.items) rows
    → Different rows
    → (remove_items rows m).items ≡ without (member rows) m.items
unfolding remove_items
remove_items-without rows m h d =
    let sorted : sort_rows (filter (λ i. ltb i (length m.items)) rows)
        ≡ ascending (member rows) (length m.items) =
      ap sort_rows (filter_valid (length m.items) rows h)
      ∙ sort_rows-ascending (length m.items) rows h d in
    ap (λ valid. remove_rows (length valid) (somes valid) m.items) sorted
    ∙ remove_rows-without (member rows) m.items
