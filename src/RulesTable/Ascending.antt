-- ===== src/RulesTable/Ascending.antt =====
-- The sorted rows of removeItems, by the rows that are selected.
use bf.Base.{
  ℕ, zero, suc, ◌<◌, ◌≡◌, inl, inr, refl, sym, ap, ◌∙◌, Bool, false, List, [], ◌∷◌, map, any, ◌||◌,
  All, if◌then◌else◌, ◌==◌, Bool-cases, arith,
}
use bf.RulesTable.{insert_row, sort_rows}

abbrev pub member : List ℕ → ℕ → Bool
member rows i = any (λ j. j == i) rows

-- No row is selected twice.
abbrev pub Different : List ℕ → Type 0
Different [] = Unit
Different (r ∷ rows) = (member rows r ≡ false) × Different rows

-- The selected rows below `n`, ascending.
abbrev pub ascending : (ℕ → Bool) → ℕ → List ℕ
ascending p zero = []
ascending p (suc n) =
    if p 0
    then 0 ∷ map suc (ascending (λ i. p (suc i)) n)
    else map suc (ascending (λ i. p (suc i)) n)

ascending_congr : (p q : ℕ → Bool) (n : ℕ) → ((i : ℕ) → p i ≡ q i) → ascending p n ≡ ascending q n
ascending_congr p q zero h = refl
ascending_congr p q (suc n) h =
    rw (h 0, ascending_congr (λ i. p (suc i)) (λ i. q (suc i)) n (λ i. h (suc i)))

insert_row-map-suc :
    (r : ℕ) (xs : List ℕ) → insert_row (suc r) (map suc xs) ≡ map suc (insert_row r xs)
unfolding insert_row
insert_row-map-suc r [] = refl
insert_row-map-suc r (x ∷ xs) = ground (arith, insert_row-map-suc r xs)

insert_row-zero : (xs : List ℕ) → insert_row 0 (map suc xs) ≡ 0 ∷ map suc xs
unfolding insert_row
insert_row-zero [] = refl
insert_row-zero (x ∷ xs) = ground arith

insert_row-after : (r : ℕ) (xs : List ℕ) → insert_row (suc r) (0 ∷ xs) ≡ 0 ∷ insert_row (suc r) xs
unfolding insert_row
insert_row-after r xs = ground arith

-- A row is inserted where it belongs.
insert_row-ascending :
    (p : ℕ → Bool) (n r : ℕ)
    → r < n
    → p r ≡ false
    → insert_row r (ascending p n) ≡ ascending (λ i. r == i || p i) n
insert_row-ascending p zero r h e = absurd (omega (arith, h))
insert_row-ascending p (suc n) zero h e = rw e (
    insert_row-zero (ascending (λ i. p (suc i)) n)
    ∙ ap (λ xs. 0 ∷ map suc xs)
        (ascending_congr (λ i. p (suc i)) (λ i. 0 == suc i || p (suc i)) n (λ i. ground arith)))
insert_row-ascending p (suc n) (suc r) h e =
    let q : ℕ → Bool = λ i. p (suc i) in
    let rest : insert_row r (ascending q n) ≡ ascending (λ i. suc r == suc i || q i) n =
      insert_row-ascending q n r (omega (arith, h)) e
      ∙ ascending_congr (λ i. r == i || q i) (λ i. suc r == suc i || q i) n (λ i. ground arith) in
    let head : (suc r == 0 || p 0) ≡ p 0 = ground arith in
    let new = ascending (λ i. suc r == suc i || q i) n in
    let before : Bool → List ℕ = λ b.
      insert_row (suc r) (if b then 0 ∷ map suc (ascending q n) else map suc (ascending q n)) in
    let after : Bool → List ℕ = λ b. if b then 0 ∷ map suc new else map suc new in
    let moved : insert_row (suc r) (map suc (ascending q n)) ≡ map suc new =
      insert_row-map-suc r (ascending q n) ∙ ap (map suc) rest in
    elim (Bool-cases (p 0)) [
      | inl y ↦
          ap before y
          ∙ (insert_row-after r (map suc (ascending q n))
              ∙ (ap (λ xs. 0 ∷ xs) moved ∙ sym (ap after (head ∙ y))))
      | inr no_row ↦ ap before no_row ∙ (moved ∙ sym (ap after (head ∙ no_row)))
    ]

pub sort_rows-ascending :
    (n : ℕ) (rows : List ℕ)
    → All (λ i. i < n) rows
    → Different rows
    → sort_rows rows ≡ ascending (member rows) n
unfolding sort_rows
sort_rows-ascending n [] h d = none_selected n
  where
    none_selected : (n : ℕ) → [] ≡ ascending (λ i. false) n
    none_selected zero = refl
    none_selected (suc n) = ap (map suc) (none_selected n)
sort_rows-ascending n (r ∷ rows) h d =
    ap (insert_row r) (sort_rows-ascending n rows h.1 d.1)
    ∙ insert_row-ascending (member rows) n r h.0 d.0
