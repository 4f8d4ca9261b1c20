-- ===== src/RulesView/Bold.antt =====
-- The cells that the view draws bold.
use mathlib.Core.Path.{subst}
use bf.Base.{
  ℕ, zero, suc, ◌≡◌, refl, sym, ap, ◌∙◌, false, not, any, List, [], ◌∷◌, ◌++◌, All, Option, none,
  some, Option-cases, inl, inr, if◌then◌else◌, ◌==◌, ==_refl, arith, Bool,
}
use bf.Rule.{FilterRule, rule_eq}
use bf.RulesTable.{
  RulesTable, Column, off_column, policy_column, value_of, item_at, index_of, Edit, set_all,
}
use bf.RulesTable.Old.{lookup}
use bf.RulesTable.Tracking.{Distinct, AreBytes, edited, Good, Tracked, some_inj, none_ne_some}
use bf.RulesTable.Cancelling.{set_all-Follows, untouched}
use bf.RulesView.{
  Variant, invalid, columns, off, policy, dirty_columns, table_data, get_dirty_rows, is_valid,
  src_ip, user_role,
}
use bf.RulesView.Delegate.{variant_list, paint, column_number}

-- A row before and after the edits.
record RowOf (old : List FilterRule) (o x : FilterRule) : Type 0 where
  base : x.base ≡ o.base
  good : Good (lookup old o.base) x o

row_of :
    (row : ℕ) (old os : List FilterRule) (ws : List (ℕ × ℕ)) (o x : FilterRule)
    → Tracked old os ws
    → item_at row os ≡ some o
    → item_at row (edited os ws) ≡ some x
    → RowOf old o x
unfolding item_at
row_of row old [] ws o x t h k = absurd (none_ne_some h)
row_of row old (q ∷ os) [] o x t h k = absurd t
row_of zero old (q ∷ os) ((a, p) ∷ ws) o x t h k =
    subst (λ y. RowOf old y x) (some_inj h)
      (subst (λ y. RowOf old q y) (some_inj k) (record { base = refl; good = t.0 }))
row_of (suc row) old (q ∷ os) ((a, p) ∷ ws) o x t h k = row_of row old os ws o x t.1 h k

-- The columns that differ from the item before.
abbrev changed_columns : FilterRule → FilterRule → List ℕ
changed_columns o x =
    (if o.off == x.off then [] else off ∷ []) ++ (if o.policy == x.policy then [] else policy ∷ [])

changed_columns_refl : (o : FilterRule) → changed_columns o o ≡ []
changed_columns_refl o = rw (==_refl o.off, ==_refl o.policy) refl

dirty_columns-changed :
    (old : List FilterRule) (o x : FilterRule)
    → RowOf old o x
    → dirty_columns old x ≡ changed_columns o x
unfolding dirty_columns index_of rule_eq
dirty_columns-changed old o x r =
    let found : Option FilterRule → List ℕ =
      λ l. elim l [ none ↦ [] | some q ↦ changed_columns q x ] in
    elim (Option-cases (lookup old o.base)) [
      | inl e ↦
          let same : x ≡ o = subst (λ l. Good l x o) e r.good in
          ap (λ b. found (lookup old b)) r.base
          ∙ ap found e
          ∙ sym (ap (changed_columns o) same ∙ changed_columns_refl o)
      | inr (q, e) ↦
          let same : q ≡ o = subst (λ l. Good l x o) e r.good in
          ap (λ b. found (lookup old b)) r.base ∙ ap found e ∙ ap (λ y. changed_columns y x) same
    ]

bold-changed :
    (col : Column) (o x : FilterRule)
    → any (λ c. c == column_number col) (changed_columns o x)
      ≡ not (value_of col o == value_of col x)
unfolding value_of
bold-changed off_column o x = ground arith
bold-changed policy_column o x = ground arith

-- After any edits of a table with no changes noted, the view draws the cell of a switch or a policy bold
-- exactly if its value differs from that before the edits, if no two rules are equal for the table,
-- which does not compare chains, and their switches and policies were bytes.
pub set_all-paint :
    (os : List FilterRule) (es : List Edit) (m : RulesTable) (row : ℕ) (o x : FilterRule)
    (col : Column)
    → Distinct os
    → All AreBytes os
    → set_all es (record { items = os; old_items = [] }) ≡ some m
    → item_at row os ≡ some o
    → item_at row m.items ≡ some x
    → (paint m row (column_number col)).1 ≡ not (value_of col o == value_of col x)
unfolding paint table_data variant_list
set_all-paint os es m row o x col d b h at_o at_x =
    let f = set_all-Follows os es _ m d b (untouched os) h in
    let r =
      row_of row m.old_items os f.values o x f.tracked at_o
        (ap (item_at row) (sym f.shown) ∙ at_x) in
    ap
      (λ (i : Option FilterRule).
        let v : Variant = elim i [
          | none ↦ invalid
          | some y ↦ columns (dirty_columns m.old_items y)
        ] in
        any (λ c. c == column_number col) (variant_list v))
      at_x
    ∙ ap (any (λ c. c == column_number col)) (dirty_columns-changed m.old_items o x r)
    ∙ bold-changed col o x

user_role-invalid :
    (m : RulesTable) (row : ℕ) → is_valid (table_data m row src_ip user_role) ≡ false
unfolding table_data is_valid
user_role-invalid m row =
    let valid : Option FilterRule → Bool =
      λ i. let v : Variant = elim i [ none ↦ invalid | some item ↦ invalid ] in is_valid v in
    elim (Option-cases (item_at row m.items)) [ inl e ↦ ap valid e | inr (r, e) ↦ ap valid e ]

-- getDirty of rows asks for data in a role that the table does not have: it never finds a changed row.
pub get_dirty_rows-nil : (m : RulesTable) (rows : List ℕ) → get_dirty_rows m rows ≡ []
unfolding get_dirty_rows
get_dirty_rows-nil m [] = refl
get_dirty_rows-nil m (row ∷ rows) = rw (user_role-invalid m row) (get_dirty_rows-nil m rows)
