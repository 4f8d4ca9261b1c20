-- ===== src/RulesView/Editors.antt =====
-- The editor of a cell, from its opening to the end of the edit.
use bf.Base.{
  ℕ, ◌≡◌, ◌^◌, refl, ap, ◌∙◌, Option, none, some, if◌then◌else◌, ==_refl, ltb, Bool-cases, inl, inr,
  ◌-◌,
}
use bf.Rule.{FilterRule}
use bf.RulesTable.{RulesTable, Column, off_column, policy_column, value_of, item_at, set_data}
use bf.RulesTable.Cancelling.{set_found, set_data-found}
use bf.RulesView.{Variant, invalid, table_data, edit_role, cell_value}
use bf.RulesView.Delegate.{
  column_number, variant_value, set_current_index, combo_texts, create_editor, set_editor_data,
  set_model_data,
}

cell_value-column :
    (col : Column) (item : FilterRule)
    → variant_value (cell_value (column_number col) item) ≡ value_of col item
unfolding cell_value variant_value value_of
cell_value-column off_column item = refl
cell_value-column policy_column item = refl

shown_value :
    (m : RulesTable) (row : ℕ) (col : Column) (x : FilterRule)
    → item_at row m.items ≡ some x
    → variant_value (table_data m row (column_number col) edit_role) ≡ value_of col x
unfolding table_data
shown_value m row col x h =
    ap
      (λ (i : Option FilterRule).
        let v : Variant = elim i [
          | none ↦ invalid
          | some item ↦ cell_value (column_number col) item
        ] in
        variant_value v)
      h
    ∙ cell_value-column col x

-- The edit by the index of an editor with two items.
abbrev edit_by : RulesTable → ℕ → Column → ℕ → Option RulesTable
edit_by m row col v =
    let current : Option ℕ = if ltb v 2 then some v else none in
    let i : ℕ = elim current [ none ↦ 2 ^ 32 - 1 | some i ↦ i ] in set_data col row i m

set_model_data-edit_by :
    (m : RulesTable) (row : ℕ) (col : Column)
    → set_model_data m row col (set_editor_data m row col (create_editor m row col))
      ≡ edit_by m row col (variant_value (table_data m row (column_number col) edit_role))
unfolding set_model_data set_editor_data create_editor set_current_index combo_texts
set_model_data-edit_by m row off_column = refl
set_model_data-edit_by m row policy_column = refl

set_data-own :
    (m : RulesTable) (row : ℕ) (col : Column) (x : FilterRule)
    → item_at row m.items ≡ some x
    → set_data col row (value_of col x) m ≡ some m
set_data-own m row col x h =
    set_data-found col row (value_of col x) m
    ∙ ap (set_found col row (value_of col x) m) h
    ∙ rw (==_refl (value_of col x)) refl

-- An editor that is opened on a cell of a switch or a policy, filled and left again changes nothing if the
-- value is one of the two that the editor offers; else it sets the value that an `int` of -1 gives.
pub set_model_data-unchanged :
    (m : RulesTable) (row : ℕ) (col : Column) (x : FilterRule)
    → item_at row m.items ≡ some x
    → set_model_data m row col (set_editor_data m row col (create_editor m row col))
      ≡ (if ltb (value_of col x) 2 then some m else set_data col row (2 ^ 32 - 1) m)
set_model_data-unchanged m row col x h =
    set_model_data-edit_by m row col
    ∙ ap (edit_by m row col) (shown_value m row col x h)
    ∙ elim (Bool-cases (ltb (value_of col x) 2)) [
      | inl y ↦ rw y (set_data-own m row col x h)
      | inr n ↦ rw n refl
    ]
