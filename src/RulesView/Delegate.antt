-- ===== src/RulesView/Delegate.antt =====
-- tests/bfctl_gui/ruledelegate.cpp: what is drawn in a cell, and the editors of the cells. Fonts and
-- positions are left out, but for the bold font of a changed cell.
use bf.Base.{
  ℕ, ◌-◌, ◌^◌, ◌||◌, Bool, any, ltb, List, [], ◌∷◌, Option, none, some, if◌then◌else◌, ◌==◌, length,
}
use bf.Rule.{sw_no, sw_yes, policy_drop, policy_accept}
use bf.Names.{Text, codes, get_proto_name, get_chain_name, get_policy_name, get_sw_name}
use bf.RulesTable.{RulesTable, Column, off_column, policy_column, set_data}
use bf.RulesView.{
  src_ip, src_port, dst_ip, dst_port, proto, chain, policy, off, Variant, value, columns,
  table_data, display_role, edit_role, dirty_role,
}

-- What paint draws in a cell: a text, a number, or the text of an address.
pub data CellText : Type 0 where
  name_text : Text → CellText
  number_text : ℕ → CellText
  address_text : ℕ → CellText

unfoldable pub paint_text : ℕ → ℕ → CellText
paint_text column n =
    if column == src_ip || column == dst_ip
    then (if n == 0 then name_text (codes "ALL") else address_text n)
    else if column == src_port || column == dst_port
    then (if n == 0 then name_text (codes "ALL") else number_text n)
    else if column == proto
    then name_text (get_proto_name n)
    else if column == chain
    then name_text (get_chain_name n)
    else if column == policy
    then name_text (get_policy_name n)
    else if column == off
    then name_text (get_sw_name n)
    else number_text n

unfoldable pub variant_value : Variant → ℕ
variant_value (value n) = n
variant_value v = 0

unfoldable pub variant_list : Variant → List ℕ
variant_list (columns cs) = cs
variant_list v = []

-- paint: the text of a cell, and whether it is bold.
unfoldable pub paint : RulesTable → ℕ → ℕ → CellText × Bool
unfolding table_data paint_text variant_value variant_list
paint m row column = (
  paint_text column (variant_value (table_data m row column display_role)),
  any (λ c. c == column) (variant_list (table_data m row column dirty_role)),
)

-- A QComboBox, with its current index, or `none` for -1.
pub record ComboBox : Type 0 where
  pub items : List Text
  pub current : Option ℕ

-- setCurrentIndex, which takes an index out of range for -1
unfoldable pub set_current_index : ℕ → ComboBox → ComboBox
set_current_index i pe = record pe { current = if ltb i (length pe.items) then some i else none }

unfoldable pub combo_texts : Column → List Text
combo_texts off_column = get_sw_name sw_no ∷ get_sw_name sw_yes ∷ []
combo_texts policy_column = get_policy_name policy_drop ∷ get_policy_name policy_accept ∷ []

abbrev pub column_number : Column → ℕ
column_number off_column = off
column_number policy_column = policy

-- createEditor for a cell that can be edited
unfoldable pub create_editor : RulesTable → ℕ → Column → ComboBox
unfolding table_data variant_value set_current_index combo_texts
create_editor m row col =
    set_current_index (variant_value (table_data m row (column_number col) display_role))
      (record { items = combo_texts col; current = some 0 })

-- setEditorData
unfoldable pub set_editor_data : RulesTable → ℕ → Column → ComboBox → ComboBox
unfolding table_data variant_value set_current_index
set_editor_data m row col pe =
    set_current_index (variant_value (table_data m row (column_number col) edit_role)) pe

-- setModelData; the index -1 is an `int`.
unfoldable pub set_model_data : RulesTable → ℕ → Column → ComboBox → Option RulesTable
set_model_data m row col pe =
    let i : ℕ = elim pe.current [ none ↦ 2 ^ 32 - 1 | some i ↦ i ] in set_data col row i m
