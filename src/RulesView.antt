-- ===== src/RulesView.antt =====
-- What the view asks the rules table for: data, headerData, flags and getDirty of rows in
-- tests/bfctl_gui/rulestablemodel.cpp, with the columns of tests/bfctl_gui/bfctl_gui_defs.h. Indices are
-- valid.
pub mod Delegate
pub mod Bold
pub mod Editors
use bf.Base.{
  ℕ, ◌-◌, ◌^◌, ◌&&◌, ◌||◌, Bool, true, false, any, ltb, List, [], ◌∷◌, ◌++◌, Option, none, some,
  if◌then◌else◌, ◌==◌, length,
}
use bf.Rule.{FilterRule, sw_no, sw_yes, policy_drop, policy_accept}
use bf.Kernel.{ntohl}
use bf.Names.{Text, codes, get_proto_name, get_chain_name, get_policy_name, get_sw_name}
use bf.RulesTable.{RulesTable, Column, off_column, policy_column, item_at, index_of, set_data}

-- e_index_t
abbrev pub src_ip : ℕ
src_ip = 0

abbrev pub src_port : ℕ
src_port = 1

abbrev pub dst_ip : ℕ
dst_ip = 2

abbrev pub dst_port : ℕ
dst_port = 3

abbrev pub proto : ℕ
proto = 4

abbrev pub chain : ℕ
chain = 5

abbrev pub policy : ℕ
policy = 6

abbrev pub off : ℕ
off = 7

-- Qt's roles that the code names, and e_roles_t.
pub data Role : Type 0 where
  display_role tool_tip_role edit_role user_role dirty_role id_role : Role

pub data Variant : Type 0 where
  invalid : Variant
  value : ℕ → Variant
  columns : List ℕ → Variant
  title : Text → Variant

unfoldable pub cell_value : ℕ → FilterRule → Variant
cell_value column item =
    if column == src_ip
    then value (ntohl item.base.s_addr)
    else if column == src_port
    then value item.base.src_port
    else if column == dst_ip
    then value (ntohl item.base.d_addr)
    else if column == dst_port
    then value item.base.dst_port
    else if column == proto
    then value item.base.proto
    else if column == chain
    then value item.base.chain
    else if column == policy
    then value item.policy
    else if column == off
    then value item.off
    else invalid

-- The columns of an item that are changed.
unfoldable pub dirty_columns : List FilterRule → FilterRule → List ℕ
unfolding index_of
dirty_columns old item = elim (index_of old item) [
  | none ↦ []
  | some o ↦
      (if o.off == item.off then [] else off ∷ [])
      ++ (if o.policy == item.policy then [] else policy ∷ [])
]

-- data
unfoldable pub table_data : RulesTable → ℕ → ℕ → Role → Variant
unfolding cell_value dirty_columns
table_data m row column role = elim (item_at row m.items) [
  | none ↦ invalid
  | some item ↦ elim role [
    | display_role ↦ cell_value column item
    | tool_tip_role ↦ cell_value column item
    | edit_role ↦ cell_value column item
    | dirty_role ↦ columns (dirty_columns m.old_items item)
    | user_role ↦ invalid
    | id_role ↦ invalid
  ]
]

-- headerData
unfoldable pub header_data : ℕ → Bool → Role → Variant
header_data section horizontal role = elim role [
  | display_role ↦
      if horizontal
      then title (
          if section == src_ip
          then codes "Source address"
          else if section == src_port
          then codes "Source port"
          else if section == dst_ip
          then codes "Destination address"
          else if section == dst_port
          then codes "Destination port"
          else if section == proto
          then codes "Protocol"
          else if section == chain
          then codes "Chain"
          else if section == policy
          then codes "Policy"
          else if section == off
          then codes "Off"
          else codes "")
      else invalid
  | id_role ↦ value section
  | other ↦ invalid
]

-- flags
unfoldable pub is_editable : ℕ → Bool
is_editable column = column == policy || column == off

-- isValid, and isEmpty of toList
unfoldable pub is_valid : Variant → Bool
is_valid invalid = false
is_valid v = true

unfoldable pub is_empty_list : Variant → Bool
is_empty_list (columns (c ∷ cs)) = false
is_empty_list v = true

-- getDirty of rows
unfoldable pub get_dirty_rows : RulesTable → List ℕ → List FilterRule
unfolding table_data is_valid is_empty_list
get_dirty_rows m [] = []
get_dirty_rows m (row ∷ rows) =
    let rest = get_dirty_rows m rows in
    let taken : List FilterRule = elim (item_at row m.items) [
      | none ↦ rest
      | some item ↦ item ∷ rest
    ] in
    if is_valid (table_data m row src_ip user_role)
      && (if is_empty_list (table_data m row src_ip dirty_role) then false else true)
    then taken
    else rest
