-- ===== src/RulesTable.antt =====
-- tests/bfctl_gui/rulestablemodel.cpp: the rules that the GUI shows, and the values before the changes
-- that are not saved. The items are shared pointers, which nobody else writes through; the signals
-- are left out.
pub mod Old
pub mod Tracking
pub mod Rows
pub mod Cancelling
pub mod Ascending
pub mod Removing
use bf.Base.{
  ℕ, zero, suc, ltb, length, ◌%◌, ◌^◌, ◌&&◌, Bool, List, [], ◌∷◌, ◌++◌, map, filter, find,
  erase_first, set, Option, none, some, if◌then◌else◌, ◌==◌,
}
use bf.Rule.{FilterRule, rule_eq}

pub record RulesTable : Type 0 where
  pub items : List FilterRule
  pub old_items : List FilterRule

-- The two columns that can be edited.
pub data Column : Type 0 where
  off_column policy_column : Column

unfoldable pub value_of : Column → FilterRule → ℕ
value_of off_column r = r.off
value_of policy_column r = r.policy

unfoldable pub other_column : Column → Column
other_column off_column = policy_column
other_column policy_column = off_column

-- An `int` into a byte
unfoldable pub with_value : Column → ℕ → FilterRule → FilterRule
with_value off_column v r = record r { off = v % 2 ^ 8 }
with_value policy_column v r = record r { policy = v % 2 ^ 8 }

unfoldable pub item_at : ℕ → List FilterRule → Option FilterRule
item_at i [] = none
item_at zero (x ∷ xs) = some x
item_at (suc i) (x ∷ xs) = item_at i xs

-- indexOf, by the item that it finds
unfoldable pub index_of : List FilterRule → FilterRule → Option FilterRule
index_of old x = find (λ o. rule_eq o x) old

-- mOldItems after a value that differs from the item's is set.
unfoldable pub noted : Column → ℕ → FilterRule → List FilterRule → List FilterRule
unfolding index_of value_of other_column
noted col v x old = elim (index_of old x) [
  | none ↦ old ++ x ∷ []
  | some o ↦
      if value_of col o == v && value_of (other_column col) o == value_of (other_column col) x
      then erase_first (λ e. rule_eq e x) old
      else old
]

-- setData of a row; `none` where there is no such row.
unfoldable pub set_data : Column → ℕ → ℕ → RulesTable → Option RulesTable
unfolding item_at noted value_of with_value
set_data col row v m = elim (item_at row m.items) [
  | none ↦ none
  | some x ↦ some (
      if value_of col x == v then m else record {
        items = set m.items row (with_value col v x);
        old_items = noted col v x m.old_items;
      })
]

unfoldable pub restored_item : List FilterRule → FilterRule → FilterRule
unfolding index_of
restored_item old x = elim (index_of old x) [
  | none ↦ x
  | some o ↦ record x { off = o.off; policy = o.policy }
]

unfoldable pub cancel_changes : RulesTable → RulesTable
unfolding restored_item
cancel_changes m = record { items = map (restored_item m.old_items) m.items; old_items = [] }

unfoldable pub is_dirty : List FilterRule → FilterRule → Bool
unfolding index_of
is_dirty old x = elim (index_of old x) [ none ↦ Bool.false | some o ↦ Bool.true ]

unfoldable pub get_dirty : RulesTable → List FilterRule
unfolding is_dirty
get_dirty m = filter (is_dirty m.old_items) m.items

unfoldable pub clear_dirty : RulesTable → RulesTable
clear_dirty m = record m { old_items = [] }

unfoldable pub append_item : FilterRule → RulesTable → RulesTable
append_item r m = record m { items = m.items ++ r ∷ [] }

unfoldable pub set_rules : List FilterRule → RulesTable → RulesTable
set_rules rs m = record m { items = rs }

-- Edits one after the other.
pub record Edit : Type 0 where
  pub column : Column
  pub row : ℕ
  pub value : ℕ

unfoldable pub set_all : List Edit → RulesTable → Option RulesTable
unfolding set_data
set_all [] m = some m
set_all (e ∷ es) m = elim (set_data e.column e.row e.value m) [
  | none ↦ none
  | some m' ↦ set_all es m'
]

unfoldable pub remove_at : ℕ → List FilterRule → List FilterRule
remove_at i [] = []
remove_at zero (x ∷ xs) = xs
remove_at (suc i) (x ∷ xs) = x ∷ remove_at i xs

-- removeItem; a row that there is not changes nothing.
unfoldable pub remove_item : ℕ → RulesTable → RulesTable
unfolding remove_at
remove_item row m = record m { items = remove_at row m.items }

-- qStableSort
unfoldable pub insert_row : ℕ → List ℕ → List ℕ
insert_row r [] = r ∷ []
insert_row r (x ∷ xs) = if ltb x r then x ∷ insert_row r xs else r ∷ x ∷ xs

unfoldable pub sort_rows : List ℕ → List ℕ
unfolding insert_row
sort_rows [] = []
sort_rows (r ∷ rs) = insert_row r (sort_rows rs)

-- A row that moves up by one; `none` stands for a negative row.
unfoldable pub move_up : Option ℕ → Option ℕ
move_up none = none
move_up (some zero) = none
move_up (some (suc i)) = some i

-- removeAt, which does nothing out of range
unfoldable pub remove_row : Option ℕ → List FilterRule → List FilterRule
unfolding remove_at
remove_row none items = items
remove_row (some i) items = remove_at i items

-- The loop of removeItems: the first row is removed, and the others move up by one. The fuel is their
-- number.
unfoldable pub remove_rows : ℕ → List (Option ℕ) → List FilterRule → List FilterRule
unfolding remove_row move_up
remove_rows zero rows items = items
remove_rows (suc fuel) [] items = items
remove_rows (suc fuel) (r ∷ rows) items = remove_rows fuel (map move_up rows) (remove_row r items)

unfoldable pub remove_items : List ℕ → RulesTable → RulesTable
unfolding sort_rows remove_rows
remove_items rows m =
    let valid = sort_rows (filter (λ i. ltb i (length m.items)) rows) in
    record m { items = remove_rows (length valid) (map (λ i. some i) valid) m.items }
