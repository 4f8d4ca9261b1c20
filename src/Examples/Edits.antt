-- ===== src/Examples/Edits.antt =====
-- The theorem on the rules table at concrete edits.
use bf.RulesView.Editors.{set_model_data-unchanged}
use bf.RulesView.Bold.{set_all-paint}
use bf.RulesView.Delegate.{paint, column_number, set_model_data, set_editor_data, create_editor}
use bf.Base.{◌≡◌, refl, List, [], ◌∷◌, some, arith, not, ◌==◌, if◌then◌else◌, ltb, ◌^◌, ◌-◌}
use bf.Rule.{FilterRule, rule_eq}
use bf.RulesTable.{
  RulesTable, off_column, policy_column, Edit, set_all, set_data, noted, index_of, value_of,
  other_column, with_value, item_at, cancel_changes,
}
use bf.RulesTable.Cancelling.{set_all-cancel_changes}
use bf.Examples.{dns_rule, tcp_rule}

abbrev shown_rules : List FilterRule
shown_rules = dns_rule ∷ tcp_rule ∷ []

-- The second rule is switched off and gets a policy, and the first is switched off and on again.
abbrev edits : List Edit
edits =
    record { column = off_column; row = 1; value = 1 }
    ∷ record { column = off_column; row = 0; value = 1 }
    ∷ record { column = policy_column; row = 1; value = 0 }
    ∷ record { column = off_column; row = 0; value = 0 }
    ∷ []

abbrev edited_table : RulesTable
edited_table = record {
  items = dns_rule ∷ record tcp_rule { off = 1; policy = 0 } ∷ [];
  old_items = tcp_rule ∷ [];
}

table-edited : set_all edits (record { items = shown_rules; old_items = [] }) ≡ some edited_table
unfolding set_all set_data noted index_of value_of other_column with_value item_at rule_eq
table-edited = refl

set_all-cancel_changes_example :
    cancel_changes edited_table ≡ record { items = shown_rules; old_items = [] }
unfolding rule_eq
set_all-cancel_changes_example =
    set_all-cancel_changes shown_rules edits edited_table ((refl, tt), (tt, tt))
      ((omega arith, omega arith), ((omega arith, omega arith), tt)) table-edited

set_all-paint_example :
    (paint edited_table 1 (column_number policy_column)).1
    ≡ not (
        value_of policy_column tcp_rule
        == value_of policy_column (record tcp_rule { off = 1; policy = 0 }))
unfolding rule_eq item_at
set_all-paint_example =
    set_all-paint shown_rules edits edited_table 1 tcp_rule
      (record tcp_rule { off = 1; policy = 0 }) policy_column ((refl, tt), (tt, tt))
      ((omega arith, omega arith), ((omega arith, omega arith), tt)) table-edited refl refl

set_model_data-unchanged_example :
    set_model_data edited_table 1 off_column
      (set_editor_data edited_table 1 off_column (create_editor edited_table 1 off_column))
    ≡ (if ltb (value_of off_column (record tcp_rule { off = 1; policy = 0 })) 2
        then some edited_table
        else set_data off_column 1 (2 ^ 32 - 1) edited_table)
unfolding item_at
set_model_data-unchanged_example =
    set_model_data-unchanged edited_table 1 off_column (record tcp_rule { off = 1; policy = 0 })
      refl
