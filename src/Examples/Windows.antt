-- ===== src/Examples/Windows.antt =====
-- The window of the GUI, at concrete edits.
use bf.MainWindow.Deleting.{delete_clicked-InStep}
use bf.RulesTable.Removing.{without}
use bf.RulesTable.Ascending.{member}
use bf.Names.{codes, get_proto, strcasecmp_zero}
use bf.Base.{
  ◌≡◌, ◌⊎◌, refl, Bool, true, false, List, [], ◌∷◌, ◌++◌, map, some, none, find, arith, ◌==◌,
}
use bf.Rule.{FilterRule, rule_eq, policy_rule, chain_input, ipproto_udp}
use bf.Store.{IsStore, rules, add_rule, init_rules}
use bf.Store.Refines.{has_base}
use bf.Kernel.{init_module, ntohl}
use bf.Stream.{IsRule}
use bf.Stream.Laws.{restored}
use bf.Listing.Complete.{delivered}
use bf.Service.Core.{core}
use bf.Cli.{zeroed_rule}
use bf.RulesTable.{
  Edit, off_column, set_data, noted, index_of, value_of, other_column, with_value, item_at,
  get_dirty, is_dirty, remove_items, remove_rows, remove_row, remove_at, sort_rows, insert_row,
  move_up,
}
use bf.MainWindow.{
  Window, edit_cell, edit_cells, noticed, data_changed, with_uncommitted, is_empty, close_event,
  closed, reply_no, apply_clicked, add_clicked, window_opened, visible, rules_at, delete_clicked,
  reply_yes,
}
use bf.MainWindow.Asking.{InStep}
use bf.MainWindow.Edits.{Flagged}
use bf.MainWindow.Closing.{close_event-unchanged}
use bf.MainWindow.Applying.{edit_cells-apply_clicked}
use bf.MainWindow.Opening.{window_opened-InStep}
use bf.MainWindow.AddDialog.{AddDialog, accept, accepted}
use bf.MainWindow.Adding.{add_clicked-InStep}
use bf.Examples.{one_rule, dns_rule, tcp_rule}
use bf.Examples.Kernels.{one_rule-IsStore}
use bf.Examples.Services.{idle}

abbrev window : Window
window = record {
  table = record { items = dns_rule ∷ []; old_items = [] };
  filter_text = 2;
  uncommitted = false;
  can_apply = false;
  can_cancel = false;
  is_connected = true;
  link = record { kernel = one_rule; control = idle };
}

-- The rule is switched off.
abbrev switch_off : List Edit
switch_off = record { column = off_column; row = 0; value = 1 } ∷ []

abbrev switched : Window
switched = record window {
  table = record { items = record dns_rule { off = 1 } ∷ []; old_items = dns_rule ∷ [] };
  uncommitted = true;
  can_apply = true;
  can_cancel = true;
}

window-switched : edit_cells switch_off window ≡ some switched
unfolding edit_cells edit_cell noticed data_changed with_uncommitted is_empty set_data noted
    index_of value_of other_column with_value item_at rule_eq get_dirty is_dirty
window-switched = refl

window-InStep : InStep window.table.items one_rule
unfolding init_module add_rule init_rules
window-InStep true = refl
window-InStep false = refl

dns_rule-IsRule : IsRule dns_rule
dns_rule-IsRule = record {
  words = record {
    chain_u8 = omega arith;
    proto_u16 = omega arith;
    src_port_u16 = omega arith;
    dst_port_u16 = omega arith;
    s_addr_u32 = omega arith;
    d_addr_u32 = omega arith;
  };
  off_u8 = omega arith;
  policy_u8 = omega arith;
}

window-Flagged : Flagged window
unfolding is_empty get_dirty is_dirty index_of
window-Flagged = record { flag = refl; apply_button = refl; cancel_button = refl }

close_event-unchanged_example :
    (close_event switched reply_no ≡ closed
      → (reply_no ≡ reply_no) ⊎ (switched.table.items ≡ window.table.items))
    × (switched.can_apply ≡ switched.uncommitted)
    × (switched.can_cancel ≡ switched.uncommitted)
close_event-unchanged_example =
    close_event-unchanged switch_off window switched reply_no refl refl window-Flagged (tt, tt)
      ((omega arith, omega arith), tt) window-switched

edit_cells-apply_clicked_example :
    (w2 : Window) × (apply_clicked zeroed_rule 0 1234 switched ≡ some w2)
    × InStep w2.table.items w2.link.kernel
    × (w2.table ≡ record { items = switched.table.items; old_items = [] })
    × (w2.can_apply ≡ false)
    × IsStore w2.link.kernel.store
unfolding get_dirty rule_eq
edit_cells-apply_clicked_example =
    edit_cells-apply_clicked zeroed_rule 0 1234 switch_off window switched one_rule-IsStore refl
      window-InStep (tt, tt) (dns_rule-IsRule, tt) window-switched ((refl, refl), tt)

window_opened-InStep_example :
    (w : Window) × (window_opened zeroed_rule 0 1234 delivered true
        (record { kernel = one_rule; control = idle })
      ≡ some w)
    × InStep w.table.items w.link.kernel
    × IsStore w.link.kernel.store
    × (map core (rules w.link.kernel.store) ≡ map core (rules one_rule.store))
    × (w.table.old_items ≡ [])
    × Flagged w
    × (w.is_connected ≡ true)
unfolding add_rule init_module init_rules policy_rule
window_opened-InStep_example =
    window_opened-InStep zeroed_rule 0 1234 one_rule idle one_rule-IsStore (refl, tt)

abbrev dialog : AddDialog
dialog = record { chain = chain_input; proto = codes "UDP"; port = 53; any = true; host = none }

abbrev from_dns : FilterRule
from_dns = record zeroed_rule {
  base = record {
    chain = chain_input;
    proto = ipproto_udp;
    src_port = 53;
    dst_port = 0;
    s_addr = 0;
    d_addr = 0;
  };
}

dialog-accepted : accept zeroed_rule dialog ≡ accepted from_dns
unfolding accept get_proto strcasecmp_zero ntohl
dialog-accepted = refl

add_clicked-InStep_example :
    (w' : Window) × (shown : Bool) × (add_clicked zeroed_rule 0 1234 window (some from_dns)
      ≡ some (w', shown))
    × (elim (find (has_base from_dns.base) (rules one_rule.store)) as (λ _. Type 0) [
      | some r ↦
          (shown ≡ true)
          × (w'.table ≡ window.table)
          × (rules w'.link.kernel.store ≡ rules one_rule.store)
      | none ↦
          (shown ≡ false)
          × (w'.table.items ≡ window.table.items ++ from_dns ∷ [])
          × (rules w'.link.kernel.store
              ≡ rules one_rule.store ++ restored zeroed_rule from_dns ∷ [])
    ])
    × IsStore w'.link.kernel.store
    × InStep w'.table.items w'.link.kernel
add_clicked-InStep_example =
    add_clicked-InStep zeroed_rule 0 1234 dialog from_dns window dialog-accepted one_rule-IsStore
      window-InStep

-- The view shows the second of two rules; its row in the view is the row of the first in the table.
abbrev two_chains : Window
two_chains = record window { table = record { items = tcp_rule ∷ dns_rule ∷ []; old_items = [] } }

hidden-removed :
    (visible (λ n m. n == m) two_chains ≡ dns_rule ∷ [])
    × (rules_at (0 ∷ []) two_chains.table.items ≡ tcp_rule ∷ [])
    × ((remove_items (0 ∷ []) two_chains.table).items ≡ dns_rule ∷ [])
unfolding visible rules_at item_at remove_items remove_rows remove_row remove_at sort_rows
    insert_row move_up
hidden-removed = (refl, refl, refl)

delete_clicked-InStep_example :
    (w' : Window) × (delete_clicked zeroed_rule 0 1234 window (0 ∷ []) reply_yes ≡ some w')
    × (w'.table.items ≡ without (member (0 ∷ [])) window.table.items)
    × IsStore w'.link.kernel.store
    × InStep w'.table.items w'.link.kernel
delete_clicked-InStep_example =
    delete_clicked-InStep zeroed_rule 0 1234 0 [] window one_rule-IsStore window-InStep (tt, tt)
      (dns_rule-IsRule, tt) (omega arith, tt) (refl, tt)
