-- ===== src/MainWindow.antt =====
-- tests/bfctl_gui/mainwindow.cpp: the window over the rules table and a BFLocalControl, with
-- rulefilterproxymodel.cpp. The commands of the BFLocalControl do what those of the service's BFControl
-- do for the rule as it comes out of the stream. Positions, sizes and texts of the window are left out.
-- `none` stands for a crash of the control.
pub mod Updates
pub mod Asking
pub mod Edits
pub mod Closing
pub mod Applying
pub mod Opening
pub mod Adding
pub mod Deleting
pub mod AddDialog
use bf.Base.{
  ℕ, ◌+◌, ◌||◌, not, Bool, true, false, List, [], ◌∷◌, map, filter, Option, none, some, ◌>>=◌,
  if◌then◌else◌, ◌==◌,
}
use bf.Rule.{FilterRule, policy_rule, chain_input}
use bf.Message.{MessageType, msg_add_rule, msg_update_rule, msg_delete_rule}
use bf.Client.{Result, returned, failed}
use bf.Link.{Link, call, get_rules}
use bf.Stream.Laws.{restored}
use bf.RulesTable.{
  RulesTable, Edit, value_of, item_at, set_data, get_dirty, clear_dirty, cancel_changes,
  append_item, set_rules, remove_items,
}

-- `filter_text` is the number that the proxy looks for in the column of the chains, and `is_connected`
-- tells whether dataChanged of the table reaches the window.
pub record Window : Type 0 where
  pub table : RulesTable
  pub filter_text : ℕ
  pub uncommitted : Bool
  pub can_apply : Bool
  pub can_cancel : Bool
  pub is_connected : Bool
  pub link : Link

unfoldable pub with_uncommitted : Bool → Window → Window
with_uncommitted b w = record w { uncommitted = b; can_apply = b; can_cancel = b }

unfoldable pub is_empty : List FilterRule → Bool
is_empty [] = true
is_empty (r ∷ rs) = false

-- dataChanged
unfoldable pub data_changed : Window → Window
unfolding with_uncommitted is_empty
data_changed w = with_uncommitted (not (is_empty (get_dirty w.table))) w

-- The signal of setData, which is emitted where the value differs from that before.
unfoldable pub noticed : Edit → List FilterRule → Window → Window
unfolding data_changed
noticed e items w = elim (item_at e.row items) [
  | none ↦ w
  | some x ↦ if value_of e.column x == e.value || not w.is_connected then w else data_changed w
]

-- An edit of a cell; `none` where there is no such row.
unfoldable pub edit_cell : Window → Edit → Option Window
unfolding noticed
edit_cell w e = do
  m ← set_data e.column e.row e.value w.table
  some (noticed e w.table.items (record w { table = m }))

unfoldable pub edit_cells : List Edit → Window → Option Window
unfolding edit_cell
edit_cells [] w = some w
edit_cells (e ∷ es) w = do w' ← edit_cell w e; edit_cells es w'

-- cbPolicyChanged
unfoldable pub policy_changed : ℕ → Window → Window
policy_changed i w = record w { filter_text = i + chain_input }

-- The rules that the view shows; `contains n m` tells whether the decimal text of `n` has that of `m` in it.
unfoldable pub visible : (ℕ → ℕ → Bool) → Window → List FilterRule
visible contains w = filter (λ r. contains r.base.chain w.filter_text) w.table.items

-- cancelChanges
unfoldable pub cancel_clicked : Window → Window
unfolding with_uncommitted
cancel_clicked w = with_uncommitted false (record w { table = cancel_changes w.table })

pub data Reply : Type 0 where
  reply_yes reply_no reply_cancel : Reply

pub data CloseEnd : Type 0 where
  ignored closed : CloseEnd

-- closeEvent; the answer to the question, which is put where there are uncommitted data.
unfoldable pub close_event : Window → Reply → CloseEnd
close_event w reply =
    if w.uncommitted
    then (elim reply [ reply_yes ↦ ignored | reply_no ↦ closed | reply_cancel ↦ ignored ])
    else closed

unfoldable pub rules_at : List ℕ → List FilterRule → List FilterRule
rules_at [] items = []
rules_at (i ∷ rows) items = elim (item_at i items) [
  | none ↦ rules_at rows items
  | some r ↦ r ∷ rules_at rows items
]

-- A filter_rule_t by its constructor
abbrev pub new_rule : FilterRule → FilterRule
new_rule blank = record blank {
  base = record { chain = 0; proto = 0; src_port = 0; dst_port = 0; s_addr = 0; d_addr = 0 };
  off = 0;
  policy = 0;
}

module _ (blank : FilterRule) (sent pid : ℕ) where
  -- addRule, updateRule and deleteRule of the BFLocalControl
  unfoldable pub ask : MessageType → Link → FilterRule → Option (Link × Result)
  ask t l fr = call sent pid t l (restored blank fr)

  -- A command for each rule, whose results are dropped.
  unfoldable pub ask_all : MessageType → List FilterRule → Link → Option Link
  unfolding ask
  ask_all t [] l = some l
  ask_all t (r ∷ rs) l = do (l', ret) ← ask t l r; ask_all t rs l'

  -- applyChanges
  unfoldable pub apply_clicked : Window → Option Window
  unfolding ask_all with_uncommitted
  apply_clicked w = do
    l ← ask_all msg_update_rule (get_dirty w.table) w.link
    some (with_uncommitted false (record w { table = clear_dirty w.table; link = l }))

  -- addRule, with the rule of the dialog, or `none` where it was rejected; the flag tells whether the
  -- message that the rule exists is shown.
  unfoldable pub add_clicked : Window → Option FilterRule → Option (Window × Bool)
  unfolding ask
  add_clicked w none = some (w, false)
  add_clicked w (some fr) = do
    (l, ret) ← ask msg_add_rule w.link fr
    let w' : Window = record w { link = l }
    elim ret [
      | returned n ↦ some (record w' { table = append_item fr w.table }, false)
      | failed e ↦ some (w', true)
    ]

  -- deleteRules, with the rows of the selection: they are rows of the proxy, and are used as rows of
  -- the table.
  unfoldable pub delete_clicked : Window → List ℕ → Reply → Option Window
  unfolding ask_all rules_at
  delete_clicked w [] reply = some w
  delete_clicked w (i ∷ rows) reply = elim reply [
    | reply_yes ↦ do
      l ← ask_all msg_delete_rule (rules_at (i ∷ rows) w.table.items) w.link
      some (record w { table = remove_items (i ∷ rows) w.table; link = l })
    | reply_no ↦ some w
    | reply_cancel ↦ some w
  ]

  -- The constructor behind getRulesSync
  unfoldable pub listing_taken : Window → Link × Result × List FilterRule → Window
  listing_taken w (l, returned n, rs) =
      let model_list = filter (λ r. not (policy_rule r.base)) (map (restored blank) rs) in
      record w { table = set_rules model_list w.table; is_connected = true; link = l }
  listing_taken w (l, failed e, rs) = record w { link = l }

  -- The constructor, where `opened` tells whether init of the BFLocalControl succeeds.
  unfoldable pub window_opened : (ℕ → Bool) → Bool → Link → Option Window
  unfolding policy_changed listing_taken
  window_opened send_ok opened l =
      let w : Window = policy_changed 0 (record {
        table = record { items = []; old_items = [] };
        filter_text = 0;
        uncommitted = false;
        can_apply = false;
        can_cancel = false;
        is_connected = false;
        link = l;
      }) in
      elim opened [
        | true ↦ do
          listing ← get_rules sent pid send_ok l (restored blank (new_rule blank))
          some (listing_taken w listing)
        | false ↦ some w
      ]
