-- ===== src/MainWindow/Edits.antt =====
-- Edits in the window, and the buttons that they switch.
use mathlib.Core.Path.{subst}
use bf.Base.{
  ◌≡◌, refl, sym, ap, ◌∙◌, true, not, List, Option, none, some, Option-cases, inl, inr,
  if◌then◌else◌, ◌==◌, Bool-cases, if_cases, ◌||◌, [], ◌∷◌, ◌>>=◌,
}
use bf.Rule.{FilterRule}
use bf.RulesTable.{RulesTable, Edit, value_of, item_at, set_data, set_all, get_dirty}
use bf.RulesTable.Tracking.{some_inj, none_ne_some}
use bf.Link.{Link}
use bf.RulesTable.Cancelling.{set_found, set_data-found, set_rest, set_all-rest}
use bf.MainWindow.{noticed, Window, with_uncommitted, is_empty, data_changed, edit_cells, edit_cell}

-- The flag and the buttons tell whether the table has changes.
pub record Flagged (w : Window) : Type 0 where
  pub flag : w.uncommitted ≡ not (is_empty (get_dirty w.table))
  pub apply_button : w.can_apply ≡ w.uncommitted
  pub cancel_button : w.can_cancel ≡ w.uncommitted

-- What edits leave: those of the table, and the flag.
pub record Edited (es : List Edit) (w w' : Window) : Type 0 where
  pub table : set_all es w.table ≡ some w'.table
  pub link : Path Link w'.link w.link
  pub flagged : w.is_connected ≡ true → Flagged w → Flagged w'
  pub connected : w'.is_connected ≡ w.is_connected

-- dataChanged, by the item whose value is set.
abbrev noticed_at : Edit → Window → Option FilterRule → Window
noticed_at e w none = w
noticed_at e w (some x) =
    if value_of e.column x == e.value || not w.is_connected then w else data_changed w

noticed-same :
    (e : Edit) (w : Window) (o : Option FilterRule)
    → let w' = noticed_at e w o in
      (w'.table ≡ w.table) × Path Link w'.link w.link × (w'.is_connected ≡ w.is_connected)
unfolding data_changed with_uncommitted
noticed-same e w none = (refl, refl, refl)
noticed-same e w (some x) =
    if_cases
      (λ (w' : Window).
        (w'.table ≡ w.table) × Path Link w'.link w.link × (w'.is_connected ≡ w.is_connected))
      (value_of e.column x == e.value || not w.is_connected) (λ _. (refl, refl, refl))
      (λ _. (refl, refl, refl))

-- Where the value is that of the item, nothing is changed.
set_data-same :
    (e : Edit) (m m' : RulesTable) (x : FilterRule)
    → item_at e.row m.items ≡ some x
    → (value_of e.column x == e.value) ≡ true
    → set_data e.column e.row e.value m ≡ some m'
    → m' ≡ m
set_data-same e m m' x h same s = sym (
    some_inj (
      sym (
        set_data-found e.column e.row e.value m
        ∙ ap (set_found e.column e.row e.value m) h
        ∙ rw same refl)
      ∙ s))

noticed-Flagged :
    (e : Edit) (w : Window) (m : RulesTable)
    → set_data e.column e.row e.value w.table ≡ some m
    → w.is_connected ≡ true
    → Flagged w
    → Flagged (noticed_at e (record w { table = m }) (item_at e.row w.table.items))
unfolding data_changed with_uncommitted
noticed-Flagged e w m s c f = elim (Option-cases (item_at e.row w.table.items)) [
  | inl gone ↦ absurd (
      none_ne_some (
        sym (
          set_data-found e.column e.row e.value w.table
          ∙ ap (set_found e.column e.row e.value w.table) gone)
        ∙ s))
  | inr (x, there) ↦ rw there (elim (Bool-cases (value_of e.column x == e.value)) [
    | inl same ↦
        let kept = set_data-same e w.table m x there same s in
        rw same (record {
          flag = f.flag ∙ ap (λ t. not (is_empty (get_dirty t))) (sym kept);
          apply_button = f.apply_button;
          cancel_button = f.cancel_button;
        })
    | inr differs ↦
        rw (differs, c) (record { flag = refl; apply_button = refl; cancel_button = refl })
  ])
]

noticed-at :
    (e : Edit) (items : List FilterRule) (w : Window)
    → noticed e items w ≡ noticed_at e w (item_at e.row items)
unfolding noticed
noticed-at e items w = refl

-- The window after an edit that sets `m`.
abbrev cell_set : Edit → Window → RulesTable → Window
cell_set e w m = noticed e w.table.items (record w { table = m })

cell_set-noticed :
    (e : Edit) (w : Window) (m : RulesTable)
    → cell_set e w m ≡ noticed_at e (record w { table = m }) (item_at e.row w.table.items)
cell_set-noticed e w m = noticed-at e w.table.items (record w { table = m })

edit_cells-set :
    (e : Edit) (es : List Edit) (w : Window)
    → edit_cells (e ∷ es) w
      ≡ (set_data e.column e.row e.value w.table >>= (λ m. edit_cells es (cell_set e w m)))
unfolding edit_cells edit_cell
edit_cells-set e es w = elim (Option-cases (set_data e.column e.row e.value w.table)) [
  | inl gone ↦ rw gone refl
  | inr (m, there) ↦ rw there refl
]

pub edit_cells-Edited :
    (es : List Edit) (w w' : Window) → edit_cells es w ≡ some w' → Edited es w w'
unfolding edit_cells set_all
edit_cells-Edited [] w w' h =
    let same : w ≡ w' = some_inj h in
    subst (Edited [] w) same
      (record { table = refl; link = refl; flagged = λ c f. f; connected = refl })
edit_cells-Edited (e ∷ es) w w' h = elim (Option-cases (set_data e.column e.row e.value w.table)) [
  | inl gone ↦ absurd (none_ne_some (sym (edit_cells-set e es w ∙ rw gone refl) ∙ h))
  | inr (m, there) ↦
      let w1 = cell_set e w m in
      let v : Window = noticed_at e (record w { table = m }) (item_at e.row w.table.items) in
      let at : w1 ≡ v = cell_set-noticed e w m in
      let kept = noticed-same e (record w { table = m }) (item_at e.row w.table.items) in
      let rest = edit_cells-Edited es w1 w' (sym (edit_cells-set e es w ∙ rw there refl) ∙ h) in
      let linked : Path Link w1.link w.link = ap (λ (u : Window). u.link) at ∙ kept.1 in
      let connected : w1.is_connected ≡ w.is_connected =
        ap (λ (u : Window). u.is_connected) at ∙ kept.2 in
      record {
        table =
            set_all-rest e es w.table
            ∙ ap (set_rest es) (there ∙ ap some (sym (ap (λ (u : Window). u.table) at ∙ kept.0)))
            ∙ rest.table;
        link = rest.link ∙ linked;
        flagged = λ c f.
            rest.flagged (connected ∙ c) (subst Flagged (sym at) (noticed-Flagged e w m there c f));
        connected = rest.connected ∙ connected;
      }
]
