-- ===== src/MainWindow/Applying.antt =====
-- The window and the kernel module, after edits that are applied or taken back.
use mathlib.Core.Path.{subst}
use bf.Service.Restarted.{some-bind}
use bf.Link.{Link}
use bf.Message.{msg_update_rule}
use bf.Base.{ℕ, ◌≡◌, sym, ap, ◌∙◌, List, [], ◌∷◌, map, filter, All, some, refl, false}
use bf.Rule.{FilterRule}
use bf.Store.{IsStore, rules}
use bf.Kernel.{Kernel}
use bf.System.Verdicts.{direction_rules}
use bf.Stream.{IsRule}
use bf.Service.Core.{core}
use bf.RulesTable.{Edit, is_dirty, get_dirty, clear_dirty, cancel_changes, RulesTable, set_all}
use bf.RulesTable.Tracking.{Distinct, AreBytes}
use bf.RulesTable.Cancelling.{Follows, set_all-Follows, untouched, set_all-cancel_changes}
use bf.MainWindow.{Window, edit_cells, apply_clicked, cancel_clicked, with_uncommitted, ask_all}
use bf.MainWindow.Updates.{updates, map-core-updates, HasValues, updates-edited}
use bf.MainWindow.Asking.{
  InStep, direction-updates, ask_all-Asked, update-Answers, update-request_specs,
}
use bf.MainWindow.Edits.{edit_cells-Edited}

IsRule-AreBytes : (rs : List FilterRule) → All IsRule rs → All AreBytes rs
IsRule-AreBytes [] h = tt
IsRule-AreBytes (r ∷ rs) h = ((h.0.off_u8, h.0.policy_u8), IsRule-AreBytes rs h.1)

-- What edits and a click on the button to apply or to cancel leave.
module _ (blank : FilterRule) (sent pid : ℕ) (es : List Edit) (w w1 : Window)
    (lists : IsStore w.link.kernel.store) (clean : w.table.old_items ≡ [])
    (in_step : InStep w.table.items w.link.kernel) (distinct : Distinct w.table.items)
    (words : All IsRule w.table.items) (edits : edit_cells es w ≡ some w1) where
  follows : Follows w.table.items w1.table
  follows =
      set_all-Follows w.table.items es w.table w1.table distinct
        (IsRule-AreBytes w.table.items words)
        (subst (λ old. Follows w.table.items (record { items = w.table.items; old_items = old }))
          (sym clean) (untouched w.table.items))
        (edit_cells-Edited es w w1 edits).table

  -- The updates of the changed rules make the rules of the module those of the table.
  updated-InStep :
      All HasValues (get_dirty w1.table)
      → (k : Kernel)
      → rules k.store ≡ map (updates (get_dirty w1.table)) (rules w.link.kernel.store)
      → InStep w1.table.items k
  unfolding get_dirty
  updated-InStep values k e b =
      let ds = get_dirty w1.table in
      let after : map (updates ds) (map core w.table.items) ≡ map core w1.table.items =
        subst
          (λ xs.
            map (updates (filter (is_dirty w1.table.old_items) xs)) (map core w.table.items)
            ≡ map core xs)
          (sym follows.shown)
          (updates-edited w1.table.old_items w.table.items follows.values distinct words
            follows.tracked
            (subst (λ xs. All HasValues (filter (is_dirty w1.table.old_items) xs)) follows.shown
              values)) in
      ap (direction_rules b) (sym after)
      ∙ (direction-updates b ds (map core w.table.items)
          ∙ (ap (map (updates ds)) (in_step b)
              ∙ (sym (direction-updates b ds (map core (rules w.link.kernel.store)))
                  ∙ ap (direction_rules b)
                      (sym (ap (map core) e ∙ map-core-updates ds (rules w.link.kernel.store))))))

  -- After edits of a window that shows the rules of the module with no changes noted, a click on the button
  -- to apply ends, leaves the table as edited with no changes noted and the button disabled, and leaves
  -- the module with the rules of the table, each chain in its order, but for numbers and hardware
  -- addresses. No two rules of the table are equal for it, which does not compare chains, their fields
  -- are words of their widths, and the rules that changed have neither a switch nor a policy with the
  -- value for an open field.
  pub edit_cells-apply_clicked :
      All HasValues (get_dirty w1.table)
      → (w2 : Window) × (apply_clicked blank sent pid w1 ≡ some w2)
        × InStep w2.table.items w2.link.kernel
        × (w2.table ≡ record { items = w1.table.items; old_items = [] })
        × (w2.can_apply ≡ false)
        × IsStore w2.link.kernel.store
  unfolding apply_clicked clear_dirty with_uncommitted
  edit_cells-apply_clicked values =
      let edited_link = (edit_cells-Edited es w w1 edits).link in
      let sent_all =
        ask_all-Asked blank sent pid msg_update_rule (get_dirty w1.table) w.link.kernel
          w.link.control (update-Answers blank sent pid) lists in
      (
        _,
        some-bind _ _ _ _
            (ap (ask_all blank sent pid msg_update_rule (get_dirty w1.table)) edited_link
              ∙ sent_all.returns)
            refl,
        updated-InStep values sent_all.kernel (
            sent_all.has_rules
            ∙ update-request_specs blank (get_dirty w1.table) (rules w.link.kernel.store)),
        refl,
        refl,
        sent_all.lists,
      )

  -- A click on the button to cancel, after edits of a window that shows the rules of the module, leaves
  -- the module and the table as they were before the edits, with the buttons disabled, under the same
  -- conditions on the rules.
  pub edit_cells-cancel_clicked :
      let w2 = cancel_clicked w1 in
      (w2.table ≡ w.table) × InStep w2.table.items w2.link.kernel × (w2.can_cancel ≡ false)
  unfolding cancel_clicked with_uncommitted
  edit_cells-cancel_clicked =
      let end = edit_cells-Edited es w w1 edits in
      let back : cancel_changes w1.table ≡ w.table =
        set_all-cancel_changes w.table.items es w1.table distinct
          (IsRule-AreBytes w.table.items words)
          (ap (λ old. set_all es (record { items = w.table.items; old_items = old })) (sym clean)
            ∙ end.table)
        ∙ ap (λ old. record { items = w.table.items; old_items = old }) (sym clean) in
      (
        back,
        λ b.
            ap (λ (t : RulesTable). direction_rules b (map core t.items)) back
            ∙ (in_step b
                ∙ ap (λ (l : Link). direction_rules b (map core (rules l.kernel.store)))
                    (sym end.link)),
        refl,
      )
