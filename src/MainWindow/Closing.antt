-- ===== src/MainWindow/Closing.antt =====
-- What a window that closes has shown.
use mathlib.Core.Path.{ap₂, subst}
use bf.RulesTable.Old.{lookup}
use bf.Base.{
  ◌≡◌, refl, sym, ap, ◌∙◌, true, not, List, none, some, Option-cases, inl, inr, if◌then◌else◌,
  Bool-cases, ℕ, ◌⊎◌, Bool, false, [], ◌∷◌, filter, All,
}
use bf.Rule.{FilterRule}
use bf.RulesTable.{Edit, get_dirty, is_dirty}
use bf.RulesTable.Tracking.{Tracked, Good, edited, Distinct, AreBytes}
use bf.RulesTable.Cancelling.{Follows, set_all-Follows, untouched}
use bf.MainWindow.Updates.{is_dirty-found}
use bf.MainWindow.{
  Reply, reply_yes, reply_no, reply_cancel, ignored, closed, close_event, Window, is_empty,
  edit_cells,
}
use bf.MainWindow.Edits.{Flagged, edit_cells-Edited}

-- Where no rule of the table is found among the old ones, all are as they were.
clean-edited :
    (old os : List FilterRule) (ws : List (ℕ × ℕ))
    → Tracked old os ws
    → is_empty (filter (is_dirty old) (edited os ws)) ≡ true
    → edited os ws ≡ os
unfolding is_empty
clean-edited old [] ws t h = refl
clean-edited old (o ∷ os) [] t h = refl
clean-edited old (o ∷ os) ((a, p) ∷ ws) t h =
    let x : FilterRule = record o { off = a; policy = p } in
    let rest = clean-edited old os ws t.1 in
    elim (Option-cases (lookup old o.base)) [
      | inl e ↦
          let clean : is_dirty old x ≡ false =
            is_dirty-found old x
            ∙ ap (λ l. elim l as (λ _. Bool) [ none ↦ false | some q ↦ true ]) e in
          let same : x ≡ o = subst (λ l. Good l x o) e t.0 in
          ap₂ (λ (y : FilterRule) ys. y ∷ ys) same (rest (rw clean at h))
      | inr (q, e) ↦
          let dirty : is_dirty old x ≡ true =
            is_dirty-found old x
            ∙ ap (λ l. elim l as (λ _. Bool) [ none ↦ false | some r ↦ true ]) e in
          let no : is_empty (
                if true
                then x ∷ filter (is_dirty old) (edited os ws)
                else filter (is_dirty old) (edited os ws))
              ≡ true =
            rw dirty at h in
          cc
    ]

not-false : (b : Bool) → not b ≡ false → b ≡ true
not-false true h = refl
not-false false h = sym h

asked :
    (reply : Reply) (b : Bool)
    → b ≡ true
    → (if b
        then (elim reply [ reply_yes ↦ ignored | reply_no ↦ closed | reply_cancel ↦ ignored ])
        else closed)
      ≡ closed
    → reply ≡ reply_no
asked reply_yes b e h = cc
asked reply_no b e h = refl
asked reply_cancel b e h = cc

-- A window that was opened and whose cells were edited, and that closes without an answer to discard
-- the changes, shows the rules as they were before the edits, if no two of them are equal for the table,
-- which does not compare chains, and their switches and policies are bytes; both buttons are enabled
-- exactly if it would ask.
pub close_event-unchanged :
    (es : List Edit) (w w' : Window) (reply : Reply)
    → w.table.old_items ≡ []
    → w.is_connected ≡ true
    → Flagged w
    → Distinct w.table.items
    → All AreBytes w.table.items
    → edit_cells es w ≡ some w'
    → (close_event w' reply ≡ closed → (reply ≡ reply_no) ⊎ (w'.table.items ≡ w.table.items))
      × (w'.can_apply ≡ w'.uncommitted)
      × (w'.can_cancel ≡ w'.uncommitted)
unfolding close_event get_dirty
close_event-unchanged es w w' reply clean c f d b h =
    let end = edit_cells-Edited es w w' h in
    let flagged = end.flagged c f in
    let follows : Follows w.table.items w'.table =
      set_all-Follows w.table.items es w.table w'.table d b
        (subst (λ old. Follows w.table.items (record { items = w.table.items; old_items = old }))
          (sym clean) (untouched w.table.items))
        end.table in
    let shown : w'.uncommitted ≡ false → w'.table.items ≡ w.table.items = λ off.
      follows.shown
      ∙ clean-edited w'.table.old_items w.table.items follows.values follows.tracked (
          ap (λ xs. is_empty (filter (is_dirty w'.table.old_items) xs)) (sym follows.shown)
          ∙ not-false _ (sym flagged.flag ∙ off)) in
    (
      λ end. elim (Bool-cases w'.uncommitted) [
        | inr off ↦ inr (shown off)
        | inl on ↦ inl (asked reply w'.uncommitted on end)
      ],
      flagged.apply_button,
      flagged.cancel_button,
    )
