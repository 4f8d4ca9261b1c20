-- ===== src/RulesTable/Cancelling.antt =====
-- Changes in the rules table are taken back by cancelChanges.
use mathlib.Core.Path.{ap₂, subst}
use bf.Base.{
  ℕ, ◌≡◌, refl, sym, ap, ◌∙◌, List, [], ◌∷◌, map, set, All, Option, none, some, Option-cases,
  Bool-cases, inl, inr, if◌then◌else◌, ◌==◌, arith,
}
use bf.Rule.{FilterRule, rule_eq}
use bf.RulesTable.{
  RulesTable, Column, value_of, with_value, item_at, index_of, noted, set_data, restored_item,
  cancel_changes, Edit, set_all,
}
use bf.RulesTable.Old.{lookup, Unique}
use bf.RulesTable.Tracking.{
  Distinct, AreBytes, edited, Good, Tracked, noted-Unique, some_inj, none_ne_some,
}
use bf.RulesTable.Rows.{edit-Edited}

-- What holds of a table whose rules were `os` when nothing was noted.
pub record Follows (os : List FilterRule) (m : RulesTable) : Type 0 where
  pub values : List (ℕ × ℕ)
  pub shown : m.items ≡ edited os values
  pub tracked : Tracked m.old_items os values
  pub unique : Unique m.old_items

-- setData, by the item that it finds.
abbrev pub set_found : Column → ℕ → ℕ → RulesTable → Option FilterRule → Option RulesTable
set_found col row v m none = none
set_found col row v m (some x) = some (
    if value_of col x == v then m else record {
      items = set m.items row (with_value col v x);
      old_items = noted col v x m.old_items;
    })

pub set_data-found :
    (col : Column) (row v : ℕ) (m : RulesTable)
    → set_data col row v m ≡ set_found col row v m (item_at row m.items)
unfolding set_data
set_data-found col row v m = refl

abbrev pub set_rest : List Edit → Option RulesTable → Option RulesTable
set_rest es none = none
set_rest es (some m) = set_all es m

pub set_all-rest :
    (x : Edit) (es : List Edit) (m : RulesTable)
    → set_all (x ∷ es) m ≡ set_rest es (set_data x.column x.row x.value m)
unfolding set_all
set_all-rest x es m = refl

set_data-Follows :
    (col : Column) (row v : ℕ) (os : List FilterRule) (m m' : RulesTable)
    → Distinct os
    → All AreBytes os
    → Follows os m
    → set_data col row v m ≡ some m'
    → Follows os m'
set_data-Follows col row v os m m' d b f e = elim (Option-cases (item_at row m.items)) [
  | inl gone ↦
      absurd (none_ne_some (sym (set_data-found col row v m ∙ ap (set_found col row v m) gone) ∙ e))
  | inr (x, there) ↦
      subst (Follows os)
        (some_inj (sym (set_data-found col row v m ∙ ap (set_found col row v m) there) ∙ e))
        (elim (Bool-cases (value_of col x == v)) [
          | inl same ↦ rw same f
          | inr differs ↦
              let r =
                edit-Edited col v row x m.old_items os f.values d b f.unique f.tracked
                  (ap (item_at row) (sym f.shown) ∙ there) in
              rw differs (record {
                values = r.values;
                shown = ap (λ xs. set xs row (with_value col v x)) f.shown ∙ r.items;
                tracked = r.tracked;
                unique = noted-Unique col v x m.old_items f.unique;
              })
        ])
]

pub set_all-Follows :
    (os : List FilterRule) (es : List Edit) (m m' : RulesTable)
    → Distinct os
    → All AreBytes os
    → Follows os m
    → set_all es m ≡ some m'
    → Follows os m'
unfolding set_all
set_all-Follows os [] m m' d b f e = subst (Follows os) (some_inj e) f
set_all-Follows os (x ∷ es) m m' d b f e = elim (Option-cases (set_data x.column x.row x.value m)) [
  | inl gone ↦ absurd (none_ne_some (sym (set_all-rest x es m ∙ ap (set_rest es) gone) ∙ e))
  | inr (m1, there) ↦
      set_all-Follows os es m1 m' d b (set_data-Follows x.column x.row x.value os m m1 d b f there)
        (sym (set_all-rest x es m ∙ ap (set_rest es) there) ∙ e)
]

abbrev restored_by : FilterRule → Option FilterRule → FilterRule
restored_by x none = x
restored_by x (some o) = record x { off = o.off; policy = o.policy }

restored_item-first :
    (old : List FilterRule) (o : FilterRule) (a p : ℕ)
    → Good (lookup old o.base) (record o { off = a; policy = p }) o
    → restored_item old (record o { off = a; policy = p }) ≡ o
unfolding restored_item index_of rule_eq
restored_item-first old o a p g = elim (Option-cases (lookup old o.base)) [
  | inl e ↦
      ap (restored_by (record o { off = a; policy = p })) e
      ∙ subst (λ l. Good l (record o { off = a; policy = p }) o) e g
  | inr (q, e) ↦
      ap (restored_by (record o { off = a; policy = p })) e
      ∙ ap (λ (r : FilterRule). record o { off = r.off; policy = r.policy })
          (subst (λ l. Good l (record o { off = a; policy = p }) o) e g)
]

restored-edited :
    (old os : List FilterRule) (ws : List (ℕ × ℕ))
    → Tracked old os ws
    → map (restored_item old) (edited os ws) ≡ os
restored-edited old [] [] t = refl
restored-edited old [] (w ∷ ws) t = absurd t
restored-edited old (o ∷ os) [] t = absurd t
restored-edited old (o ∷ os) ((a, p) ∷ ws) t =
    ap₂ (λ x xs. x ∷ xs) (restored_item-first old o a p t.0) (restored-edited old os ws t.1)

-- Before any edit nothing is noted.
pub untouched : (os : List FilterRule) → Follows os (record { items = os; old_items = [] })
untouched os = record {
  values = map (λ o. (o.off, o.policy)) os;
  shown = shown_first os;
  tracked = tracked_first os;
  unique = λ b. omega arith;
}
  where
    shown_first : (os : List FilterRule) → os ≡ edited os (map (λ o. (o.off, o.policy)) os)
    shown_first [] = refl
    shown_first (o ∷ os) = ap (λ xs. o ∷ xs) (shown_first os)

    tracked_first : (os : List FilterRule) → Tracked [] os (map (λ o. (o.off, o.policy)) os)
    tracked_first [] = tt
    tracked_first (o ∷ os) = (refl, tracked_first os)

-- After any edits of rows that there are, cancelChanges gives back the rules as they were and has no
-- changes left, if no two of the rules are equal for the table, which does not compare chains, and
-- their switches and policies are bytes.
pub set_all-cancel_changes :
    (os : List FilterRule) (es : List Edit) (m : RulesTable)
    → Distinct os
    → All AreBytes os
    → set_all es (record { items = os; old_items = [] }) ≡ some m
    → cancel_changes m ≡ record { items = os; old_items = [] }
unfolding cancel_changes
set_all-cancel_changes os es m d b e =
    let f = set_all-Follows os es _ m d b (untouched os) e in
    ap (λ xs. record { items = xs; old_items = [] })
      (ap (map (restored_item m.old_items)) f.shown
        ∙ restored-edited m.old_items os f.values f.tracked)
