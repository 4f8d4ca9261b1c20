-- ===== src/RulesTable/Rows.antt =====
-- An edit of a row of the rules table.
use mathlib.Core.Path.{subst}
use bf.Base.{ℕ, zero, suc, ◌≡◌, refl, sym, ap, false, List, [], ◌∷◌, set, All, some}
use bf.Rule.{FilterRule, base_eq, rule_eq}
use bf.RulesTable.{Column, off_column, policy_column, with_value, item_at, noted}
use bf.RulesTable.Old.{Unique, base_eq_comm}
use bf.RulesTable.Tracking.{
  Distinct, AreBytes, edited, Good, Tracked, pair_rule, new_pair, noted-other, noted-Good, some_inj,
  none_ne_some,
}

-- Where the other rows are not equal to the edited rule, they stay tracked.
Tracked-other :
    (col : Column) (v : ℕ) (x : FilterRule) (old os : List FilterRule) (ws : List (ℕ × ℕ))
    → All (λ p. base_eq x.base p.base ≡ false) os
    → Tracked old os ws
    → Tracked (noted col v x old) os ws
Tracked-other col v x old [] [] d t = tt
Tracked-other col v x old [] (w ∷ ws) d t = t
Tracked-other col v x old (o ∷ os) [] d t = t
Tracked-other col v x old (o ∷ os) ((a, p) ∷ ws) d t = (
  subst (λ l. Good l (record o { off = a; policy = p }) o)
      (sym (noted-other col v x old o.base d.0)) t.0,
  Tracked-other col v x old os ws d.1 t.1,
)

-- An item of the table has the base of one of the first rules.
item-different :
    (row : ℕ) (old os : List FilterRule) (ws : List (ℕ × ℕ)) (x o : FilterRule)
    → All (λ p. rule_eq o p ≡ false) os
    → Tracked old os ws
    → item_at row (edited os ws) ≡ some x
    → base_eq x.base o.base ≡ false
unfolding item_at rule_eq
item-different row old [] [] x o d t e = absurd (none_ne_some e)
item-different row old [] (w ∷ ws) x o d t e = absurd t
item-different row old (q ∷ os) [] x o d t e = absurd t
item-different zero old (q ∷ os) ((a, p) ∷ ws) x o d t e =
    base_eq_comm o.base x.base
      (subst (λ (r : FilterRule). base_eq o.base r.base ≡ false) (some_inj e) d.0)
item-different (suc row) old (q ∷ os) ((a, p) ∷ ws) x o d t e =
    item-different row old os ws x o d.1 t.1 e

with_value-new_pair :
    (col : Column) (v a p : ℕ) (o : FilterRule)
    → with_value col v (record o { off = a; policy = p }) ≡ pair_rule o (new_pair col v (a, p))
unfolding with_value
with_value-new_pair off_column v a p o = refl
with_value-new_pair policy_column v a p o = refl

-- The table after an edit of a row.
pub record Edited (col : Column) (v row : ℕ) (x : FilterRule) (old os : List FilterRule)
    (ws : List (ℕ × ℕ)) : Type 0 where
  pub values : List (ℕ × ℕ)
  pub items : set (edited os ws) row (with_value col v x) ≡ edited os values
  pub tracked : Tracked (noted col v x old) os values

pub edit-Edited :
    (col : Column) (v row : ℕ) (x : FilterRule) (old os : List FilterRule) (ws : List (ℕ × ℕ))
    → Distinct os
    → All AreBytes os
    → Unique old
    → Tracked old os ws
    → item_at row (edited os ws) ≡ some x
    → Edited col v row x old os ws
unfolding item_at rule_eq
edit-Edited col v row x old [] [] d b u t e = absurd (none_ne_some e)
edit-Edited col v row x old [] (w ∷ ws) d b u t e = absurd t
edit-Edited col v row x old (o ∷ os) [] d b u t e = absurd t
edit-Edited col v zero x old (o ∷ os) ((a, p) ∷ ws) d b u t e =
    let y : FilterRule = record o { off = a; policy = p } in
    let w = new_pair col v (a, p) in
    subst (λ z. Edited col v zero z old (o ∷ os) ((a, p) ∷ ws)) (some_inj e)
      (record {
        values = w ∷ ws;
        items = ap (λ z. z ∷ edited os ws) (with_value-new_pair col v a p o);
        tracked = (noted-Good col v a p o old u b.0 t.0, Tracked-other col v y old os ws d.0 t.1);
      })
edit-Edited col v (suc row) x old (o ∷ os) ((a, p) ∷ ws) d b u t e =
    let rest = edit-Edited col v row x old os ws d.1 b.1 u t.1 e in
    let differs = item-different row old os ws x o d.0 t.1 e in
    record {
      values = (a, p) ∷ rest.values;
      items = ap (λ xs. record o { off = a; policy = p } ∷ xs) rest.items;
      tracked = (
        subst (λ l. Good l (record o { off = a; policy = p }) o)
            (sym (noted-other col v x old o.base differs)) t.0,
        rest.tracked,
      );
    }
