-- ===== src/MainWindow/Updates.antt =====
-- Requests to update rules, one after the other, on a list of rules.
use mathlib.Core.Path.{ap₂, subst}
use bf.Base.{
  ◌≡◌, refl, sym, ap, ◌∙◌, Bool, true, false, List, [], ◌∷◌, map, filter, All, All-filter,
  Option-cases, none, some, Bool-cases, inl, inr, if◌then◌else◌, ◌==◌, ℕ,
}
use bf.Rule.{FilterRule, rule_eq, base_eq, sw_none, policy_none}
use bf.Rule.Bytes.{cmp_rule_zero_refl, cmp_rule_zero_comm, cmp_rule_zero_iff}
use bf.Store.Refines.{has_base}
use bf.Netlink.{updated}
use bf.Netlink.Rules.{update_spec}
use bf.Stream.{IsRule}
use bf.Service.Core.{core}
use bf.RulesTable.{is_dirty, index_of}
use bf.RulesTable.Old.{lookup, base_eq_refl}
use bf.RulesTable.Tracking.{Distinct, edited, Good, Tracked}

-- A rule after the updates.
abbrev pub updates : List FilterRule → FilterRule → FilterRule
updates [] r = r
updates (d ∷ ds) r = updates ds (if has_base d.base r then updated d r else r)

pub map-updates :
    (d : FilterRule) (ds rs : List FilterRule)
    → map (updates ds) (update_spec d rs) ≡ map (updates (d ∷ ds)) rs
map-updates d ds [] = refl
map-updates d ds (r ∷ rs) = ap (λ xs. updates (d ∷ ds) r ∷ xs) (map-updates d ds rs)

core-if :
    (b : Bool) (d r : FilterRule)
    → core (if b then updated d r else r) ≡ (if b then updated d (core r) else core r)
unfolding updated
core-if true d r = refl
core-if false d r = refl

updates-core : (ds : List FilterRule) (r : FilterRule) → core (updates ds r) ≡ updates ds (core r)
updates-core [] r = refl
updates-core (d ∷ ds) r =
    updates-core ds (if has_base d.base r then updated d r else r)
    ∙ ap (updates ds) (core-if (has_base d.base r) d r)

pub map-core-updates :
    (ds rs : List FilterRule) → map core (map (updates ds) rs) ≡ map (updates ds) (map core rs)
map-core-updates ds [] = refl
map-core-updates ds (r ∷ rs) =
    ap₂ (λ (x : FilterRule) xs. x ∷ xs) (updates-core ds r) (map-core-updates ds rs)

updates-other :
    (ds : List FilterRule) (r : FilterRule)
    → All (λ d. has_base d.base r ≡ false) ds
    → updates ds r ≡ r
updates-other [] r h = refl
updates-other (d ∷ ds) r h = rw h.0 (updates-other ds r h.1)

map-updates-skip :
    (d : FilterRule) (ds rs : List FilterRule)
    → All (λ r. has_base d.base r ≡ false) rs
    → map (updates (d ∷ ds)) (map core rs) ≡ map (updates ds) (map core rs)
map-updates-skip d ds [] h = refl
map-updates-skip d ds (r ∷ rs) h =
    ap₂ (λ (x : FilterRule) xs. x ∷ xs)
      (ap (λ b. updates ds (if b then updated d (core r) else core r)) h.0)
      (map-updates-skip d ds rs h.1)

-- Rules that differ for the table have different images.
pub has_base-differs :
    (o p : FilterRule) → IsRule o → IsRule p → rule_eq o p ≡ false → has_base o.base p ≡ false
unfolding rule_eq
has_base-differs o p u v h = elim (Bool-cases (has_base o.base p)) [
  | inr e ↦ e
  | inl e ↦
      let same : p.base ≡ o.base = (cmp_rule_zero_iff p.base o.base v.words u.words).0 e in
      let equal : base_eq o.base p.base ≡ true = ap (base_eq o.base) same ∙ base_eq_refl o.base in
      cc
]

-- The other rules, and what they have become, have other bases.
pub others-differ :
    (o : FilterRule) (os : List FilterRule)
    → IsRule o
    → All IsRule os
    → All (λ p. rule_eq o p ≡ false) os
    → All (λ p. has_base o.base p ≡ false) os
others-differ o [] u w d = tt
others-differ o (p ∷ os) u w d = (has_base-differs o p u w.0 d.0, others-differ o os u w.1 d.1)

differ_comm :
    (o : FilterRule) (os : List FilterRule)
    → All (λ p. has_base o.base p ≡ false) os
    → All (λ p. has_base p.base o ≡ false) os
differ_comm o [] d = tt
differ_comm o (p ∷ os) d = (cmp_rule_zero_comm o.base p.base ∙ d.0, differ_comm o os d.1)

edited-differ :
    (o : FilterRule) (os : List FilterRule) (ws : List (ℕ × ℕ))
    → All (λ p. has_base o.base p ≡ false) os
    → All (λ p. has_base p.base o ≡ false) (edited os ws)
edited-differ o [] ws d = tt
edited-differ o (p ∷ os) [] d = differ_comm o (p ∷ os) d
edited-differ o (p ∷ os) (w ∷ ws) d =
    (cmp_rule_zero_comm o.base p.base ∙ d.0, edited-differ o os ws d.1)

-- The values that an update does not leave as they are.
abbrev pub HasValues : FilterRule → Type 0
HasValues r = ((r.off == sw_none) ≡ false) × ((r.policy == policy_none) ≡ false)

updated-values :
    (o : FilterRule) (a p : ℕ)
    → let x : FilterRule = record o { off = a; policy = p } in
      HasValues x → (if has_base o.base (core o) then updated x (core o) else core o) ≡ core x
unfolding updated
updated-values o a p h = rw (cmp_rule_zero_refl o.base, h.0, h.1) refl

pub is_dirty-found :
    (old : List FilterRule) (x : FilterRule)
    → is_dirty old x ≡ (elim (lookup old x.base) as (λ _. Bool) [ none ↦ false | some o ↦ true ])
unfolding is_dirty index_of rule_eq
is_dirty-found old x = refl

-- The updates of the changed rules turn the rules from before the edits into those of the table.
pub updates-edited :
    (old os : List FilterRule) (ws : List (ℕ × ℕ))
    → Distinct os
    → All IsRule os
    → Tracked old os ws
    → All HasValues (filter (is_dirty old) (edited os ws))
    → map (updates (filter (is_dirty old) (edited os ws))) (map core os) ≡ map core (edited os ws)
updates-edited old [] [] d w t h = refl
updates-edited old [] (v ∷ ws) d w t h = absurd t
updates-edited old (o ∷ os) [] d w t h = absurd t
updates-edited old (o ∷ os) ((a, p) ∷ ws) d w t h =
    let x : FilterRule = record o { off = a; policy = p } in
    let ds = filter (is_dirty old) (edited os ws) in
    let rest = updates-edited old os ws d.1 w.1 t.1 in
    let values : Bool → Type 0 = λ b. All HasValues (if b then x ∷ ds else ds) in
    let differ = others-differ o os w.0 w.1 d.0 in
    let others : All (λ q. has_base q.base o ≡ false) ds =
      All-filter (is_dirty old) (λ q. has_base q.base o ≡ false) (edited os ws)
        (edited-differ o os ws differ) in
    let sent : Bool → List FilterRule =
      λ b. map (updates (if b then x ∷ ds else ds)) (map core (o ∷ os)) in
    elim (Option-cases (lookup old o.base)) [
      | inl e ↦
          let clean : is_dirty old x ≡ false =
            is_dirty-found old x
            ∙ ap (λ l. elim l as (λ _. Bool) [ none ↦ false | some q ↦ true ]) e in
          let same : x ≡ o = subst (λ l. Good l x o) e t.0 in
          ap sent clean
          ∙ ap₂ (λ (y : FilterRule) ys. y ∷ ys)
              (updates-other ds (core o) others ∙ ap core (sym same)) (rest (subst values clean h))
      | inr (q, e) ↦
          let dirty : is_dirty old x ≡ true =
            is_dirty-found old x
            ∙ ap (λ l. elim l as (λ _. Bool) [ none ↦ false | some r ↦ true ]) e in
          let changed : values true = subst values dirty h in
          ap sent dirty
          ∙ ap₂ (λ (y : FilterRule) ys. y ∷ ys)
              (ap (updates ds) (updated-values o a p changed.0) ∙ updates-other ds (core x) others)
              (map-updates-skip x ds os differ ∙ rest changed.1)
    ]
