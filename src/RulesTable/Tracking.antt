-- ===== src/RulesTable/Tracking.antt =====
-- How the old values follow an edit of one rule.
use mathlib.Core.Path.{ap₂, subst}
use bf.Base.{
  ℕ, ◌^◌, ◌%◌, ◌<◌, ◌≡◌, sym, ap, ◌∙◌, ◌&&◌, Bool, true, false, List, [], ◌∷◌, ◌++◌, erase_first,
  All, Option, none, some, Option-cases, Bool-cases, inl, inr, if◌then◌else◌, ◌==◌, arith,
}
use bf.Rule.{FilterRule, FilterRuleBase, base_eq, rule_eq}
use bf.RulesTable.{Column, off_column, policy_column, value_of, other_column, index_of, noted}
use bf.RulesTable.Old.{
  lookup, matches, Unique, base_eq_refl, lookup-push, lookup-push_other, lookup-erase,
  lookup-erase_other, Unique-push, Unique-erase,
}

-- No two rules are equal for the table.
abbrev pub Distinct : List FilterRule → Type 0
Distinct [] = Unit
Distinct (o ∷ os) = All (λ p. rule_eq o p ≡ false) os × Distinct os

abbrev pub AreBytes : FilterRule → Type 0
AreBytes r = (r.off < 2 ^ 8) × (r.policy < 2 ^ 8)

-- Rules with the switches and policies that they have now.
abbrev pub edited : List FilterRule → List (ℕ × ℕ) → List FilterRule
edited [] ws = []
edited (o ∷ os) [] = o ∷ os
edited (o ∷ os) ((a, p) ∷ ws) = record o { off = a; policy = p } ∷ edited os ws

-- What is found for a rule is its first value, and it is unchanged where nothing is found.
abbrev pub Good : Option FilterRule → FilterRule → FilterRule → Type 0
Good none x o = x ≡ o
Good (some e) x o = e ≡ o

abbrev pub Tracked : List FilterRule → List FilterRule → List (ℕ × ℕ) → Type 0
Tracked old [] [] = Unit
Tracked old [] (w ∷ ws) = ⊥
Tracked old (o ∷ os) [] = ⊥
Tracked old (o ∷ os) ((a, p) ∷ ws) =
    Good (lookup old o.base) (record o { off = a; policy = p }) o × Tracked old os ws

abbrev pub pair_rule : FilterRule → ℕ × ℕ → FilterRule
pair_rule o w = record o { off = w.0; policy = w.1 }

-- The item `o` with `a` and `p` is given a value in a column.
abbrev pub new_pair : Column → ℕ → ℕ × ℕ → ℕ × ℕ
new_pair off_column v (a, p) = (v % 2 ^ 8, p)
new_pair policy_column v (a, p) = (a, v % 2 ^ 8)

back : Column → ℕ → FilterRule → FilterRule → Bool
back col v x o =
    value_of col o == v && value_of (other_column col) o == value_of (other_column col) x

noted-none :
    (col : Column) (v : ℕ) (x : FilterRule) (old : List FilterRule)
    → lookup old x.base ≡ none
    → noted col v x old ≡ old ++ x ∷ []
unfolding noted index_of rule_eq back
noted-none col v x old e =
    ap
      (λ (found : Option FilterRule).
        let r : List FilterRule = elim found [
          | none ↦ old ++ x ∷ []
          | some q ↦ if back col v x q then erase_first (matches x.base) old else old
        ] in
        r)
      e

noted-some :
    (col : Column) (v : ℕ) (x o : FilterRule) (old : List FilterRule)
    → lookup old x.base ≡ some o
    → noted col v x old ≡ (if back col v x o then erase_first (matches x.base) old else old)
unfolding noted index_of rule_eq back
noted-some col v x o old e =
    ap
      (λ (found : Option FilterRule).
        let r : List FilterRule = elim found [
          | none ↦ old ++ x ∷ []
          | some q ↦ if back col v x q then erase_first (matches x.base) old else old
        ] in
        r)
      e

-- Other rules find what they have found.
pub noted-other :
    (col : Column) (v : ℕ) (x : FilterRule) (old : List FilterRule) (b : FilterRuleBase)
    → base_eq x.base b ≡ false
    → lookup (noted col v x old) b ≡ lookup old b
noted-other col v x old b h = elim (Option-cases (lookup old x.base)) [
  | inl e ↦ ap (λ l. lookup l b) (noted-none col v x old e) ∙ lookup-push_other old x b h
  | inr (o, e) ↦
      ap (λ l. lookup l b) (noted-some col v x o old e) ∙ elim (Bool-cases (back col v x o)) [
        | inl y ↦ rw y (lookup-erase_other old x.base b h)
        | inr n ↦ rw n
      ]
]

pub noted-Unique :
    (col : Column) (v : ℕ) (x : FilterRule) (old : List FilterRule)
    → Unique old
    → Unique (noted col v x old)
noted-Unique col v x old u = elim (Option-cases (lookup old x.base)) [
  | inl e ↦ subst Unique (sym (noted-none col v x old e)) (Unique-push old x e u)
  | inr (o, e) ↦
      subst Unique (sym (noted-some col v x o old e)) (elim (Bool-cases (back col v x o)) [
        | inl y ↦ rw y (Unique-erase old x.base u)
        | inr n ↦ rw n u
      ])
]

pub some_inj : {A : Type 0} {x y : A} → some x ≡ some y → x ≡ y
some_inj e = cc

pub none_ne_some : {A : Type 0} {a : A} → none ≡ some a → ⊥
none_ne_some e = cc

both_equal : (a b c d : ℕ) → (a == b && c == d) ≡ true → (a ≡ b) × (c ≡ d)
both_equal a b c d h = ground (arith, h)

back-same :
    (col : Column) (v a p : ℕ) (o q : FilterRule)
    → AreBytes o
    → q ≡ o
    → back col v (record o { off = a; policy = p }) q ≡ true
    → let w = new_pair col v (a, p) in record o { off = w.0; policy = w.1 } ≡ o
unfolding back value_of other_column
back-same off_column v a p o q bytes same y =
    let eqs = both_equal q.off v q.policy p y in
    ap₂ (λ s t. record o { off = s; policy = t })
      (omega (arith, eqs.0, bytes.0, ap (λ (r : FilterRule). r.off) same))
      (sym eqs.1 ∙ ap (λ (r : FilterRule). r.policy) same)
back-same policy_column v a p o q bytes same y =
    let eqs = both_equal q.policy v q.off a y in
    ap₂ (λ s t. record o { off = s; policy = t }) (sym eqs.1 ∙ ap (λ (r : FilterRule). r.off) same)
      (omega (arith, eqs.0, bytes.1, ap (λ (r : FilterRule). r.policy) same))

-- The row that is edited finds its first value, or has it again.
pub noted-Good :
    (col : Column) (v a p : ℕ) (o : FilterRule) (old : List FilterRule)
    → Unique old
    → AreBytes o
    → Good (lookup old o.base) (record o { off = a; policy = p }) o
    → let w = new_pair col v (a, p) in
      Good
        (lookup (noted col v (record o { off = a; policy = p }) old) o.base)
        (record o { off = w.0; policy = w.1 })
        o
noted-Good col v a p o old u bytes g = elim (Option-cases (lookup old o.base)) [
  | inl e ↦
      let x : FilterRule = record o { off = a; policy = p } in
      let same : x ≡ o = subst (λ l. Good l x o) e g in
      let found : lookup (noted col v x old) o.base ≡ some x =
        ap (λ l. lookup l o.base) (noted-none col v x old e)
        ∙ lookup-push old x o.base (base_eq_refl o.base) e in
      subst (λ l. Good l (pair_rule o (new_pair col v (a, p))) o) (sym found) same
  | inr (q, e) ↦
      let x : FilterRule = record o { off = a; policy = p } in
      let same : q ≡ o = subst (λ l. Good l x o) e g in
      elim (Bool-cases (back col v x q)) [
        | inl y ↦
            let found : lookup (noted col v x old) o.base ≡ none =
              ap (λ l. lookup l o.base) (noted-some col v x q old e ∙ rw y)
              ∙ lookup-erase old o.base (u o.base) in
            subst (λ l. Good l (pair_rule o (new_pair col v (a, p))) o) (sym found)
              (back-same col v a p o q bytes same y)
        | inr n ↦
            let found : lookup (noted col v x old) o.base ≡ some q =
              ap (λ l. lookup l o.base) (noted-some col v x q old e ∙ rw n) ∙ e in
            subst (λ l. Good l (pair_rule o (new_pair col v (a, p))) o) (sym found) same
      ]
]
