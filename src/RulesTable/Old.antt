-- ===== src/RulesTable/Old.antt =====
-- The old values of the rules table: which are found for a rule, after one is noted or dropped.
use bf.Base.{
  ◌≤◌, ◌≡◌, refl, Bool, true, false, List, [], ◌∷◌, ◌++◌, filter, filter-append, find, erase_first,
  length, length-append, Option, none, some, Bool-cases, inl, inr, arith,
}
use bf.Rule.{FilterRule, FilterRuleBase, base_eq}

-- The first old rule that equals a rule with the base `b`.
abbrev pub matches : FilterRuleBase → FilterRule → Bool
matches b e = base_eq e.base b

abbrev pub lookup : List FilterRule → FilterRuleBase → Option FilterRule
lookup old b = find (matches b) old

abbrev pub Unique : List FilterRule → Type 0
Unique old = (b : FilterRuleBase) → length (filter (matches b) old) ≤ 1

pub base_eq_refl : (a : FilterRuleBase) → base_eq a a ≡ true
unfolding base_eq
base_eq_refl a = ground arith

pub base_eq_congr : (a b c : FilterRuleBase) → base_eq a b ≡ true → base_eq a c ≡ base_eq b c
unfolding base_eq
base_eq_congr a b c h = ground (arith, h)

pub base_eq_congr_right : (a b c : FilterRuleBase) → base_eq a b ≡ true → base_eq c a ≡ base_eq c b
unfolding base_eq
base_eq_congr_right a b c h = ground (arith, h)

pub base_eq_comm : (a b : FilterRuleBase) → base_eq a b ≡ false → base_eq b a ≡ false
unfolding base_eq
base_eq_comm a b h = ground (arith, h)

pub lookup-push_other :
    (old : List FilterRule) (x : FilterRule) (b : FilterRuleBase)
    → base_eq x.base b ≡ false
    → lookup (old ++ x ∷ []) b ≡ lookup old b
lookup-push_other [] x b h = rw h
lookup-push_other (e ∷ old) x b h = ground (arith, lookup-push_other old x b h)

pub lookup-push :
    (old : List FilterRule) (x : FilterRule) (b : FilterRuleBase)
    → base_eq x.base b ≡ true
    → lookup old b ≡ none
    → lookup (old ++ x ∷ []) b ≡ some x
lookup-push [] x b h n = rw h
lookup-push (e ∷ old) x b h n = ground (arith, lookup-push old x b h)

pub lookup-erase_other :
    (old : List FilterRule) (c b : FilterRuleBase)
    → base_eq c b ≡ false
    → lookup (erase_first (matches c) old) b ≡ lookup old b
lookup-erase_other [] c b h = refl
lookup-erase_other (e ∷ old) c b h =
    ground (arith, lookup-erase_other old c b h, base_eq_congr e.base c b)

lookup-count :
    (old : List FilterRule) (b : FilterRuleBase)
    → length (filter (matches b) old) ≡ 0
    → lookup old b ≡ none
lookup-count [] b h = refl
lookup-count (e ∷ old) b h = ground (arith, lookup-count old b)

count-lookup :
    (old : List FilterRule) (c b : FilterRuleBase)
    → base_eq c b ≡ true
    → lookup old c ≡ none
    → length (filter (matches b) old) ≡ 0
count-lookup [] c b h n = refl
count-lookup (e ∷ old) c b h n =
    ground (arith, count-lookup old c b h, base_eq_congr_right c b e.base h)

pub lookup-erase :
    (old : List FilterRule) (b : FilterRuleBase)
    → length (filter (matches b) old) ≤ 1
    → lookup (erase_first (matches b) old) b ≡ none
lookup-erase [] b u = refl
lookup-erase (e ∷ old) b u = ground (arith, lookup-erase old b, lookup-count old b)

pub Unique-push :
    (old : List FilterRule) (x : FilterRule)
    → lookup old x.base ≡ none
    → Unique old
    → Unique (old ++ x ∷ [])
Unique-push old x n u b = elim (Bool-cases (base_eq x.base b)) [
  | inl h ↦
      rw (filter-append (matches b) old (x ∷ []), h)
        (omega
          (arith, length-append (filter (matches b) old) (x ∷ []), count-lookup old x.base b h n))
  | inr h ↦
      rw (filter-append (matches b) old (x ∷ []), h)
        (omega (arith, length-append (filter (matches b) old) [], u b))
]

count-erase :
    (old : List FilterRule) (c b : FilterRuleBase)
    → length (filter (matches b) (erase_first (matches c) old)) ≤ length (filter (matches b) old)
count-erase [] c b = omega arith
count-erase (e ∷ old) c b = ground (arith, count-erase old c b)

pub Unique-erase :
    (old : List FilterRule) (c : FilterRuleBase) → Unique old → Unique (erase_first (matches c) old)
Unique-erase old c u b = omega (arith, count-erase old c b, u b)
