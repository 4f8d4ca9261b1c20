-- ===== src/Service/Core.antt =====
-- Rules without what neither the hook nor a comparison reads: the number and the hardware addresses.
use bf.Base.{
  ℕ, ◌+◌, ◌≤◌, ◌≡◌, refl, sym, ap, ◌∙◌, Bool, true, false, not, List, [], ◌∷◌, ◌++◌, map, filter,
  find, length, All, append-nil, append_assoc, filter-append, none, ◌==◌, Bool-cases, inl, inr,
  arith,
}
use bf.Base.Bytes.{memcmp_zero_refl}
use bf.Rule.{FilterRule, FilterRuleBase, policy_rule, cmp_rule_zero, base_bytes}
use bf.Store.Refines.{has_base}
use bf.Kernel.{IpHeader, Ports}
use bf.Hook.{match_udp, match_tcp}
use bf.Hook.FirstMatch.{applies}
use bf.Netlink.Rules.{add_spec}
use bf.System.Verdicts.{verdict_spec, chain_of, direction_rules}
use bf.Link.Adding.{add_specs}

abbrev pub core : FilterRule → FilterRule
core r = record r { h_dest = []; h_source = []; id = 0 }

-- A test that reads the core only.
pub filter-core :
    (p : FilterRule → Bool)
    → ((r : FilterRule) → p (core r) ≡ p r)
    → (rs : List FilterRule) → map core (filter p rs) ≡ filter p (map core rs)
filter-core p h [] = refl
filter-core p h (r ∷ rs) = ground (arith, h r, filter-core p h rs)

pub verdict-core :
    (ip : IpHeader) (ports : Ports) (policy : ℕ) (rs : List FilterRule)
    → verdict_spec ip ports policy (map core rs) ≡ verdict_spec ip ports policy rs
unfolding applies match_udp match_tcp
verdict-core ip ports policy [] = refl
verdict-core ip ports policy (r ∷ rs) = ground (arith, verdict-core ip ports policy rs)

abbrev pub is_plain : FilterRule → Bool
is_plain r = not (policy_rule r.base)

-- A test that every element of a list passes leaves it as it is.
pub filter-All :
    (p : FilterRule → Bool) (rs : List FilterRule) → All (λ r. p r ≡ true) rs → filter p rs ≡ rs
filter-All p [] h = refl
filter-All p (r ∷ rs) h = ground (arith, filter-All p rs h.1)

filter_idem : (p : FilterRule → Bool) (rs : List FilterRule) → filter p (filter p rs) ≡ filter p rs
filter_idem p [] = refl
filter_idem p (r ∷ rs) = ground (arith, filter_idem p rs)

-- No rule is on both chains.
other_direction :
    (incoming : Bool) (rs : List FilterRule)
    → direction_rules incoming (direction_rules (not incoming) rs) ≡ []
other_direction incoming [] = refl
other_direction true (r ∷ rs) = ground (arith, other_direction true rs)
other_direction false (r ∷ rs) = ground (arith, other_direction false rs)

pub filter-direction :
    (incoming : Bool) (rs : List FilterRule)
    → direction_rules incoming (direction_rules true rs ++ direction_rules false rs)
      ≡ direction_rules incoming rs
filter-direction true rs =
    let on : FilterRule → Bool = λ r. r.base.chain == chain_of true in
    filter-append on (direction_rules true rs) (direction_rules false rs)
    ∙ rw (filter_idem on rs, other_direction true rs, append-nil (direction_rules true rs))
filter-direction false rs =
    let on : FilterRule → Bool = λ r. r.base.chain == chain_of false in
    filter-append on (direction_rules true rs) (direction_rules false rs)
    ∙ rw (filter_idem on rs, other_direction false rs)

-- No two rules have one base.
abbrev pub Unique : List FilterRule → Type 0
Unique rs = (b : FilterRuleBase) → length (filter (has_base b) rs) ≤ 1

pub length-directions :
    (p : FilterRule → Bool) (rs : List FilterRule)
    → length (filter p (direction_rules true rs)) + length (filter p (direction_rules false rs))
      ≤ length (filter p rs)
length-directions p [] = omega arith
length-directions p (r ∷ rs) = ground (arith, length-directions p rs)

has_base_self : (f : FilterRule) → has_base f.base f ≡ true
unfolding cmp_rule_zero
has_base_self f = memcmp_zero_refl (base_bytes f.base) 15

some_pass :
    (p : FilterRule → Bool) (f : FilterRule) (xs fs : List FilterRule)
    → p f ≡ true
    → 1 ≤ length (filter p (xs ++ f ∷ fs))
some_pass p f [] fs h = ground arith
some_pass p f (x ∷ xs) fs h = ground (arith, some_pass p f xs fs h)

find_fresh :
    (p : FilterRule → Bool) (f : FilterRule) (xs fs : List FilterRule)
    → p f ≡ true
    → length (filter p (xs ++ f ∷ fs)) ≤ 1
    → find p xs ≡ none
find_fresh p f [] fs h u = refl
find_fresh p f (x ∷ xs) fs h u = ground (arith, find_fresh p f xs fs h, some_pass p f xs fs h)

pub add_specs-Unique :
    (frs xs : List FilterRule)
    → Unique (xs ++ frs)
    → All (λ r. is_plain r ≡ true) frs
    → add_specs frs xs ≡ xs ++ frs
add_specs-Unique [] xs u h = sym (append-nil xs)
add_specs-Unique (f ∷ fs) xs u h =
    let e : add_spec f xs ≡ xs ++ f ∷ [] =
      ground (arith, h.0, find_fresh (has_base f.base) f xs fs (has_base_self f) (u f.base)) in
    let m : (xs ++ f ∷ []) ++ fs ≡ xs ++ f ∷ fs = append_assoc xs (f ∷ []) fs in
    ap (add_specs fs) e ∙ (add_specs-Unique fs (xs ++ f ∷ []) (rw m u) h.1 ∙ m)

-- Policy rules are not added.
pub add_specs-plain :
    (frs xs : List FilterRule) → add_specs frs xs ≡ add_specs (filter is_plain frs) xs
add_specs-plain [] xs = refl
add_specs-plain (f ∷ fs) xs = elim (Bool-cases (policy_rule f.base)) [
  | inl p ↦ rw p (add_specs-plain fs xs)
  | inr p ↦
      let e : filter is_plain (f ∷ fs) ≡ f ∷ filter is_plain fs = rw p in
      add_specs-plain fs (add_spec f xs) ∙ ap (λ ys. add_specs ys xs) (sym e)
]
