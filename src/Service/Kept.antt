-- ===== src/Service/Kept.antt =====
-- The rules of a kernel module after they went through the service's file.
use mathlib.Core.Path.{ap₂}
use bf.Base.{
  ℕ, ◌+◌, ◌≡◌, refl, sym, ap, ◌∙◌, Bool, true, false, List, [], ◌∷◌, ◌++◌, map, map-append, filter,
  All, filter-append, filter_comm, ◌==◌, arith,
}
use bf.Rule.{FilterRule, policy_rule, fr_pattern, chain_input, chain_output, chain_all}
use bf.Kernel.{Kernel}
use bf.Store.{rules}
use bf.System.Verdicts.{chain_of, direction_rules}
use bf.Stream.Laws.{restored}
use bf.RulesFile.{get_by_pattern}
use bf.Listing.{selected, policy_message}
use bf.Listing.Complete.{listed_rules}
use bf.Client.Rules.{numbered, fetched}
use bf.Service.{chain_pattern}
use bf.Service.Core.{core, filter-core, is_plain, filter-All, filter-direction}

core-numbered : (i : ℕ) (rs : List FilterRule) → map core (numbered i rs) ≡ map core rs
core-numbered i [] = refl
core-numbered i (r ∷ rs) = ap (λ xs. core r ∷ xs) (core-numbered (i + 1) rs)

pub core-restored :
    (blank : FilterRule) (rs : List FilterRule) → map core (map (restored blank) rs) ≡ map core rs
core-restored blank [] = refl
core-restored blank (r ∷ rs) = ap (λ xs. core r ∷ xs) (core-restored blank rs)

pub core-direction :
    (incoming : Bool) (rs : List FilterRule)
    → map core (direction_rules incoming rs) ≡ direction_rules incoming (map core rs)
core-direction incoming rs = filter-core (λ r. r.base.chain == chain_of incoming) (λ r. refl) rs

-- The rules of both chains, those of the input chain first.
abbrev pub by_direction : List FilterRule → List FilterRule
by_direction rs = direction_rules true rs ++ direction_rules false rs

-- What the service sends to a fresh kernel module, by the rules that it read from its file.
abbrev pub rules_list : List FilterRule → List FilterRule
rules_list rs =
    get_by_pattern (chain_pattern chain_input) rs ++ get_by_pattern (chain_pattern chain_output) rs

filter_ext :
    (p q : FilterRule → Bool) (rs : List FilterRule)
    → ((r : FilterRule) → p r ≡ q r)
    → filter p rs ≡ filter q rs
filter_ext p q [] h = refl
filter_ext p q (r ∷ rs) h = rw (h r, filter_ext p q rs h)

rules_list-by_direction : (rs : List FilterRule) → rules_list rs ≡ by_direction rs
unfolding get_by_pattern fr_pattern
rules_list-by_direction rs =
    let on : ℕ → FilterRule → Bool = λ c r. fr_pattern r (chain_pattern c) in
    ap₂ (λ xs ys. xs ++ ys)
      (filter_ext (on chain_input) (λ r. r.base.chain == chain_input) rs (λ r. ground arith))
      (filter_ext (on chain_output) (λ r. r.base.chain == chain_output) rs (λ r. ground arith))

selected_all : (rs : List FilterRule) → filter (selected (chain_pattern chain_all)) rs ≡ rs
unfolding selected
selected_all [] = refl
selected_all (r ∷ rs) = ap (λ xs. r ∷ xs) (selected_all rs)

pub listed-by_direction :
    (k : Kernel) → listed_rules (chain_pattern chain_all) k.store ≡ by_direction (rules k.store)
listed-by_direction k = selected_all (by_direction (rules k.store))

pub core-by_direction :
    (rs : List FilterRule) → map core (by_direction rs) ≡ by_direction (map core rs)
core-by_direction rs =
    map-append core (direction_rules true rs) (direction_rules false rs)
    ∙ ap₂ (λ xs ys. xs ++ ys) (core-direction true rs) (core-direction false rs)

by_direction_idem : (rs : List FilterRule) → by_direction (by_direction rs) ≡ by_direction rs
by_direction_idem rs =
    ap₂ (λ xs ys. xs ++ ys) (filter-direction true rs) (filter-direction false rs)

pub filter-by_direction :
    (p : FilterRule → Bool) (rs : List FilterRule)
    → filter p (by_direction rs) ≡ by_direction (filter p rs)
filter-by_direction p rs =
    let at : ℕ → FilterRule → Bool = λ c r. r.base.chain == c in
    filter-append p (direction_rules true rs) (direction_rules false rs)
    ∙ ap₂ (λ xs ys. xs ++ ys) (filter_comm p (at chain_input) rs)
        (filter_comm p (at chain_output) rs)

-- The policies that a listing reports are no rules of the chains.
pub fetched-plain :
    (k : Kernel) (pid : ℕ) (pattern : FilterRule)
    → filter is_plain (map core (fetched k pid pattern))
      ≡ filter is_plain (map core (listed_rules pattern k.store))
unfolding policy_message policy_rule
fetched-plain k pid pattern = ap (filter is_plain) (core-numbered 0 (listed_rules pattern k.store))

-- Of the rules that were fetched from a kernel module, those that another takes from the file.
pub core-kept :
    (k : Kernel) (pid : ℕ) (blank : FilterRule)
    → All (λ r. is_plain r ≡ true) (rules k.store)
    → map core (
        filter is_plain
          (rules_list (map (restored blank) (fetched k pid (chain_pattern chain_all)))))
      ≡ by_direction (map core (rules k.store))
core-kept k pid blank plain =
    let fs = fetched k pid (chain_pattern chain_all) in
    let rs = rules k.store in
    ap (λ xs. map core (filter is_plain xs)) (rules_list-by_direction (map (restored blank) fs))
    ∙ (filter-core is_plain (λ r. refl) (by_direction (map (restored blank) fs))
        ∙ (ap (filter is_plain) (core-by_direction (map (restored blank) fs))
            ∙ (filter-by_direction is_plain (map core (map (restored blank) fs))
                ∙ (ap (λ xs. by_direction (filter is_plain xs)) (core-restored blank fs)
                    ∙ (ap by_direction (
                          fetched-plain k pid (chain_pattern chain_all)
                          ∙ ap (λ xs. filter is_plain (map core xs)) (listed-by_direction k)
                          ∙ sym (filter-core is_plain (λ r. refl) (by_direction rs))
                          ∙ ap (map core) (
                              filter-by_direction is_plain rs
                              ∙ ap by_direction (filter-All is_plain rs plain))
                          ∙ core-by_direction rs)
                        ∙ by_direction_idem (map core rs))))))
