-- ===== src/RulesFile.antt =====
-- bf-service/bfrules.cpp: the list of rules that the service keeps, and its file. A file is its bytes,
-- or `none` where it cannot be opened. The JSON file beside it is left out: what is read from it is
-- dropped. `blank` is what a new filter_rule_t holds in the fields that its constructor leaves unset.
pub mod RoundTrip
use bf.Base.{ℕ, zero, suc, List, [], ◌∷◌, Option, none, some, filter, length, ◌≡◌}
use bf.Rule.{FilterRule, fr_pattern}
use bf.Stream.{DataStream, put_rule, get_rule}

-- getByPattern
unfoldable pub get_by_pattern : FilterRule → List FilterRule → List FilterRule
get_by_pattern fr s_rules = filter (λ p. fr_pattern p fr) s_rules

-- The loop of loadFromFile, `while(!in.atEnd())`. `none` means that the fuel ran out.
unfoldable pub read_rules : DataStream → FilterRule → ℕ → List ℕ → Option (List FilterRule)
unfolding get_rule
read_rules s blank fuel [] = some []
read_rules s blank zero (b ∷ bytes) = none
read_rules s blank (suc fuel) (b ∷ bytes) =
    let (fr, rest) = get_rule s blank (b ∷ bytes) in
    elim (read_rules s blank fuel rest) [ none ↦ none | some rs ↦ some (fr ∷ rs) ]

-- loadFromFile: the rules that it returns, and the list as it leaves it.
unfoldable pub load_from_file :
    DataStream
    → FilterRule
    → Option (List ℕ)
    → List FilterRule
    → Option (List FilterRule × List FilterRule)
unfolding read_rules
load_from_file s blank none s_rules = some ([], s_rules)
load_from_file s blank (some bytes) s_rules = elim (read_rules s blank (length bytes) bytes) [
  | none ↦ none
  | some rs ↦ some (rs, rs)
]

-- The loop of saveToFile: the bytes that it writes.
unfoldable pub write_rules : DataStream → List FilterRule → List ℕ
unfolding put_rule
write_rules s [] = []
write_rules s (p ∷ ps) = put_rule s p (write_rules s ps)

-- loadFromList
unfoldable pub load_from_list : List FilterRule → List FilterRule → List FilterRule
load_from_list list s_rules = list
