-- ===== src/Bfctl/Lists.antt =====
-- What bfctl prints for a listing.
use mathlib.Core.Path.{ap₂}
use bf.Base.{
  ℕ, suc, ◌+◌, ◌≡◌, refl, ap, ◌∙◌, ◌&&◌, ◌||◌, Bool, true, false, List, [], ◌∷◌, ◌++◌, filter,
  filter_comm, All, All-filter, All-append, Option, some, ◌==◌, if◌then◌else◌, arith, Bool-cases,
  inl, inr,
}
use bf.Rule.{FilterRule, policy_rule, chain_input, chain_output, chain_all}
use bf.Store.{IsStore, rules}
use bf.Kernel.{Kernel, convert_policy}
use bf.Hook.{chain_policy}
use bf.Listing.{selected, policy_message}
use bf.Listing.Complete.{delivered, listed_rules}
use bf.System.Verdicts.{chain_of, direction_rules}
use bf.Stream.{DataStream}
use bf.Client.{Control, returned}
use bf.Client.Rules.{numbered, fetched}
use bf.Link.{Link}
use bf.Service.Core.{is_plain, filter-direction}
use bf.Service.Restarted.{some-bind}
use bf.Service.Fetching.{get_rules-fetched, after_listing}
use bf.Cli.{CmdArgs, cmd_list}
use bf.Names.{Text}
use bf.Bfctl.{
  Output, chain_line, rule_line, listed_policy, rule_lines, chain_lines, list_lines, list_output,
  process_command,
}

-- Rules as they are printed, numbered on from `i`.
abbrev pub printed_rules : ℕ → List FilterRule → List Output
printed_rules i [] = []
printed_rules i (r ∷ rs) = rule_line i r.base r.policy r.off ∷ printed_rules (suc i) rs

-- What a listing is to show of a direction, for the rules of the module.
abbrev pub shown : Kernel → FilterRule → Bool → List Output
shown k fr incoming =
    if fr.base.chain == chain_of incoming || fr.base.chain == chain_all
    then chain_line (chain_of incoming) (convert_policy (chain_policy k incoming))
      ∷ printed_rules 0 (filter (selected fr) (direction_rules incoming (rules k.store)))
    else []

plain-base : (r : FilterRule) → is_plain r ≡ true → policy_rule r.base ≡ false
plain-base r h = ground (arith, h)

listed_policy-numbered :
    (chain policy i : ℕ) (rs : List FilterRule)
    → All (λ r. is_plain r ≡ true) rs
    → listed_policy chain policy (numbered i rs) ≡ policy
unfolding listed_policy
listed_policy-numbered chain policy i [] h = refl
listed_policy-numbered chain policy i (r ∷ rs) h =
    ap
      (λ b.
        listed_policy chain (if b && r.base.chain == chain then r.policy else policy)
          (numbered (i + 1) rs))
      (plain-base r h.0)
    ∙ listed_policy-numbered chain policy (i + 1) rs h.1

rule_lines-numbered :
    (chain n i : ℕ) (rs : List FilterRule)
    → All (λ r. is_plain r ≡ true) rs
    → rule_lines chain n (numbered i rs) ≡ printed_rules n (filter (λ r. r.base.chain == chain) rs)
unfolding rule_lines
rule_lines-numbered chain n i [] h = refl
rule_lines-numbered chain n i (r ∷ rs) h = elim (Bool-cases (r.base.chain == chain)) [
  | inl on ↦
      rw (plain-base r h.0, on)
        (ap (λ xs. rule_line n r.base r.policy r.off ∷ xs)
          (rule_lines-numbered chain (suc n) (i + 1) rs h.1))
  | inr off ↦ rw (plain-base r h.0, off) (rule_lines-numbered chain n (i + 1) rs h.1)
]

-- The rules of a direction among those that a listing selects.
listed-direction :
    (k : Kernel) (fr : FilterRule) (incoming : Bool)
    → filter (λ r. r.base.chain == chain_of incoming) (listed_rules fr k.store)
      ≡ filter (selected fr) (direction_rules incoming (rules k.store))
listed-direction k fr incoming =
    filter_comm (λ r. r.base.chain == chain_of incoming) (selected fr)
      (direction_rules true (rules k.store) ++ direction_rules false (rules k.store))
    ∙ ap (filter (selected fr)) (filter-direction incoming (rules k.store))

listed_rules-plain :
    (k : Kernel) (fr : FilterRule)
    → All (λ r. is_plain r ≡ true) (rules k.store)
    → All (λ r. is_plain r ≡ true) (listed_rules fr k.store)
listed_rules-plain k fr h =
    let rs = rules k.store in
    let P : FilterRule → Type 0 = λ r. is_plain r ≡ true in
    let at : ℕ → FilterRule → Bool = λ c r. r.base.chain == c in
    All-filter (selected fr) P (direction_rules true rs ++ direction_rules false rs) (
      All-append P (direction_rules true rs) (direction_rules false rs)
        (All-filter (at chain_input) P rs h) (All-filter (at chain_output) P rs h))

chain_lines-fetched :
    (k : Kernel) (pid : ℕ) (fr : FilterRule) (incoming : Bool)
    → All (λ r. is_plain r ≡ true) (rules k.store)
    → chain_lines fr (chain_of incoming) (fetched k pid fr) ≡ shown k fr incoming
unfolding chain_lines listed_policy rule_lines policy_message policy_rule
chain_lines-fetched k pid fr true h =
    let rs = listed_rules fr k.store in
    let plain = listed_rules-plain k fr h in
    ap₂
      (λ p ls.
        if fr.base.chain == chain_input || fr.base.chain == chain_all
        then chain_line chain_input p ∷ ls
        else [])
      (listed_policy-numbered chain_input (convert_policy k.policy_input) 0 rs plain)
      (rule_lines-numbered chain_input 0 0 rs plain
        ∙ ap (printed_rules 0) (listed-direction k fr true))
chain_lines-fetched k pid fr false h =
    let rs = listed_rules fr k.store in
    let plain = listed_rules-plain k fr h in
    ap₂
      (λ p ls.
        if fr.base.chain == chain_output || fr.base.chain == chain_all
        then chain_line chain_output p ∷ ls
        else [])
      (listed_policy-numbered chain_output (convert_policy k.policy_output) 0 rs plain)
      (rule_lines-numbered chain_output 0 0 rs plain
        ∙ ap (printed_rules 0) (listed-direction k fr false))

-- `bfctl -L`, against a module whose listing arrives in time and whose rules are no policy rules: for
-- the input chain and then for the output chain, where the command asks for the chain or for all, it
-- prints the policy of the chain as the module has it, and the rules of the chain that the command's
-- pattern selects, in the order of their addition, numbered from 0.
pub process_command-list :
    (s : DataStream) (blank : FilterRule) (file : Text → Option (List ℕ)) (sent pid : ℕ)
    (k : Kernel) (c : Control) (ca : CmdArgs)
    → IsStore k.store
    → All (λ r. is_plain r ≡ true) (rules k.store)
    → ca.command ≡ cmd_list
    → (l : Link) × (process_command s blank file sent pid delivered
          (record { kernel = k; control = c })
          ca
        ≡ some (l, shown k ca.fr true ++ shown k ca.fr false))
unfolding process_command list_output list_lines
process_command-list s blank file sent pid k c ca v plain e =
    let got = get_rules-fetched sent pid k c ca.fr v in
    let l : Link = record { kernel = after_listing pid k ca.fr; control = got.0 } in
    let lines : list_output ca.fr (returned sent) (fetched k pid ca.fr)
        ≡ shown k ca.fr true ++ shown k ca.fr false =
      ap₂ (λ xs ys. xs ++ ys) (chain_lines-fetched k pid ca.fr true plain)
        (chain_lines-fetched k pid ca.fr false plain) in
    (l, rw e (some-bind _ _ _ _ got.1 (ap (λ xs. some (l, xs)) lines)))
