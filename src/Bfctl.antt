-- ===== src/Bfctl.antt =====
-- bfctl/cmds.cpp, and processCommand of bfctl/main.cpp: the commands of bfctl on a BFControl. What is
-- printed comes as a list; headings, widths and empty lines are left out.
pub mod Lists
pub mod Changes
use bf.Base.{
  ℕ, suc, ◌+◌, ◌&&◌, ◌||◌, Bool, true, false, List, [], ◌∷◌, ◌++◌, Option, none, some, ◌>>=◌, ◌==◌,
  if◌then◌else◌, length,
}
use bf.Rule.{
  FilterRule, FilterRuleBase, policy_rule, chain_input, chain_output, chain_all, policy_none,
  bf_err_already_have_rule, bf_err_missing_rule, bf_err_sock,
}
use bf.Message.{msg_add_rule, msg_update_rule, msg_delete_rule, msg_chain_policy}
use bf.Client.{Result, returned, failed, policy_request}
use bf.Link.{Link, call, delete_rules_sent, get_rules, send_rules_sync}
use bf.Stream.{DataStream}
use bf.RulesFile.{read_rules}
use bf.Cli.{
  CmdArgs, cmd_delete, cmd_append, cmd_list, cmd_flush, cmd_set_policy, cmd_update,
  cmd_load_from_file, cmd_print_help,
}
use bf.Names.{Text}

-- The messages about a rule, the line of a chain with its policy, and the line of a rule, with its
-- number, base, policy and switch.
pub data Output : Type 0 where
  rule_added rule_present rule_deleted rule_missing rule_updated : FilterRule → Output
  policy_set policy_not_set : FilterRule → Output
  chain_line : ℕ → ℕ → Output
  rule_line : ℕ → FilterRuleBase → ℕ → ℕ → Output
  help : Output

-- `ret >= 0`, `ret == -error`, or neither
unfoldable pub printed : Result → ℕ → Output → Output → List Output
printed (returned n) error done refused = done ∷ []
printed (failed n) error done refused = if n == error then refused ∷ [] else []

-- policies[...] after the first loop of listRules
unfoldable pub listed_policy : ℕ → ℕ → List FilterRule → ℕ
listed_policy chain policy [] = policy
listed_policy chain policy (r ∷ rs) =
    listed_policy chain (if policy_rule r.base && r.base.chain == chain then r.policy else policy)
      rs

-- The rules of a chain, numbered on from `i`.
unfoldable pub rule_lines : ℕ → ℕ → List FilterRule → List Output
rule_lines chain i [] = []
rule_lines chain i (r ∷ rs) =
    if policy_rule r.base
    then rule_lines chain i rs
    else if r.base.chain == chain
    then rule_line i r.base r.policy r.off ∷ rule_lines chain (suc i) rs
    else rule_lines chain i rs

-- One round of the loop over the chains.
unfoldable pub chain_lines : FilterRule → ℕ → List FilterRule → List Output
unfolding listed_policy rule_lines
chain_lines fr chain rs =
    if fr.base.chain == chain || fr.base.chain == chain_all
    then chain_line chain (listed_policy chain policy_none rs) ∷ rule_lines chain 0 rs
    else []

-- listRules, behind `ret>=0`
unfoldable pub list_lines : FilterRule → List FilterRule → List Output
unfolding chain_lines
list_lines fr rs = chain_lines fr chain_input rs ++ chain_lines fr chain_output rs

unfoldable pub list_output : FilterRule → Result → List FilterRule → List Output
unfolding list_lines
list_output fr (returned n) rs = list_lines fr rs
list_output fr (failed n) rs = []

-- loadFromFile, with the file's bytes, or `none` where it cannot be opened.
unfoldable pub load_rules : DataStream → FilterRule → ℕ → ℕ → Option (List ℕ) → Link → Option Link
unfolding read_rules
load_rules s blank sent pid none l = some l
load_rules s blank sent pid (some bytes) l = do
  ruleslst ← read_rules s blank (length bytes) bytes
  elim ruleslst [
    | [] ↦ some l
    | r ∷ rs ↦ do (l', ret) ← send_rules_sync sent pid l (r ∷ rs); some l'
  ]

-- processCommand where the netlink socket opens. `file` gives the bytes of a file.
module _ (s : DataStream) (blank : FilterRule) (file : Text → Option (List ℕ)) (sent pid : ℕ)
    (send_ok : ℕ → Bool) where
  unfoldable pub process_command : Link → CmdArgs → Option (Link × List Output)
  unfolding printed list_output load_rules
  process_command l ca =
      let fr = ca.fr in
      elim ca.command [
        | cmd_append ↦ do
          (l', ret) ← call sent pid msg_add_rule l fr
          some (l', printed ret bf_err_already_have_rule (rule_added fr) (rule_present fr))
        | cmd_list ↦ do
          (l', ret, rs) ← get_rules sent pid send_ok l fr
          some (l', list_output fr ret rs)
        | cmd_delete ↦ do
          (l', ret) ← call sent pid msg_delete_rule l fr
          some (l', printed ret bf_err_missing_rule (rule_deleted fr) (rule_missing fr))
        | cmd_flush ↦ some ((delete_rules_sent sent pid l fr).0, [])
        | cmd_update ↦ do
          (l', ret) ← call sent pid msg_update_rule l fr
          some (l', printed ret bf_err_missing_rule (rule_updated fr) (rule_missing fr))
        | cmd_set_policy ↦ do
          (l', ret) ← call sent pid msg_chain_policy l (policy_request fr)
          some (l', printed ret bf_err_sock (policy_set fr) (policy_not_set fr))
        | cmd_load_from_file ↦ do
          l' ← load_rules s blank sent pid (file ca.file_name) l
          some (l', [])
        | cmd_print_help ↦ some (l, help ∷ [])
      ]
