-- ===== src/Service.antt =====
-- bf-service/bfserviceprivate.cpp: what the service does when it starts and when it stops. Its file of
-- rules can be written, its netlink socket opens, and every message of the listing is sent.
pub mod Core
pub mod Kept
pub mod Fetching
pub mod Restarted
pub mod Restart
use bf.Base.{ℕ, List, ◌++◌, Option, none, some, ◌>>=◌}
use bf.Rule.{FilterRule, chain_all, chain_input, chain_output}
use bf.Stream.{DataStream}
use bf.RulesFile.{get_by_pattern, load_from_file, write_rules, load_from_list}
use bf.Listing.Complete.{delivered}
use bf.Link.{Link, send_rules_sync, subscribe_log, get_rules}
use bf.Cli.{zeroed_rule}

pub record Service : Type 0 where
  pub link : Link
  pub s_rules : List FilterRule
  pub file : Option (List ℕ)

-- A pattern that asks for a chain only.
abbrev pub chain_pattern : ℕ → FilterRule
chain_pattern chain = record zeroed_rule { base = record zeroed_rule.base { chain = chain } }

-- loadFromList and saveToFile with the rules of the kernel module
unfoldable pub keep_rules : DataStream → Service → Link → List FilterRule → Service
unfolding load_from_list
keep_rules s sv l fr_list =
    let s_rules = load_from_list fr_list sv.s_rules in
    record { link = l; s_rules = s_rules; file = some (write_rules s s_rules) }

-- `blank` is what a new filter_rule_t holds in the fields that its constructor leaves unset.
module _ (s : DataStream) (sent pid : ℕ) where
  unfoldable pub stop : Service → Option Service
  unfolding keep_rules
  stop sv = do
    (l, ret, fr_list) ← get_rules sent pid delivered sv.link (chain_pattern chain_all)
    some (keep_rules s sv l fr_list)

  unfoldable pub started : FilterRule → Service → Option Service
  unfolding keep_rules
  started blank sv = do
    (loaded, s_rules) ← load_from_file s blank sv.file sv.s_rules
    let rules_list =
        get_by_pattern (chain_pattern chain_input) s_rules
        ++ get_by_pattern (chain_pattern chain_output) s_rules
    (l, ret) ← send_rules_sync sent pid sv.link rules_list
    (l', ret', fr_list) ←
        get_rules sent pid delivered (subscribe_log sent pid l blank) (chain_pattern chain_input)
    some (keep_rules s (record sv { s_rules = s_rules }) l' fr_list)
