-- ===== src/Examples/Kernels.antt =====
-- The kernel module's theorems at concrete states.
use bf.Base.{length, ◌++◌, ◌/◌, ◌≡◌, ◌≢◌, refl, true, List, [], ◌∷◌, none, arith}
use bf.Rule.{FilterRule, base_bytes, chain_input, chain_output}
use bf.Hash.{hash}
use bf.HashTable.{hash_table_lookup_key, hash_table_hash_code, hash_table_init}
use bf.Store.{IsStore, rules, find_rule, init_rules}
use bf.Store.Invariant.{init_rules-IsStore, add_rule-IsStore}
use bf.Kernel.{init_module}
use bf.Hook.{hook_func, chain_policy}
use bf.Message.{msg_add_rule, msg_delete_rule, msg_get_rules}
use bf.Netlink.{nl_rcv_msg}
use bf.Netlink.Rules.{request_spec, nl_rcv_msg-rules}
use bf.Netlink.Replies.{reply_spec, result_spec, nl_rcv_msg-sent}
use bf.Listing.{list_rules, policy_message, done_message, ack_every_n_msg}
use bf.Listing.Complete.{delivered, data_messages, listed_rules, list_rules_complete}
use bf.System.{run, Event, request, packet, log_work, listing, grace_period, proc_write, IsKernel}
use bf.System.Reachable.{run-init-IsKernel}
use bf.System.Verdicts.{
  IsFiltered, verdict_spec, policy_spec, direction_rules, hook_func-verdict, request-verdict,
}
use bf.Cli.{zeroed_rule}
use bf.Examples.{
  dns_base, dns_rule, heap, started, one_rule, request_of, dns_ip, dns_ports, dns_packet,
}

pub started-IsStore : IsStore started.store
unfolding init_module
started-IsStore = init_rules-IsStore heap

not_found : find_rule started.store dns_base ≡ none
unfolding init_module init_rules find_rule hash_table_lookup_key hash_table_init
    hash_table_hash_code hash base_bytes
not_found = refl

pub one_rule-IsStore : IsStore one_rule.store
one_rule-IsStore = add_rule-IsStore started.store dns_rule started-IsStore not_found

pub filter_on : one_rule.filter_value ≢ 0
unfolding init_module
filter_on = omega arith

started_on : started.filter_value ≢ 0
unfolding init_module
started_on = omega arith

pub dns_packet-IsFiltered : IsFiltered dns_packet dns_ip dns_ports
dns_packet-IsFiltered = record { has_mac = refl; has_ip = refl; has_ports = refl; filtered = refl }

abbrev history : List Event
history =
    request (request_of msg_add_rule dns_rule)
    ∷ packet true dns_packet
    ∷ log_work
    ∷ request (request_of msg_get_rules zeroed_rule)
    ∷ listing delivered
    ∷ request (request_of msg_delete_rule dns_rule)
    ∷ grace_period
    ∷ proc_write 0
    ∷ []

run-init-IsKernel_example : IsKernel (run (init_module heap zeroed_rule) history).0
run-init-IsKernel_example = run-init-IsKernel heap zeroed_rule history

request-verdict_example :
    (hook_func (nl_rcv_msg started (request_of msg_add_rule dns_rule)).kernel true dns_packet).1
    ≡ verdict_spec dns_ip dns_ports
        (policy_spec msg_add_rule dns_rule true (chain_policy started true))
        (direction_rules true (request_spec msg_add_rule dns_rule (rules started.store)))
request-verdict_example =
    request-verdict started (request_of msg_add_rule dns_rule) true dns_packet dns_ip dns_ports
      started-IsStore dns_packet-IsFiltered started_on

nl_rcv_msg-rules_example :
    rules (nl_rcv_msg one_rule (request_of msg_delete_rule dns_rule)).kernel.store
    ≡ request_spec msg_delete_rule dns_rule (rules one_rule.store)
nl_rcv_msg-rules_example =
    nl_rcv_msg-rules one_rule (request_of msg_delete_rule dns_rule) one_rule-IsStore

nl_rcv_msg-sent_example :
    ((nl_rcv_msg one_rule (request_of msg_add_rule dns_rule)).sent
      ≡ reply_spec msg_add_rule 1234 dns_rule (rules one_rule.store))
    × ((nl_rcv_msg one_rule (request_of msg_add_rule dns_rule)).result ≡ result_spec msg_add_rule)
nl_rcv_msg-sent_example =
    nl_rcv_msg-sent one_rule (request_of msg_add_rule dns_rule) one_rule-IsStore

hook_func-verdict_example :
    (hook_func one_rule true dns_packet).1
    ≡ verdict_spec dns_ip dns_ports
        (chain_policy one_rule true)
        (direction_rules true (rules one_rule.store))
hook_func-verdict_example =
    hook_func-verdict one_rule true dns_packet dns_ip dns_ports one_rule-IsStore
      dns_packet-IsFiltered filter_on

abbrev listed : List FilterRule
listed = listed_rules zeroed_rule one_rule.store

list_rules_complete_example :
    ((list_rules delivered one_rule 1234 zeroed_rule).sent
      ≡ policy_message 1234 chain_input one_rule.policy_input
        ∷ policy_message 1234 chain_output one_rule.policy_output
        ∷ (data_messages 1234 0 listed ++ done_message 1234 (length listed) ∷ []))
    × ((list_rules delivered one_rule 1234 zeroed_rule).waits ≡ length listed / ack_every_n_msg)
list_rules_complete_example = list_rules_complete one_rule 1234 zeroed_rule one_rule-IsStore
