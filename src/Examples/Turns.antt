-- ===== src/Examples/Turns.antt =====
-- A listing thread with other events in between, at concrete turns.
use bf.Base.{◌+◌, ◌*◌, ◌≡◌, refl, List, [], ◌∷◌, length, arith, ◌==◌}
use bf.Rule.{fr_pattern, base_bytes, cmp_rule_zero}
use bf.Base.Bytes.{memcmp_zero}
use bf.Hash.{hash}
use bf.HashTable.{
  hash_table_lookup_key, entry_matches, hash_table_insert, hash_entry_init, hash_table_init,
  hash_table_hash_code,
}
use bf.Store.{add_rule, init_rules, free_retired, find_rule, delete_rule}
use bf.Netlink.{nl_rcv_msg, dispatch, rcv_delete_rule}
use bf.Kernel.{init_module}
use bf.Message.{msg_add_rule, msg_delete_rule}
use bf.Listing.{list_rules, selected}
use bf.Listing.Complete.{delivered}
use bf.System.{IsKernel, step, request, grace_period}
use bf.System.Interleaved.{
  Turn, thread_turn, event_turn, interleave, begin_listing, faulted, keeps_rules,
}
use bf.System.Interleaved.Safe.{IsOnChain, interleave-begin}
use bf.System.Interleaved.Alone.{alone}
use bf.System.Interleaved.Ends.{listed_world, alone-list_rules}
use bf.SendList.{
  Sending, nl_send_lst, send_rules_from, send_rule, send_rest, put_message, flush_packet,
  open_packet,
}
use bf.SendList.Packets.{IsSent, nl_send_lst-IsSent}
use bf.SendList.Rounds.{rules_of}
use bf.Client.{Result, returned}
use bf.Examples.{one_rule, dns_rule, tcp_rule, request_of}
use bf.Examples.Kernels.{one_rule-IsStore}

one_rule-IsKernel : IsKernel one_rule
unfolding init_module
one_rule-IsKernel = record {
  lists = one_rule-IsStore;
  input_verdict = omega arith;
  output_verdict = omega arith;
  queue = tt;
}

-- A rule is added while the thread stands at the first one, and a grace period ends.
abbrev adding : List Turn
adding =
    thread_turn
    ∷ thread_turn
    ∷ thread_turn
    ∷ event_turn (request (request_of msg_add_rule tcp_rule))
    ∷ event_turn grace_period
    ∷ thread_turn
    ∷ thread_turn
    ∷ []

interleave-begin_example :
    let w = interleave delivered (begin_listing one_rule 1234 dns_rule) adding in
    IsKernel w.kernel × IsOnChain w.lister.position w.kernel.store
unfolding keeps_rules
interleave-begin_example =
    interleave-begin delivered one_rule 1234 dns_rule adding one_rule-IsKernel
      (refl, (refl, (refl, (refl, (refl, (refl, (refl, tt)))))))

alone-list_rules_example :
    alone delivered
      (5 + (2 * length one_rule.store.chain_in + 2 * length one_rule.store.chain_out))
      (begin_listing one_rule 1234 dns_rule)
    ≡ listed_world one_rule 1234 dns_rule (list_rules delivered one_rule 1234 dns_rule)
alone-list_rules_example = alone-list_rules delivered one_rule 1234 dns_rule one_rule-IsKernel

-- The rule that the thread stands at is deleted, and freed when a grace period ends.
abbrev deleting : List Turn
deleting =
    thread_turn
    ∷ thread_turn
    ∷ thread_turn
    ∷ thread_turn
    ∷ event_turn (request (request_of msg_delete_rule dns_rule))
    ∷ event_turn grace_period
    ∷ thread_turn
    ∷ []

-- The thread then reads freed memory.
deleting-faulted :
    (interleave delivered (begin_listing one_rule 1234 dns_rule) deleting).lister.position ≡ faulted
unfolding interleave add_rule init_module init_rules selected fr_pattern step free_retired
    nl_rcv_msg dispatch rcv_delete_rule find_rule hash_table_lookup_key entry_matches
    hash_table_insert hash_entry_init hash_table_init hash_table_hash_code hash base_bytes
    memcmp_zero delete_rule cmp_rule_zero
deleting-faulted = refl

-- Three rules in packets of at most two, of which the second is not sent.
nl_send_lst-IsSent_example :
    (t : Sending) × (ret : Result) × (nl_send_lst
        (λ n. n == 0)
        5
        2
        0
        (dns_rule ∷ tcp_rule ∷ dns_rule ∷ [])
      ≡ (t, ret))
    × IsSent (λ n. n == 0) 2 (dns_rule ∷ tcp_rule ∷ dns_rule ∷ []) 3 t ret
nl_send_lst-IsSent_example =
    nl_send_lst-IsSent (λ n. n == 0) 5 2 0 (dns_rule ∷ tcp_rule ∷ dns_rule ∷ []) (omega arith)
      (omega arith)

-- With room for one message, the first two rules of three are lost.
packets-lost :
    let (t, ret) = nl_send_lst delivered 1 2 3 (dns_rule ∷ dns_rule ∷ tcp_rule ∷ []) in
    (rules_of t.packets ≡ tcp_rule ∷ []) × (ret ≡ returned 3)
unfolding nl_send_lst send_rules_from send_rule send_rest put_message flush_packet open_packet
packets-lost = (refl, refl)
