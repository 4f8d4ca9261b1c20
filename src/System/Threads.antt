-- ===== src/System/Threads.antt =====
-- Listing threads share `thrd_params` with the handler of requests.
use bf.Base.{
  ℕ, ◌+◌, ◌≡◌, refl, Bool, true, List, [], ◌∷◌, All, All-append, length, if_cases, ◌==◌, arith,
}
use mathlib.Core.Path.{subst}
use bf.Rule.{FilterRule, chain_input, chain_output}
use bf.Store.{poke}
use bf.Kernel.{Kernel, set_chain_policy}
use bf.Message.{
  MessageType, msg_add_rule, msg_delete_rule, msg_update_rule, msg_chain_policy, msg_get_rules,
  Sent, Request,
}
use bf.Netlink.{dispatch, nl_rcv_msg, rcv_add_rule, rcv_update_rule, rcv_delete_rule}
use bf.Listing.{
  Listing, send, when_going, policy_message, data_message, done_message, selected, list_node,
  list_chain, list_rules,
}
use bf.System.{request, listing, run_thread, step}

-- All messages go to one process.
abbrev pub AllTo : ℕ → List Sent → Type 0
AllTo pid = All (λ m. m.destpid ≡ pid)

send-AllTo :
    (send_ok : ℕ → Bool) (pid : ℕ) (m : Sent) (l : Listing)
    → m.destpid ≡ pid
    → AllTo pid l.sent
    → AllTo pid (send send_ok m l).sent
send-AllTo send_ok pid m l e h =
    if_cases (λ (l' : Listing). AllTo pid l'.sent) (send_ok (length l.sent))
      (λ _. All-append _ l.sent _ h (e, tt)) (λ _. h)

send_going-AllTo :
    (send_ok : ℕ → Bool) (pid : ℕ) (m : Listing → Sent) (l : Listing)
    → (m l).destpid ≡ pid
    → AllTo pid l.sent
    → AllTo pid (when_going (λ x. send send_ok (m x) x) l).sent
send_going-AllTo send_ok pid m l e h =
    if_cases (λ (l' : Listing). AllTo pid l'.sent) l.go_on (λ _. send-AllTo send_ok pid (m l) l e h)
      (λ _. h)

list_node-AllTo :
    (send_ok : ℕ → Bool) (pid a : ℕ) (l : Listing)
    → AllTo pid l.sent
    → AllTo pid (list_node send_ok pid a l).sent
unfolding list_node
list_node-AllTo send_ok pid a l h =
    let i = l.count + 1 in
    let l1 = record l { count = i; heap = poke l.heap a (record (l.heap a) { id = i }) } in
    let m = data_message pid i (l.heap a) in
    let s = send-AllTo send_ok pid m l1 refl h in
    if_cases (λ (l' : Listing). AllTo pid l'.sent) (send send_ok m l1).go_on (λ _. s) (λ _. s)

list_chain-AllTo :
    (send_ok : ℕ → Bool) (pid : ℕ) (pattern : FilterRule) (nodes : List ℕ) (l : Listing)
    → AllTo pid l.sent
    → AllTo pid (list_chain send_ok pid pattern nodes l).sent
unfolding list_chain
list_chain-AllTo send_ok pid pattern [] l h = h
list_chain-AllTo send_ok pid pattern (a ∷ rest) l h =
    let P = λ (l' : Listing). AllTo pid l'.sent in
    list_chain-AllTo send_ok pid pattern rest _ (
      if_cases P l.go_on
        (λ _.
          if_cases P (selected pattern (l.heap a)) (λ _. list_node-AllTo send_ok pid a l h)
            (λ _. h))
        (λ _. h))

list_rules-AllTo :
    (send_ok : ℕ → Bool) (k : Kernel) (pid : ℕ) (pattern : FilterRule)
    → AllTo pid (list_rules send_ok k pid pattern).sent
unfolding list_rules policy_message
list_rules-AllTo send_ok k pid pattern =
    let input = policy_message pid chain_input k.policy_input in
    let output = policy_message pid chain_output k.policy_output in
    let l0 : Listing = record {
      heap = k.store.heap;
      count = 0;
      sent = [];
      waits = 0;
      go_on = true;
    } in
    let l1 = send send_ok input l0 in
    let l2 = when_going (send send_ok output) l1 in
    let l3 = list_chain send_ok pid pattern k.store.chain_in l2 in
    let l4 = list_chain send_ok pid pattern k.store.chain_out l3 in
    let s1 = send-AllTo send_ok pid input l0 refl tt in
    let s2 = send_going-AllTo send_ok pid (λ _. output) l1 refl s1 in
    let s3 = list_chain-AllTo send_ok pid pattern k.store.chain_in l2 s2 in
    let s4 = list_chain-AllTo send_ok pid pattern k.store.chain_out l3 s3 in
    send_going-AllTo send_ok pid (λ x. done_message pid x.count) l4 refl s4

dispatch-thrd_pid :
    (k : Kernel) (req : Request) (t : MessageType)
    → k.thrd_pid ≡ req.nlmsg_pid
    → (dispatch k req t).kernel.thrd_pid ≡ req.nlmsg_pid
unfolding dispatch rcv_add_rule rcv_update_rule rcv_delete_rule set_chain_policy
dispatch-thrd_pid k req msg_add_rule e = ground arith
dispatch-thrd_pid k req msg_update_rule e = ground arith
dispatch-thrd_pid k req msg_delete_rule e = ground arith
dispatch-thrd_pid k req msg_chain_policy e = ground arith
dispatch-thrd_pid k req msg_get_rules e = refl
dispatch-thrd_pid k req _ e = e

-- A listing thread that runs after a request, whatever the request's type and whoever asked for the
-- listing, sends all its messages to the process that sent that last request.
pub listing-goes_to_last :
    (k : Kernel) (req : Request) (send_ok : ℕ → Bool)
    → AllTo req.nlmsg_pid (step (step k (request req)).0 (listing send_ok)).1
unfolding step run_thread nl_rcv_msg
listing-goes_to_last k req send_ok =
    let k1 = (nl_rcv_msg k req).kernel in
    let e = dispatch-thrd_pid (record k { thrd_pid = req.nlmsg_pid }) req req.nlmsg_type refl in
    if_cases (λ (r : Kernel × List Sent). AllTo req.nlmsg_pid r.1) (k1.threads == 0) (λ _. tt)
      (λ _.
        subst (λ (pid : ℕ). AllTo pid (list_rules send_ok k1 k1.thrd_pid k1.thrd_fr).sent) e
          (list_rules-AllTo send_ok k1 k1.thrd_pid k1.thrd_fr))
