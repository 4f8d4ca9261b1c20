-- ===== src/System/Reachable.antt =====
-- The invariant holds after every history of events.
use bf.Base.{
  ℕ, ◌≡◌, ◌≤◌, refl, Bool, true, false, not, List, [], ◌∷◌, ◌++◌, All, Option, none, some, if_cases,
  ◌==◌, arith,
}
use bf.Rule.{FilterRule}
use bf.Store.{Heap}
use bf.Store.Invariant.{init_rules-IsStore, free_retired-IsStore}
use bf.Kernel.{Kernel, SkBuff, IpHeader, apply_policy, set_chain_policy, init_module}
use bf.Message.{
  MessageType, msg_add_rule, msg_delete_rule, msg_update_rule, msg_chain_policy, Sent, Request,
}
use bf.Hook.{Outcome, pass, verdict, hook_func, hook_header, conclude, add_to_skb_list, is_filtered}
use bf.Hook.Log.{work_handler, dequeued, IsLoggable, hook_func-queue}
use bf.Netlink.{dispatch, nl_rcv_msg, rcv_add_rule, rcv_update_rule, rcv_delete_rule}
use bf.Netlink.Invariant.{nl_rcv_msg-IsStore}
use bf.Listing.Numbering.{list_rules-IsStore}
use bf.System.{
  Event, request, packet, log_work, listing, grace_period, proc_write, step, run, IsKernel,
}

apply_policy-le : (p : ℕ) → apply_policy p ≤ 1
unfolding apply_policy
apply_policy-le p = ground arith

abbrev Verdicts : Kernel → Type 0
Verdicts k = (k.policy_input ≤ 1) × (k.policy_output ≤ 1)

set_chain_policy-Verdicts :
    (k : Kernel) (fr : FilterRule) → Verdicts k → Verdicts (set_chain_policy k fr)
unfolding set_chain_policy
set_chain_policy-Verdicts k fr v = ground (arith, apply_policy-le fr.policy)

dispatch-Verdicts :
    (k : Kernel) (req : Request) (t : MessageType) → Verdicts k → Verdicts (dispatch k req t).kernel
unfolding dispatch rcv_add_rule rcv_update_rule rcv_delete_rule
dispatch-Verdicts k req msg_add_rule v = ground arith
dispatch-Verdicts k req msg_update_rule v = ground arith
dispatch-Verdicts k req msg_delete_rule v = ground arith
dispatch-Verdicts k req msg_chain_policy v = set_chain_policy-Verdicts k req.fr v
dispatch-Verdicts k req _ v = v

dispatch-queue :
    (k : Kernel) (req : Request) (t : MessageType) → (dispatch k req t).kernel.skb_list ≡ k.skb_list
unfolding dispatch rcv_add_rule rcv_update_rule rcv_delete_rule set_chain_policy
dispatch-queue k req msg_add_rule = ground arith
dispatch-queue k req msg_update_rule = ground arith
dispatch-queue k req msg_delete_rule = ground arith
dispatch-queue k req msg_chain_policy = ground arith
dispatch-queue k req _ = refl

nl_rcv_msg-IsKernel : (k : Kernel) (req : Request) → IsKernel k → IsKernel (nl_rcv_msg k req).kernel
unfolding nl_rcv_msg
nl_rcv_msg-IsKernel k req v =
    let k1 = record k { thrd_pid = req.nlmsg_pid } in
    let p = dispatch-Verdicts k1 req req.nlmsg_type (v.input_verdict, v.output_verdict) in
    record {
      lists = nl_rcv_msg-IsStore k req v.lists;
      input_verdict = p.0;
      output_verdict = p.1;
      queue = rw (dispatch-queue k1 req req.nlmsg_type) v.queue;
    }

-- The hook changes nothing but the queue.
conclude-frame :
    (k : Kernel) (incoming : Bool) (skb : SkBuff) (o : Outcome)
    → (q : List SkBuff) × ((conclude k incoming skb o).0 ≡ record k { skb_list = q })
unfolding add_to_skb_list
conclude-frame k incoming skb pass = (k.skb_list, refl)
conclude-frame k incoming skb (verdict v false) = (k.skb_list, refl)
conclude-frame k incoming skb (verdict v true) = (k.skb_list ++ skb ∷ [], refl)

hook_header-frame :
    (k : Kernel) (incoming : Bool) (skb : SkBuff) (header : Option IpHeader)
    → (q : List SkBuff) × ((hook_header k incoming skb header).0 ≡ record k { skb_list = q })
unfolding hook_header
hook_header-frame k incoming skb none = (k.skb_list, refl)
hook_header-frame k incoming skb (some ip) =
    let P = λ (r : Kernel × ℕ). (q : List SkBuff) × (r.0 ≡ record k { skb_list = q }) in
    if_cases P (not skb.mac_header) (λ _. (k.skb_list, refl))
      (λ _.
        if_cases P (k.filter_value == 0) (λ _. (k.skb_list, refl))
          (λ _.
            if_cases P (is_filtered ip) (λ _. conclude-frame k incoming skb _)
              (λ _. (k.skb_list, refl))))

pub hook_func-frame :
    (k : Kernel) (incoming : Bool) (skb : SkBuff)
    → (q : List SkBuff) × ((hook_func k incoming skb).0 ≡ record k { skb_list = q })
unfolding hook_func hook_header
hook_func-frame k incoming skb = hook_header-frame k incoming skb skb.network_header

hook_func-IsKernel :
    (k : Kernel) (incoming : Bool) (skb : SkBuff)
    → IsKernel k
    → IsKernel (hook_func k incoming skb).0
hook_func-IsKernel k incoming skb v =
    let (q, e) = hook_func-frame k incoming skb in
    let queue = hook_func-queue k incoming skb v.queue in
    rw e (record {
      lists = v.lists;
      input_verdict = v.input_verdict;
      output_verdict = v.output_verdict;
      queue = rw e at queue;
    })

dequeued-IsKernel :
    (k : Kernel) (q : List SkBuff) → All IsLoggable q → IsKernel k → IsKernel (dequeued k q).0
dequeued-IsKernel k [] h v = v
dequeued-IsKernel k (skb ∷ rest) h v = record {
  lists = v.lists;
  input_verdict = v.input_verdict;
  output_verdict = v.output_verdict;
  queue = h.1;
}

-- Every event keeps the invariant.
pub step-IsKernel : (k : Kernel) (e : Event) → IsKernel k → IsKernel (step k e).0
unfolding step work_handler
step-IsKernel k (request req) v = nl_rcv_msg-IsKernel k req v
step-IsKernel k (packet incoming skb) v = hook_func-IsKernel k incoming skb v
step-IsKernel k log_work v = dequeued-IsKernel k k.skb_list v.queue v
step-IsKernel k (listing send_ok) v =
    if_cases (λ (r : Kernel × List Sent). IsKernel r.0) (k.threads == 0) (λ _. v)
      (λ _. record {
        lists = list_rules-IsStore send_ok k k.thrd_pid k.thrd_fr v.lists;
        input_verdict = v.input_verdict;
        output_verdict = v.output_verdict;
        queue = v.queue;
      })
step-IsKernel k grace_period v = record {
  lists = free_retired-IsStore k.store v.lists;
  input_verdict = v.input_verdict;
  output_verdict = v.output_verdict;
  queue = v.queue;
}
step-IsKernel k (proc_write x) v = record {
  lists = v.lists;
  input_verdict = v.input_verdict;
  output_verdict = v.output_verdict;
  queue = v.queue;
}

run-IsKernel : (k : Kernel) (es : List Event) → IsKernel k → IsKernel (run k es).0
unfolding run
run-IsKernel k [] v = v
run-IsKernel k (e ∷ es) v = run-IsKernel (step k e).0 es (step-IsKernel k e v)

init_module-IsKernel : (heap : Heap) (zeroed : FilterRule) → IsKernel (init_module heap zeroed)
unfolding init_module
init_module-IsKernel heap zeroed = record {
  lists = init_rules-IsStore heap;
  input_verdict = omega arith;
  output_verdict = omega arith;
  queue = tt;
}

-- After any history of requests, packets, log work, listings, grace periods and writes to /proc, from
-- the module's start, the invariant holds: the hash table indexes exactly the rules, no two rules have
-- one base, the chains are the rules of their chain in order, no node in a list is retired or freed,
-- both policies are verdicts, and the log queue holds well-formed UDP packets.
pub run-init-IsKernel :
    (heap : Heap) (zeroed : FilterRule) (es : List Event)
    → IsKernel (run (init_module heap zeroed) es).0
run-init-IsKernel heap zeroed es = run-IsKernel _ es (init_module-IsKernel heap zeroed)
