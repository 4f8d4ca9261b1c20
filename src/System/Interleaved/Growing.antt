-- ===== src/System/Interleaved/Growing.antt =====
-- What the events that delete no rule do to the chains: they add to their ends.
use mathlib.Core.Path.{subst}
use bf.Base.{
  ℕ, ◌≡◌, refl, sym, Bool, true, false, List, [], ◌∷◌, ◌++◌, append-nil, Option, none, some,
  Option-cases, if_cases, ◌==◌, inl, inr, arith,
}
use bf.Rule.{FilterRule, chain_input, chain_output, policy_rule}
use bf.Store.{Store, add_rule, find_rule, free_retired}
use bf.Kernel.{Kernel, SkBuff}
use bf.Message.{
  Sent, Request, MessageType, msg_add_rule, msg_update_rule, msg_delete_rule, msg_delete_all_rules,
  msg_chain_policy,
}
use bf.Netlink.{Handled, dispatch, nl_rcv_msg, rcv_add_rule, rcv_update_rule}
use bf.Hook.Log.{work_handler, dequeued}
use bf.Netlink.Invariant.{set_chain_policy-store}
use bf.System.{
  Event, request, packet, log_work, listing, grace_period, proc_write, step, run_thread,
}
use bf.System.Reachable.{hook_func-frame}
use bf.System.Interleaved.{chain_of, event_turn, keeps_rules, deletes}

-- A chain that has been added to.
abbrev pub Grows : Bool → Store → Store → Type 0
Grows b s s' = (ys : List ℕ) × (chain_of b s' ≡ chain_of b s ++ ys)

Grows-refl : (b : Bool) (s : Store) → Grows b s s
Grows-refl b s = ([], sym (append-nil (chain_of b s)))

add_rule-Grows : (b : Bool) (s : Store) (fr : FilterRule) → Grows b s (add_rule s fr)
unfolding add_rule
add_rule-Grows true s fr =
    if_cases (λ (c : List ℕ). (ys : List ℕ) × (c ≡ s.chain_in ++ ys)) (fr.base.chain == chain_input)
      (λ e. (s.next_node ∷ [], refl)) (λ e. Grows-refl true s)
add_rule-Grows false s fr =
    let P = λ (c : List ℕ). (ys : List ℕ) × (c ≡ s.chain_out ++ ys) in
    if_cases P (fr.base.chain == chain_input) (λ e. Grows-refl false s)
      (λ e.
        if_cases P (fr.base.chain == chain_output) (λ e'. (s.next_node ∷ [], refl))
          (λ e'. Grows-refl false s))

rcv_add_rule-Grows :
    (b : Bool) (k : Kernel) (fr : FilterRule) → Grows b k.store (rcv_add_rule k fr).kernel.store
unfolding rcv_add_rule
rcv_add_rule-Grows b k fr =
    if_cases (λ (h : Handled). Grows b k.store h.kernel.store) (policy_rule fr.base)
      (λ e. Grows-refl b k.store)
      (λ e. elim (Option-cases (find_rule k.store fr.base)) [
        | inl absent ↦ rw absent (add_rule-Grows b k.store fr)
        | inr (a, present) ↦ rw present (Grows-refl b k.store)
      ])

found_node-Grows :
    (b : Bool) (k : Kernel) (o : Option ℕ) (f : ℕ → Handled) (h : Handled)
    → ((a : ℕ) → Grows b k.store (f a).kernel.store)
    → Grows b k.store h.kernel.store
    → Grows b k.store (elim o as (λ _. Handled) [ some a ↦ f a | none ↦ h ]).kernel.store
found_node-Grows b k none f h g u = u
found_node-Grows b k (some a) f h g u = g a

rcv_update_rule-Grows :
    (b : Bool) (k : Kernel) (fr : FilterRule) → Grows b k.store (rcv_update_rule k fr).kernel.store
unfolding rcv_update_rule
rcv_update_rule-Grows true k fr =
    found_node-Grows true k (find_rule k.store fr.base) _ _ (λ a. Grows-refl true k.store)
      (Grows-refl true k.store)
rcv_update_rule-Grows false k fr =
    found_node-Grows false k (find_rule k.store fr.base) _ _ (λ a. Grows-refl false k.store)
      (Grows-refl false k.store)

dispatch-Grows :
    (b : Bool) (k : Kernel) (req : Request) (t : MessageType)
    → deletes t ≡ false
    → Grows b k.store (dispatch k req t).kernel.store
unfolding dispatch deletes
dispatch-Grows b k req msg_add_rule h = rcv_add_rule-Grows b k req.fr
dispatch-Grows b k req msg_update_rule h = rcv_update_rule-Grows b k req.fr
dispatch-Grows b k req msg_delete_rule h = absurd (ground arith)
dispatch-Grows b k req msg_delete_all_rules h = absurd (ground arith)
dispatch-Grows b k req msg_chain_policy h =
    subst (Grows b k.store) (sym (set_chain_policy-store k req.fr)) (Grows-refl b k.store)
dispatch-Grows b k req _ h = Grows-refl b k.store

dequeued-store : (k : Kernel) (q : List SkBuff) → (dequeued k q).0.store ≡ k.store
dequeued-store k [] = refl
dequeued-store k (skb ∷ rest) = refl

pub step-Grows :
    (b : Bool) (k : Kernel) (e : Event)
    → keeps_rules (event_turn e) ≡ true
    → Grows b k.store (step k e).0.store
unfolding step keeps_rules nl_rcv_msg run_thread work_handler free_retired
step-Grows b k (request req) h =
    dispatch-Grows b (record k { thrd_pid = req.nlmsg_pid }) req req.nlmsg_type (ground arith)
step-Grows b k (packet incoming skb) h =
    let (q, e) = hook_func-frame k incoming skb in
    subst (λ (k' : Kernel). Grows b k.store k'.store) (sym e) (Grows-refl b k.store)
step-Grows b k log_work h =
    subst (Grows b k.store) (sym (dequeued-store k k.skb_list)) (Grows-refl b k.store)
step-Grows true k (listing send_ok) h =
    if_cases (λ (r : Kernel × List Sent). Grows true k.store r.0.store) (k.threads == 0)
      (λ _. Grows-refl true k.store) (λ _. Grows-refl true k.store)
step-Grows false k (listing send_ok) h =
    if_cases (λ (r : Kernel × List Sent). Grows false k.store r.0.store) (k.threads == 0)
      (λ _. Grows-refl false k.store) (λ _. Grows-refl false k.store)
step-Grows true k grace_period h = Grows-refl true k.store
step-Grows false k grace_period h = Grows-refl false k.store
step-Grows b k (proc_write x) h = Grows-refl b k.store
