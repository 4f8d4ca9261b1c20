-- ===== src/Netlink/Invariant.antt =====
-- Every request keeps the invariant of the rule lists.
use bf.Base.{ℕ, ◌≡◌, refl, Bool-cases, Option-cases, inl, inr, ◌==◌, ==_iff, arith}
use bf.Rule.{FilterRule, policy_rule}
use bf.Store.{Heap, poke, find_rule, IsStore}
use bf.Store.Invariant.{add_rule-IsStore, delete_rule-IsStore, delete_rules-IsStore}
use bf.Kernel.{Kernel, set_chain_policy}
use bf.Message.{
  MessageType, msg_add_rule, msg_delete_rule, msg_delete_all_rules, msg_update_rule,
  msg_chain_policy, Request,
}
use bf.Netlink.{updated, rcv_add_rule, rcv_update_rule, rcv_delete_rule, dispatch, nl_rcv_msg}
use bf.Store.Rewrite.{SameBases, rewrite-IsStore}

pub set_chain_policy-store :
    (k : Kernel) (fr : FilterRule) → (set_chain_policy k fr).store ≡ k.store
unfolding set_chain_policy
set_chain_policy-store k fr = ground arith

poke-SameBases :
    (heap : Heap) (a : ℕ) (r : FilterRule) → r.base ≡ (heap a).base → SameBases heap (poke heap a r)
unfolding poke
poke-SameBases heap a r e x = elim (Bool-cases (x == a)) [
  | inl hit ↦ rw (hit, (==_iff x a).0 hit) e
  | inr miss ↦ rw miss
]

rcv_add_rule-IsStore :
    (k : Kernel) (fr : FilterRule) → IsStore k.store → IsStore (rcv_add_rule k fr).kernel.store
unfolding rcv_add_rule
rcv_add_rule-IsStore k fr v = elim (Bool-cases (policy_rule fr.base)) [
  | inl p ↦ rw p v
  | inr p ↦ elim (Option-cases (find_rule k.store fr.base)) [
    | inl e ↦ rw (p, e) (add_rule-IsStore k.store fr v e)
    | inr (a, e) ↦ rw (p, e) v
  ]
]

rcv_update_rule-IsStore :
    (k : Kernel) (fr : FilterRule) → IsStore k.store → IsStore (rcv_update_rule k fr).kernel.store
unfolding rcv_update_rule updated
rcv_update_rule-IsStore k fr v = elim (Option-cases (find_rule k.store fr.base)) [
  | inl e ↦ rw (e, rcv_update_rule) v
  | inr (a, e) ↦
      rw (e, rcv_update_rule) (rewrite-IsStore k.store _ (poke-SameBases k.store.heap a _ refl) v)
]

rcv_delete_rule-IsStore :
    (k : Kernel) (fr : FilterRule) → IsStore k.store → IsStore (rcv_delete_rule k fr).kernel.store
unfolding rcv_delete_rule
rcv_delete_rule-IsStore k fr v = elim (Option-cases (find_rule k.store fr.base)) [
  | inl e ↦ rw (e, rcv_delete_rule) v
  | inr (a, e) ↦ rw (e, rcv_delete_rule) (delete_rule-IsStore k.store fr v)
]

dispatch-IsStore :
    (k : Kernel) (req : Request) (t : MessageType)
    → IsStore k.store
    → IsStore (dispatch k req t).kernel.store
unfolding dispatch
dispatch-IsStore k req msg_add_rule v = rcv_add_rule-IsStore k req.fr v
dispatch-IsStore k req msg_update_rule v = rcv_update_rule-IsStore k req.fr v
dispatch-IsStore k req msg_delete_rule v = rcv_delete_rule-IsStore k req.fr v
dispatch-IsStore k req msg_delete_all_rules v = delete_rules-IsStore k.store v
dispatch-IsStore k req msg_chain_policy v = rw (set_chain_policy-store k req.fr) v
dispatch-IsStore k req _ v = v

-- Every request, of whatever type, keeps the invariant of the rule lists.
pub nl_rcv_msg-IsStore :
    (k : Kernel) (req : Request) → IsStore k.store → IsStore (nl_rcv_msg k req).kernel.store
unfolding nl_rcv_msg
nl_rcv_msg-IsStore k req v = dispatch-IsStore _ req req.nlmsg_type v
