-- ===== src/Netlink/Replies.antt =====
-- What the kernel module answers to a request.
use bf.Base.{
  ℕ, ◌≡◌, refl, ap, List, [], ◌∷◌, find, Option, none, some, Bool-cases, Option-cases, inl, inr,
  if◌then◌else◌, arith,
}
use bf.Rule.{FilterRule, policy_rule, bf_err_ok, bf_err_already_have_rule, bf_err_missing_rule}
use bf.Store.{find_rule, IsStore, rules}
use bf.Store.Refines.{has_base, find_rule-find}
use bf.Kernel.{Kernel}
use bf.Message.{
  MessageType, msg_add_rule, msg_data, msg_delete_rule, msg_delete_all_rules, msg_update_rule,
  msg_chain_policy, msg_err, msg_log, other, Sent, Request,
}
use bf.Netlink.{
  ReturnCode, ok, einval, err_msg, send_err_ok, rcv_add_rule, rcv_update_rule, rcv_delete_rule,
  dispatch, nl_rcv_msg,
}

-- The answers, by the rules before the request.
abbrev pub add_reply : ℕ → FilterRule → List FilterRule → List Sent
add_reply pid fr rs = if policy_rule fr.base then [] else (elim (find (has_base fr.base) rs) [
  | some r ↦ err_msg pid (some fr) bf_err_already_have_rule ∷ []
  | none ↦ err_msg pid none bf_err_ok ∷ []
])

-- The answer to an update or a deletion, by the rule that has the base.
abbrev pub reply_for : ℕ → FilterRule → Option FilterRule → List Sent
reply_for pid fr (some r) = err_msg pid none bf_err_ok ∷ []
reply_for pid fr none = err_msg pid (some fr) bf_err_missing_rule ∷ []

abbrev pub present_reply : ℕ → FilterRule → List FilterRule → List Sent
present_reply pid fr rs = reply_for pid fr (find (has_base fr.base) rs)

abbrev pub reply_spec : MessageType → ℕ → FilterRule → List FilterRule → List Sent
reply_spec msg_add_rule pid fr rs = add_reply pid fr rs
reply_spec msg_update_rule pid fr rs = present_reply pid fr rs
reply_spec msg_delete_rule pid fr rs = present_reply pid fr rs
reply_spec msg_delete_all_rules pid fr rs = err_msg pid none bf_err_ok ∷ []
reply_spec msg_chain_policy pid fr rs = err_msg pid none bf_err_ok ∷ []
reply_spec _ pid fr rs = []

abbrev pub result_spec : MessageType → ReturnCode
result_spec msg_data = einval
result_spec msg_err = einval
result_spec msg_log = einval
result_spec (other n) = einval
result_spec _ = ok

rcv_add_rule-sent :
    (k : Kernel) (fr : FilterRule)
    → IsStore k.store
    → (rcv_add_rule k fr).sent ≡ add_reply k.thrd_pid fr (rules k.store)
unfolding rcv_add_rule send_err_ok
rcv_add_rule-sent k fr v = elim (Bool-cases (policy_rule fr.base)) [
  | inl p ↦ rw p
  | inr p ↦ elim (Option-cases (find_rule k.store fr.base)) [
    | inl e ↦ rw (p, e, find_rule-find k.store fr.base v, e)
    | inr (a, e) ↦ rw (p, e, find_rule-find k.store fr.base v, e)
  ]
]

rcv_update_rule-sent :
    (k : Kernel) (fr : FilterRule)
    → IsStore k.store
    → (rcv_update_rule k fr).sent ≡ present_reply k.thrd_pid fr (rules k.store)
unfolding rcv_update_rule send_err_ok
rcv_update_rule-sent k fr v = elim (Option-cases (find_rule k.store fr.base)) [
  | inl e ↦
      rw (e, rcv_update_rule, ap (reply_for k.thrd_pid fr) (find_rule-find k.store fr.base v), e)
  | inr (a, e) ↦
      rw (e, rcv_update_rule, ap (reply_for k.thrd_pid fr) (find_rule-find k.store fr.base v), e)
]

rcv_delete_rule-sent :
    (k : Kernel) (fr : FilterRule)
    → IsStore k.store
    → (rcv_delete_rule k fr).sent ≡ present_reply k.thrd_pid fr (rules k.store)
unfolding rcv_delete_rule send_err_ok
rcv_delete_rule-sent k fr v = elim (Option-cases (find_rule k.store fr.base)) [
  | inl e ↦
      rw (e, rcv_delete_rule, ap (reply_for k.thrd_pid fr) (find_rule-find k.store fr.base v), e)
  | inr (a, e) ↦
      rw (e, rcv_delete_rule, ap (reply_for k.thrd_pid fr) (find_rule-find k.store fr.base v), e)
]

dispatch-sent :
    (k : Kernel) (req : Request) (t : MessageType)
    → IsStore k.store
    → (dispatch k req t).sent ≡ reply_spec t k.thrd_pid req.fr (rules k.store)
unfolding dispatch send_err_ok
dispatch-sent k req msg_add_rule v = rcv_add_rule-sent k req.fr v
dispatch-sent k req msg_update_rule v = rcv_update_rule-sent k req.fr v
dispatch-sent k req msg_delete_rule v = rcv_delete_rule-sent k req.fr v
dispatch-sent k req _ v = refl

dispatch-result :
    (k : Kernel) (req : Request) (t : MessageType) → (dispatch k req t).result ≡ result_spec t
unfolding dispatch rcv_add_rule rcv_update_rule rcv_delete_rule
dispatch-result k req msg_add_rule = ground arith
dispatch-result k req msg_update_rule = ground arith
dispatch-result k req msg_delete_rule = ground arith
dispatch-result k req _ = refl

-- Each request is answered to the process that sent it, as `reply_spec` says by the rules before it:
-- an addition is refused when a rule has its base, an update and a deletion when none has, and an
-- addition of a policy rule is not answered at all. The result is -EINVAL exactly for the types that
-- `result_spec` lists: the module's own message types and those without a name.
pub nl_rcv_msg-sent :
    (k : Kernel) (req : Request)
    → IsStore k.store
    → ((nl_rcv_msg k req).sent ≡ reply_spec req.nlmsg_type req.nlmsg_pid req.fr (rules k.store))
      × ((nl_rcv_msg k req).result ≡ result_spec req.nlmsg_type)
unfolding nl_rcv_msg
nl_rcv_msg-sent k req v =
    (dispatch-sent _ req req.nlmsg_type v, dispatch-result _ req req.nlmsg_type)
