-- ===== src/System/Verdicts.antt =====
-- From requests to verdicts: what a packet meets at the hook, in terms of the rules that the requests
-- have left.
use bf.Base.{
  ℕ, ◌≡◌, ◌≢◌, ◌≤◌, refl, sym, ap, ◌∙◌, Bool, true, false, ◌||◌, List, find, filter, some,
  if◌then◌else◌, ◌==◌, arith,
}
use mathlib.Core.Path.{ap₂}
use bf.Rule.{FilterRule, chain_input, chain_output, chain_all, policy_drop, policy_none}
use bf.Store.{IsStore, rules}
use bf.Store.Refines.{chain_in-rules, chain_out-rules}
use bf.Kernel.{Kernel, SkBuff, IpHeader, Ports, apply_policy, convert_policy, set_chain_policy}
use bf.Message.{
  MessageType, msg_add_rule, msg_delete_rule, msg_update_rule, msg_chain_policy, Request,
}
use bf.Hook.{hook_func, chain_rules, chain_policy, is_filtered}
use bf.Hook.FirstMatch.{applies, decided, hook_func-first_match}
use bf.Netlink.{dispatch, nl_rcv_msg, rcv_add_rule, rcv_update_rule, rcv_delete_rule}
use bf.Netlink.Invariant.{nl_rcv_msg-IsStore}
use bf.Netlink.Rules.{request_spec, nl_rcv_msg-rules}

-- The chain number of a direction.
abbrev pub chain_of : Bool → ℕ
chain_of incoming = if incoming then chain_input else chain_output

-- The rules of a direction, in the order of their addition.
abbrev pub direction_rules : Bool → List FilterRule → List FilterRule
direction_rules incoming rs = filter (λ r. r.base.chain == chain_of incoming) rs

chain_rules-direction :
    (k : Kernel) (incoming : Bool)
    → IsStore k.store
    → chain_rules k incoming ≡ direction_rules incoming (rules k.store)
chain_rules-direction k true v = chain_in-rules k.store v
chain_rules-direction k false v = chain_out-rules k.store v

-- What MSG_CHAIN_POLICY leaves in the policy of a direction.
abbrev pub policy_spec : MessageType → FilterRule → Bool → ℕ → ℕ
policy_spec msg_chain_policy fr incoming old =
    if fr.base.chain == chain_of incoming || fr.base.chain == chain_all
    then apply_policy fr.policy
    else old
policy_spec _ fr incoming old = old

set_chain_policy-policy :
    (k : Kernel) (fr : FilterRule) (incoming : Bool)
    → chain_policy (set_chain_policy k fr) incoming
      ≡ policy_spec msg_chain_policy fr incoming (chain_policy k incoming)
unfolding set_chain_policy
set_chain_policy-policy k fr true = ground arith
set_chain_policy-policy k fr false = ground arith

pub dispatch-policy :
    (k : Kernel) (req : Request) (t : MessageType) (incoming : Bool)
    → chain_policy (dispatch k req t).kernel incoming
      ≡ policy_spec t req.fr incoming (chain_policy k incoming)
unfolding dispatch rcv_add_rule rcv_update_rule rcv_delete_rule
dispatch-policy k req msg_add_rule incoming = ground arith
dispatch-policy k req msg_update_rule incoming = ground arith
dispatch-policy k req msg_delete_rule incoming = ground arith
dispatch-policy k req msg_chain_policy incoming = set_chain_policy-policy k req.fr incoming
dispatch-policy k req _ incoming = refl

pub dispatch-filter_value :
    (k : Kernel) (req : Request) (t : MessageType)
    → (dispatch k req t).kernel.filter_value ≡ k.filter_value
unfolding dispatch rcv_add_rule rcv_update_rule rcv_delete_rule set_chain_policy
dispatch-filter_value k req msg_add_rule = ground arith
dispatch-filter_value k req msg_update_rule = ground arith
dispatch-filter_value k req msg_delete_rule = ground arith
dispatch-filter_value k req msg_chain_policy = ground arith
dispatch-filter_value k req _ = refl

-- A packet that the hook filters: TCP or UDP, with every header.
pub record IsFiltered (skb : SkBuff) (ip : IpHeader) (ports : Ports) : Type 0 where
  pub has_mac : skb.mac_header ≡ true
  pub has_ip : skb.network_header ≡ some ip
  pub has_ports : skb.transport_header ≡ some ports
  pub filtered : is_filtered ip ≡ true

-- The verdict on a packet, by the rules of its direction and the policy.
abbrev pub verdict_spec : IpHeader → Ports → ℕ → List FilterRule → ℕ
verdict_spec ip ports policy rs = decided policy (find (applies ip ports) rs)

-- While the filter is on and the rule lists satisfy their invariant, the verdict on a TCP or UDP packet
-- with all its headers is that of the first rule, in the order of addition, of its direction's chain
-- that applies to it, and else the chain's policy.
pub hook_func-verdict :
    (k : Kernel) (incoming : Bool) (skb : SkBuff) (ip : IpHeader) (ports : Ports)
    → IsStore k.store
    → IsFiltered skb ip ports
    → k.filter_value ≢ 0
    → (hook_func k incoming skb).1
      ≡ verdict_spec ip ports (chain_policy k incoming) (direction_rules incoming (rules k.store))
hook_func-verdict k incoming skb ip ports v f on =
    hook_func-first_match k incoming skb ip ports f.has_mac f.has_ip f.has_ports f.filtered on
    ∙ ap (verdict_spec ip ports (chain_policy k incoming)) (chain_rules-direction k incoming v)

-- A request and then a packet: the verdict is that of the rules as `request_spec` changes them and of
-- the policy as `policy_spec` changes it, for every type of request.
pub request-verdict :
    (k : Kernel) (req : Request) (incoming : Bool) (skb : SkBuff) (ip : IpHeader) (ports : Ports)
    → IsStore k.store
    → IsFiltered skb ip ports
    → k.filter_value ≢ 0
    → (hook_func (nl_rcv_msg k req).kernel incoming skb).1
      ≡ verdict_spec ip ports
          (policy_spec req.nlmsg_type req.fr incoming (chain_policy k incoming))
          (direction_rules incoming (request_spec req.nlmsg_type req.fr (rules k.store)))
unfolding nl_rcv_msg
request-verdict k req incoming skb ip ports v f on =
    let k1 = record k { thrd_pid = req.nlmsg_pid } in
    let k2 = (nl_rcv_msg k req).kernel in
    hook_func-verdict k2 incoming skb ip ports (nl_rcv_msg-IsStore k req v) f
      (λ e. on (sym (dispatch-filter_value k1 req req.nlmsg_type) ∙ e))
    ∙ ap₂ (λ p rs. verdict_spec ip ports p (direction_rules incoming rs))
        (dispatch-policy k1 req req.nlmsg_type incoming) (nl_rcv_msg-rules k req v)

-- The policy that a listing reports for a chain is the one that was set, but for POLICY_NONE, which is
-- set and reported as DROP.
pub convert-apply_policy :
    (p : ℕ)
    → p ≤ policy_none
    → convert_policy (apply_policy p) ≡ (if p == policy_none then policy_drop else p)
unfolding convert_policy apply_policy
convert-apply_policy p h = ground arith
