-- ===== src/Hook.antt =====
-- hook_func of bf-ko/bf_module.c, which netfilter calls for every packet, and work_handler, which
-- sends the packets that the hook queued to the subscriber of the log.
pub mod FirstMatch
pub mod Addresses
pub mod Log
use bf.Base.{
  ℕ, ◌≡◌, ◌<◌, Bool, true, false, ◌&&◌, not, List, [], ◌∷◌, ◌++◌, map, Option, none, some,
  if◌then◌else◌, ltb, ◌==◌,
}
use bf.Rule.{FilterRule, FilterRuleBase, sw_no, ipproto_udp, ipproto_tcp}
use bf.Kernel.{Kernel, SkBuff, IpHeader, Ports, nf_drop, nf_accept, apply_policy, ntohs, ntohl}

-- A field of the rule that is zero is open; otherwise the packet's value must be the rule's.
abbrev pub field_test : ℕ → ℕ → Bool
field_test wanted value = if ltb 0 wanted then value == wanted else true

-- The condition of the UDP branch. Both addresses of the rule are compared with `saddr`.
unfoldable pub match_udp : FilterRule → IpHeader → Ports → Bool
match_udp r ip udp =
    field_test r.base.src_port (ntohs udp.source)
    && (field_test r.base.dst_port (ntohs udp.dest)
        && (field_test r.base.s_addr (ntohl ip.saddr)
            && (field_test r.base.d_addr (ntohl ip.saddr) && r.off == sw_no)))

-- The condition of the TCP branch, which swaps the addresses by `ntohs`.
unfoldable pub match_tcp : FilterRule → IpHeader → Ports → Bool
match_tcp r ip tcp =
    field_test r.base.src_port (ntohs tcp.source)
    && (field_test r.base.dst_port (ntohs tcp.dest)
        && (field_test r.base.s_addr (ntohs ip.saddr)
            && (field_test r.base.d_addr (ntohs ip.saddr) && r.off == sw_no)))

-- What one rule does to a packet: nothing, or the return of a verdict, after queueing for the log.
pub data Outcome : Type 0 where
  pass : Outcome
  verdict : ℕ → Bool → Outcome

-- The body of the loop over the chain.
unfoldable pub rule_outcome : IpHeader → Option Ports → FilterRule → Outcome
rule_outcome ip transport r =
    if ip.protocol == ipproto_udp && r.base.proto == ipproto_udp
    then (elim transport [
      | none ↦ verdict nf_drop false
      | some udp ↦ if match_udp r ip udp then verdict (apply_policy r.policy) true else pass
    ])
    else if ip.protocol == ipproto_tcp && r.base.proto == ipproto_tcp
    then (elim transport [
      | none ↦ verdict nf_drop false
      | some tcp ↦ if match_tcp r ip tcp then verdict (apply_policy r.policy) false else pass
    ])
    else pass

-- The loop: the first rule that does not pass decides.
unfoldable pub walk_chain : IpHeader → Option Ports → List FilterRule → Outcome
walk_chain ip transport [] = pass
walk_chain ip transport (r ∷ rest) =
    let later = walk_chain ip transport rest in
    elim (rule_outcome ip transport r) [ pass ↦ later | verdict v logged ↦ verdict v logged ]

-- add_to_skb_list
unfoldable pub add_to_skb_list : Kernel → SkBuff → Kernel
add_to_skb_list k skb = record k { skb_list = k.skb_list ++ skb ∷ [] }

abbrev pub is_filtered : IpHeader → Bool
is_filtered ip = if ip.protocol == ipproto_udp then true else ip.protocol == ipproto_tcp

-- The rules of the chain that a packet of this direction goes through; `incoming` is `in != 0`.
abbrev pub chain_rules : Kernel → Bool → List FilterRule
chain_rules k incoming =
    if incoming then map k.store.heap k.store.chain_in else map k.store.heap k.store.chain_out

abbrev pub chain_policy : Kernel → Bool → ℕ
chain_policy k incoming = if incoming then k.policy_input else k.policy_output

abbrev pub conclude : Kernel → Bool → SkBuff → Outcome → Kernel × ℕ
conclude k incoming skb pass = (k, chain_policy k incoming)
conclude k incoming skb (verdict v logged) = (if logged then add_to_skb_list k skb else k, v)

-- hook_func from its guards on: with the pointer to the IP header, and `filter_value` last.
unfoldable pub hook_header : Kernel → Bool → SkBuff → Option IpHeader → Kernel × ℕ
hook_header k incoming skb none = (k, nf_accept)
hook_header k incoming skb (some ip) =
    if not skb.mac_header
    then (k, nf_accept)
    else if k.filter_value == 0
    then (k, nf_accept)
    else if is_filtered ip
    then conclude k incoming skb (walk_chain ip skb.transport_header (chain_rules k incoming))
    else (k, nf_accept)

unfoldable pub hook_func : Kernel → Bool → SkBuff → Kernel × ℕ
unfolding hook_header
hook_func k incoming skb = hook_header k incoming skb skb.network_header
