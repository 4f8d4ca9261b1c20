-- ===== src/Hook/FirstMatch.antt =====
-- The verdict of the hook: that of the first rule that applies, and the chain's policy without one.
use bf.Base.{
  ℕ, ◌≡◌, ◌≢◌, refl, ap, ◌∙◌, Bool, true, ◌&&◌, List, [], ◌∷◌, find, Option, none, some,
  if◌then◌else◌, ◌==◌, arith,
}
use bf.Rule.{FilterRule, ipproto_udp, ipproto_tcp}
use bf.Kernel.{Kernel, SkBuff, IpHeader, Ports, apply_policy}
use bf.Hook.{
  conclude, Outcome, pass, verdict, match_udp, match_tcp, rule_outcome, walk_chain, hook_func,
  chain_rules, chain_policy, is_filtered,
}

-- A rule applies to a packet with ports when it is for the packet's protocol and its fields match.
unfoldable pub applies : IpHeader → Ports → FilterRule → Bool
applies ip ports r =
    if ip.protocol == ipproto_udp
    then r.base.proto == ipproto_udp && match_udp r ip ports
    else r.base.proto == ipproto_tcp && match_tcp r ip ports

-- The verdict of a chain, by its first rule that applies.
abbrev pub decided : ℕ → Option FilterRule → ℕ
decided policy none = policy
decided policy (some r) = apply_policy r.policy

abbrev pub outcome_of : IpHeader → Option FilterRule → Outcome
outcome_of ip none = pass
outcome_of ip (some r) = verdict (apply_policy r.policy) (ip.protocol == ipproto_udp)

-- The loop stops at the first rule that applies, and only UDP packets are queued for the log.
pub walk_chain-find :
    (ip : IpHeader) (ports : Ports) (rs : List FilterRule)
    → is_filtered ip ≡ true
    → walk_chain ip (some ports) rs ≡ outcome_of ip (find (applies ip ports) rs)
unfolding walk_chain rule_outcome applies
walk_chain-find ip ports [] h = refl
walk_chain-find ip ports (r ∷ rs) h = ground (arith, walk_chain-find ip ports rs)

-- What the hook does with a packet that it filters, in terms of the loop.
pub hook_func-walk :
    (k : Kernel) (incoming : Bool) (skb : SkBuff) (ip : IpHeader)
    → skb.mac_header ≡ true
    → skb.network_header ≡ some ip
    → is_filtered ip ≡ true
    → k.filter_value ≢ 0
    → hook_func k incoming skb
      ≡ conclude k incoming skb (walk_chain ip skb.transport_header (chain_rules k incoming))
unfolding hook_func
hook_func-walk k incoming skb ip m n f on = ground arith

verdict_of :
    (k : Kernel) (incoming : Bool) (skb : SkBuff) (ip : IpHeader) (r : Option FilterRule)
    → (conclude k incoming skb (outcome_of ip r)).1 ≡ decided (chain_policy k incoming) r
verdict_of k incoming skb ip none = refl
verdict_of k incoming skb ip (some r) = refl

-- A packet with an IP header, an Ethernet header and ports, of TCP or UDP, while the filter is on: the
-- verdict is that of the first rule of its chain that applies to it, by the rule's policy, and the
-- policy of the chain if no rule applies.
pub hook_func-first_match :
    (k : Kernel) (incoming : Bool) (skb : SkBuff) (ip : IpHeader) (ports : Ports)
    → skb.mac_header ≡ true
    → skb.network_header ≡ some ip
    → skb.transport_header ≡ some ports
    → is_filtered ip ≡ true
    → k.filter_value ≢ 0
    → (hook_func k incoming skb).1
      ≡ decided (chain_policy k incoming) (find (applies ip ports) (chain_rules k incoming))
unfolding hook_func
hook_func-first_match k incoming skb ip ports m n t f on =
    let rs = chain_rules k incoming in
    let loop = ap (λ (o : Option Ports). walk_chain ip o rs) t ∙ walk_chain-find ip ports rs f in
    ap (λ (x : Kernel × ℕ). x.1) (hook_func-walk k incoming skb ip m n f on)
    ∙ (ap (λ (o : Outcome). (conclude k incoming skb o).1) loop
        ∙ verdict_of k incoming skb ip (find (applies ip ports) rs))
