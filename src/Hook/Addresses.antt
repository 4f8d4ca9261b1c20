-- ===== src/Hook/Addresses.antt =====
-- What the address fields of a rule select. User space stores an address as inet_pton leaves it, in
-- network order, and the hook compares it after a byte swap; the destination is compared with the
-- packet's source.
use mathlib.Core.Path.{ap₂}
use bf.Base.{
  not, if◌then◌else◌, ◌==◌, List, [], ◌∷◌, Bool, Option, some, ℕ, ◌+◌, ◌^◌, ◌<◌, ◌≡◌, ◌≢◌, refl,
  sym, ap, ◌∙◌, true, false, arith,
}
use bf.Rule.{FilterRule, sw_no}
use bf.Kernel.{nf_accept, Kernel, SkBuff, IpHeader, Ports, ntohs, ntohl}
use bf.Hook.{
  match_udp, match_tcp, Outcome, pass, verdict, rule_outcome, walk_chain, chain_rules, conclude,
  hook_func, is_filtered,
}

pub ntohl-lt : (x : ℕ) → ntohl x < 2 ^ 32
unfolding ntohl
ntohl-lt x = omega arith

pub ntohs-lt : (x : ℕ) → ntohs x < 2 ^ 16
unfolding ntohs
ntohs-lt x = omega arith

-- The byte swap of a 32-bit word undoes itself.
pub ntohl-ntohl : (x : ℕ) → x < 2 ^ 32 → ntohl (ntohl x) ≡ x
unfolding ntohl
ntohl-ntohl x h = omega arith

pub ntohs-ntohs : (x : ℕ) → x < 2 ^ 16 → ntohs (ntohs x) ≡ x
unfolding ntohs
ntohs-ntohs x h = omega arith

-- A UDP packet is matched by a rule with a source address only if the rule holds the packet's address
-- with its bytes reversed, that is, in host order.
pub match_udp-source :
    (r : FilterRule) (ip : IpHeader) (udp : Ports)
    → ip.saddr < 2 ^ 32
    → r.base.s_addr ≢ 0
    → match_udp r ip udp ≡ true
    → ntohl r.base.s_addr ≡ ip.saddr
unfolding match_udp
match_udp-source r ip udp h nz m =
    let e : ntohl ip.saddr ≡ r.base.s_addr = ground arith in
    ap ntohl (sym e) ∙ ntohl-ntohl ip.saddr h

-- Neither branch reads the packet's destination address.
pub match-ignores_destination :
    (r : FilterRule) (ip : IpHeader) (ports : Ports) (daddr : ℕ)
    → (match_udp r (record ip { daddr = daddr }) ports ≡ match_udp r ip ports)
      × (match_tcp r (record ip { daddr = daddr }) ports ≡ match_tcp r ip ports)
unfolding match_udp match_tcp
match-ignores_destination r ip ports daddr = (refl, refl)

-- A rule that gives two different addresses matches no packet, since both are compared with the
-- packet's source.
pub match-two_addresses :
    (r : FilterRule) (ip : IpHeader) (ports : Ports)
    → r.base.s_addr ≢ 0
    → r.base.d_addr ≢ 0
    → r.base.s_addr ≢ r.base.d_addr
    → (match_udp r ip ports ≡ false) × (match_tcp r ip ports ≡ false)
unfolding match_udp match_tcp
match-two_addresses r ip ports s d ne = (ground arith, ground arith)

-- The TCP branch cuts the address to 16 bits: a rule whose source address needs more matches no TCP
-- packet.
pub match_tcp-wide_address :
    (r : FilterRule) (ip : IpHeader) (tcp : Ports)
    → 2 ^ 16 < r.base.s_addr + 1
    → match_tcp r ip tcp ≡ false
unfolding match_tcp
match_tcp-wide_address r ip tcp h = ground (arith, ntohs-lt ip.saddr)

-- A rule that is switched off matches nothing.
pub match-off :
    (r : FilterRule) (ip : IpHeader) (ports : Ports)
    → r.off ≢ sw_no
    → (match_udp r ip ports ≡ false) × (match_tcp r ip ports ≡ false)
unfolding match_udp match_tcp
match-off r ip ports h = (ground arith, ground arith)

rule_outcome-destination :
    (ip : IpHeader) (transport : Option Ports) (r : FilterRule) (daddr : ℕ)
    → rule_outcome (record ip { daddr = daddr }) transport r ≡ rule_outcome ip transport r
unfolding rule_outcome match_udp match_tcp
rule_outcome-destination ip transport r daddr = refl

walk_chain-destination :
    (ip : IpHeader) (transport : Option Ports) (rs : List FilterRule) (daddr : ℕ)
    → walk_chain (record ip { daddr = daddr }) transport rs ≡ walk_chain ip transport rs
unfolding walk_chain
walk_chain-destination ip transport [] daddr = refl
walk_chain-destination ip transport (r ∷ rs) daddr =
    ap₂ (λ (o later : Outcome). elim o [ pass ↦ later | verdict v logged ↦ verdict v logged ])
      (rule_outcome-destination ip transport r daddr) (walk_chain-destination ip transport rs daddr)

conclude-verdict :
    (k : Kernel) (incoming : Bool) (skb skb' : SkBuff) (o : Outcome)
    → (conclude k incoming skb o).1 ≡ (conclude k incoming skb' o).1
conclude-verdict k incoming skb skb' pass = refl
conclude-verdict k incoming skb skb' (verdict v logged) = refl

-- The guards of the hook around what it does with a packet.
under_guards :
    (b b' b'' : Bool) (x p q : Kernel × ℕ)
    → p.1 ≡ q.1
    → (if b then x else if b' then x else if b'' then p else x).1
      ≡ (if b then x else if b' then x else if b'' then q else x).1
under_guards true b' b'' x p q h = refl
under_guards false true b'' x p q h = refl
under_guards false false true x p q h = h
under_guards false false false x p q h = refl

abbrev pub packet_of : Bool → IpHeader → Option Ports → SkBuff
packet_of mac ip transport = record {
  mac_header = mac;
  network_header = some ip;
  transport_header = transport;
}

-- The verdict of the hook does not depend on the packet's destination address, whatever the rules of the
-- chain ask of it.
pub hook_func-ignores_destination :
    (k : Kernel) (incoming mac : Bool) (ip : IpHeader) (transport : Option Ports) (daddr : ℕ)
    → (hook_func k incoming (packet_of mac (record ip { daddr = daddr }) transport)).1
      ≡ (hook_func k incoming (packet_of mac ip transport)).1
unfolding hook_func
hook_func-ignores_destination k incoming mac ip transport daddr =
    let skb = packet_of mac ip transport in
    let skb' = packet_of mac (record ip { daddr = daddr }) transport in
    under_guards (not mac) (k.filter_value == 0) (is_filtered ip) (k, nf_accept) _ _
      (ap (λ (o : Outcome). (conclude k incoming skb' o).1)
          (walk_chain-destination ip transport (chain_rules k incoming) daddr)
        ∙ conclude-verdict k incoming skb' skb (walk_chain ip transport (chain_rules k incoming)))
