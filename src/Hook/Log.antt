-- ===== src/Hook/Log.antt =====
-- The queue of packets for the log, and work_handler, which takes one packet from it and reports it to
-- the process that has subscribed.
use bf.Base.{
  not, ◌&&◌, ◌⊎◌, ℕ, ◌≡◌, ◌≢◌, ◌<◌, ◌^◌, refl, ◌∙◌, Bool, true, false, List, [], ◌∷◌, replicate,
  All, All-append, Option, none, some, inl, inr, if◌then◌else◌, if_cases, ltb, ◌==◌, arith,
}
use bf.Rule.{FilterRule, ipproto_udp}
use bf.Kernel.{Kernel, SkBuff, IpHeader, Ports, ntohs, ntohl}
use bf.Message.{Sent, rule, msg_log}
use bf.Hook.{
  hook_header, Outcome, pass, verdict, match_udp, rule_outcome, walk_chain, add_to_skb_list,
  conclude, hook_func, is_filtered,
}
use bf.Hook.Addresses.{match_udp-source}

-- The rule that stands for a logged packet; the addresses are copied as they are in the packet.
unfoldable pub log_rule : IpHeader → Ports → FilterRule
log_rule ip ports = record {
  h_dest = replicate 6 0;
  h_source = replicate 6 0;
  base = record {
    chain = 0;
    proto = ip.protocol;
    src_port = ntohs ports.source;
    dst_port = ntohs ports.dest;
    s_addr = ip.saddr;
    d_addr = ip.daddr;
  };
  off = 0;
  policy = 0;
  id = 0;
}

-- The message for a packet; there is none where the handler would dereference a NULL pointer.
abbrev pub log_sent : ℕ → SkBuff → List Sent
log_sent destpid skb = elim skb.network_header [
  | none ↦ []
  | some ip ↦ elim skb.transport_header [
    | none ↦ []
    | some ports ↦
        record {
          destpid = destpid;
          msg_type = msg_log;
          flags = 0;
          payload = rule (log_rule ip ports);
        }
        ∷ []
  ]
]

abbrev pub dequeued : Kernel → List SkBuff → Kernel × List Sent
dequeued k [] = (k, [])
dequeued k (skb ∷ rest) = (
  record k { skb_list = rest },
  if ltb 0 k.init then if k.pid_log == 0 then [] else log_sent k.pid_log skb else [],
)

unfoldable pub work_handler : Kernel → Kernel × List Sent
work_handler k = dequeued k k.skb_list

-- What the queue holds: UDP packets with both headers.
pub record IsLoggable (skb : SkBuff) : Type 0 where
  pub ip : IpHeader
  pub ports : Ports
  pub has_ip : skb.network_header ≡ some ip
  pub has_ports : skb.transport_header ≡ some ports
  pub is_udp : ip.protocol ≡ ipproto_udp

-- Only a UDP rule with a transport header queues the packet.
rule_outcome-logged :
    (ip : IpHeader) (transport : Option Ports) (r : FilterRule) (v : ℕ)
    → rule_outcome ip transport r ≡ verdict v true
    → (ports : Ports) × (transport ≡ some ports) × (ip.protocol ≡ ipproto_udp)
unfolding rule_outcome
rule_outcome-logged ip none r v h = absurd (ground arith)
rule_outcome-logged ip (some ports) r v h = (ports, refl, ground arith)

Outcome-cases : (o : Outcome) → (o ≡ pass) ⊎ ((v : ℕ) × (b : Bool) × (o ≡ verdict v b))
Outcome-cases pass = inl refl
Outcome-cases (verdict v b) = inr (v, b, refl)

walk_chain-logged :
    (ip : IpHeader) (transport : Option Ports) (rs : List FilterRule) (v : ℕ)
    → walk_chain ip transport rs ≡ verdict v true
    → (ports : Ports) × (transport ≡ some ports) × (ip.protocol ≡ ipproto_udp)
unfolding walk_chain
walk_chain-logged ip transport [] v h = absurd (cc)
walk_chain-logged ip transport (r ∷ rs) v h = elim (Outcome-cases (rule_outcome ip transport r)) [
  | inl e ↦ walk_chain-logged ip transport rs v (rw (e, walk_chain) at h)
  | inr (w, b, e) ↦
      let h' : verdict w b ≡ verdict v true = rw (e, walk_chain) at h in
      rule_outcome-logged ip transport r w (e ∙ cc)
]

conclude-queue :
    (k : Kernel) (incoming : Bool) (skb : SkBuff) (o : Outcome)
    → ((v : ℕ) → o ≡ verdict v true → IsLoggable skb)
    → All IsLoggable k.skb_list
    → All IsLoggable (conclude k incoming skb o).0.skb_list
unfolding add_to_skb_list
conclude-queue k incoming skb pass f q = q
conclude-queue k incoming skb (verdict v false) f q = q
conclude-queue k incoming skb (verdict v true) f q =
    All-append IsLoggable k.skb_list _ q (f v refl, tt)

hook_header-queue :
    (k : Kernel) (incoming : Bool) (skb : SkBuff) (header : Option IpHeader)
    → skb.network_header ≡ header
    → All IsLoggable k.skb_list
    → All IsLoggable (hook_header k incoming skb header).0.skb_list
unfolding hook_header
hook_header-queue k incoming skb none e q = q
hook_header-queue k incoming skb (some ip) e q =
    let P = λ (r : Kernel × ℕ). All IsLoggable r.0.skb_list in
    if_cases P (not skb.mac_header) (λ _. q)
      (λ _.
        if_cases P (k.filter_value == 0) (λ _. q)
          (λ _.
            if_cases P (is_filtered ip)
              (λ _.
                conclude-queue k incoming skb _
                  (λ v h.
                    let (ports, p, udp) = walk_chain-logged ip skb.transport_header _ v h in
                    record { ip = ip; ports = ports; has_ip = e; has_ports = p; is_udp = udp })
                  q)
              (λ _. q)))

-- Whatever packet passes the hook, a queue for the log that holds only UDP packets with an IP header
-- and ports goes on to do so; so work_handler dereferences no NULL pointer.
pub hook_func-queue :
    (k : Kernel) (incoming : Bool) (skb : SkBuff)
    → All IsLoggable k.skb_list
    → All IsLoggable (hook_func k incoming skb).0.skb_list
unfolding hook_func
hook_func-queue k incoming skb q = hook_header-queue k incoming skb skb.network_header refl q

-- A packet in the queue is reported to the subscriber, if there is one, and taken from the queue, even
-- if there is none.
pub work_handler-reports :
    (k : Kernel) (skb : SkBuff) (rest : List SkBuff) (ip : IpHeader) (ports : Ports)
    → k.skb_list ≡ skb ∷ rest
    → skb.network_header ≡ some ip
    → skb.transport_header ≡ some ports
    → ((work_handler k).0.skb_list ≡ rest)
      × ((work_handler k).1 ≡ (
          if ltb 0 k.init && not (k.pid_log == 0)
          then record {
            destpid = k.pid_log;
            msg_type = msg_log;
            flags = 0;
            payload = rule (log_rule ip ports);
          }
            ∷ []
          else []))
unfolding work_handler
work_handler-reports k skb rest ip ports q n t = (ground arith, ground arith)

-- The rule that the log reports for a packet, taken as a rule, matches that packet only if the packet's
-- source address reads the same in both byte orders, or is zero.
pub log_rule-unmatched :
    (ip : IpHeader) (ports : Ports)
    → ip.saddr < 2 ^ 32
    → ip.saddr ≢ 0
    → match_udp (log_rule ip ports) ip ports ≡ true
    → ntohl ip.saddr ≡ ip.saddr
unfolding log_rule
log_rule-unmatched ip ports h nz m = match_udp-source (log_rule ip ports) ip ports h nz m
