-- ===== src/Service/Fetching.antt =====
-- getRulesSync of the service's client: what it yields, and what its listing leaves in the kernel module.
use mathlib.Core.Path.{ap₂}
use mathlib.Core.List.{◌++◌}
use bf.Base.{
  ℕ, ◌+◌, ◌<◌, ◌^◌, ◌≡◌, refl, ap, Bool, List, [], ◌∷◌, map, All, All-append, All-filter, none,
  some, Option, ◌==◌, arith,
}
use bf.Rule.{FilterRule, chain_input, chain_output, chain_all}
use bf.Kernel.{Kernel, convert_policy}
use bf.Store.{IsStore, rules, Heap}
use bf.Client.{returned, Control}
use bf.Link.{Link, get_rules}
use bf.Message.{msg_get_rules}
use bf.Netlink.{nl_rcv_msg, dispatch}
use bf.Client.Commands.{client_request}
use bf.System.{run_thread}
use bf.Listing.Complete.{delivered}
use bf.Listing.Numbering.{list_rules-IsStore, list_rules-SameButId, SameButId}
use bf.Client.Rules.{fetched, get_rules_sync-list_rules}
use bf.Client.{Result}
use bf.Service.Core.{core}
use bf.Stream.{IsRule}
use bf.Client.Rules.{numbered, rule_of}
use bf.Listing.{policy_message}
use bf.Listing.Complete.{listed_rules}
use bf.Service.Kept.{listed-by_direction}
use bf.Service.{chain_pattern}

abbrev pub after_listing : ℕ → Kernel → FilterRule → Kernel
after_listing pid k pattern =
    (run_thread delivered (nl_rcv_msg k (client_request pid msg_get_rules pattern)).kernel).0

-- The kernel module when the listing thread starts.
abbrev listing : ℕ → Kernel → FilterRule → Kernel
listing pid k pattern = (nl_rcv_msg k (client_request pid msg_get_rules pattern)).kernel

pub get_rules-fetched :
    (sent pid : ℕ) (k : Kernel) (c : Control) (pattern : FilterRule)
    → IsStore k.store
    → (d : Control) × (get_rules sent pid delivered (record { kernel = k; control = c }) pattern
        ≡ some (
          record { kernel = after_listing pid k pattern; control = d },
          returned sent,
          fetched k pid pattern,
        ))
unfolding get_rules run_thread nl_rcv_msg dispatch
get_rules-fetched sent pid k c pattern v = (
  _,
  ap
      (λ (o : Option (Control × Result)).
        let r : Option (Link × Result × List FilterRule) = elim o [
          | none ↦ none
          | some (d, ret) ↦
              some (record { kernel = after_listing pid k pattern; control = d }, ret, d.ruleslst)
        ] in
        r)
      (get_rules_sync-list_rules (listing pid k pattern) c sent pid pattern [] v),
)

pub after_listing-IsStore :
    (pid : ℕ) (k : Kernel) (pattern : FilterRule)
    → IsStore k.store
    → IsStore (after_listing pid k pattern).store
unfolding run_thread nl_rcv_msg dispatch
after_listing-IsStore pid k pattern v =
    list_rules-IsStore delivered (listing pid k pattern) pid pattern v

core-heap :
    (h h' : Heap) (nodes : List ℕ)
    → SameButId h h'
    → map core (map h' nodes) ≡ map core (map h nodes)
core-heap h h' [] same = refl
core-heap h h' (a ∷ nodes) same =
    ap₂ (λ (r : FilterRule) rs. core r ∷ rs) (same a).1 (core-heap h h' nodes same)

pub core-after_listing :
    (pid : ℕ) (k : Kernel) (pattern : FilterRule)
    → map core (rules (after_listing pid k pattern).store) ≡ map core (rules k.store)
unfolding run_thread nl_rcv_msg dispatch
core-after_listing pid k pattern =
    core-heap k.store.heap _ k.store.full_list
      (list_rules-SameButId delivered (listing pid k pattern) pid pattern)

numbered-IsRule : (i : ℕ) (rs : List FilterRule) → All IsRule rs → All IsRule (numbered i rs)
numbered-IsRule i [] h = tt
numbered-IsRule i (r ∷ rs) h = (
  record { words = h.0.words; off_u8 = h.0.off_u8; policy_u8 = h.0.policy_u8 },
  numbered-IsRule (i + 1) rs h.1,
)

policy-IsRule :
    (pid chain policy : ℕ) → chain < 2 ^ 8 → All IsRule (rule_of (policy_message pid chain policy))
unfolding policy_message convert_policy
policy-IsRule pid chain policy h = (
  record {
    words = record {
      chain_u8 = h;
      proto_u16 = omega arith;
      src_port_u16 = omega arith;
      dst_port_u16 = omega arith;
      s_addr_u32 = omega arith;
      d_addr_u32 = omega arith;
    };
    off_u8 = omega arith;
    policy_u8 = ground arith;
  },
  tt,
)

pub fetched-IsRule :
    (k : Kernel) (pid : ℕ)
    → All IsRule (rules k.store)
    → All IsRule (fetched k pid (chain_pattern chain_all))
unfolding policy_message
fetched-IsRule k pid w =
    let rs = rules k.store in
    let at : ℕ → FilterRule → Bool = λ c r. r.base.chain == c in
    let listed : All IsRule (listed_rules (chain_pattern chain_all) k.store) =
      rw (listed-by_direction k) (
        All-append IsRule _ _ (All-filter (at chain_input) IsRule rs w)
          (All-filter (at chain_output) IsRule rs w)) in
    let input = rule_of (policy_message pid chain_input k.policy_input) in
    let output = rule_of (policy_message pid chain_output k.policy_output) in
    let listed_on = numbered 0 (listed_rules (chain_pattern chain_all) k.store) in
    All-append IsRule input (output ++ listed_on)
      (policy-IsRule pid chain_input k.policy_input (omega arith))
      (All-append IsRule output listed_on
        (policy-IsRule pid chain_output k.policy_output (omega arith)) (numbered-IsRule 0 _ listed))
