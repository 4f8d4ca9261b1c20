-- ===== src/Netlink/Rules.antt =====
-- What a request does to the rules, seen as a plain list.
use bf.Base.{
  ℕ, ◌≡◌, refl, sym, ap, ◌∙◌, true, false, not, List, [], ◌∷◌, ◌++◌, map, filter, find, head?,
  length, ◌≤◌, none, some, Bool-cases, Option-cases, inl, inr, if◌then◌else◌, ◌==◌, ==_refl, ==_ne,
  arith,
}
use bf.Rule.{FilterRule, FilterRuleBase, policy_rule}
use bf.Store.{Heap, Store, poke, find_rule, is_node_of, owners, IsStore, rules}
use bf.Store.Invariant.{find_rule-none}
use bf.Store.Owners.{find_rule-owners}
use bf.Store.Refines.{has_base, rules-add, rules-delete, rules-delete_rules, find_rule-find}
use bf.Kernel.{Kernel}
use bf.Message.{
  MessageType, msg_add_rule, msg_delete_rule, msg_delete_all_rules, msg_update_rule,
  msg_chain_policy, Request,
}
use bf.Netlink.{updated, rcv_add_rule, rcv_update_rule, rcv_delete_rule, dispatch, nl_rcv_msg}
use bf.Netlink.Invariant.{set_chain_policy-store}

-- The abstract effect of a request on the list of rules.
abbrev pub add_spec : FilterRule → List FilterRule → List FilterRule
add_spec fr rs =
    if policy_rule fr.base
    then rs
    else (elim (find (has_base fr.base) rs) [ some r ↦ rs | none ↦ rs ++ fr ∷ [] ])

abbrev pub update_spec : FilterRule → List FilterRule → List FilterRule
update_spec fr rs = map (λ r. if has_base fr.base r then updated fr r else r) rs

abbrev pub delete_spec : FilterRule → List FilterRule → List FilterRule
delete_spec fr rs = filter (λ r. not (has_base fr.base r)) rs

abbrev pub request_spec : MessageType → FilterRule → List FilterRule → List FilterRule
request_spec msg_add_rule fr rs = add_spec fr rs
request_spec msg_update_rule fr rs = update_spec fr rs
request_spec msg_delete_rule fr rs = delete_spec fr rs
request_spec msg_delete_all_rules fr rs = []
request_spec _ fr rs = rs

rcv_add_rule-rules :
    (k : Kernel) (fr : FilterRule)
    → IsStore k.store
    → rules (rcv_add_rule k fr).kernel.store ≡ add_spec fr (rules k.store)
unfolding rcv_add_rule
rcv_add_rule-rules k fr v = elim (Bool-cases (policy_rule fr.base)) [
  | inl p ↦ rw p
  | inr p ↦ elim (Option-cases (find_rule k.store fr.base)) [
    | inl e ↦ rw (p, e, find_rule-find k.store fr.base v, e) (rules-add k.store fr v)
    | inr (a, e) ↦ rw (p, e, find_rule-find k.store fr.base v, e)
  ]
]

filter_none :
    (b : FilterRuleBase) (heap : Heap) (full : List ℕ)
    → owners heap full b ≡ []
    → filter (λ r. not (has_base b r)) (map heap full) ≡ map heap full
filter_none b heap [] h = refl
filter_none b heap (x ∷ full) h = ground (arith, filter_none b heap full)

update_none :
    (fr : FilterRule) (heap : Heap) (full : List ℕ)
    → owners heap full fr.base ≡ []
    → update_spec fr (map heap full) ≡ map heap full
update_none fr heap [] h = refl
update_none fr heap (x ∷ full) h = ground (arith, update_none fr heap full)

rcv_delete_rule-rules :
    (k : Kernel) (fr : FilterRule)
    → IsStore k.store
    → rules (rcv_delete_rule k fr).kernel.store ≡ delete_spec fr (rules k.store)
unfolding rcv_delete_rule
rcv_delete_rule-rules k fr v = elim (Option-cases (find_rule k.store fr.base)) [
  | inl e ↦
      rw (e, rcv_delete_rule)
        (sym
          (filter_none fr.base k.store.heap k.store.full_list (find_rule-none k.store fr.base v e)))
  | inr (a, e) ↦ rw (e, rcv_delete_rule) (rules-delete k.store fr)
]

-- A node that does not own the base is not the node that does.
not_owner :
    (heap : Heap) (b : FilterRuleBase) (a x : ℕ)
    → is_node_of heap b a ≡ true
    → is_node_of heap b x ≡ false
    → (x == a) ≡ false
not_owner heap b a x h k = ==_ne x a (λ e. cc (ap (is_node_of heap b) e))

map-poke_none :
    (heap : Heap) (b : FilterRuleBase) (a : ℕ) (r : FilterRule) (full : List ℕ)
    → is_node_of heap b a ≡ true
    → owners heap full b ≡ []
    → map (poke heap a r) full ≡ map heap full
unfolding poke
map-poke_none heap b a r [] h k = refl
map-poke_none heap b a r (x ∷ full) h k = elim (Bool-cases (is_node_of heap b x)) [
  | inl hit ↦ let bad : x ∷ owners heap full b ≡ [] = rw hit at k in cc bad
  | inr miss ↦
      let k' : owners heap full b ≡ [] = rw miss at k in
      rw (not_owner heap b a x h miss, map-poke_none heap b a r full h k')
]

map-poke_owner :
    (heap : Heap) (fr : FilterRule) (a : ℕ) (full : List ℕ)
    → is_node_of heap fr.base a ≡ true
    → owners heap full fr.base ≡ a ∷ []
    → map (poke heap a (updated fr (heap a))) full ≡ update_spec fr (map heap full)
unfolding poke
map-poke_owner heap fr a [] h k = refl
map-poke_owner heap fr a (x ∷ full) h k = elim (Bool-cases (is_node_of heap fr.base x)) [
  | inl hit ↦
      let k' : x ∷ owners heap full fr.base ≡ a ∷ [] = rw hit at k in
      let here : x ≡ a = cc in
      let rest : owners heap full fr.base ≡ [] = cc in
      rw (
        hit,
        here,
        ==_refl a,
        map-poke_none heap fr.base a (updated fr (heap a)) full h rest,
        update_none fr heap full rest,
      )
  | inr miss ↦
      let k' : owners heap full fr.base ≡ a ∷ [] = rw miss at k in
      rw (miss, not_owner heap fr.base a x h miss, map-poke_owner heap fr a full h k')
]

-- The found node is the only owner of its base.
pub find_rule-single :
    (s : Store) (b : FilterRuleBase) (a : ℕ)
    → IsStore s
    → find_rule s b ≡ some a
    → owners s.heap s.full_list b ≡ a ∷ []
find_rule-single s b a v e =
    single (owners s.heap s.full_list b) (v.unique b) (sym (find_rule-owners s b v.index) ∙ e)
  where
    single : (xs : List ℕ) → length xs ≤ 1 → head? xs ≡ some a → xs ≡ a ∷ []
    single [] h k = cc
    single (x ∷ []) h k = cc
    single (x ∷ y ∷ xs) h k = absurd (omega arith)

owner_is_node :
    (heap : Heap) (b : FilterRuleBase) (a : ℕ) (full : List ℕ)
    → owners heap full b ≡ a ∷ []
    → is_node_of heap b a ≡ true
owner_is_node heap b a [] h = cc
owner_is_node heap b a (x ∷ full) h = elim (Bool-cases (is_node_of heap b x)) [
  | inl hit ↦
      let h' : x ∷ owners heap full b ≡ a ∷ [] = rw hit at h in
      let here : x ≡ a = cc in rw (← here) hit
  | inr miss ↦ owner_is_node heap b a full (rw miss at h)
]

rcv_update_rule-rules :
    (k : Kernel) (fr : FilterRule)
    → IsStore k.store
    → rules (rcv_update_rule k fr).kernel.store ≡ update_spec fr (rules k.store)
unfolding rcv_update_rule
rcv_update_rule-rules k fr v = elim (Option-cases (find_rule k.store fr.base)) [
  | inl e ↦
      rw (e, rcv_update_rule)
        (sym (update_none fr k.store.heap k.store.full_list (find_rule-none k.store fr.base v e)))
  | inr (a, e) ↦
      let one = find_rule-single k.store fr.base a v e in
      rw (e, rcv_update_rule)
        (map-poke_owner k.store.heap fr a k.store.full_list
          (owner_is_node k.store.heap fr.base a k.store.full_list one) one)
]

dispatch-rules :
    (k : Kernel) (req : Request) (t : MessageType)
    → IsStore k.store
    → rules (dispatch k req t).kernel.store ≡ request_spec t req.fr (rules k.store)
unfolding dispatch
dispatch-rules k req msg_add_rule v = rcv_add_rule-rules k req.fr v
dispatch-rules k req msg_update_rule v = rcv_update_rule-rules k req.fr v
dispatch-rules k req msg_delete_rule v = rcv_delete_rule-rules k req.fr v
dispatch-rules k req msg_delete_all_rules v = rules-delete_rules k.store
dispatch-rules k req msg_chain_policy v = ap rules (set_chain_policy-store k req.fr)
dispatch-rules k req _ v = refl

-- The handler refines the plain list of rules: a request of any type, on rule lists that satisfy the
-- invariant, changes the rules as `request_spec` says. An addition appends the rule unless its base is
-- there or it is a policy rule, an update rewrites the switch and the policy of the rule with its base,
-- a deletion takes that rule out, MSG_DELETE_ALL_RULES empties the list, and every other request leaves
-- the rules as they are.
pub nl_rcv_msg-rules :
    (k : Kernel) (req : Request)
    → IsStore k.store
    → rules (nl_rcv_msg k req).kernel.store ≡ request_spec req.nlmsg_type req.fr (rules k.store)
unfolding nl_rcv_msg
nl_rcv_msg-rules k req v = dispatch-rules _ req req.nlmsg_type v
