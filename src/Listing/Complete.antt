-- ===== src/Listing/Complete.antt =====
-- A listing in which every send succeeds delivers exactly the rules that the pattern selects.
use bf.Base.{
  ℕ, ◌+◌, ◌%◌, ◌/◌, ◌≡◌, refl, sym, ap, ◌∙◌, Bool, true, false, List, [], ◌∷◌, ◌++◌, map,
  map-append, append_assoc, append-nil, length, filter, Bool-cases, inl, inr, if◌then◌else◌, ◌==◌,
  arith,
}
use bf.Rule.{FilterRule, fr_pattern, chain_input, chain_output}
use bf.Store.{Heap, Store, poke, IsStore, rules}
use bf.Store.Refines.{chain_in-rules, chain_out-rules}
use bf.Kernel.{Kernel}
use bf.Message.{Sent}
use mathlib.Core.Path.{ap₂}
use bf.Listing.{
  send, when_going, done_message, Listing, ack_every_n_msg, policy_message, selected, data_message,
  list_node, list_chain, list_rules,
}
use bf.Listing.Numbering.{SameButId, same_heap, poke-SameButId}

-- Every nl_send_msg succeeds.
abbrev pub delivered : ℕ → Bool
delivered n = true

-- The messages for a list of rules that are numbered on from `i`.
abbrev pub data_messages : ℕ → ℕ → List FilterRule → List Sent
data_messages destpid i [] = []
data_messages destpid i (r ∷ rs) = data_message destpid (i + 1) r ∷ data_messages destpid (i + 1) rs

-- The acknowledgements that are awaited when `n` rules are sent after `i`.
abbrev pub acks : ℕ → List FilterRule → ℕ
acks i [] = 0
acks i (r ∷ rs) = (if (i + 1) % ack_every_n_msg == 0 then 1 else 0) + acks (i + 1) rs

if_on {ℓ} : {A : Type ℓ} (b : Bool) {x : A} (y : A) → b ≡ true → (if b then x else y) ≡ x
if_on b y e = rw e

if_off {ℓ} : {A : Type ℓ} (b : Bool) {y : A} (x : A) → b ≡ false → (if b then x else y) ≡ y
if_off b x e = rw e

-- The number of a rule decides neither its selection nor its message.
selected-id :
    (pattern r : FilterRule) (i : ℕ) → selected pattern (record r { id = i }) ≡ selected pattern r
unfolding selected fr_pattern
selected-id pattern r i = refl

-- What the loop over a chain has done when it started from `l`, with `h` the heap before the call.
pub record Listed (destpid : ℕ) (rs : List FilterRule) (l l' : Listing) : Type 0 where
  pub going : l'.go_on ≡ true
  pub counted : l'.count ≡ l.count + length rs
  pub messages : l'.sent ≡ l.sent ++ data_messages destpid l.count rs
  pub awaited : l'.waits ≡ l.waits + acks l.count rs

-- The listing after a rule has been sent.
abbrev sent_node : ℕ → ℕ → Listing → Listing
sent_node destpid a l =
    let i = l.count + 1 in
    record {
      heap = poke l.heap a (record (l.heap a) { id = i });
      count = i;
      sent = l.sent ++ data_message destpid i (l.heap a) ∷ [];
      waits = l.waits + (if i % ack_every_n_msg == 0 then 1 else 0);
      go_on = true;
    }

list_node-delivered :
    (destpid a : ℕ) (l : Listing)
    → l.go_on ≡ true
    → list_node delivered destpid a l ≡ sent_node destpid a l
unfolding list_node
list_node-delivered destpid a l on = ground arith

selected-heap :
    (pattern : FilterRule) (h h' : Heap) (a : ℕ)
    → SameButId h h'
    → selected pattern (h' a) ≡ selected pattern (h a)
selected-heap pattern h h' a same =
    ap (selected pattern) (same a).1 ∙ selected-id pattern (h a) (same a).0

-- One more rule in front of what was listed after it.
Listed-cons :
    (h : Heap) (destpid a : ℕ) (rs : List FilterRule) (l l' : Listing)
    → SameButId h l.heap
    → Listed destpid rs (sent_node destpid a l) l'
    → Listed destpid (h a ∷ rs) l l'
Listed-cons h destpid a rs l l' same v = record {
  going = v.going;
  counted = omega (arith, v.counted);
  messages =
      v.messages
      ∙ (append_assoc l.sent _ _
          ∙ ap (λ (m : Sent). l.sent ++ m ∷ data_messages destpid (l.count + 1) rs)
              (ap (data_message destpid (l.count + 1)) (same a).1));
  awaited = omega (arith, v.awaited);
}

list_chain-Listed :
    (h : Heap) (destpid : ℕ) (pattern : FilterRule) (nodes : List ℕ) (l : Listing)
    → SameButId h l.heap
    → l.go_on ≡ true
    → Listed destpid
        (filter (selected pattern) (map h nodes))
        l
        (list_chain delivered destpid pattern nodes l)
unfolding list_chain
list_chain-Listed h destpid pattern [] l same on = record {
  going = on;
  counted = omega arith;
  messages = sym (append-nil l.sent);
  awaited = omega arith;
}
list_chain-Listed h destpid pattern (a ∷ rest) l same on =
    let here = selected-heap pattern h l.heap a same in
    let rs = filter (selected pattern) (map h rest) in
    let node = list_node-delivered destpid a l on in
    elim (Bool-cases (selected pattern (h a))) [
      | inl take ↦
          let go : (if l.go_on
                then if selected pattern (l.heap a) then list_node delivered destpid a l else l
                else l)
              ≡ sent_node destpid a l =
            if_on l.go_on _ on ∙ (if_on _ _ (here ∙ take) ∙ node) in
          rw (take, go)
            (Listed-cons h destpid a rs l _ same (
              list_chain-Listed h destpid pattern rest (sent_node destpid a l)
                (poke-SameButId h l.heap a (l.count + 1) same) refl))
      | inr skip ↦
          let go : (if l.go_on
                then if selected pattern (l.heap a) then list_node delivered destpid a l else l
                else l)
              ≡ l =
            if_on l.go_on _ on ∙ if_off _ _ (here ∙ skip) in
          rw (skip, go) (list_chain-Listed h destpid pattern rest l same on)
    ]

-- The two loops are one loop over both chains.
list_chain-append :
    (destpid : ℕ) (pattern : FilterRule) (xs ys : List ℕ) (l : Listing)
    → list_chain delivered destpid pattern (xs ++ ys) l
      ≡ list_chain delivered destpid pattern ys (list_chain delivered destpid pattern xs l)
unfolding list_chain
list_chain-append destpid pattern [] ys l = refl
list_chain-append destpid pattern (x ∷ xs) ys l = list_chain-append destpid pattern xs ys _

pub acks-div :
    (i : ℕ) (rs : List FilterRule)
    → acks i rs + i / ack_every_n_msg ≡ (i + length rs) / ack_every_n_msg
acks-div i [] = omega arith
acks-div i (r ∷ rs) = ground (arith, acks-div (i + 1) rs)

-- The last message, after a listing that has not failed.
finished :
    (destpid : ℕ) (rs : List FilterRule) (l l' : Listing)
    → l.count ≡ 0
    → l.waits ≡ 0
    → Listed destpid rs l l'
    → let last = when_going (λ x. send delivered (done_message destpid x.count) x) l' in
      (last.sent ≡ l.sent ++ (data_messages destpid 0 rs ++ done_message destpid (length rs) ∷ []))
      × (last.waits ≡ length rs / ack_every_n_msg)
finished destpid rs l l' c w v =
    let n : l'.count ≡ length rs = omega (arith, v.counted) in
    let waits : l'.waits ≡ length rs / ack_every_n_msg =
      omega (arith, v.awaited, acks-div l.count rs, ap (λ (i : ℕ). acks i rs) c) in
    let m : l'.sent ≡ l.sent ++ data_messages destpid 0 rs =
      v.messages ∙ ap (λ (i : ℕ). l.sent ++ data_messages destpid i rs) c in
    let last = when_going (λ x. send delivered (done_message destpid x.count) x) l' in
    (
      ap (λ (x : Listing). x.sent) (if_on l'.go_on l' v.going)
          ∙ (ap₂ (λ (xs : List Sent) (i : ℕ). xs ++ done_message destpid i ∷ []) m n
              ∙ append_assoc l.sent (data_messages destpid 0 rs) _),
      ap (λ (x : Listing). x.waits) (if_on l'.go_on l' v.going) ∙ waits,
    )

-- A complete listing, by the rules of the two chains in the order of their addition.
abbrev pub listed_rules : FilterRule → Store → List FilterRule
listed_rules pattern s = filter (selected pattern) (
    filter (λ r. r.base.chain == chain_input) (rules s)
    ++ filter (λ r. r.base.chain == chain_output) (rules s))

-- When every send succeeds, a listing sends the policies of the two chains, then the selected rules of
-- the input chain and of the output chain in the order of their addition, numbered from 1, and then
-- their number; and it waits once for each fiftieth of them.
pub list_rules_complete :
    (k : Kernel) (destpid : ℕ) (pattern : FilterRule)
    → IsStore k.store
    → let rs = listed_rules pattern k.store in
      let result = list_rules delivered k destpid pattern in
      (result.sent
        ≡ policy_message destpid chain_input k.policy_input
          ∷ policy_message destpid chain_output k.policy_output
          ∷ (data_messages destpid 0 rs ++ done_message destpid (length rs) ∷ []))
      × (result.waits ≡ length rs / ack_every_n_msg)
unfolding list_rules
list_rules_complete k destpid pattern v =
    let h = k.store.heap in
    let input = policy_message destpid chain_input k.policy_input in
    let output = policy_message destpid chain_output k.policy_output in
    let l2 : Listing = record {
      heap = h;
      count = 0;
      sent = input ∷ output ∷ [];
      waits = 0;
      go_on = true;
    } in
    let listed =
      list_chain-Listed h destpid pattern (k.store.chain_in ++ k.store.chain_out) l2
        (same_heap h h refl) refl in
    let these : filter (selected pattern) (map h (k.store.chain_in ++ k.store.chain_out))
        ≡ listed_rules pattern k.store =
      ap (filter (selected pattern)) (
        map-append h k.store.chain_in k.store.chain_out
        ∙ ap₂ ◌++◌ (chain_in-rules k.store v) (chain_out-rules k.store v)) in
    let w =
      rw (these, list_chain-append destpid pattern k.store.chain_in k.store.chain_out l2) at
        listed in
    finished destpid (listed_rules pattern k.store) l2 _ refl refl w
