-- ===== src/Listing/Numbering.antt =====
-- The listing writes numbers into the rules, and nothing else.
use bf.Base.{
  ℕ, ◌+◌, ◌≡◌, refl, ap, ◌∙◌, Bool, true, List, [], ◌∷◌, length, Bool-cases, inl, inr, ◌==◌, ==_iff,
  if_cases,
}
use bf.Message.{Sent}
use bf.Rule.{chain_input, chain_output, FilterRule}
use bf.Store.{Heap, poke, IsStore}
use bf.Store.Rewrite.{rewrite-IsStore}
use bf.Kernel.{Kernel}
use bf.Listing.{
  Listing, send, when_going, policy_message, data_message, selected, list_node, list_chain,
  list_rules,
}

-- Heaps that differ in the numbers of the rules only.
abbrev pub SameButId : Heap → Heap → Type 0
SameButId h h' = (a : ℕ) → (i : ℕ) × (h' a ≡ record (h a) { id = i })

pub same_heap : (h h' : Heap) → h' ≡ h → SameButId h h'
same_heap h h' e a = ((h a).id, ap (λ (f : Heap). f a) e)

pub poke-SameButId :
    (h h' : Heap) (a i : ℕ) → SameButId h h' → SameButId h (poke h' a (record (h' a) { id = i }))
unfolding poke
poke-SameButId h h' a i same x = elim (Bool-cases (x == a)) [
  | inl hit ↦
      let e = (==_iff x a).0 hit in
      (i, rw (hit, ← e) (ap (λ (r : FilterRule). record r { id = i }) (same x).1))
  | inr miss ↦ ((same x).0, rw miss (same x).1)
]

pub send-heap : (send_ok : ℕ → Bool) (m : Sent) (l : Listing) → (send send_ok m l).heap ≡ l.heap
send-heap send_ok m l =
    if_cases (λ (l' : Listing). l'.heap ≡ l.heap) (send_ok (length l.sent)) (λ _. refl) (λ _. refl)

pub send_going-heap :
    (send_ok : ℕ → Bool) (m : Sent) (l : Listing) → (when_going (send send_ok m) l).heap ≡ l.heap
send_going-heap send_ok m l =
    if_cases (λ (l' : Listing). l'.heap ≡ l.heap) l.go_on (λ _. send-heap send_ok m l) (λ _. refl)

list_node-heap :
    (send_ok : ℕ → Bool) (destpid a : ℕ) (l : Listing)
    → (list_node send_ok destpid a l).heap ≡ poke l.heap a (record (l.heap a) { id = l.count + 1 })
unfolding list_node
list_node-heap send_ok destpid a l =
    let i = l.count + 1 in
    let heap = poke l.heap a (record (l.heap a) { id = i }) in
    let l1 = record l { count = i; heap = heap } in
    let l2 = send send_ok (data_message destpid i (l.heap a)) l1 in
    let e = send-heap send_ok (data_message destpid i (l.heap a)) l1 in
    if_cases (λ (l' : Listing). l'.heap ≡ heap) l2.go_on (λ _. e) (λ _. e)

pub list_chain-SameButId :
    (h : Heap) (send_ok : ℕ → Bool) (destpid : ℕ) (pattern : FilterRule) (nodes : List ℕ)
    (l : Listing)
    → SameButId h l.heap
    → SameButId h (list_chain send_ok destpid pattern nodes l).heap
unfolding list_chain
list_chain-SameButId h send_ok destpid pattern [] l same = same
list_chain-SameButId h send_ok destpid pattern (a ∷ rest) l same =
    let P = λ (l' : Listing). SameButId h l'.heap in
    list_chain-SameButId h send_ok destpid pattern rest _ (
      if_cases P l.go_on
        (λ _.
          if_cases P (selected pattern (l.heap a))
            (λ _.
              rw (list_node-heap send_ok destpid a l)
                (poke-SameButId h l.heap a (l.count + 1) same))
            (λ _. same))
        (λ _. same))

-- Whichever sends fail, a listing leaves every rule as it was but for its number.
pub list_rules-SameButId :
    (send_ok : ℕ → Bool) (k : Kernel) (destpid : ℕ) (pattern : FilterRule)
    → SameButId k.store.heap (list_rules send_ok k destpid pattern).heap
unfolding list_rules
list_rules-SameButId send_ok k destpid pattern =
    let h = k.store.heap in
    let input = policy_message destpid chain_input k.policy_input in
    let output = policy_message destpid chain_output k.policy_output in
    let l0 : Listing = record { heap = h; count = 0; sent = []; waits = 0; go_on = true } in
    let l1 = send send_ok input l0 in
    let e = send_going-heap send_ok output l1 ∙ send-heap send_ok input l0 in
    rw (send_going-heap send_ok) (
      list_chain-SameButId h send_ok destpid pattern k.store.chain_out _
        (list_chain-SameButId h send_ok destpid pattern k.store.chain_in _ (same_heap h _ e)))

-- So the rule lists keep their invariant when the numbers have been written.
pub list_rules-IsStore :
    (send_ok : ℕ → Bool) (k : Kernel) (destpid : ℕ) (pattern : FilterRule)
    → IsStore k.store
    → IsStore (record k.store { heap = (list_rules send_ok k destpid pattern).heap })
list_rules-IsStore send_ok k destpid pattern v =
    rewrite-IsStore k.store _
      (λ a. ap (λ (r : FilterRule). r.base) (list_rules-SameButId send_ok k destpid pattern a).1) v
