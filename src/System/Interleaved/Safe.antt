-- ===== src/System/Interleaved/Safe.antt =====
-- An interleaved listing while no rule is deleted.
use mathlib.Core.Path.{subst}
use bf.Base.{
  ℕ, ◌+◌, ◌≡◌, refl, sym, ap, Bool, true, false, List, [], ◌∷◌, ◌++◌, Option, none, some, head?,
  length, All, All-filter, if_cases, ◌==◌, ==_iff, Bool-cases, inl, inr, arith,
}
use bf.Rule.{FilterRule}
use bf.Listing.Numbering.{poke-SameButId, same_heap}
use bf.Store.{Heap, Store, IsStore, poke, AbsentFrom}
use bf.Store.Rewrite.{rewrite-IsStore}
use bf.Kernel.{Kernel}
use bf.Message.{Sent}
use bf.Listing.{selected}
use bf.System.{step, IsKernel}
use bf.System.Reachable.{step-IsKernel}
use bf.System.Interleaved.Growing.{Grows, step-Grows}
use bf.System.Interleaved.{
  numbered_node, Position, send_policy, start_chain, at_node, behind_node, send_done, finished,
  faulted, World, in_list, chain_of, next_of, enter, send_then, number_node, visit, read_next,
  turn_at, Turn, thread_turn, event_turn, take_turn, interleave, begin_listing, keeps_rules,
}

-- The node that the thread stands at is on its chain, and no freed node was read.
unfoldable pub IsOnChain : Position → Store → Type 0
IsOnChain (at_node b a) s = in_list (chain_of b s) a ≡ true
IsOnChain (behind_node b a) s = in_list (chain_of b s) a ≡ true
IsOnChain faulted s = ¬ Unit
IsOnChain _ s = Unit

pub record IsWorld (w : World) : Type 0 where
  pub module_ok : IsKernel w.kernel
  pub cursor : IsOnChain w.lister.position w.kernel.store

in_list-append : (xs ys : List ℕ) (a : ℕ) → in_list xs a ≡ true → in_list (xs ++ ys) a ≡ true
in_list-append [] ys a h = ground arith
in_list-append (x ∷ xs) ys a h = ground (arith, in_list-append xs ys a)

All-in_list {ℓ} : (P : ℕ → Type ℓ) (xs : List ℕ) (a : ℕ) → All P xs → in_list xs a ≡ true → P a
All-in_list P [] a h m = absurd (ground arith)
All-in_list P (x ∷ xs) a h m = elim (Bool-cases (a == x)) [
  | inl e ↦ subst P (sym ((==_iff a x).0 e)) h.0
  | inr e ↦ All-in_list P xs a h.1 (ground arith)
]

-- A node of a chain is not freed.
pub chain-alive :
    (s : Store) (b : Bool) (a : ℕ)
    → IsStore s
    → in_list (chain_of b s) a ≡ true
    → in_list s.freed a ≡ false
chain-alive s true a v m =
    (All-in_list (λ x. AbsentFrom s.retired x × AbsentFrom s.freed x) s.chain_in a
      (rw v.input (All-filter _ _ s.full_list v.alive)) m).1
chain-alive s false a v m =
    (All-in_list (λ x. AbsentFrom s.retired x × AbsentFrom s.freed x) s.chain_out a
      (rw v.output (All-filter _ _ s.full_list v.alive)) m).1

later : (x : ℕ) (xs : List ℕ) (c : ℕ) → in_list xs c ≡ true → in_list (x ∷ xs) c ≡ true
later x xs c h = ground arith

head?-in_list : (chain : List ℕ) (c : ℕ) → head? chain ≡ some c → in_list chain c ≡ true
head?-in_list [] c e = absurd cc
head?-in_list (x ∷ xs) c e = let k : x ≡ c = cc in ground arith

-- The next node of a chain is on it.
next_of-in_list : (chain : List ℕ) (a c : ℕ) → next_of chain a ≡ some c → in_list chain c ≡ true
unfolding next_of
next_of-in_list [] a c e = absurd cc
next_of-in_list (x ∷ xs) a c e = elim (Bool-cases (x == a)) [
  | inl here ↦ later x xs c (head?-in_list xs c (rw here at e))
  | inr there ↦ later x xs c (next_of-in_list xs a c (rw there at e))
]

enter-IsOnChain :
    (b : Bool) (s : Store) (o : Option ℕ)
    → ((c : ℕ) → o ≡ some c → in_list (chain_of b s) c ≡ true)
    → IsOnChain (enter b o) s
unfolding IsOnChain enter
enter-IsOnChain b s (some a) h = h a refl
enter-IsOnChain true s none h = tt
enter-IsOnChain false s none h = tt

-- An event that deletes no rule leaves the thread's node on its chain.
Grows-in_list :
    (b : Bool) (s s' : Store) (a : ℕ)
    → Grows b s s'
    → in_list (chain_of b s) a ≡ true
    → in_list (chain_of b s') a ≡ true
Grows-in_list b s s' a (ys, e) h = rw e (in_list-append (chain_of b s) ys a h)

Grows-IsOnChain :
    (p : Position) (s s' : Store) → ((b : Bool) → Grows b s s') → IsOnChain p s → IsOnChain p s'
unfolding IsOnChain
Grows-IsOnChain (at_node b a) s s' g h = Grows-in_list b s s' a (g b) h
Grows-IsOnChain (behind_node b a) s s' g h = Grows-in_list b s s' a (g b) h
Grows-IsOnChain faulted s s' g h = h
Grows-IsOnChain _ s s' g h = tt

-- The turns of the thread.
send_then-IsWorld :
    (send_ok : ℕ → Bool) (m : Sent) (p : Position) (w : World)
    → IsKernel w.kernel
    → IsOnChain p w.kernel.store
    → IsWorld (send_then send_ok m p w)
unfolding send_then IsOnChain
send_then-IsWorld send_ok m p w v h =
    if_cases IsWorld (send_ok (length w.lister.sent)) (λ e. record { module_ok = v; cursor = h })
      (λ e. record { module_ok = v; cursor = tt })

-- The number of a rule is written into it.
poke-IsKernel :
    (k : Kernel) (a i : ℕ)
    → IsKernel k
    → let s = k.store in
      IsKernel
        (record k { store = record s { heap = poke s.heap a (record (s.heap a) { id = i }) } })
poke-IsKernel k a i v =
    let h = k.store.heap in
    record {
      lists =
          rewrite-IsStore k.store _
            (λ x. ap (λ (r : FilterRule). r.base) (poke-SameButId h h a i (same_heap h h refl) x).1)
            v.lists;
      input_verdict = v.input_verdict;
      output_verdict = v.output_verdict;
      queue = v.queue;
    }

chain_of-heap :
    (b : Bool) (s : Store) (heap : Heap) → chain_of b (record s { heap = heap }) ≡ chain_of b s
chain_of-heap true s heap = refl
chain_of-heap false s heap = refl

number_node-IsWorld :
    (send_ok : ℕ → Bool) (b : Bool) (a : ℕ) (w : World)
    → IsKernel w.kernel
    → in_list (chain_of b w.kernel.store) a ≡ true
    → IsWorld (number_node send_ok b a w)
unfolding number_node numbered_node IsOnChain
number_node-IsWorld send_ok b a w v h =
    send_then-IsWorld send_ok _ (behind_node b a) (numbered_node send_ok a w)
      (poke-IsKernel w.kernel a (w.lister.count + 1) v) (rw (chain_of-heap b w.kernel.store) h)

visit-IsWorld :
    (send_ok : ℕ → Bool) (b : Bool) (a : ℕ) (w : World)
    → IsKernel w.kernel
    → in_list (chain_of b w.kernel.store) a ≡ true
    → IsWorld (visit send_ok b a w)
unfolding visit IsOnChain
visit-IsWorld send_ok b a w v h =
    if_cases IsWorld (selected w.lister.pattern (w.kernel.store.heap a))
      (λ e. number_node-IsWorld send_ok b a w v h) (λ e. record { module_ok = v; cursor = h })

read_next-in_list :
    (b : Bool) (a c : ℕ) (w : World)
    → in_list (chain_of b w.kernel.store) a ≡ true
    → read_next b a w ≡ some c
    → in_list (chain_of b w.kernel.store) c ≡ true
unfolding read_next
read_next-in_list b a c w h e = next_of-in_list (chain_of b w.kernel.store) a c (rw h at e)

turn_at-IsWorld :
    (send_ok : ℕ → Bool) (w : World) (p : Position)
    → w.lister.position ≡ p
    → IsWorld w
    → IsWorld (turn_at send_ok w p)
unfolding turn_at IsOnChain
turn_at-IsWorld send_ok w (send_policy true) q v = send_then-IsWorld send_ok _ _ w v.module_ok tt
turn_at-IsWorld send_ok w (send_policy false) q v = send_then-IsWorld send_ok _ _ w v.module_ok tt
turn_at-IsWorld send_ok w (start_chain b) q v = record {
  module_ok = v.module_ok;
  cursor =
      enter-IsOnChain b w.kernel.store _ (λ c e. head?-in_list (chain_of b w.kernel.store) c e);
}
turn_at-IsWorld send_ok w (at_node b a) q v =
    let h = subst (λ x. IsOnChain x w.kernel.store) q v.cursor in
    let alive = chain-alive w.kernel.store b a v.module_ok.lists h in
    rw alive (visit-IsWorld send_ok b a w v.module_ok h)
turn_at-IsWorld send_ok w (behind_node b a) q v =
    let h = subst (λ x. IsOnChain x w.kernel.store) q v.cursor in
    let alive = chain-alive w.kernel.store b a v.module_ok.lists h in
    rw alive (record {
      module_ok = v.module_ok;
      cursor =
          enter-IsOnChain b w.kernel.store (read_next b a w) (λ c e. read_next-in_list b a c w h e);
    })
turn_at-IsWorld send_ok w send_done q v = send_then-IsWorld send_ok _ _ w v.module_ok tt
turn_at-IsWorld send_ok w finished q v = v
turn_at-IsWorld send_ok w faulted q v = v

take_turn-IsWorld :
    (send_ok : ℕ → Bool) (w : World) (t : Turn)
    → keeps_rules t ≡ true
    → IsWorld w
    → IsWorld (take_turn send_ok w t)
unfolding take_turn
take_turn-IsWorld send_ok w thread_turn k v = turn_at-IsWorld send_ok w w.lister.position refl v
take_turn-IsWorld send_ok w (event_turn e) k v = record {
  module_ok = step-IsKernel w.kernel e v.module_ok;
  cursor =
      Grows-IsOnChain w.lister.position w.kernel.store (step w.kernel e).0.store
        (λ b. step-Grows b w.kernel e k) v.cursor;
}

interleave-IsWorld :
    (send_ok : ℕ → Bool) (w : World) (ts : List Turn)
    → All (λ t. keeps_rules t ≡ true) ts
    → IsWorld w
    → IsWorld (interleave send_ok w ts)
unfolding interleave
interleave-IsWorld send_ok w [] h v = v
interleave-IsWorld send_ok w (t ∷ ts) h v =
    interleave-IsWorld send_ok (take_turn send_ok w t) ts h.1 (take_turn-IsWorld send_ok w t h.0 v)

-- However the turns of a listing thread and the events of the module are ordered, and whichever sends
-- fail: as long as no request deletes a rule, the thread never reads a freed node, the node that it
-- stands at is on its chain, and the module keeps its invariant.
pub interleave-begin :
    (send_ok : ℕ → Bool) (k : Kernel) (destpid : ℕ) (pattern : FilterRule) (ts : List Turn)
    → IsKernel k
    → All (λ t. keeps_rules t ≡ true) ts
    → let w = interleave send_ok (begin_listing k destpid pattern) ts in
      IsKernel w.kernel × IsOnChain w.lister.position w.kernel.store
unfolding IsOnChain
interleave-begin send_ok k destpid pattern ts v h =
    let w = begin_listing k destpid pattern in
    let r = interleave-IsWorld send_ok w ts h (record { module_ok = v; cursor = tt }) in
    (r.module_ok, r.cursor)
