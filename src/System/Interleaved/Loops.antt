-- ===== src/System/Interleaved/Loops.antt =====
-- The loops of a listing thread with no event in between, over the chains.
use mathlib.Core.Path.{subst}
use bf.Base.{
  ℕ, suc, ◌+◌, ◌*◌, ◌≡◌, refl, sym, ap, ◌∙◌, Bool, true, false, List, [], ◌∷◌, ◌++◌, append_assoc,
  none, head?, length, if◌then◌else◌, Bool-cases, inl, inr, arith,
}
use bf.Store.{IsStore}
use bf.Listing.{Listing, selected, list_node, list_chain}
use bf.System.Interleaved.{
  Position, start_chain, at_node, behind_node, World, in_list, chain_of, next_of, enter, read_next,
  turn_at, move_to,
}
use bf.System.Interleaved.Safe.{chain-alive}
use bf.System.Interleaved.Distinct.{IsDistinct, in_list-mid, next_of-head?, chain-IsDistinct}
use bf.System.Interleaved.Alone.{
  alone, world_of, going-turn, stopped, list_chain-stopped, on_or_off, visit-node,
}

module _ (w0 : World) (send_ok : ℕ → Bool) (v : IsStore w0.kernel.store) where
  -- The chains and the freed nodes do not depend on the numbers.
  abbrev chain : Bool → List ℕ
  chain b = chain_of b w0.kernel.store

  chain_of-world :
      (b : Bool) (l : Listing) (p : Position) → chain_of b (world_of w0 l p).kernel.store ≡ chain b
  chain_of-world true l p = refl
  chain_of-world false l p = refl

  turn-visit :
      (b : Bool) (a : ℕ) (pre rest : List ℕ) (l : Listing)
      → chain b ≡ pre ++ a ∷ rest
      → l.go_on ≡ true
      → turn_at send_ok (world_of w0 l (at_node b a)) (at_node b a)
        ≡ world_of w0
            (if selected w0.lister.pattern (l.heap a)
              then list_node send_ok w0.lister.destpid a l
              else l)
            (behind_node b a)
  unfolding turn_at
  turn-visit b a pre rest l e h =
      let m : in_list (chain b) a ≡ true = rw e (in_list-mid pre rest a) in
      let alive = chain-alive w0.kernel.store b a v m in rw alive (visit-node w0 send_ok b a l h)

  turn-behind :
      (b : Bool) (a : ℕ) (pre rest : List ℕ) (l : Listing)
      → chain b ≡ pre ++ a ∷ rest
      → turn_at send_ok (world_of w0 l (behind_node b a)) (behind_node b a)
        ≡ move_to (world_of w0 l (behind_node b a)) (enter b (head? rest))
  unfolding turn_at read_next
  turn-behind b a pre rest l e =
      let m : in_list (chain b) a ≡ true = rw e (in_list-mid pre rest a) in
      let alive = chain-alive w0.kernel.store b a v m in
      let d : IsDistinct (pre ++ a ∷ rest) =
        subst IsDistinct e (chain-IsDistinct w0.kernel.store b v) in
      let n : next_of (chain b) a ≡ head? rest =
        ap (λ c. next_of c a) e ∙ next_of-head? pre rest a d in
      rw (alive, chain_of-world b l (behind_node b a), m, n)

  -- What follows the body of a loop, where the rest of the loop does what is claimed.
  alone-rest :
      (b : Bool) (a : ℕ) (pre rest : List ℕ) (n : ℕ) (l : Listing)
      → chain b ≡ pre ++ a ∷ rest
      → let l' = list_chain send_ok w0.lister.destpid w0.lister.pattern rest l in
        (l.go_on ≡ true
          → alone send_ok (2 * length rest + n) (world_of w0 l (enter b (head? rest)))
            ≡ alone send_ok n (world_of w0 l' (enter b none)))
        → alone send_ok (suc (2 * length rest + n)) (world_of w0 l (behind_node b a))
          ≡ alone send_ok n (world_of w0 l' (enter b none))
  alone-rest b a pre rest n l e ih = elim (Bool-cases l.go_on) [
    | inl on ↦
        let moved : move_to (world_of w0 l (behind_node b a)) (enter b (head? rest))
            ≡ world_of w0 l (enter b (head? rest)) =
          rw on refl in
        going-turn w0 send_ok (2 * length rest + n) l (behind_node b a) on
        ∙ (ap (alone send_ok (2 * length rest + n)) (turn-behind b a pre rest l e ∙ moved) ∙ ih on)
    | inr off ↦
        let l' = list_chain send_ok w0.lister.destpid w0.lister.pattern rest l in
        stopped w0 send_ok (suc (2 * length rest + n)) n l (behind_node b a) (enter b none) off
        ∙ ap (λ x. alone send_ok n (world_of w0 x (enter b none)))
            (sym (list_chain-stopped w0 send_ok w0.lister.destpid w0.lister.pattern rest l off))
  ]

  -- A loop over what is left of a chain.
  alone-loop :
      (b : Bool) (pre rest : List ℕ) (n : ℕ) (l : Listing)
      → chain b ≡ pre ++ rest
      → l.go_on ≡ true
      → let l' = list_chain send_ok w0.lister.destpid w0.lister.pattern rest l in
        alone send_ok (2 * length rest + n) (world_of w0 l (enter b (head? rest)))
        ≡ alone send_ok n (world_of w0 l' (enter b none))
  unfolding list_chain enter
  alone-loop b pre [] n l e h =
      ap (λ k. alone send_ok k (world_of w0 l (enter b none))) (omega arith)
  alone-loop b pre (a ∷ rest) n l e h =
      let destpid = w0.lister.destpid in
      let pattern = w0.lister.pattern in
      let l1 : Listing = if selected pattern (l.heap a) then list_node send_ok destpid a l else l in
      let body : (if l.go_on then l1 else l) ≡ l1 = rw h refl in
      let k = 2 * length rest + n in
      let fuel : 2 * suc (length rest) + n ≡ suc (suc k) = omega arith in
      ap (λ m. alone send_ok m (world_of w0 l (at_node b a))) fuel
      ∙ (going-turn w0 send_ok (suc k) l (at_node b a) h
          ∙ (ap (alone send_ok (suc k)) (turn-visit b a pre rest l e h)
              ∙ (alone-rest b a pre rest n l1 e (
                    alone-loop b (pre ++ a ∷ []) rest n l1
                      (e ∙ sym (append_assoc pre (a ∷ []) rest)))
                  ∙ ap
                      (λ x.
                        alone send_ok n
                          (world_of w0 (list_chain send_ok destpid pattern rest x) (enter b none)))
                      (sym body))))

  -- A loop over a whole chain, with the turn that reads its head.
  pub alone-chain :
      (b : Bool) (n : ℕ) (l : Listing)
      → let l' = list_chain send_ok w0.lister.destpid w0.lister.pattern (chain b) l in
        alone send_ok (suc (2 * length (chain b) + n)) (world_of w0 l (start_chain b))
        ≡ alone send_ok n (world_of w0 l' (enter b none))
  unfolding turn_at
  alone-chain b n l =
      let l' = list_chain send_ok w0.lister.destpid w0.lister.pattern (chain b) l in
      on_or_off w0 send_ok (suc (2 * length (chain b) + n)) n l l' (start_chain b) (enter b none)
        (λ on.
          let head : turn_at send_ok (world_of w0 l (start_chain b)) (start_chain b)
              ≡ world_of w0 l (enter b (head? (chain b))) =
            rw (chain_of-world b l (start_chain b), on) refl in
          going-turn w0 send_ok (2 * length (chain b) + n) l (start_chain b) on
          ∙ (ap (alone send_ok (2 * length (chain b) + n)) head
              ∙ alone-loop b [] (chain b) n l refl on))
        (λ off. list_chain-stopped w0 send_ok w0.lister.destpid w0.lister.pattern (chain b) l off)
