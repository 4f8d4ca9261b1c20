-- ===== src/System/Interleaved/Ends.antt =====
-- A listing thread that is left alone comes to its end.
use bf.Base.{
  ℕ, suc, ◌+◌, ◌*◌, ◌≡◌, refl, ap, ◌∙◌, Bool, true, false, [], none, length, Bool-cases, inl, inr,
  arith,
}
use bf.Rule.{FilterRule, chain_input, chain_output}
use bf.Kernel.{Kernel}
use bf.Listing.{Listing, send, when_going, policy_message, done_message, list_chain, list_rules}
use bf.System.{IsKernel}
use bf.System.Interleaved.{
  send_policy, start_chain, send_done, finished, World, enter, turn_at, interleave, begin_listing,
}
use bf.System.Interleaved.Alone.{alone, world_of, alone-send}
use bf.System.Interleaved.Loops.{alone-chain}

-- The world where a listing has ended.
abbrev pub listed_world : Kernel → ℕ → FilterRule → Listing → World
listed_world k destpid pattern l = record {
  kernel = record k { store = record k.store { heap = l.heap } };
  lister = record {
    position = finished;
    destpid = destpid;
    pattern = pattern;
    count = l.count;
    sent = l.sent;
    waits = l.waits;
  };
  unlinked = λ a. none;
}

world_of-listed_world :
    (k : Kernel) (destpid : ℕ) (pattern : FilterRule) (l : Listing)
    → world_of (begin_listing k destpid pattern) l finished ≡ listed_world k destpid pattern l
world_of-listed_world k destpid pattern l = elim (Bool-cases l.go_on) [
  | inl on ↦ rw on
  | inr off ↦ rw off
]

-- A listing thread that is left alone ends: two turns for each node and five more are enough, whichever
-- sends fail, and it has then numbered, sent and awaited what list_rules does in one step.
pub alone-list_rules :
    (send_ok : ℕ → Bool) (k : Kernel) (destpid : ℕ) (pattern : FilterRule)
    → IsKernel k
    → alone send_ok
        (5 + (2 * length k.store.chain_in + 2 * length k.store.chain_out))
        (begin_listing k destpid pattern)
      ≡ listed_world k destpid pattern (list_rules send_ok k destpid pattern)
unfolding list_rules turn_at enter interleave
alone-list_rules send_ok k destpid pattern v =
    let w0 = begin_listing k destpid pattern in
    let input = policy_message destpid chain_input k.policy_input in
    let output = policy_message destpid chain_output k.policy_output in
    let n_in = 2 * length k.store.chain_in in
    let n_out = 2 * length k.store.chain_out in
    let l0 : Listing = record {
      heap = k.store.heap;
      count = 0;
      sent = [];
      waits = 0;
      go_on = true;
    } in
    let l1 = send send_ok input l0 in
    let l2 = when_going (send send_ok output) l1 in
    let l3 = list_chain send_ok destpid pattern k.store.chain_in l2 in
    let l4 = list_chain send_ok destpid pattern k.store.chain_out l3 in
    let l5 = when_going (λ l. send send_ok (done_message destpid l.count) l) l4 in
    let fuel : 5 + (n_in + n_out) ≡ suc (suc (suc (n_in + suc (n_out + 1)))) = omega arith in
    let n_rest = n_in + suc (n_out + 1) in
    ap (λ m. alone send_ok m w0) fuel
    ∙ (alone-send w0 send_ok (suc (suc n_rest)) input l0 (send_policy true) (send_policy false) refl
        ∙ (alone-send w0 send_ok (suc n_rest) output l1 (send_policy false) (start_chain true) refl
            ∙ (alone-chain w0 send_ok v.lists true (suc (n_out + 1)) l2
                ∙ (alone-chain w0 send_ok v.lists false 1 l3
                    ∙ (alone-send w0 send_ok 0 (done_message destpid l4.count) l4 send_done finished
                          refl
                        ∙ world_of-listed_world k destpid pattern l5)))))
