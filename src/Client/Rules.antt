-- ===== src/Client/Rules.antt =====
-- getRulesSync of a client together with the listing of the kernel module.
use mathlib.Core.Path.{ap₂}
use bf.Base.{
  ℕ, suc, ◌+◌, ◌/◌, ◌%◌, ◌≡◌, sym, ap, ◌∙◌, ==_refl, List, [], ◌∷◌, ◌++◌, append-nil, append_assoc,
  length, Option, none, some, ltb, true, false, if◌then◌else◌, ◌==◌, Bool-cases, inl, inr, arith,
}
use bf.Rule.{FilterRule, chain_input, chain_output}
use bf.Store.{IsStore}
use bf.Kernel.{Kernel}
use bf.Message.{Sent, rule}
use bf.Listing.{list_rules, data_message, done_message, policy_message, ack_every_n_msg}
use bf.Listing.Complete.{
  delivered, data_messages, listed_rules, list_rules_complete, acks, acks-div,
}
use bf.Client.{
  wait_for, get_rules_for, Control, Incoming, returned, failed, process, process_data, acknowledge,
  wait, set_error, is_done, get_rules_sync, data_of_sent, incoming, receive,
}

abbrev attached_to : List FilterRule → ℕ → Control
attached_to l a = record { attached = true; ruleslst = l; acks = a }

abbrev detached : List FilterRule → ℕ → Control
detached l a = record { attached = false; ruleslst = l; acks = a }

-- The rules as a listing that counts on from `i` sends them.
abbrev pub numbered : ℕ → List FilterRule → List FilterRule
numbered i [] = []
numbered i (r ∷ rs) = record r { id = i + 1 } ∷ numbered (i + 1) rs

-- The rule that a listing sends for the policy of a chain.
abbrev pub rule_of : Sent → List FilterRule
rule_of s = elim s.payload [ rule fr ↦ fr ∷ [] | _ ↦ [] ]

wait-done :
    (pid n : ℕ) (l : List FilterRule) (a : ℕ)
    → wait is_done (attached_to l a) 0 (receive pid (done_message pid n ∷ []))
      ≡ some (detached l a, 0)
unfolding wait wait_for receive incoming data_of_sent process process_data acknowledge set_error
    is_done
wait-done pid n l a = rw (==_refl pid)

wait-data_message :
    (pid i : ℕ) (r : FilterRule) (l : List FilterRule) (a : ℕ) (ms : List Sent)
    → wait is_done (attached_to l a) 0 (receive pid (data_message pid i r ∷ ms))
      ≡ wait is_done
          (attached_to
            (l ++ record r { id = i } ∷ [])
            (if i % ack_every_n_msg == 0 then suc a else a))
          0
          (receive pid ms)
unfolding wait wait_for receive incoming data_of_sent process process_data acknowledge set_error
    is_done
wait-data_message pid i r l a ms = elim (Bool-cases (i % ack_every_n_msg == 0)) [
  | inl e ↦ rw (==_refl pid, e)
  | inr e ↦ rw (==_refl pid, e)
]

wait-data_messages :
    (pid n i : ℕ) (rs l : List FilterRule) (a : ℕ)
    → wait is_done
        (attached_to l a)
        0
        (receive pid (data_messages pid i rs ++ done_message pid n ∷ []))
      ≡ some (detached (l ++ numbered i rs) (a + acks i rs), 0)
wait-data_messages pid n i [] l a =
    wait-done pid n l a ∙ ap₂ (λ x y. some (detached x y, 0)) (sym (append-nil l)) (omega arith)
wait-data_messages pid n i (r ∷ rs) l a =
    wait-data_message pid (i + 1) r l a _
    ∙ (wait-data_messages pid n (i + 1) rs (l ++ record r { id = i + 1 } ∷ []) _
        ∙ ap₂ (λ x y. some (detached x y, 0))
            (append_assoc l (record r { id = i + 1 } ∷ []) (numbered (i + 1) rs)) (ground arith))

wait-policy_message :
    (pid chain policy : ℕ) (l : List FilterRule) (a : ℕ) (ms : List Sent)
    → wait is_done (attached_to l a) 0 (receive pid (policy_message pid chain policy ∷ ms))
      ≡ wait is_done
          (attached_to (l ++ rule_of (policy_message pid chain policy)) a)
          0
          (receive pid ms)
unfolding wait wait_for receive incoming data_of_sent process process_data acknowledge set_error
    is_done policy_message
wait-policy_message pid chain policy l a ms = rw (==_refl pid)

-- The rules that a client has for a listing: the policies of the two chains, and the selected rules.
abbrev pub fetched : Kernel → ℕ → FilterRule → List FilterRule
fetched k pid pattern =
    rule_of (policy_message pid chain_input k.policy_input)
    ++ rule_of (policy_message pid chain_output k.policy_output)
    ++ numbered 0 (listed_rules pattern k.store)

wait-listing :
    (k : Kernel) (pid n a : ℕ) (pattern : FilterRule) (given : List FilterRule)
    → let rs = listed_rules pattern k.store in
      wait is_done (attached_to given a) 0 (
        receive pid (
          policy_message pid chain_input k.policy_input
          ∷ policy_message pid chain_output k.policy_output
          ∷ (data_messages pid 0 rs ++ done_message pid n ∷ [])))
      ≡ some (detached (given ++ fetched k pid pattern) (a + length rs / ack_every_n_msg), 0)
unfolding policy_message
wait-listing k pid n a pattern given =
    let input = policy_message pid chain_input k.policy_input in
    let output = policy_message pid chain_output k.policy_output in
    let rs = listed_rules pattern k.store in
    wait-policy_message pid chain_input k.policy_input given a _
    ∙ (wait-policy_message pid chain_output k.policy_output (given ++ rule_of input) a _
        ∙ (wait-data_messages pid n 0 rs ((given ++ rule_of input) ++ rule_of output) a
            ∙ ap₂ (λ x y. some (detached x y, 0))
                (append_assoc (given ++ rule_of input) (rule_of output) (numbered 0 rs)
                  ∙ append_assoc given (rule_of input) (rule_of output ++ numbered 0 rs))
                (omega (arith, acks-div 0 rs))))

-- What getRulesSync makes of a wait that ends without an error.
get_rules_sync-wait :
    (n : ℕ) (c c' : Control) (given : List FilterRule) (ms : List Incoming)
    → wait is_done (attached_to given c.acks) 0 ms ≡ some (c', 0)
    → get_rules_sync (returned n) c given ms ≡ some (record c' { attached = false }, returned n)
unfolding wait get_rules_sync get_rules_for
get_rules_sync-wait n c c' given ms e =
    ap
      (λ (o : Option (Control × ℕ)). elim o [
        | none ↦ none
        | some (d, x) ↦
            some (record d { attached = false }, if ltb 0 x then failed x else returned n)
      ])
      e

-- When the pattern is sent and the whole listing arrives in time, getRulesSync appends to the caller's
-- list the policies of the two chains and then the selected rules, numbered from 1, in the order of
-- their chains and their addition; it returns what the send did, acknowledges each fiftieth rule, and
-- leaves no pointer to the list behind.
pub get_rules_sync-list_rules :
    (k : Kernel) (c : Control) (n pid : ℕ) (pattern : FilterRule) (given : List FilterRule)
    → IsStore k.store
    → get_rules_sync (returned n) c given (receive pid (list_rules delivered k pid pattern).sent)
      ≡ some (
        record {
          attached = false;
          ruleslst = given ++ fetched k pid pattern;
          acks = c.acks + length (listed_rules pattern k.store) / ack_every_n_msg;
        },
        returned n,
      )
get_rules_sync-list_rules k c n pid pattern given v =
    ap (λ s. get_rules_sync (returned n) c given (receive pid s))
      (list_rules_complete k pid pattern v).0
    ∙ get_rules_sync-wait n c _ given _
        (wait-listing k pid (length (listed_rules pattern k.store)) c.acks pattern given)
