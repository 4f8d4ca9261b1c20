-- ===== src/CommandTool/Main/Rules.antt =====
-- CMD_LIST of the old tool together with the listing of the kernel module.
use mathlib.Core.Path.{ap₂}
use bf.Base.{
  ℕ, zero, suc, ◌+◌, ◌/◌, ◌%◌, ◌≡◌, refl, sym, ap, ◌∙◌, true, Bool-cases, inl, inr, List, [], ◌∷◌,
  ◌++◌, append_assoc, append-nil, map, map-append, replicate, length, All, if◌then◌else◌, ◌==◌,
  arith,
}
use bf.Rule.{FilterRule, chain_input, chain_output}
use bf.Names.{get_proto_name}
use bf.Store.{IsStore}
use bf.Kernel.{Kernel}
use bf.Message.{msg_done, msg_ok, msg_get_rules, Payload, rule, done, Sent, nlm_f_ack}
use bf.Listing.{list_rules, policy_message, data_message, done_message, ack_every_n_msg}
use bf.Listing.Complete.{
  delivered, data_messages, listed_rules, list_rules_complete, acks, acks-div,
}
use bf.Client.Rules.{numbered, fetched}
use bf.Cli.{zeroed_rule}
use bf.CommandTool.{cmd_list}
use bf.CommandTool.Main.{
  ToolMessage, ToolLine, rule_line, ToolState, exit_success, to_kernel, print_data, tool_send,
  say_done, tool_action, tool_main,
}
use bf.CommandTool.Main.Rounds.{
  pass, passes, IsData, Buffers, all_messages, buffers, IsClean, list_loop-passes,
}

-- The lines for rules, numbered on from `i`.
abbrev pub lines_from : ℕ → List FilterRule → List ToolLine
lines_from i [] = []
lines_from i (r ∷ rs) = rule_line i r.base (get_proto_name r.base.proto) ∷ lines_from (suc i) rs

abbrev pub answer : Sent
answer = to_kernel msg_ok (rule zeroed_rule)

-- The state of a list that goes on without an error.
abbrev pub going : List Sent → List ToolLine → ℕ → ToolState
going sent lines count = record { sent = sent; lines = lines; count = count; nlerrr = 0 }

going_congr :
    {s s' : List Sent} {l l' : List ToolLine} {n n' : ℕ}
    → s ≡ s'
    → l ≡ l'
    → n ≡ n'
    → going s l n ≡ going s' l' n'
going_congr {s} {s'} {l} {l'} {n} {n'} e f g = ap₂ (λ x y. going x y n) e f ∙ ap (going s' l') g

replicate-append {ℓ} :
    {A : Type ℓ} (m n : ℕ) (a : A) → replicate m a ++ replicate n a ≡ replicate (m + n) a
replicate-append zero n a = ap (λ k. replicate k a) (omega arith)
replicate-append (suc m) n a =
    let e : suc (m + n) ≡ suc m + n = omega arith in
    ap (◌∷◌ a) (replicate-append m n a) ∙ ap (λ k. replicate k a) e

lines_from-append :
    (i : ℕ) (xs ys : List FilterRule)
    → lines_from i (xs ++ ys) ≡ lines_from i xs ++ lines_from (i + length xs) ys
lines_from-append i [] ys = ap (λ n. lines_from n ys) (omega arith)
lines_from-append i (x ∷ xs) ys = ap (◌∷◌ (rule_line i x.base (get_proto_name x.base.proto))) (
    lines_from-append (suc i) xs ys
    ∙ ap (λ n. lines_from (suc i) xs ++ lines_from n ys) (omega arith))

-- What is read of the data of a message that is no rule, and of a message's data as an error code, is
-- left open.
module _ (as_rule : Payload → FilterRule) (as_error : Payload → ℕ) where
  abbrev pub tool_message : Sent → ToolMessage
  tool_message s = record {
    nlmsg_type = s.msg_type;
    ack = s.flags / nlm_f_ack % 2 == 1;
    fr = elim s.payload [ rule fr ↦ fr | p ↦ as_rule p ];
    error = as_error s.payload;
  }

  pass-data_message :
      (pid i n : ℕ) (r : FilterRule) (sent : List Sent) (lines : List ToolLine)
      → pass (going sent lines n) (tool_message (data_message pid i r))
        ≡ going
            (sent ++ replicate (if i % ack_every_n_msg == 0 then 1 else 0) answer)
            (lines ++ lines_from (suc n) (r ∷ []))
            (suc n)
  unfolding print_data
  pass-data_message pid i n r sent lines = elim (Bool-cases (i % ack_every_n_msg == 0)) [
    | inl e ↦ rw e
    | inr e ↦ rw e (going_congr (sym (append-nil sent)) refl refl)
  ]

  passes-data_messages :
      (pid i n : ℕ) (rs : List FilterRule) (sent : List Sent) (lines : List ToolLine)
      → passes (going sent lines n) (map tool_message (data_messages pid i rs))
        ≡ going
            (sent ++ replicate (acks i rs) answer)
            (lines ++ lines_from (suc n) (numbered i rs))
            (n + length rs)
  passes-data_messages pid i n [] sent lines =
      going_congr (sym (append-nil sent)) (sym (append-nil lines)) (omega arith)
  passes-data_messages pid i n (r ∷ rs) sent lines =
      let k : ℕ = if (i + 1) % ack_every_n_msg == 0 then 1 else 0 in
      ap (λ s. passes s (map tool_message (data_messages pid (i + 1) rs)))
        (pass-data_message pid (i + 1) n r sent lines)
      ∙ (passes-data_messages pid (i + 1) (suc n) rs _ _
          ∙ going_congr
              (append_assoc sent (replicate k answer) _
                ∙ ap (λ xs. sent ++ xs) (replicate-append k (acks (i + 1) rs) answer))
              (append_assoc lines _ _) (omega arith))

  -- The messages of a listing before its last one.
  abbrev front : Kernel → ℕ → FilterRule → List ToolMessage
  front k pid pattern = map tool_message (
      policy_message pid chain_input k.policy_input
      ∷ policy_message pid chain_output k.policy_output
      ∷ data_messages pid 0 (listed_rules pattern k.store))

  passes-front :
      (k : Kernel) (pid : ℕ) (pattern : FilterRule) (sent : List Sent)
      → let n = length (listed_rules pattern k.store) in
        passes (going sent [] 0) (front k pid pattern)
        ≡ going
            (sent ++ replicate (n / ack_every_n_msg) answer)
            (lines_from 1 (fetched k pid pattern))
            (2 + n)
  unfolding print_data policy_message
  passes-front k pid pattern sent =
      let rs = listed_rules pattern k.store in
      passes-data_messages pid 0 2 rs sent _
      ∙ going_congr (ap (λ n. sent ++ replicate n answer) (omega (arith, acks-div 0 rs))) refl refl

  data_messages-IsData :
      (pid i : ℕ) (rs : List FilterRule) → All IsData (map tool_message (data_messages pid i rs))
  data_messages-IsData pid i [] = tt
  data_messages-IsData pid i (r ∷ rs) = (refl, data_messages-IsData pid (i + 1) rs)

  front-IsData : (k : Kernel) (pid : ℕ) (pattern : FilterRule) → All IsData (front k pid pattern)
  unfolding policy_message
  front-IsData k pid pattern =
      (refl, (refl, data_messages-IsData pid 0 (listed_rules pattern k.store)))

  -- When every send succeeds and the whole listing arrives, however it is cut into buffers of which none
  -- shows the type MSG_DONE behind its last message, the list command of the old tool ends and exits with
  -- success: it has asked for the rules, acknowledged each fiftieth and said MSG_DONE at the end, and it
  -- has printed a line for each of the two policies and for each selected rule, numbered from 1.
  pub tool_main-list_rules :
      (k : Kernel) (pid : ℕ) (pattern : FilterRule) (bs : Buffers)
      → IsStore k.store
      → IsClean bs
      → all_messages bs ≡ map tool_message (list_rules delivered k pid pattern).sent
      → let n = length (listed_rules pattern k.store) in
        tool_main true true delivered cmd_list pattern (buffers bs)
        ≡ exit_success (
            going
              (to_kernel msg_get_rules (rule pattern)
                ∷ (replicate (n / ack_every_n_msg) answer ++ to_kernel msg_done (done 0) ∷ []))
              (lines_from 1 (fetched k pid pattern))
              (2 + n))
  unfolding tool_main tool_action tool_send say_done
  tool_main-list_rules k pid pattern bs v c e =
      let rs = listed_rules pattern k.store in
      let request = to_kernel msg_get_rules (rule pattern) in
      let last = tool_message (done_message pid (length rs)) in
      let complete : all_messages bs ≡ front k pid pattern ++ last ∷ [] =
        e
        ∙ (ap (map tool_message) (list_rules_complete k pid pattern v).0
            ∙ map-append tool_message
                (policy_message pid chain_input k.policy_input
                  ∷ policy_message pid chain_output k.policy_output
                  ∷ data_messages pid 0 rs)
                (done_message pid (length rs) ∷ [])) in
      list_loop-passes (say_done delivered) (going (request ∷ []) [] 0) bs (front k pid pattern)
        last refl (front-IsData k pid pattern) refl c complete
      ∙ ap (say_done delivered) (passes-front k pid pattern (request ∷ []))
