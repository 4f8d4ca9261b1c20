-- ===== src/Listing.antt =====
-- list_rules of bf-ko/bf_module.c, which a thread runs for a MSG_GET_RULES: the policies of the two
-- chains, the rules that the pattern selects, and the end of the list. `send_ok n` tells whether the
-- n-th nl_send_msg of the call succeeds; the first that fails ends the call. The waits for an
-- acknowledgement are counted; each ends by the completion or by its time limit of a second.
-- The call runs here as one step; System/Interleaved lets other events fall in between.
pub mod Complete
pub mod Numbering
use bf.Base.{
  ℕ, zero, suc, ◌+◌, ◌%◌, ◌≡◌, Bool, true, false, List, [], ◌∷◌, ◌++◌, replicate, length,
  if◌then◌else◌, ◌==◌,
}
use bf.Rule.{FilterRule, FilterRuleBase, fr_pattern, chain_all, chain_input, chain_output}
use bf.Store.{Heap, Store, poke}
use bf.Kernel.{Kernel, convert_policy}
use bf.Message.{Sent, Payload, rule, done, msg_data, msg_done, nlm_f_ack}

-- ACK_EVERY_N_MSG
abbrev pub ack_every_n_msg : ℕ
ack_every_n_msg = 50

-- The variables of the call.
pub record Listing : Type 0 where
  pub heap : Heap
  pub count : ℕ
  pub sent : List Sent
  pub waits : ℕ
  pub go_on : Bool

-- The rule whose bytes memset has cleared, with a chain and its policy.
unfoldable pub policy_message : ℕ → ℕ → ℕ → Sent
policy_message destpid chain policy = record {
  destpid = destpid;
  msg_type = msg_data;
  flags = 0;
  payload = rule (record {
    h_dest = replicate 6 0;
    h_source = replicate 6 0;
    base = record { chain = chain; proto = 0; src_port = 0; dst_port = 0; s_addr = 0; d_addr = 0 };
    off = 0;
    policy = convert_policy policy;
    id = 0;
  });
}

-- `pfr_pattern->base.chain==CHAIN_ALL ? true : fr_pattern(...)`
unfoldable pub selected : FilterRule → FilterRule → Bool
selected pattern r = if pattern.base.chain == chain_all then true else fr_pattern r pattern

-- The message of the i-th rule, which asks for an acknowledgement every fiftieth time.
abbrev pub data_message : ℕ → ℕ → FilterRule → Sent
data_message destpid i r = record {
  destpid = destpid;
  msg_type = msg_data;
  flags = if i % ack_every_n_msg == 0 then nlm_f_ack else 0;
  payload = rule (record r { id = i });
}

abbrev pub done_message : ℕ → ℕ → Sent
done_message destpid counter = record {
  destpid = destpid;
  msg_type = msg_done;
  flags = 0;
  payload = done counter;
}

-- A call of nl_send_msg, whose failure returns from the function.
abbrev pub send : (ℕ → Bool) → Sent → Listing → Listing
send send_ok m l =
    if send_ok (length l.sent)
    then record l { sent = l.sent ++ m ∷ [] }
    else record l { go_on = false }

-- The body of both loops for a rule that is selected: its number is stored in the rule itself.
unfoldable pub list_node : (ℕ → Bool) → ℕ → ℕ → Listing → Listing
list_node send_ok destpid a l =
    let i = l.count + 1 in
    let l1 = record l { count = i; heap = poke l.heap a (record (l.heap a) { id = i }) } in
    let l2 = send send_ok (data_message destpid i (l.heap a)) l1 in
    if l2.go_on
    then record l2 { waits = l2.waits + (if i % ack_every_n_msg == 0 then 1 else 0) }
    else l2

unfoldable pub list_chain : (ℕ → Bool) → ℕ → FilterRule → List ℕ → Listing → Listing
list_chain send_ok destpid pattern [] l = l
list_chain send_ok destpid pattern (a ∷ rest) l = list_chain send_ok destpid pattern rest (
    if l.go_on then if selected pattern (l.heap a) then list_node send_ok destpid a l else l else l)

-- The steps of list_rules; those after a failed send are skipped.
abbrev pub when_going : (Listing → Listing) → Listing → Listing
when_going f l = if l.go_on then f l else l

unfoldable pub list_rules : (ℕ → Bool) → Kernel → ℕ → FilterRule → Listing
unfolding policy_message
list_rules send_ok k destpid pattern =
    let l0 : Listing = record {
      heap = k.store.heap;
      count = 0;
      sent = [];
      waits = 0;
      go_on = true;
    } in
    let l1 = send send_ok (policy_message destpid chain_input k.policy_input) l0 in
    let l2 = when_going (send send_ok (policy_message destpid chain_output k.policy_output)) l1 in
    let l3 = list_chain send_ok destpid pattern k.store.chain_in l2 in
    let l4 = list_chain send_ok destpid pattern k.store.chain_out l3 in
    when_going (λ l. send send_ok (done_message destpid l.count) l) l4
