-- ===== src/System/Interleaved.antt =====
-- list_rules of bf-ko/bf_module.c with other events in between: the listing thread takes no lock, so
-- requests and grace periods fall between its accesses to the lists. One turn of the thread is the send
-- of a policy or of the end, the read of the head of a chain, the body of a loop for a node, or the read
-- of the node's `next`; a wait for an acknowledgement ends the body. A node that list_del_rcu has taken
-- from its chain keeps its `next`; a read of a node that kfree has got is an end of its own.
pub mod Growing
pub mod Safe
pub mod Distinct
pub mod Alone
pub mod Loops
pub mod Ends
use bf.Base.{
  ℕ, suc, ◌+◌, ◌%◌, Bool, true, false, not, ◌&&◌, List, [], ◌∷◌, ◌++◌, Option, none, some, any,
  head?, length, if◌then◌else◌, ◌==◌,
}
use bf.Rule.{FilterRule, chain_input, chain_output}
use bf.Store.{Store, poke}
use bf.Kernel.{Kernel}
use bf.Message.{Sent, msg_delete_rule, msg_delete_all_rules, MessageType, Request}
use bf.Listing.{policy_message, selected, data_message, done_message, ack_every_n_msg}
use bf.System.{Event, request, step}

-- Where the thread stands; `true` is the input chain. `at_node` is in front of the body of a loop, and
-- `behind_node` behind it.
pub data Position : Type 0 where
  send_policy start_chain : Bool → Position
  at_node behind_node : Bool → ℕ → Position
  send_done finished faulted : Position

-- The variables of list_rules, and what it has sent and awaited.
pub record Lister : Type 0 where
  pub position : Position
  pub destpid : ℕ
  pub pattern : FilterRule
  pub count : ℕ
  pub sent : List Sent
  pub waits : ℕ

-- `unlinked` is the `next` of the nodes that are on no chain; `none` is the head.
pub record World : Type 0 where
  pub kernel : Kernel
  pub lister : Lister
  pub unlinked : ℕ → Option ℕ

abbrev pub in_list : List ℕ → ℕ → Bool
in_list xs a = any (λ x. a == x) xs

abbrev pub chain_of : Bool → Store → List ℕ
chain_of true s = s.chain_in
chain_of false s = s.chain_out

-- The `next` of a node of a chain
unfoldable pub next_of : List ℕ → ℕ → Option ℕ
next_of [] a = none
next_of (x ∷ xs) a = if x == a then head? xs else next_of xs a

abbrev pub move_to : World → Position → World
move_to w p = record w { lister = record w.lister { position = p } }

-- The entry of a loop at the node that was read, or its end.
unfoldable pub enter : Bool → Option ℕ → Position
enter b (some a) = at_node b a
enter true none = start_chain false
enter false none = send_done

-- nl_send_msg, whose failure returns from list_rules.
unfoldable pub send_then : (ℕ → Bool) → Sent → Position → World → World
send_then send_ok m p w =
    let l = w.lister in
    if send_ok (length l.sent)
    then record w { lister = record l { sent = l.sent ++ m ∷ []; position = p } }
    else move_to w finished

-- The body of a loop for a selected node: its number is stored in the rule itself, which is then sent.
-- A wait follows a message with a request for an acknowledgement.
unfoldable pub numbered_node : (ℕ → Bool) → ℕ → World → World
numbered_node send_ok a w =
    let s = w.kernel.store in
    let l = w.lister in
    let i = l.count + 1 in
    record w {
      kernel = record w.kernel {
        store = record s { heap = poke s.heap a (record (s.heap a) { id = i }) };
      };
      lister = record l {
        count = i;
        waits =
            if send_ok (length l.sent)
            then l.waits + (if i % ack_every_n_msg == 0 then 1 else 0)
            else l.waits;
      };
    }

unfoldable pub number_node : (ℕ → Bool) → Bool → ℕ → World → World
unfolding send_then numbered_node
number_node send_ok b a w =
    let m = data_message w.lister.destpid (w.lister.count + 1) (w.kernel.store.heap a) in
    send_then send_ok m (behind_node b a) (numbered_node send_ok a w)

unfoldable pub visit : (ℕ → Bool) → Bool → ℕ → World → World
unfolding number_node
visit send_ok b a w =
    if selected w.lister.pattern (w.kernel.store.heap a)
    then number_node send_ok b a w
    else move_to w (behind_node b a)

-- `a_rule->chain_list.next`
unfoldable pub read_next : Bool → ℕ → World → Option ℕ
unfolding next_of
read_next b a w =
    let chain = chain_of b w.kernel.store in
    if in_list chain a then next_of chain a else w.unlinked a

unfoldable pub turn_at : (ℕ → Bool) → World → Position → World
unfolding visit read_next enter send_then
turn_at send_ok w (send_policy true) =
    let m = policy_message w.lister.destpid chain_input w.kernel.policy_input in
    send_then send_ok m (send_policy false) w
turn_at send_ok w (send_policy false) =
    let m = policy_message w.lister.destpid chain_output w.kernel.policy_output in
    send_then send_ok m (start_chain true) w
turn_at send_ok w (start_chain b) = move_to w (enter b (head? (chain_of b w.kernel.store)))
turn_at send_ok w (at_node b a) =
    if in_list w.kernel.store.freed a then move_to w faulted else visit send_ok b a w
turn_at send_ok w (behind_node b a) =
    if in_list w.kernel.store.freed a
    then move_to w faulted
    else move_to w (enter b (read_next b a w))
turn_at send_ok w send_done =
    send_then send_ok (done_message w.lister.destpid w.lister.count) finished w
turn_at send_ok w finished = w
turn_at send_ok w faulted = w

-- The `next` that a node keeps when an event takes it from its chain.
unfoldable pub kept_next : Store → Store → (ℕ → Option ℕ) → ℕ → Option ℕ
unfolding next_of
kept_next s s' unlinked a =
    if in_list s.chain_in a && not (in_list s'.chain_in a)
    then next_of s.chain_in a
    else if in_list s.chain_out a && not (in_list s'.chain_out a)
    then next_of s.chain_out a
    else unlinked a

-- A turn of the listing thread, or an event.
pub data Turn : Type 0 where
  thread_turn : Turn
  event_turn : Event → Turn

unfoldable pub take_turn : (ℕ → Bool) → World → Turn → World
unfolding turn_at kept_next
take_turn send_ok w thread_turn = turn_at send_ok w w.lister.position
take_turn send_ok w (event_turn e) =
    let k = (step w.kernel e).0 in
    record w { kernel = k; unlinked = kept_next w.kernel.store k.store w.unlinked }

unfoldable pub interleave : (ℕ → Bool) → World → List Turn → World
unfolding take_turn
interleave send_ok w [] = w
interleave send_ok w (t ∷ ts) = interleave send_ok (take_turn send_ok w t) ts

-- The thread at the start of list_rules
abbrev pub begin_listing : Kernel → ℕ → FilterRule → World
begin_listing k destpid pattern = record {
  kernel = k;
  lister = record {
    position = send_policy true;
    destpid = destpid;
    pattern = pattern;
    count = 0;
    sent = [];
    waits = 0;
  };
  unlinked = λ a. none;
}

-- Whether an event deletes no rule.
unfoldable pub deletes : MessageType → Bool
deletes msg_delete_rule = true
deletes msg_delete_all_rules = true
deletes _ = false

unfoldable pub keeps_rules : Turn → Bool
unfolding deletes
keeps_rules (event_turn (request req)) = not (deletes req.nlmsg_type)
keeps_rules _ = true
