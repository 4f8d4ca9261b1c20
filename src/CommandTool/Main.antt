-- ===== src/CommandTool/Main.antt =====
-- main of bf-ko/bf_cmd.c. `send_ok n` tells whether the n-th nl_send_simple succeeds. What nl_recv
-- gives comes as a list; when the list ends, the program waits on. A number that is printed is what
-- the code hands to printf.
pub mod Rounds
pub mod Rules
pub mod Errors
use bf.Base.{
  ℕ, suc, ◌+◌, Bool, true, false, not, ◌&&◌, List, [], ◌∷◌, ◌++◌, length, if◌then◌else◌, ◌==◌,
}
use bf.Rule.{FilterRule, FilterRuleBase}
use bf.Names.{Text, get_proto_name}
use bf.Message.{
  MessageType, nlmsg_error, msg_add_rule, msg_data, msg_done, msg_delete_rule, msg_delete_all_rules,
  msg_get_rules, msg_ok, Payload, rule, done, Sent,
}
use bf.Cli.{zeroed_rule}
use bf.CommandTool.{
  ToolCommand, cmd_none, cmd_insert, cmd_delete, cmd_append, cmd_list, cmd_flush, cmd_set_policy,
  cmd_update, cmd_load_from_file, cmd_print_help,
}

-- What the loop reads of a message: its type, whether NLM_F_ACK is set, and its data, taken for a rule
-- or for the code of a struct nlmsgerr.
pub record ToolMessage : Type 0 where
  pub nlmsg_type : MessageType
  pub ack : Bool
  pub fr : FilterRule
  pub error : ℕ

-- A buffer of nl_recv: the messages that nlmsg_ok and nlmsg_next find in it, and the type that is read
-- from the bytes behind the last of them. A failure of nl_recv leaves no buffer.
pub data Received : Type 0 where
  buffer : List ToolMessage → MessageType → Received
  recv_failed : Received

-- A line of the list: its number, the base of the rule and the name of the protocol. `got_error` is
-- the line about an error code.
pub data ToolLine : Type 0 where
  rule_line : ℕ → FilterRuleBase → Text → ToolLine
  got_error : ℕ → ToolLine

pub record ToolState : Type 0 where
  pub sent : List Sent
  pub lines : List ToolLine
  -- `c` and `nlerrr`
  pub count : ℕ
  pub nlerrr : ℕ

-- How the program ends: by its exit code, in the wait for a message, or by a read of memory that no
-- message was received into.
pub data ToolEnd : Type 0 where
  exit_success exit_failure blocked undefined : ToolState → ToolEnd
  help_printed : ToolEnd

abbrev pub to_kernel : MessageType → Payload → Sent
to_kernel t payload = record { destpid = 0; msg_type = t; flags = 0; payload = payload }

-- A call of nl_send_simple, and what follows if it succeeds.
unfoldable pub tool_send :
    (ℕ → Bool) → ToolState → MessageType → Payload → (ToolState → ToolEnd) → ToolEnd
tool_send send_ok s t payload f =
    let go = f (record s { sent = s.sent ++ to_kernel t payload ∷ [] }) in
    if send_ok (length s.sent) then go else exit_failure s

unfoldable pub is_done : MessageType → Bool
is_done msg_done = true
is_done _ = false

unfoldable pub is_data : MessageType → Bool
is_data msg_data = true
is_data _ = false

-- How the loop over a buffer ends: by `break` at a message of a type, behind the last message, or by
-- the return of main.
pub data Scan : Type 0 where
  at_message : MessageType → ToolState → Scan
  passed send_failed : ToolState → Scan

-- The code of the first message of a buffer, which an error anywhere in it is taken from.
unfoldable pub first_error : List ToolMessage → ℕ
first_error [] = 0
first_error (m ∷ ms) = m.error

-- NLMSG_ERROR
unfoldable pub on_error : ℕ → ToolState → ToolState
on_error error s = record s {
  lines = if s.nlerrr == 0 then s.lines else s.lines ++ got_error error ∷ [];
  nlerrr = error;
}

-- MSG_DATA
unfoldable pub print_data : ToolState → ToolMessage → ToolState
unfolding is_data
print_data s m =
    if is_data m.nlmsg_type
    then record s {
      count = suc s.count;
      lines = s.lines ++ rule_line (suc s.count) m.fr.base (get_proto_name m.fr.base.proto) ∷ [];
    }
    else s

-- The loop over the messages of a buffer, whose first message has the code `error`.
unfoldable pub scan : (ℕ → Bool) → ℕ → ToolState → List ToolMessage → Scan
unfolding on_error print_data
scan send_ok error s [] = passed s
scan send_ok error s (m ∷ ms) = elim m.nlmsg_type [
  | nlmsg_error ↦ at_message nlmsg_error (on_error error s)
  | msg_done ↦ at_message msg_done s
  | _ ↦
      let s' = print_data s m in
      let answered = record s' { sent = s'.sent ++ to_kernel msg_ok (rule zeroed_rule) ∷ [] } in
      let rest = scan send_ok error s' ms in
      let rest' = scan send_ok error answered ms in
      if m.ack then if send_ok (length s'.sent) then rest' else send_failed s' else rest
]

-- The `do` loop of CMD_LIST, with what main does behind it.
unfoldable pub list_loop : (ℕ → Bool) → (ToolState → ToolEnd) → ToolState → List Received → ToolEnd
unfolding scan first_error is_done
list_loop send_ok f s [] = blocked s
list_loop send_ok f s (recv_failed ∷ bs) = undefined s
list_loop send_ok f s (buffer ms beyond ∷ bs) = elim (scan send_ok (first_error ms) s ms) [
  | send_failed s' ↦ exit_failure s'
  | at_message t s' ↦
      let rest = list_loop send_ok f s' bs in
      let end = f s' in if s'.nlerrr == 0 && not (is_done t) then rest else end
  | passed s' ↦
      let rest = list_loop send_ok f s' bs in
      let end = f s' in if s'.nlerrr == 0 && not (is_done beyond) then rest else end
]

abbrev pub tool_started : ToolState
tool_started = record { sent = []; lines = []; count = 0; nlerrr = 0 }

-- The MSG_DONE with which main ends
unfoldable pub say_done : (ℕ → Bool) → ToolState → ToolEnd
unfolding tool_send
say_done send_ok s = tool_send send_ok s msg_done (done 0) exit_success

-- What main does for a command.
unfoldable pub tool_action : (ℕ → Bool) → ToolCommand → FilterRule → List Received → ToolEnd
unfolding tool_send list_loop say_done
tool_action send_ok action fr bs =
    let s = tool_started in
    let end = say_done send_ok in
    elim action [
      | cmd_append ↦ tool_send send_ok s msg_add_rule (rule fr) end
      | cmd_list ↦ tool_send send_ok s msg_get_rules (rule fr) (λ s'. list_loop send_ok end s' bs)
      | cmd_delete ↦ tool_send send_ok s msg_delete_rule (rule fr) end
      | cmd_flush ↦ tool_send send_ok s msg_delete_all_rules (rule fr) end
      | cmd_print_help ↦ help_printed
      | _ ↦ end s
    ]

-- main behind parse_cmd_args. `alloc_ok` and `connect_ok` tell whether nl_socket_alloc and nl_connect
-- succeed.
unfoldable pub tool_main :
    Bool → Bool → (ℕ → Bool) → ToolCommand → FilterRule → List Received → ToolEnd
unfolding tool_action
tool_main alloc_ok connect_ok send_ok action fr bs =
    let ran = tool_action send_ok action fr bs in
    if alloc_ok && connect_ok then ran else exit_failure tool_started
