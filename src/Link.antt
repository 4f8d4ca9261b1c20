-- ===== src/Link.antt =====
-- A client's BFControl joined to the kernel module: each message that it sends is handled, and the
-- answers for its process arrive before its time limit. The MSG_OK with which it acknowledges a
-- listing only ends a wait of the module, and is left out.
pub mod Adding
use bf.Base.{ℕ, Bool, List, [], Option, none, some}
use bf.Rule.{FilterRule}
use bf.Kernel.{Kernel}
use bf.Message.{
  MessageType, msg_add_rule, msg_delete_all_rules, msg_get_rules, msg_log_subscribe, Request,
}
use bf.Netlink.{nl_rcv_msg}
use bf.System.{run_thread}
use bf.Client.{
  Control, Result, returned, command, get_rules_sync, send_rules, is_sock_error, receive, send_only,
}
use bf.Client.Commands.{client_request}
use bf.Local.{is_error_result}

pub record Link : Type 0 where
  pub kernel : Kernel
  pub control : Control

-- `sent` is what sendMsg returns when it succeeds, `pid` the client's process.
module _ (sent pid : ℕ) where
  -- addRule, updateRule, deleteRule or setChainPolicy, by the type of the message
  unfoldable pub call : MessageType → Link → FilterRule → Option (Link × Result)
  call t l fr =
      let h = nl_rcv_msg l.kernel (client_request pid t fr) in
      elim (command (returned sent) l.control (receive pid h.sent)) [
        | none ↦ none
        | some (c, ret) ↦ some (record { kernel = h.kernel; control = c }, ret)
      ]

  abbrev pub reset : Link → Link
  reset l = record l { control = record l.control { attached = Bool.false } }

  -- sendRulesSync
  unfoldable pub send_rules_sync : Link → List FilterRule → Option (Link × Result)
  unfolding call
  send_rules_sync = send_rules is_sock_error reset (call msg_add_rule)

  -- subscribeLog
  unfoldable pub subscribe_log : Link → FilterRule → Link
  subscribe_log l msg = record l {
    kernel = (nl_rcv_msg l.kernel (client_request pid msg_log_subscribe msg)).kernel;
  }

  -- deleteRules, whose answer is read in the event loop before the next command
  unfoldable pub delete_rules_sent : Link → FilterRule → Link × Result
  unfolding send_only
  delete_rules_sent l pattern =
      let h = nl_rcv_msg l.kernel (client_request pid msg_delete_all_rules pattern) in
      (record l { kernel = h.kernel }, send_only (returned sent))

  -- getRulesSync into an empty list, with the listing thread that the request starts
  unfoldable pub get_rules :
      (ℕ → Bool) → Link → FilterRule → Option (Link × Result × List FilterRule)
  get_rules send_ok l pattern =
      let h = nl_rcv_msg l.kernel (client_request pid msg_get_rules pattern) in
      let (k, messages) = run_thread send_ok h.kernel in
      elim (get_rules_sync (returned sent) l.control [] (receive pid messages)) [
        | none ↦ none
        | some (c, ret) ↦ some (record { kernel = k; control = c }, ret, c.ruleslst)
      ]
