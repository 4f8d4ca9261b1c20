-- ===== src/LocalServer.antt =====
-- bf-link/bflocalserver.cpp: the service's local socket server, on the BFControl of the service. A
-- socket is a number, what is written to it is kept, and a write succeeds, since a local socket buffers.
-- While BFControl waits for the module, no slot of the server is called again. What its log prints is
-- left out.
pub mod Sockets
pub mod Relay
pub mod Listed
pub mod Rules
pub mod Session
pub mod Sending
use bf.Base.{
  ℕ, ◌-◌, ◌^◌, ◌%◌, Bool, not, List, [], ◌∷◌, ◌++◌, filter, length, Option, none, some, ◌>>=◌, ◌==◌,
  suc, zero, find,
}
use bf.Rule.{FilterRule}
use bf.Message.{MessageType, msg_add_rule, msg_update_rule, msg_delete_rule, msg_chain_policy}
use bf.Client.{Result, returned, failed, policy_request}
use bf.Link.{Link, call, delete_rules_sent, get_rules}
use bf.Frames.{write_frame}
use bf.Local.{
  CmdType, bf_cmd_add_rule, bf_cmd_data, bf_cmd_done, bf_cmd_delete_rule, bf_cmd_delete_all_rules,
  bf_cmd_update_rule, bf_cmd_chain_policy, bf_cmd_get_rules, bf_cmd_err, Value, rule_value,
  err_value, done_value, BfCmd, CmdStream, put_cmd, get_cmd, rule_of_value,
}

-- `client_commands` has the socket that each command number came from last, `written` what was written
-- to the sockets.
pub record LocalServer : Type 0 where
  pub link : Link
  pub client_commands : List (ℕ × ℕ)
  pub written : List (ℕ × List ℕ)

-- QHash: a value for a key in place of another.
unfoldable pub hash_remove : ℕ → List (ℕ × ℕ) → List (ℕ × ℕ)
hash_remove key h = filter (λ e. not (e.0 == key)) h

unfoldable pub hash_set : ℕ → ℕ → List (ℕ × ℕ) → List (ℕ × ℕ)
unfolding hash_remove
hash_set key value h = (key, value) ∷ hash_remove key h

unfoldable pub hash_value : ℕ → List (ℕ × ℕ) → Option ℕ
hash_value key h = elim (find (λ e. e.0 == key) h) [ none ↦ none | some e ↦ some e.1 ]

-- The `code` of msg_err_t(-rv): 16 bits of the opposite.
unfoldable pub code_of : Result → ℕ
code_of (failed n) = n % 2 ^ 16
code_of (returned n) = (2 ^ 16 - n % 2 ^ 16) % 2 ^ 16

module _ (s : CmdStream) where
  -- sendMsg with sendResponse: nothing is sent for a number that no socket has sent.
  unfoldable pub send_response : LocalServer → CmdType → ℕ → Value → LocalServer
  unfolding hash_value write_frame put_cmd
  send_response sv type seq v =
      let cmd : BfCmd = record { cmd_type_of = type; sequence = seq; value = v } in
      elim (hash_value seq sv.client_commands) [
        | none ↦ sv
        | some socket ↦ record sv {
          written = sv.written ++ (socket, write_frame (put_cmd s cmd) []) ∷ [];
        }
      ]

  -- The rules of a list, one command each.
  unfoldable pub send_rules_data : LocalServer → ℕ → List FilterRule → LocalServer
  unfolding send_response
  send_rules_data sv seq [] = sv
  send_rules_data sv seq (r ∷ rs) =
      send_rules_data (send_response sv bf_cmd_data seq (rule_value r)) seq rs

  -- The answer to a command that returned `rv`.
  unfoldable pub answer : LocalServer → ℕ → Link × Result → LocalServer
  unfolding send_response code_of
  answer sv seq (l, rv) =
      send_response (record sv { link = l }) bf_cmd_err seq (err_value (code_of rv))

  -- The rules and their number, or the error.
  unfoldable pub answer_rules : LocalServer → ℕ → Link × Result × List FilterRule → LocalServer
  unfolding send_response send_rules_data answer
  answer_rules sv seq (l, returned n, ruleslst) =
      send_response (send_rules_data (record sv { link = l }) seq ruleslst) bf_cmd_done seq
        (done_value (length ruleslst))
  answer_rules sv seq (l, failed n, ruleslst) = answer sv seq (l, failed n)

  -- `sent` is what the netlink socket's sendMsg returns, `pid` the service's process.
  module _ (blank : FilterRule) (sent pid : ℕ) (send_ok : ℕ → Bool) where
    -- A command of BFControl that is answered by its result.
    unfoldable pub relay : MessageType → LocalServer → ℕ → FilterRule → Option LocalServer
    unfolding answer
    relay t sv seq fr = do result ← call sent pid t sv.link fr; some (answer sv seq result)

    unfoldable pub process_message : LocalServer → BfCmd → Option LocalServer
    unfolding relay answer answer_rules hash_remove rule_of_value
    process_message sv cmd =
        let fr = rule_of_value blank cmd.value in
        let seq = cmd.sequence in
        elim cmd.cmd_type_of [
          | bf_cmd_add_rule ↦ relay msg_add_rule sv seq fr
          | bf_cmd_update_rule ↦ relay msg_update_rule sv seq fr
          | bf_cmd_delete_rule ↦ relay msg_delete_rule sv seq fr
          | bf_cmd_delete_all_rules ↦ some (answer sv seq (delete_rules_sent sent pid sv.link fr))
          | bf_cmd_chain_policy ↦ relay msg_chain_policy sv seq (policy_request fr)
          | bf_cmd_get_rules ↦ do
            result ← get_rules sent pid send_ok sv.link fr
            some (answer_rules sv seq result)
          | _ ↦ some (record sv { client_commands = hash_remove seq sv.client_commands })
        ]

    -- onLocalReadyRead with a message from a socket
    unfoldable pub receive_message : ℕ → Option LocalServer → List ℕ → Option LocalServer
    unfolding process_message get_cmd hash_set
    receive_message socket none message = none
    receive_message socket (some sv) message =
        let cmd = get_cmd s message in
        process_message
          (record sv { client_commands = hash_set cmd.sequence socket sv.client_commands }) cmd

-- destroySocket: the first entry of the socket is removed, until there is none. The fuel is the
-- number of entries.
unfoldable pub remove_socket : ℕ → ℕ → List (ℕ × ℕ) → List (ℕ × ℕ)
unfolding hash_remove
remove_socket zero socket h = h
remove_socket (suc fuel) socket h = elim (find (λ e. e.1 == socket) h) [
  | none ↦ h
  | some e ↦ remove_socket fuel socket (hash_remove e.0 h)
]

unfoldable pub destroy_socket : ℕ → LocalServer → LocalServer
unfolding remove_socket
destroy_socket socket sv = record sv {
  client_commands = remove_socket (length sv.client_commands) socket sv.client_commands;
}
