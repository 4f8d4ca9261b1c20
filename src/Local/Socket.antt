-- ===== src/Local/Socket.antt =====
-- bf-link/bflocalcontrolprivate.cpp: the socket of a client, and the commands that wait for it.
pub mod Sending
use bf.Base.{ℕ, Bool, true, false, List, [], ◌∷◌, ◌++◌, length, if◌then◌else◌, not, filter, ◌==◌}
use bf.Base.Bytes.{le32}
use bf.Frames.{Reader}
use bf.Client.{Control, Result, returned, failed, get_rules_async}
use bf.Local.{BfCmd, CmdStream, put_cmd}

-- `out` is what was written to the socket.
pub record LocalSocket : Type 0 where
  pub connected : Bool
  pub reader : Reader
  pub sent_commands : List (ℕ × BfCmd)
  pub command_queue : List BfCmd
  pub out : List ℕ

-- sendCommand, with what the writes of the size and of the command return. An `int` in memory is its
-- bytes from the lowest.
unfoldable pub send_by : CmdStream → Result → Result → LocalSocket → BfCmd → LocalSocket × Result
unfolding put_cmd
send_by s size body sock cmd =
    let ba = put_cmd s cmd in
    let sized = record sock { out = sock.out ++ le32 (length ba) [] } in
    let written = record sock {
      out = sock.out ++ le32 (length ba) ba;
      sent_commands =
          (cmd.sequence, cmd) ∷ filter (λ e. not (e.0 == cmd.sequence)) sock.sent_commands;
    } in
    if sock.connected
    then (elim size [
      | failed n ↦ (sock, failed n)
      | returned n ↦ elim body [ failed m ↦ (sized, failed m) | returned m ↦ (written, returned 0) ]
    ])
    else (record sock { command_queue = sock.command_queue ++ cmd ∷ [] }, failed 1)

unfoldable pub on_connected : CmdStream → Result → Result → LocalSocket → LocalSocket
unfolding send_by
on_connected s size body sock = elim sock.command_queue [
  | [] ↦ sock
  | cmd ∷ cmds ↦ (send_by s size body (record sock { command_queue = cmds }) cmd).0
]

unfoldable pub on_disconnected : LocalSocket → LocalSocket
on_disconnected sock = record sock { reader = record sock.reader { wanted = 0 } }

unfoldable pub on_socket_error : LocalSocket → LocalSocket
on_socket_error sock = record sock { connected = false; reader = record sock.reader { wanted = 0 } }

-- getRulesAsync, by what its send returns
unfoldable pub local_get_rules_async : Result → Control → Control × Result
unfolding get_rules_async
local_get_rules_async = get_rules_async

-- Commands that are sent one after the other, where every write succeeds.
unfoldable pub send_all : CmdStream → LocalSocket → List BfCmd → LocalSocket
unfolding send_by
send_all s sock [] = sock
send_all s sock (cmd ∷ cmds) = send_all s (send_by s (returned 0) (returned 0) sock cmd).0 cmds
