-- ===== src/LocalServer/Session.antt =====
-- bf-link/bflocalcontrolprivate.cpp: addRule and sendRulesSync of a BFLocalControl that is connected to the
-- service. The bytes of a command and of its answer each arrive as a whole, so the readers of both sides
-- hold nothing between two commands.
use bf.Base.{
  ℕ, suc, List, [], ◌∷◌, map, filter, length, drop, Bool, false, Option, some, ◌>>=◌, ◌==◌,
}
use bf.Rule.{FilterRule}
use bf.Frames.{on_chunks}
use bf.Client.{Control, Result, returned, send_rules}
use bf.Local.{
  bf_cmd_add_rule, rule_value, BfCmd, CmdStream, send_command, read_command, local_command,
  is_error_result,
}
use bf.LocalServer.{LocalServer, receive_message}
use bf.LocalServer.Relay.{idle_reader}

-- The service, the state of the program's BFLocalControl, and how many commands it has sent.
pub record Session : Type 0 where
  pub server : LocalServer
  pub control : Control
  pub commands : ℕ

-- What was written to a socket, behind the first `n` writes of all.
unfoldable pub written_since : ℕ → ℕ → List (ℕ × List ℕ) → List (List ℕ)
written_since n socket written = map (λ w. w.1) (filter (λ w. w.0 == socket) (drop n written))

-- `seq` has the numbers that qrand gives to the commands, `socket` is the program's socket at the server.
module _ (s : CmdStream) (blank : FilterRule) (sent pid : ℕ) (send_ok : ℕ → Bool) (seq : ℕ → ℕ)
    (socket : ℕ) where
  -- addRule: the command goes to the server, and its answer ends the wait.
  unfoldable pub local_add_rule : Session → FilterRule → Option (Session × Result)
  unfolding send_command on_chunks receive_message read_command local_command written_since
  local_add_rule x fr = do
    let cmd : BfCmd = record {
      cmd_type_of = bf_cmd_add_rule;
      sequence = seq x.commands;
      value = rule_value fr;
    }
    (r, handled) ←
        on_chunks (receive_message s blank sent pid send_ok socket) idle_reader (some x.server)
          (send_command s cmd ∷ [])
    server ← handled
    (q, cmds) ←
        on_chunks (read_command s) idle_reader []
          (written_since (length x.server.written) socket server.written)
    (control, ret) ← local_command blank (returned 0) x.control cmds
    some (record { server = server; control = control; commands = suc x.commands }, ret)

  -- The pointer `ruleslst` of the program's object is set to NULL.
  abbrev pub cleared : Session → Session
  cleared x = record x { control = record x.control { attached = false } }

  -- sendRulesSync, which stops at every error.
  unfoldable pub local_send_rules_sync : Session → List FilterRule → Option (Session × Result)
  unfolding local_add_rule
  local_send_rules_sync = send_rules is_error_result cleared local_add_rule
