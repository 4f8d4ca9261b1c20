-- ===== src/LocalServer/Listed.antt =====
-- The server's answer to a program that asks for rules.
use bf.Base.{
  ℕ, ◌≡◌, sym, ap, ◌∙◌, List, [], ◌∷◌, ◌++◌, append_assoc, append-nil, map, map-append, length,
  some, ◌>>=◌, Bool,
}
use bf.Rule.{FilterRule}
use bf.Stream.Laws.{restored}
use bf.Frames.{write_frame}
use bf.Frames.Sizes.{encode}
use bf.Client.{returned}
use bf.Link.{Link, get_rules}
use bf.Local.{
  bf_cmd_data, bf_cmd_done, bf_cmd_get_rules, rule_value, done_value, BfCmd, CmdStream, put_cmd,
  rule_of_value,
}
use bf.Local.Codec.{IsCmdStream, IsCmd, get_cmd-put_cmd}
use bf.LocalServer.{
  LocalServer, hash_set, hash_value, send_response, send_rules_data, answer_rules, process_message,
  receive_message,
}
use bf.LocalServer.Relay.{send_response-to, hash_value-hash_set}

abbrev pub get_rules_cmd : ℕ → FilterRule → BfCmd
get_rules_cmd seq fr = record {
  cmd_type_of = bf_cmd_get_rules;
  sequence = seq;
  value = rule_value fr;
}

abbrev pub data_cmd : ℕ → FilterRule → BfCmd
data_cmd seq r = record { cmd_type_of = bf_cmd_data; sequence = seq; value = rule_value r }

abbrev pub done_cmd : ℕ → ℕ → BfCmd
done_cmd seq n = record { cmd_type_of = bf_cmd_done; sequence = seq; value = done_value n }

-- What the server answers with, for a list of rules.
abbrev pub rules_cmds : ℕ → List FilterRule → List BfCmd
rules_cmds seq rs = map (data_cmd seq) rs ++ done_cmd seq (length rs) ∷ []

-- Commands as they are written to a socket.
abbrev pub written_as : CmdStream → ℕ → List BfCmd → List (ℕ × List ℕ)
written_as s socket cmds = map (λ cmd. (socket, write_frame (put_cmd s cmd) [])) cmds

abbrev pub cmds_bytes : CmdStream → List BfCmd → List ℕ
cmds_bytes s cmds = encode (map (put_cmd s) cmds)

-- The server after the rules were listed.
abbrev pub listed : CmdStream → LocalServer → ℕ → ℕ → Link → List FilterRule → LocalServer
listed s sv socket seq l rs = record {
  link = l;
  client_commands = hash_set seq socket sv.client_commands;
  written = sv.written ++ written_as s socket (rules_cmds seq rs);
}

module _ (s : CmdStream) (blank : FilterRule) (law : IsCmdStream s blank) (sent pid : ℕ)
    (send_ok : ℕ → Bool) where
  send_rules_data-written :
      (sv : LocalServer) (socket seq : ℕ) (rs : List FilterRule)
      → hash_value seq sv.client_commands ≡ some socket
      → send_rules_data s sv seq rs
        ≡ record sv { written = sv.written ++ written_as s socket (map (data_cmd seq) rs) }
  unfolding send_rules_data
  send_rules_data-written sv socket seq [] h =
      ap (λ w. record sv { written = w }) (sym (append-nil sv.written))
  send_rules_data-written sv socket seq (r ∷ rs) h =
      let sv1 = record sv {
        written = sv.written ++ (socket, write_frame (put_cmd s (data_cmd seq r)) []) ∷ [];
      } in
      ap (λ x. send_rules_data s x seq rs) (send_response-to s sv socket (data_cmd seq r) h)
      ∙ send_rules_data-written sv1 socket seq rs h
      ∙ ap (λ w. record sv { written = w }) (append_assoc sv.written _ _)

  answer_rules-listed :
      (sv : LocalServer) (socket seq n : ℕ) (l : Link) (rs : List FilterRule)
      → let sv1 = record sv { client_commands = hash_set seq socket sv.client_commands } in
        answer_rules s sv1 seq (l, returned n, rs) ≡ listed s sv socket seq l rs
  unfolding answer_rules
  answer_rules-listed sv socket seq n l rs =
      let sv1 = record sv { link = l; client_commands = hash_set seq socket sv.client_commands } in
      let there = hash_value-hash_set seq socket sv.client_commands in
      let done = done_cmd seq (length rs) in
      ap (λ x. send_response s x bf_cmd_done seq (done_value (length rs)))
        (send_rules_data-written sv1 socket seq rs there)
      ∙ send_response-to s
          (record sv1 { written = sv.written ++ written_as s socket (map (data_cmd seq) rs) })
          socket done there
      ∙ ap (λ w. record sv1 { written = w })
          (append_assoc sv.written _ _
            ∙ ap (λ w. sv.written ++ w) (sym (map-append _ (map (data_cmd seq) rs) (done ∷ []))))

  pub receive_message-get_rules :
      (sv : LocalServer) (socket seq n : ℕ) (pattern : FilterRule) (l : Link) (rs : List FilterRule)
      → IsCmd (get_rules_cmd seq pattern)
      → get_rules sent pid send_ok sv.link (restored blank pattern) ≡ some (l, returned n, rs)
      → receive_message s blank sent pid send_ok socket
          (some sv)
          (put_cmd s (get_rules_cmd seq pattern))
        ≡ some (listed s sv socket seq l rs)
  unfolding receive_message process_message rule_of_value
  receive_message-get_rules sv socket seq n pattern l rs w e =
      let sv1 = record sv { client_commands = hash_set seq socket sv.client_commands } in
      ap
        (λ (cmd : BfCmd).
          process_message s blank sent pid send_ok
            (record sv { client_commands = hash_set cmd.sequence socket sv.client_commands }) cmd)
        (get_cmd-put_cmd s blank law _ w)
      ∙ ap (λ o. o >>= (λ x. some (answer_rules s sv1 seq x))) e
      ∙ ap some (answer_rules-listed sv socket seq n l rs)
