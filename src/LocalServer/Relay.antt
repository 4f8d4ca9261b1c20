-- ===== src/LocalServer/Relay.antt =====
-- A command that goes through the service, against the same command of the service's own BFControl.
use bf.Base.{
  ℕ, zero, suc, ◌^◌, ◌<◌, ◌≡◌, refl, ap, ◌∙◌, List, [], ◌∷◌, ◌++◌, Option, none, some, ◌>>=◌, arith,
  Bool,
}
use bf.Rule.{FilterRule}
use bf.Stream.{IsRule}
use bf.Stream.Laws.{restored}
use bf.Message.{msg_add_rule, msg_update_rule, msg_delete_rule, msg_chain_policy}
use bf.Frames.{Reader, write_frame, on_chunks}
use bf.Frames.Sizes.{concat}
use bf.Frames.Chunks.{on_chunks-encode}
use bf.Client.{
  Control, Result, returned, negative, policy_request, wait_for, command_for, set_error, is_error,
}
use bf.Link.{Link, call, delete_rules_sent}
use bf.Local.{
  CmdType, bf_cmd_add_rule, bf_cmd_delete_rule, bf_cmd_delete_all_rules, bf_cmd_update_rule,
  bf_cmd_chain_policy, bf_cmd_err, unnamed, rule_value, err_value, BfCmd, CmdStream, put_cmd,
  rule_of_value, code_of_value, send_command, read_command, local_command, local_process,
}
use bf.Local.Codec.{IsCmdStream, IsCmd, Named, get_cmd-put_cmd, put_cmd-IsFrame}
use bf.LocalServer.{
  LocalServer, hash_set, hash_value, code_of, send_response, answer, relay, process_message,
  receive_message,
}

-- A socket's slot before any bytes have come.
abbrev pub idle_reader : Reader
idle_reader = record { wanted = 0; available = [] }

-- What BFControl does for a command of this type.
abbrev pub direct : ℕ → ℕ → Link → CmdType → FilterRule → Option (Link × Result)
direct sent pid l bf_cmd_add_rule fr = call sent pid msg_add_rule l fr
direct sent pid l bf_cmd_update_rule fr = call sent pid msg_update_rule l fr
direct sent pid l bf_cmd_delete_rule fr = call sent pid msg_delete_rule l fr
direct sent pid l bf_cmd_delete_all_rules fr = some (delete_rules_sent sent pid l fr)
direct sent pid l bf_cmd_chain_policy fr = call sent pid msg_chain_policy l (policy_request fr)
direct sent pid l t fr = none

code_of-negative : (e : ℕ) → e < 2 ^ 16 → code_of (negative e) ≡ e
unfolding code_of negative
code_of-negative zero h = omega arith
code_of-negative (suc n) h = omega arith

pub hash_value-hash_set :
    (key v : ℕ) (h : List (ℕ × ℕ)) → hash_value key (hash_set key v h) ≡ some v
unfolding hash_value hash_set
hash_value-hash_set key v h = ground arith

none_ne_some : {A : Type 0} {a : A} → none ≡ some a → ⊥
none_ne_some e = cc

-- The bytes of a command, and of the answer with the code of an error.
abbrev pub command_of : CmdType → ℕ → FilterRule → BfCmd
command_of t seq fr = record { cmd_type_of = t; sequence = seq; value = rule_value fr }

abbrev pub answer_of : ℕ → ℕ → BfCmd
answer_of seq e = record { cmd_type_of = bf_cmd_err; sequence = seq; value = err_value e }

abbrev command_bytes : CmdStream → CmdType → ℕ → FilterRule → List ℕ
command_bytes s t seq fr =
    put_cmd s (record { cmd_type_of = t; sequence = seq; value = rule_value fr })

abbrev pub answer_bytes : CmdStream → ℕ → ℕ → List ℕ
answer_bytes s seq e =
    put_cmd s (record { cmd_type_of = bf_cmd_err; sequence = seq; value = err_value e })

-- The server after the command was carried out and answered.
abbrev pub served : CmdStream → LocalServer → ℕ → ℕ → Link → ℕ → LocalServer
served s sv socket seq l e = record {
  link = l;
  client_commands = hash_set seq socket sv.client_commands;
  written = sv.written ++ (socket, write_frame (answer_bytes s seq e) []) ∷ [];
}

pub send_response-to :
    (s : CmdStream) (sv : LocalServer) (socket : ℕ) (cmd : BfCmd)
    → hash_value cmd.sequence sv.client_commands ≡ some socket
    → send_response s sv cmd.cmd_type_of cmd.sequence cmd.value
      ≡ record sv { written = sv.written ++ (socket, write_frame (put_cmd s cmd) []) ∷ [] }
unfolding send_response
send_response-to s sv socket cmd e =
    ap
      (λ (o : Option ℕ).
        let r : LocalServer = elim o [
          | none ↦ sv
          | some x ↦ record sv { written = sv.written ++ (x, write_frame (put_cmd s cmd) []) ∷ [] }
        ] in
        r)
      e

module _ (s : CmdStream) (blank : FilterRule) (law : IsCmdStream s blank) (sent pid : ℕ)
    (send_ok : ℕ → Bool) where
  process_message-direct :
      (sv : LocalServer) (t : CmdType) (seq : ℕ) (fr : FilterRule) (result : Link × Result)
      → direct sent pid sv.link t fr ≡ some result
      → process_message s blank sent pid send_ok sv
          (record { cmd_type_of = t; sequence = seq; value = rule_value fr })
        ≡ some (answer s sv seq result)
  unfolding process_message relay rule_of_value
  process_message-direct sv bf_cmd_add_rule seq fr result e =
      ap (λ o. o >>= (λ x. some (answer s sv seq x))) e
  process_message-direct sv bf_cmd_update_rule seq fr result e =
      ap (λ o. o >>= (λ x. some (answer s sv seq x))) e
  process_message-direct sv bf_cmd_delete_rule seq fr result e =
      ap (λ o. o >>= (λ x. some (answer s sv seq x))) e
  process_message-direct sv bf_cmd_delete_all_rules seq fr result e =
      ap (λ o. o >>= (λ x. some (answer s sv seq x))) e
  process_message-direct sv bf_cmd_chain_policy seq fr result e =
      ap (λ o. o >>= (λ x. some (answer s sv seq x))) e
  process_message-direct sv _ seq fr result e = absurd (none_ne_some e)

  named_direct :
      (l : Link) (t : CmdType) (fr : FilterRule) (result : Link × Result)
      → direct sent pid l t fr ≡ some result
      → Named t
  named_direct l (unnamed n) fr result e = absurd (none_ne_some e)
  named_direct l _ fr result e = tt

  receive_message-direct :
      (sv : LocalServer) (socket : ℕ) (t : CmdType) (seq : ℕ) (fr : FilterRule) (l : Link) (e : ℕ)
      → IsCmd (record { cmd_type_of = t; sequence = seq; value = rule_value fr })
      → direct sent pid sv.link t (restored blank fr) ≡ some (l, negative e)
      → e < 2 ^ 16
      → receive_message s blank sent pid send_ok socket (some sv) (command_bytes s t seq fr)
        ≡ some (served s sv socket seq l e)
  unfolding receive_message answer send_response
  receive_message-direct sv socket t seq fr l e w d small =
      let sv1 = record sv { client_commands = hash_set seq socket sv.client_commands } in
      ap
        (λ (cmd : BfCmd).
          process_message s blank sent pid send_ok
            (record sv { client_commands = hash_set cmd.sequence socket sv.client_commands }) cmd)
        (get_cmd-put_cmd s blank law _ w)
      ∙ process_message-direct sv1 t seq (restored blank fr) (l, negative e) d
      ∙ ap
          (λ (code : ℕ).
            some (send_response s (record sv1 { link = l }) bf_cmd_err seq (err_value code)))
          (code_of-negative e small)
      ∙ ap some (
          send_response-to s (record sv1 { link = l }) socket (answer_of seq e)
            (hash_value-hash_set seq socket sv.client_commands))

  read_command-answer :
      (seq e : ℕ)
      → seq < 2 ^ 32
      → e < 2 ^ 16
      → read_command s [] (answer_bytes s seq e)
        ≡ record { cmd_type_of = bf_cmd_err; sequence = seq; value = err_value e } ∷ []
  unfolding read_command
  read_command-answer seq e u small =
      ap (λ cmd. cmd ∷ [])
        (get_cmd-put_cmd s blank law _ (record { named = tt; sequence_u32 = u; words = small }))

  local_command-answer :
      (c : Control) (n seq e : ℕ)
      → local_command blank
          (returned n)
          c
          (record { cmd_type_of = bf_cmd_err; sequence = seq; value = err_value e } ∷ [])
        ≡ some (c, negative e)
  unfolding local_command command_for wait_for local_process code_of_value set_error is_error
  local_command-answer c n seq e = refl

  -- A program's addRule, updateRule, deleteRule, deleteRules or setChainPolicy through the service, with
  -- a rule whose fields are words of their widths, when the service's own BFControl would return success
  -- or an error code for the rule, less its number and hardware addresses: however the request and the
  -- answer are split on their way, the service does what its BFControl does, writes one answer to the
  -- program's socket, and the program's command returns what the BFControl has returned.
  pub local_command-direct :
      (sv : LocalServer) (c : Control) (t : CmdType) (seq socket n e : ℕ) (fr : FilterRule)
      (l : Link) (requests answers : List (List ℕ))
      → seq < 2 ^ 32
      → IsRule fr
      → e < 2 ^ 16
      → direct sent pid sv.link t (restored blank fr) ≡ some (l, negative e)
      → concat requests
        ≡ send_command s (record { cmd_type_of = t; sequence = seq; value = rule_value fr })
      → concat answers ≡ write_frame (answer_bytes s seq e) []
      → (r : Reader) × (q : Reader) × (cmds : List BfCmd) × (on_chunks
            (receive_message s blank sent pid send_ok socket)
            idle_reader
            (some sv)
            requests
          ≡ some (r, some (served s sv socket seq l e)))
        × (on_chunks (read_command s) idle_reader [] answers ≡ some (q, cmds))
        × (local_command blank (returned n) c cmds ≡ some (c, negative e))
  unfolding send_command
  local_command-direct sv c t seq socket n e fr l requests answers u w small d sends replies =
      let named = named_direct sv.link t (restored blank fr) (l, negative e) d in
      let request = command_bytes s t seq fr in
      let at_server =
        on_chunks-encode (receive_message s blank sent pid send_ok socket) idle_reader
          (request ∷ []) (some sv) requests refl refl
          (put_cmd-IsFrame s blank law (command_of t seq fr), tt) sends in
      let at_client =
        on_chunks-encode (read_command s) idle_reader (answer_bytes s seq e ∷ []) [] answers refl
          refl (put_cmd-IsFrame s blank law (answer_of seq e), tt) replies in
      (
        at_server.0,
        at_client.0,
        _,
        at_server.1
            ∙ ap (λ x. some (at_server.0, x))
                (receive_message-direct sv socket t seq fr l e
                  (record { named = named; sequence_u32 = u; words = w }) d small),
        at_client.1 ∙ ap (λ x. some (at_client.0, x)) (read_command-answer seq e u small),
        local_command-answer c n seq e,
      )
