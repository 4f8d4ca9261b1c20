-- ===== src/LocalServer/Rules.antt =====
-- getRulesSync through the service, against getRulesSync of the service's own BFControl.
use bf.Base.{
  ℕ, ◌^◌, ◌<◌, ◌≡◌, refl, sym, ap, ◌∙◌, List, [], ◌∷◌, ◌++◌, All, append_assoc, append-nil, map,
  length, Option, none, some, if◌then◌else◌, ltb, Bool, true, false,
}
use bf.Rule.{FilterRule}
use bf.Stream.{IsRule}
use bf.Stream.Laws.{restored}
use bf.Frames.{Reader, on_chunks}
use bf.Frames.Sizes.{IsFrame, concat, handle_all}
use bf.Frames.Chunks.{on_chunks-encode}
use bf.Client.{Control, Result, returned, failed, wait_for, get_rules_for, set_error, is_done}
use bf.Link.{Link, get_rules}
use bf.Local.{
  BfCmd, CmdStream, put_cmd, rule_of_value, send_command, read_command, local_get_rules,
  local_process,
}
use bf.Local.Codec.{IsCmdStream, IsCmd, carried, get_cmd-put_cmd, put_cmd-IsFrame}
use bf.LocalServer.{LocalServer, receive_message}
use bf.LocalServer.Relay.{idle_reader}
use bf.LocalServer.Listed.{
  get_rules_cmd, data_cmd, done_cmd, rules_cmds, cmds_bytes, listed, receive_message-get_rules,
}

module _ (s : CmdStream) (blank : FilterRule) (law : IsCmdStream s blank) (sent pid : ℕ)
    (send_ok : ℕ → Bool) where
  -- The commands as they are read.
  abbrev carried_cmd : BfCmd → BfCmd
  carried_cmd cmd = record cmd { value = carried blank cmd.value }

  read_commands :
      (cmds given : List BfCmd)
      → All IsCmd cmds
      → handle_all (read_command s) given (map (put_cmd s) cmds) ≡ given ++ map carried_cmd cmds
  unfolding read_command
  read_commands [] given w = sym (append-nil given)
  read_commands (cmd ∷ cmds) given w =
      ap (λ x. handle_all (read_command s) (given ++ x ∷ []) (map (put_cmd s) cmds))
        (get_cmd-put_cmd s blank law cmd w.0)
      ∙ read_commands cmds (given ++ carried_cmd cmd ∷ []) w.1
      ∙ append_assoc given (carried_cmd cmd ∷ []) (map carried_cmd cmds)

  rules_cmds-IsCmd :
      (seq : ℕ) (rs : List FilterRule) (n : ℕ)
      → seq < 2 ^ 32
      → n < 2 ^ 32
      → All IsRule rs
      → All IsCmd (map (data_cmd seq) rs ++ done_cmd seq n ∷ [])
  rules_cmds-IsCmd seq [] n u small w = (record { named = tt; sequence_u32 = u; words = small }, tt)
  rules_cmds-IsCmd seq (r ∷ rs) n u small w =
      (record { named = tt; sequence_u32 = u; words = w.0 }, rules_cmds-IsCmd seq rs n u small w.1)

  All-IsFrame : (cmds : List BfCmd) → All IsFrame (map (put_cmd s) cmds)
  All-IsFrame [] = tt
  All-IsFrame (cmd ∷ cmds) = (put_cmd-IsFrame s blank law cmd, All-IsFrame cmds)

  wait-rules_cmds :
      (given rs : List FilterRule) (acks seq n : ℕ)
      → wait_for
          (local_process blank)
          is_done
          (record { attached = true; ruleslst = given; acks = acks })
          0
          (map carried_cmd (map (data_cmd seq) rs ++ done_cmd seq n ∷ []))
        ≡ some (
          record { attached = false; ruleslst = given ++ map (restored blank) rs; acks = acks },
          0,
        )
  unfolding wait_for local_process rule_of_value set_error is_done
  wait-rules_cmds given [] acks seq n =
      ap (λ l. some (record { attached = false; ruleslst = l; acks = acks }, 0))
        (sym (append-nil given))
  wait-rules_cmds given (r ∷ rs) acks seq n =
      wait-rules_cmds (given ++ restored blank r ∷ []) rs acks seq n
      ∙ ap (λ l. some (record { attached = false; ruleslst = l; acks = acks }, 0))
          (append_assoc given (restored blank r ∷ []) (map (restored blank) rs))

  local_get_rules-carried :
      (c : Control) (given rs : List FilterRule) (n seq : ℕ)
      → local_get_rules blank (returned n) c given (map carried_cmd (rules_cmds seq rs))
        ≡ some (
          record { attached = false; ruleslst = given ++ map (restored blank) rs; acks = c.acks },
          returned n,
        )
  unfolding local_get_rules get_rules_for
  local_get_rules-carried c given rs n seq =
      ap
        (λ (o : Option (Control × ℕ)).
          let r : Option (Control × Result) = elim o [
            | none ↦ none
            | some (c', e) ↦
                some (record c' { attached = false }, if ltb 0 e then failed e else returned n)
          ] in
          r)
        (wait-rules_cmds given rs c.acks seq (length rs))

  -- A program's getRulesSync through the service, when the service's own BFControl gets rules for the
  -- pattern, whose fields are words of their widths: however the request and the answers are split on
  -- their way, the service writes each rule and then their number to the program's socket, and the
  -- program appends exactly these rules to its list in their order, less their numbers and hardware
  -- addresses, returns what its send has returned and keeps no pointer to the list.
  pub local_get_rules-direct :
      (sv : LocalServer) (c : Control) (seq socket n m : ℕ) (pattern : FilterRule)
      (given rs : List FilterRule) (l : Link) (requests answers : List (List ℕ))
      → seq < 2 ^ 32
      → IsRule pattern
      → All IsRule rs
      → length rs < 2 ^ 32
      → get_rules sent pid send_ok sv.link (restored blank pattern) ≡ some (l, returned m, rs)
      → concat requests ≡ send_command s (get_rules_cmd seq pattern)
      → concat answers ≡ cmds_bytes s (rules_cmds seq rs)
      → (r : Reader) × (q : Reader) × (cmds : List BfCmd) × (on_chunks
            (receive_message s blank sent pid send_ok socket)
            idle_reader
            (some sv)
            requests
          ≡ some (r, some (listed s sv socket seq l rs)))
        × (on_chunks (read_command s) idle_reader [] answers ≡ some (q, cmds))
        × (local_get_rules blank (returned n) c given cmds
            ≡ some (
              record {
                attached = false;
                ruleslst = given ++ map (restored blank) rs;
                acks = c.acks;
              },
              returned n,
            ))
  unfolding send_command
  local_get_rules-direct sv c seq socket n m pattern given rs l requests answers u w ws small e
        sends replies =
      let request = get_rules_cmd seq pattern in
      let cmds = rules_cmds seq rs in
      let at_server =
        on_chunks-encode (receive_message s blank sent pid send_ok socket) idle_reader
          (put_cmd s request ∷ []) (some sv) requests refl refl
          (put_cmd-IsFrame s blank law request, tt) sends in
      let at_client =
        on_chunks-encode (read_command s) idle_reader (map (put_cmd s) cmds) [] answers refl refl
          (All-IsFrame cmds) replies in
      (
        at_server.0,
        at_client.0,
        map carried_cmd cmds,
        at_server.1
            ∙ ap (λ x. some (at_server.0, x))
                (receive_message-get_rules s blank law sent pid send_ok sv socket seq m pattern l rs
                  (record { named = tt; sequence_u32 = u; words = w }) e),
        at_client.1
            ∙ ap (λ x. some (at_client.0, x))
                (read_commands cmds [] (rules_cmds-IsCmd seq rs (length rs) u small ws)),
        local_get_rules-carried c given rs n seq,
      )
