-- ===== src/Examples/Sockets.antt =====
-- The theorems on local sockets at a concrete stream, server and rules.
use bf.Base.{
  ℕ, ◌^◌, ◌<◌, ◌≡◌, refl, false, not, List, [], ◌∷◌, ◌++◌, append-nil, map, length, All, filter,
  some, arith, ◌==◌,
}
use bf.Rule.{FilterRule, policy_rule, chain_all}
use bf.Stream.{IsRule}
use bf.Stream.Laws.{restored}
use bf.Store.{add_rule, init_rules}
use bf.Kernel.{init_module}
use bf.Listing.{selected, policy_message}
use bf.Listing.Complete.{delivered}
use bf.Client.{Control, returned, negative}
use bf.Client.Rules.{fetched}
use bf.Link.{Link, get_rules}
use bf.Link.Adding.{call-add_result, after_add}
use bf.LocalServer.Session.{Session}
use bf.Frames.{Reader, write_frame, on_chunks}
use bf.Frames.Sizes.{handle_all}
use bf.Frames.Chunks.{on_chunks-encode}
use bf.Local.{bf_cmd_add_rule, BfCmd, send_command, read_command, local_command, local_get_rules}
use bf.LocalServer.{LocalServer, receive_message, destroy_socket}
use bf.LocalServer.Sockets.{IsHash, destroy_socket-filter}
use bf.LocalServer.Relay.{
  direct, command_of, answer_bytes, idle_reader, served, local_command-direct,
}
use bf.LocalServer.Rules.{local_get_rules-direct}
use bf.Service.{chain_pattern}
use bf.Service.Fetching.{get_rules-fetched, fetched-IsRule, after_listing}
use bf.Cli.{zeroed_rule}
use bf.Examples.{dns_rule, started, one_rule}
use bf.Examples.Kernels.{started-IsStore, one_rule-IsStore}
use bf.Examples.Services.{dns_rule-IsRule, idle}
use bf.Examples.Commands.{tagged, tagged-IsCmdStream}
use bf.LocalServer.Listed.{get_rules_cmd, rules_cmds, cmds_bytes, listed}

abbrev collect : List (List ℕ) → List ℕ → List (List ℕ)
collect xs x = xs ++ x ∷ []

-- Two messages, of which the first arrives in three parts and the last with the second message.
on_chunks-encode_example :
    (r : Reader) × (on_chunks collect idle_reader []
        ((2 ∷ 0 ∷ []) ∷ (0 ∷ 0 ∷ 7 ∷ []) ∷ (8 ∷ 1 ∷ 0 ∷ 0 ∷ 0 ∷ 9 ∷ []) ∷ [])
      ≡ some (r, handle_all collect [] ((7 ∷ 8 ∷ []) ∷ (9 ∷ []) ∷ [])))
unfolding write_frame
on_chunks-encode_example =
    on_chunks-encode collect idle_reader ((7 ∷ 8 ∷ []) ∷ (9 ∷ []) ∷ []) []
      ((2 ∷ 0 ∷ []) ∷ (0 ∷ 0 ∷ 7 ∷ []) ∷ (8 ∷ 1 ∷ 0 ∷ 0 ∷ 0 ∷ 9 ∷ []) ∷ []) refl refl
      ((omega arith, omega arith), ((omega arith, omega arith), tt)) refl

abbrev server : LocalServer
server = record {
  link = record { kernel = started; control = idle };
  client_commands = (7, 1) ∷ (8, 2) ∷ (9, 1) ∷ [];
  written = [];
}

server-IsHash : IsHash server.client_commands
server-IsHash key = ground arith

destroy_socket-filter_example :
    destroy_socket 1 server
    ≡ record server { client_commands = filter (λ e. not (e.1 == 1)) server.client_commands }
destroy_socket-filter_example = destroy_socket-filter server 1 server-IsHash

-- BFControl's addRule of the service, for the rule as it arrives.
abbrev after_dns : Link
after_dns = record {
  kernel = after_add 1234 started (restored zeroed_rule dns_rule);
  control = idle;
}

added_dns :
    direct 0 1234 server.link bf_cmd_add_rule (restored zeroed_rule dns_rule)
    ≡ some (after_dns, negative 0)
unfolding negative policy_rule init_module init_rules
added_dns = call-add_result 0 1234 started idle (restored zeroed_rule dns_rule) started-IsStore

local_command-direct_example :
    (r : Reader) × (q : Reader) × (cmds : List BfCmd) × (on_chunks
        (receive_message tagged zeroed_rule 0 1234 delivered 3)
        idle_reader
        (some server)
        (send_command tagged (command_of bf_cmd_add_rule 77 dns_rule) ∷ [])
      ≡ some (r, some (served tagged server 3 77 after_dns 0)))
    × (on_chunks
          (read_command tagged)
          idle_reader
          []
          (write_frame (answer_bytes tagged 77 0) [] ∷ [])
        ≡ some (q, cmds))
    × (local_command zeroed_rule (returned 5) idle cmds ≡ some (idle, negative 0))
local_command-direct_example =
    local_command-direct tagged zeroed_rule tagged-IsCmdStream 0 1234 delivered server idle
      bf_cmd_add_rule 77 3 5 0 dns_rule after_dns _ _ (omega arith) dns_rule-IsRule (omega arith)
      added_dns (append-nil _) (append-nil _)

abbrev one_server : LocalServer
one_server = record server { link = record { kernel = one_rule; control = idle } }

-- A listing of both chains: the two policies, and the rule.
abbrev answered_rules : List FilterRule
answered_rules = fetched one_rule 1234 (chain_pattern chain_all)

answered_rules-IsRule : All IsRule answered_rules
unfolding add_rule init_module init_rules
answered_rules-IsRule = fetched-IsRule one_rule 1234 (dns_rule-IsRule, tt)

few : length answered_rules < 2 ^ 32
unfolding add_rule init_module init_rules selected policy_message
few = omega arith

abbrev fetched_one :
    (d : Control) × (get_rules 0 1234 delivered one_server.link (chain_pattern chain_all)
      ≡ some (
        record { kernel = after_listing 1234 one_rule (chain_pattern chain_all); control = d },
        returned 0,
        answered_rules,
      ))
fetched_one = get_rules-fetched 0 1234 one_rule idle (chain_pattern chain_all) one_rule-IsStore

abbrev listed_link : Link
listed_link = record {
  kernel = after_listing 1234 one_rule (chain_pattern chain_all);
  control = fetched_one.0;
}

chain_all-IsRule : IsRule (chain_pattern chain_all)
chain_all-IsRule = record {
  words = record {
    chain_u8 = omega arith;
    proto_u16 = omega arith;
    src_port_u16 = omega arith;
    dst_port_u16 = omega arith;
    s_addr_u32 = omega arith;
    d_addr_u32 = omega arith;
  };
  off_u8 = omega arith;
  policy_u8 = omega arith;
}

local_get_rules-direct_example :
    (r : Reader) × (q : Reader) × (cmds : List BfCmd) × (on_chunks
        (receive_message tagged zeroed_rule 0 1234 delivered 3)
        idle_reader
        (some one_server)
        (send_command tagged (get_rules_cmd 77 (chain_pattern chain_all)) ∷ [])
      ≡ some (r, some (listed tagged one_server 3 77 listed_link answered_rules)))
    × (on_chunks
          (read_command tagged)
          idle_reader
          []
          (cmds_bytes tagged (rules_cmds 77 answered_rules) ∷ [])
        ≡ some (q, cmds))
    × (local_get_rules zeroed_rule (returned 5) idle [] cmds
        ≡ some (
          record {
            attached = false;
            ruleslst = map (restored zeroed_rule) answered_rules;
            acks = 0;
          },
          returned 5,
        ))
local_get_rules-direct_example =
    local_get_rules-direct tagged zeroed_rule tagged-IsCmdStream 0 1234 delivered one_server idle 77
      3 5 0 (chain_pattern chain_all) [] answered_rules listed_link _ _ (omega arith)
      chain_all-IsRule answered_rules-IsRule few fetched_one.1 (append-nil _) (append-nil _)

abbrev session : Session
session = record { server = one_server; control = idle; commands = 0 }
