-- ===== src/Examples/Programs.antt =====
-- The theorems on the client and on bfctl at concrete calls.
use bf.Base.{
  ◌+◌, ◌/◌, ◌≡◌, ◌↔◌, refl, true, false, List, [], ◌∷◌, length, find, none, some, any, arith,
}
use bf.Rule.{chain_input, policy_drop, ipproto_udp}
use bf.Store.{rules}
use bf.Store.Refines.{has_base}
use bf.Message.{msg_add_rule, msg_update_rule, msg_delete_rule, msg_chain_policy}
use bf.Listing.{list_rules, ack_every_n_msg}
use bf.Listing.Complete.{delivered, listed_rules}
use bf.Names.{codes, get_chain, get_policy, get_proto}
use bf.Client.{Control, returned, policy_request, get_rules_sync, receive}
use bf.Client.Commands.{answered, add_result, result_for, command-nl_rcv_msg}
use bf.Client.Rules.{fetched, get_rules_sync-list_rules}
use bf.Cli.{
  CmdArgs, LibC, Opt, opt_append, opt_proto, opt_srcport, opt_jump, cmd_append, zeroed_rule,
  parse_cmd_args,
}
use bf.Cli.Aborts.{aborts, parse_cmd_args-returns}
use bf.Cli.Words.{IsLibC}
use bf.Examples.{dns_rule, one_rule}
use bf.Examples.Kernels.{one_rule-IsStore}

abbrev idle : Control
idle = record { attached = false; ruleslst = []; acks = 0 }

command-nl_rcv_msg_example :
    (answered one_rule idle 64 1234 msg_add_rule dns_rule
      ≡ some (idle, add_result dns_rule (rules one_rule.store)))
    × (answered one_rule idle 64 1234 msg_update_rule dns_rule
        ≡ some (idle, result_for (find (has_base dns_rule.base) (rules one_rule.store))))
    × (answered one_rule idle 64 1234 msg_delete_rule dns_rule
        ≡ some (idle, result_for (find (has_base dns_rule.base) (rules one_rule.store))))
    × (answered one_rule idle 64 1234 msg_chain_policy (policy_request dns_rule)
        ≡ some (idle, returned 0))
command-nl_rcv_msg_example = command-nl_rcv_msg one_rule idle 64 1234 dns_rule one_rule-IsStore

get_rules_sync-list_rules_example :
    get_rules_sync
      (returned 64)
      idle
      []
      (receive 1234 (list_rules delivered one_rule 1234 zeroed_rule).sent)
    ≡ some (
      record {
        attached = false;
        ruleslst = fetched one_rule 1234 zeroed_rule;
        acks = 0 + length (listed_rules zeroed_rule one_rule.store) / ack_every_n_msg;
      },
      returned 64,
    )
get_rules_sync-list_rules_example =
    get_rules_sync-list_rules one_rule idle 64 1234 zeroed_rule [] one_rule-IsStore

-- A C library that reads no address and every number as 70000.
abbrev pub libc : LibC
libc = record { inet_pton = λ t. none; atoi = λ t. 70000 }

libc-IsLibC : IsLibC libc
libc-IsLibC t a e = ground arith

abbrev line : List Opt
line =
    opt_append (codes "INPUT")
    ∷ opt_proto (codes "udp")
    ∷ opt_srcport (codes "70000")
    ∷ opt_jump (some (codes "drop"))
    ∷ []

-- `bfctl -A INPUT --proto udp --sport 70000 --jump drop`
abbrev parsed : CmdArgs
parsed = record {
  command = cmd_append;
  fr = record zeroed_rule {
    base = record zeroed_rule.base { chain = chain_input; proto = ipproto_udp; src_port = 4464 };
    policy = policy_drop;
  };
  file_name = [];
  proto_mandatory = true;
}

line-parsed : parse_cmd_args libc [] line ≡ some parsed
unfolding parse_cmd_args get_policy get_chain get_proto
line-parsed = refl

parse_cmd_args-returns_example :
    (parse_cmd_args libc [] (opt_jump none ∷ line) ≡ none)
    ↔ (any aborts (opt_jump none ∷ line) ≡ true)
parse_cmd_args-returns_example = parse_cmd_args-returns libc [] (opt_jump none ∷ line)
