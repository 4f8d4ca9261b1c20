-- ===== src/Cli.antt =====
-- bfctl/utils.cpp, bfctl/utils.h: the command line of bfctl. getopt_long is the C library's: the
-- options that it finds come here as a list, and inet_pton and atoi are parameters.
pub mod Commands
pub mod Aborts
pub mod Words
use bf.Base.{
  ℕ, ◌%◌, ◌^◌, Bool, true, false, not, ◌&&◌, List, [], ◌∷◌, Option, none, some, if◌then◌else◌, ◌==◌,
}
use bf.Rule.{FilterRule, chain_none, policy_none, sw_none, ipproto_notexist}
use bf.Names.{Text, get_proto, get_switch, get_policy, get_chain}

-- enum commands_t
pub data Command : Type 0 where
  cmd_delete cmd_append cmd_list cmd_flush cmd_set_policy cmd_update cmd_load_from_file : Command
  cmd_print_help : Command

-- What getopt_long returns, with `optarg`; `none` stands for NULL.
pub data Opt : Type 0 where
  opt_list opt_append opt_delete opt_flush opt_update : Text → Opt
  opt_srcip opt_off opt_srcport opt_destip opt_destport opt_proto : Text → Opt
  opt_file opt_jump : Option Text → Opt
  -- with the word at `optind`, where there is one
  opt_policy : Text → Option Text → Opt
  -- '?'
  opt_unknown : Opt
  -- any other result
  opt_other : Opt

-- cmd_args and the local variables of parse_cmd_args
pub record CmdArgs : Type 0 where
  pub command : Command
  pub fr : FilterRule
  pub file_name : Text
  pub proto_mandatory : Bool

-- What the command line needs of the C library: the word of a well-formed address, and the 32 bits
-- of the number that a text starts with.
pub record LibC : Type 0 where
  pub inet_pton : Text → Option ℕ
  pub atoi : Text → ℕ

-- The five commands that name a chain do the same.
unfoldable pub set_chain : CmdArgs → Command → Text → CmdArgs
set_chain ca c optarg =
    let chain = get_chain optarg in
    record ca {
      command = if chain == chain_none then cmd_print_help else c;
      fr = record ca.fr { base = record ca.fr.base { chain = chain } };
    }

-- Whether the word after `--policy CHAIN` is an argument.
unfoldable pub is_argument : Text → Bool
is_argument [] = true
is_argument (c ∷ word) = not (c == b'-') && not (c == b'!')

unfoldable pub set_policy : CmdArgs → Text → Option Text → CmdArgs
unfolding is_argument
set_policy ca optarg word =
    let chain = get_chain optarg in
    let ca' = record ca { fr = record ca.fr { base = record ca.fr.base { chain = chain } } } in
    if chain == chain_none then record ca' { command = cmd_print_help } else elim word [
      | none ↦ ca'
      | some w ↦
          if is_argument w
          then record ca' {
            command = if get_policy w == policy_none then cmd_print_help else cmd_set_policy;
            fr = record ca'.fr { policy = get_policy w };
          }
          else ca'
    ]

-- The address that inet_pton found, or else the one that was there.
unfoldable pub converted : Option ℕ → ℕ → ℕ
converted none old = old
converted (some addr) old = addr

-- One round of the loop of parse_cmd_args; `none` where the program aborts or reads through NULL.
unfoldable pub parse_option : LibC → CmdArgs → Opt → Option CmdArgs
unfolding set_chain set_policy converted
parse_option c ca (opt_list optarg) = some (set_chain ca cmd_list optarg)
parse_option c ca (opt_append optarg) = some (set_chain ca cmd_append optarg)
parse_option c ca (opt_delete optarg) = some (set_chain ca cmd_delete optarg)
parse_option c ca (opt_flush optarg) = some (set_chain ca cmd_flush optarg)
parse_option c ca (opt_update optarg) = some (set_chain ca cmd_update optarg)
parse_option c ca (opt_file none) = some (record ca { command = cmd_print_help })
parse_option c ca (opt_file (some optarg)) =
    some (record ca { command = cmd_load_from_file; file_name = optarg })
parse_option c ca (opt_srcip optarg) =
    let addr = converted (c.inet_pton optarg) ca.fr.base.s_addr in
    some (record ca { fr = record ca.fr { base = record ca.fr.base { s_addr = addr } } })
parse_option c ca (opt_destip optarg) =
    let addr = converted (c.inet_pton optarg) ca.fr.base.d_addr in
    some (record ca { fr = record ca.fr { base = record ca.fr.base { d_addr = addr } } })
parse_option c ca (opt_off optarg) = some (record ca {
  command = if get_switch optarg == sw_none then cmd_print_help else ca.command;
  fr = record ca.fr { off = get_switch optarg };
  proto_mandatory = true;
})
parse_option c ca (opt_srcport optarg) =
    let port = c.atoi optarg % 2 ^ 16 in
    some (record ca { fr = record ca.fr { base = record ca.fr.base { src_port = port } } })
parse_option c ca (opt_destport optarg) =
    let port = c.atoi optarg % 2 ^ 16 in
    some (record ca { fr = record ca.fr { base = record ca.fr.base { dst_port = port } } })
parse_option c ca (opt_proto optarg) =
    let proto = get_proto optarg in
    some (record ca {
      command = if proto == ipproto_notexist then cmd_print_help else ca.command;
      fr = record ca.fr { base = record ca.fr.base { proto = proto } };
      proto_mandatory = true;
    })
parse_option c ca (opt_policy optarg word) = some (set_policy ca optarg word)
parse_option c ca (opt_jump none) = none
parse_option c ca (opt_jump (some optarg)) = some (record ca {
  command = if get_policy optarg == policy_none then cmd_print_help else ca.command;
  fr = record ca.fr { policy = get_policy optarg };
})
parse_option c ca opt_unknown = some ca
parse_option c ca opt_other = none

unfoldable pub parse_options : LibC → CmdArgs → List Opt → Option CmdArgs
unfolding parse_option
parse_options c ca [] = some ca
parse_options c ca (o ∷ os) = elim (parse_option c ca o) [
  | none ↦ none
  | some ca' ↦ parse_options c ca' os
]

unfoldable pub needs_proto : Command → Bool
needs_proto cmd_append = true
needs_proto cmd_delete = true
needs_proto _ = false

-- memset(fr, 0, sizeof(filter_rule_t))
abbrev pub zeroed_rule : FilterRule
zeroed_rule = record {
  h_dest = 0 ∷ 0 ∷ 0 ∷ 0 ∷ 0 ∷ 0 ∷ [];
  h_source = 0 ∷ 0 ∷ 0 ∷ 0 ∷ 0 ∷ 0 ∷ [];
  base = record { chain = 0; proto = 0; src_port = 0; dst_port = 0; s_addr = 0; d_addr = 0 };
  off = 0;
  policy = 0;
  id = 0;
}

abbrev pub initial : Text → CmdArgs
initial file_name = record {
  command = cmd_print_help;
  fr = zeroed_rule;
  file_name = file_name;
  proto_mandatory = false;
}

unfoldable pub check_proto : CmdArgs → CmdArgs
unfolding needs_proto
check_proto ca =
    if not ca.proto_mandatory && needs_proto ca.command
    then record ca { command = cmd_print_help }
    else ca

unfoldable pub parse_cmd_args : LibC → Text → List Opt → Option CmdArgs
unfolding parse_options check_proto
parse_cmd_args c file_name os = elim (parse_options c (initial file_name) os) [
  | none ↦ none
  | some ca ↦ some (check_proto ca)
]
