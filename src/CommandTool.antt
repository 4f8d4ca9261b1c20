-- ===== src/CommandTool.antt =====
-- bf-ko/bf_cmd.c, the command tool that is older than bfctl: its command line. getopt_long, inet_pton
-- and atoi are the C library's, as for bfctl: the options that getopt_long finds come as a list.
pub mod Agrees
pub mod Main
use bf.Base.{
  ℕ, ◌%◌, ◌^◌, Bool, true, false, not, ◌&&◌, List, [], ◌∷◌, Option, none, some, if◌then◌else◌, ◌==◌,
}
use bf.Rule.{FilterRule, chain_none, sw_none, ipproto_notexist}
use bf.Names.{Text, get_proto, get_switch, get_policy, get_chain}
use bf.Cli.{LibC, converted, zeroed_rule}

-- enum commands_t
pub data ToolCommand : Type 0 where
  cmd_none cmd_insert cmd_delete cmd_append cmd_list cmd_flush cmd_set_policy : ToolCommand
  cmd_update cmd_load_from_file cmd_print_help : ToolCommand

-- What getopt_long returns, with `optarg`; `none` stands for NULL, which the short option `-j`, to
-- which the option string gives no argument, has.
pub data ToolOpt : Type 0 where
  opt_list opt_append opt_delete opt_flush opt_policy : Text → ToolOpt
  opt_srcip opt_off opt_srcport opt_destip opt_destport opt_proto : Text → ToolOpt
  opt_file opt_jump : Option Text → ToolOpt
  -- 0, 'm', 'n' and '?'
  opt_ignored : ToolOpt
  -- any other result
  opt_other : ToolOpt

-- The command and the rule that parse_cmd_args hands back, and its `proto_mandatory`. The name of a
-- file stays in its parameter, where nothing reads it.
pub record ToolArgs : Type 0 where
  pub command : ToolCommand
  pub fr : FilterRule
  pub proto_mandatory : Bool

-- The four commands that name a chain do the same.
unfoldable pub tool_chain : ToolArgs → ToolCommand → Text → ToolArgs
tool_chain ta c optarg =
    let chain = get_chain optarg in
    record ta {
      command = if chain == chain_none then cmd_print_help else c;
      fr = record ta.fr { base = record ta.fr.base { chain = chain } };
    }

-- One round of the loop of parse_cmd_args; `none` where the program aborts or reads through NULL.
unfoldable pub tool_option : LibC → ToolArgs → ToolOpt → Option ToolArgs
unfolding tool_chain converted
tool_option c ta (opt_list optarg) = some (tool_chain ta cmd_list optarg)
tool_option c ta (opt_file none) = some (record ta { command = cmd_print_help })
tool_option c ta (opt_file (some optarg)) = some (record ta { command = cmd_load_from_file })
tool_option c ta (opt_append optarg) = some (tool_chain ta cmd_append optarg)
tool_option c ta (opt_delete optarg) = some (tool_chain ta cmd_delete optarg)
tool_option c ta (opt_flush optarg) = some (tool_chain ta cmd_flush optarg)
tool_option c ta (opt_srcip optarg) =
    let addr = converted (c.inet_pton optarg) ta.fr.base.s_addr in
    some (record ta { fr = record ta.fr { base = record ta.fr.base { s_addr = addr } } })
tool_option c ta (opt_off optarg) = some (record ta {
  command = if get_switch optarg == sw_none then cmd_print_help else ta.command;
  fr = record ta.fr { off = get_switch optarg };
  proto_mandatory = true;
})
tool_option c ta (opt_srcport optarg) =
    let port = c.atoi optarg % 2 ^ 16 in
    some (record ta { fr = record ta.fr { base = record ta.fr.base { src_port = port } } })
tool_option c ta (opt_destip optarg) =
    let addr = converted (c.inet_pton optarg) ta.fr.base.d_addr in
    some (record ta { fr = record ta.fr { base = record ta.fr.base { d_addr = addr } } })
tool_option c ta (opt_destport optarg) =
    let port = c.atoi optarg % 2 ^ 16 in
    some (record ta { fr = record ta.fr { base = record ta.fr.base { dst_port = port } } })
tool_option c ta (opt_proto optarg) =
    let proto = get_proto optarg in
    some (record ta {
      command = if proto == ipproto_notexist then cmd_print_help else ta.command;
      fr = record ta.fr { base = record ta.fr.base { proto = proto } };
      proto_mandatory = true;
    })
tool_option c ta (opt_policy optarg) =
    some (record ta { command = cmd_set_policy; fr = record ta.fr { policy = get_policy optarg } })
tool_option c ta (opt_jump none) = none
tool_option c ta (opt_jump (some optarg)) =
    some (record ta { fr = record ta.fr { policy = get_policy optarg } })
tool_option c ta opt_ignored = some ta
tool_option c ta opt_other = none

unfoldable pub tool_options : LibC → ToolArgs → List ToolOpt → Option ToolArgs
unfolding tool_option
tool_options c ta [] = some ta
tool_options c ta (o ∷ os) = elim (tool_option c ta o) [
  | none ↦ none
  | some ta' ↦ tool_options c ta' os
]

unfoldable pub tool_needs_proto : ToolCommand → Bool
tool_needs_proto cmd_append = true
tool_needs_proto cmd_delete = true
tool_needs_proto _ = false

unfoldable pub tool_check_proto : ToolArgs → ToolArgs
unfolding tool_needs_proto
tool_check_proto ta =
    if not ta.proto_mandatory && tool_needs_proto ta.command
    then record ta { command = cmd_print_help }
    else ta

abbrev pub tool_initial : ToolArgs
tool_initial = record { command = cmd_print_help; fr = zeroed_rule; proto_mandatory = false }

-- parse_cmd_args
unfoldable pub tool_args : LibC → List ToolOpt → Option ToolArgs
unfolding tool_options tool_check_proto
tool_args c os = elim (tool_options c tool_initial os) [
  | none ↦ none
  | some ta ↦ some (tool_check_proto ta)
]
