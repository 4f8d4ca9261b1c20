-- ===== src/CommandTool/Agrees.antt =====
-- The command line of the old tool against the one of bfctl.
use bf.Base.{
  ◌≡◌, refl, ap, ◌∙◌, Bool, true, false, ◌≢◌, List, [], ◌∷◌, Option, none, some, All, map,
  if◌then◌else◌, ==_ne, arith,
}
use bf.Rule.{policy_none}
use bf.Names.{Text, get_policy}
use bf.Cli
use bf.Cli.{
  LibC, parse_option, parse_options, parse_cmd_args, set_chain, check_proto, needs_proto, CmdArgs,
  converted, initial,
}
use bf.CommandTool.{
  ToolCommand, ToolOpt, ToolArgs, tool_chain, tool_option, tool_options, tool_needs_proto,
  tool_check_proto, tool_args, opt_list, opt_append, opt_delete, opt_flush, opt_policy, opt_srcip,
  opt_off, opt_srcport, opt_destip, opt_destport, opt_proto, opt_file, opt_jump, opt_ignored,
  opt_other,
}

-- The option as bfctl finds it. The policies of the two programs are not alike; the options that the
-- old tool ignores are '?' to bfctl.
unfoldable pub to_bfctl : ToolOpt → Cli.Opt
to_bfctl (opt_list t) = Cli.Opt.opt_list t
to_bfctl (opt_append t) = Cli.Opt.opt_append t
to_bfctl (opt_delete t) = Cli.Opt.opt_delete t
to_bfctl (opt_flush t) = Cli.Opt.opt_flush t
to_bfctl (opt_policy t) = Cli.Opt.opt_policy t none
to_bfctl (opt_srcip t) = Cli.Opt.opt_srcip t
to_bfctl (opt_off t) = Cli.Opt.opt_off t
to_bfctl (opt_srcport t) = Cli.Opt.opt_srcport t
to_bfctl (opt_destip t) = Cli.Opt.opt_destip t
to_bfctl (opt_destport t) = Cli.Opt.opt_destport t
to_bfctl (opt_proto t) = Cli.Opt.opt_proto t
to_bfctl (opt_file o) = Cli.Opt.opt_file o
to_bfctl (opt_jump o) = Cli.Opt.opt_jump o
to_bfctl opt_ignored = Cli.Opt.opt_unknown
to_bfctl opt_other = Cli.Opt.opt_other

-- The commands of bfctl are commands of the old tool.
unfoldable pub of_bfctl : Cli.Command → ToolCommand
of_bfctl Cli.Command.cmd_delete = ToolCommand.cmd_delete
of_bfctl Cli.Command.cmd_append = ToolCommand.cmd_append
of_bfctl Cli.Command.cmd_list = ToolCommand.cmd_list
of_bfctl Cli.Command.cmd_flush = ToolCommand.cmd_flush
of_bfctl Cli.Command.cmd_set_policy = ToolCommand.cmd_set_policy
of_bfctl Cli.Command.cmd_update = ToolCommand.cmd_update
of_bfctl Cli.Command.cmd_load_from_file = ToolCommand.cmd_load_from_file
of_bfctl Cli.Command.cmd_print_help = ToolCommand.cmd_print_help

-- What the old tool keeps of the arguments of bfctl.
abbrev pub kept : CmdArgs → ToolArgs
kept ca = record { command = of_bfctl ca.command; fr = ca.fr; proto_mandatory = ca.proto_mandatory }

abbrev pub kept_option : Option CmdArgs → Option ToolArgs
kept_option none = none
kept_option (some ca) = some (kept ca)

-- The options that both programs are meant to read alike: not `--policy`, and a policy that has a name
-- after `--jump`.
unfoldable pub IsShared : ToolOpt → Type 0
IsShared (opt_policy t) = ¬ Unit
IsShared (opt_jump (some t)) = get_policy t ≢ policy_none
IsShared _ = Unit

of_bfctl-if :
    (b : Bool) (x y : Cli.Command)
    → (if b then of_bfctl x else of_bfctl y) ≡ of_bfctl (if b then x else y)
of_bfctl-if true x y = refl
of_bfctl-if false x y = refl

tool_option-parse_option :
    (c : LibC) (ca : CmdArgs) (o : ToolOpt)
    → IsShared o
    → tool_option c (kept ca) o ≡ kept_option (parse_option c ca (to_bfctl o))
unfolding tool_option tool_chain parse_option set_chain to_bfctl of_bfctl IsShared
tool_option-parse_option c ca (opt_list t) h = ground arith
tool_option-parse_option c ca (opt_append t) h = ground arith
tool_option-parse_option c ca (opt_delete t) h = ground arith
tool_option-parse_option c ca (opt_flush t) h = ground arith
tool_option-parse_option c ca (opt_policy t) h = absurd (h tt)
tool_option-parse_option c ca (opt_srcip t) h = refl
tool_option-parse_option c ca (opt_off t) h = ground arith
tool_option-parse_option c ca (opt_srcport t) h = refl
tool_option-parse_option c ca (opt_destip t) h = refl
tool_option-parse_option c ca (opt_destport t) h = refl
tool_option-parse_option c ca (opt_proto t) h = ground arith
tool_option-parse_option c ca (opt_file none) h = refl
tool_option-parse_option c ca (opt_file (some t)) h = refl
tool_option-parse_option c ca (opt_jump none) h = refl
tool_option-parse_option c ca (opt_jump (some t)) h = rw (==_ne (get_policy t) policy_none h) refl
tool_option-parse_option c ca opt_ignored h = refl
tool_option-parse_option c ca opt_other h = refl

-- A step of one program that agrees with one of the other, and what follows.
module _ (f : ToolArgs → Option ToolArgs) (g : CmdArgs → Option CmdArgs) where
  kept_option-then :
      (o : Option CmdArgs)
      → ((ca : CmdArgs) → f (kept ca) ≡ kept_option (g ca))
      → elim (kept_option o) [ none ↦ none | some ta ↦ f ta ]
        ≡ kept_option (elim o [ none ↦ none | some ca ↦ g ca ])
  kept_option-then none h = refl
  kept_option-then (some ca) h = h ca

tool_options-parse_options :
    (c : LibC) (ca : CmdArgs) (os : List ToolOpt)
    → All IsShared os
    → tool_options c (kept ca) os ≡ kept_option (parse_options c ca (map to_bfctl os))
unfolding tool_options parse_options
tool_options-parse_options c ca [] h = refl
tool_options-parse_options c ca (o ∷ os) h =
    ap
      (λ (r : Option ToolArgs).
        let x : Option ToolArgs = elim r [ none ↦ none | some ta ↦ tool_options c ta os ] in x)
      (tool_option-parse_option c ca o h.0)
    ∙ kept_option-then (λ ta. tool_options c ta os) (λ ca'. parse_options c ca' (map to_bfctl os))
        (parse_option c ca (to_bfctl o)) (λ ca'. tool_options-parse_options c ca' os h.1)

tool_needs_proto-of_bfctl : (x : Cli.Command) → tool_needs_proto (of_bfctl x) ≡ needs_proto x
unfolding tool_needs_proto of_bfctl needs_proto
tool_needs_proto-of_bfctl Cli.Command.cmd_delete = refl
tool_needs_proto-of_bfctl Cli.Command.cmd_append = refl
tool_needs_proto-of_bfctl Cli.Command.cmd_list = refl
tool_needs_proto-of_bfctl Cli.Command.cmd_flush = refl
tool_needs_proto-of_bfctl Cli.Command.cmd_set_policy = refl
tool_needs_proto-of_bfctl Cli.Command.cmd_update = refl
tool_needs_proto-of_bfctl Cli.Command.cmd_load_from_file = refl
tool_needs_proto-of_bfctl Cli.Command.cmd_print_help = refl

tool_check_proto-check_proto : (ca : CmdArgs) → tool_check_proto (kept ca) ≡ kept (check_proto ca)
unfolding tool_check_proto check_proto of_bfctl
tool_check_proto-check_proto ca = ground (arith, tool_needs_proto-of_bfctl ca.command)

-- On options without --policy, and with a policy that has a name after every --jump, the old tool ends
-- where bfctl ends, and otherwise has the same command and the same rule; a name of a file makes no
-- difference. The options that the old tool ignores are '?' to bfctl.
pub tool_args-parse_cmd_args :
    (c : LibC) (file_name : Text) (os : List ToolOpt)
    → All IsShared os
    → tool_args c os ≡ kept_option (parse_cmd_args c file_name (map to_bfctl os))
unfolding tool_args parse_cmd_args of_bfctl
tool_args-parse_cmd_args c file_name os h =
    ap
      (λ (r : Option ToolArgs).
        let x : Option ToolArgs = elim r [ none ↦ none | some ta ↦ some (tool_check_proto ta) ] in
        x)
      (tool_options-parse_options c (initial file_name) os h)
    ∙ kept_option-then (λ ta. some (tool_check_proto ta)) (λ ca. some (check_proto ca))
        (parse_options c (initial file_name) (map to_bfctl os))
        (λ ca. ap some (tool_check_proto-check_proto ca))
