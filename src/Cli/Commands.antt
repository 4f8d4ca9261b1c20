-- ===== src/Cli/Commands.antt =====
-- What parse_cmd_args guarantees of the command it returns.
use bf.Base.{
  ℕ, ◌≡◌, ◌≢◌, Bool, true, false, ◌||◌, List, [], ◌∷◌, Option, none, some, any, if◌then◌else◌, ◌==◌,
  arith,
}
use bf.Rule.{chain_none, policy_none, sw_none, ipproto_notexist}
use bf.Names.{Text, get_proto, get_switch, get_policy}
use bf.Cli.{
  Command, cmd_delete, cmd_append, cmd_list, cmd_flush, cmd_update, cmd_load_from_file,
  cmd_print_help, Opt, opt_list, opt_append, opt_delete, opt_flush, opt_update, opt_srcip, opt_off,
  opt_srcport, opt_destip, opt_destport, opt_proto, opt_file, opt_jump, opt_policy, opt_unknown,
  opt_other, CmdArgs, LibC, set_chain, set_policy, parse_option, parse_options, needs_proto,
  initial, check_proto, parse_cmd_args,
}

-- The commands that work on a chain.
unfoldable pub names_chain : Command → Bool
names_chain cmd_load_from_file = false
names_chain cmd_print_help = false
names_chain _ = true

-- The options that set `proto_mandatory`.
unfoldable pub gives_proto : Opt → Bool
gives_proto (opt_proto t) = true
gives_proto (opt_off t) = true
gives_proto _ = false

-- A property of the state after an option, where the program goes on.
abbrev pub Holds : (CmdArgs → Type 0) → Option CmdArgs → Type 0
Holds P none = Unit
Holds P (some ca) = P ca

pub Holds-mono :
    (P Q : CmdArgs → Type 0) (o : Option CmdArgs)
    → ((ca : CmdArgs) → P ca → Q ca)
    → Holds P o
    → Holds Q o
Holds-mono P Q none f h = tt
Holds-mono P Q (some ca) f h = f ca h

pub Holds-then :
    (P Q : CmdArgs → Type 0) (r : Option CmdArgs) (f : CmdArgs → Option CmdArgs)
    → Holds P r
    → ((ca : CmdArgs) → P ca → Holds Q (f ca))
    → Holds Q (elim r [ none ↦ none | some ca ↦ f ca ])
Holds-then P Q none f h g = tt
Holds-then P Q (some ca) f h g = g ca h

pub Holds-parse_options :
    (c : LibC) (P : CmdArgs → Type 0)
    → ((ca : CmdArgs) (o : Opt) → P ca → Holds P (parse_option c ca o))
    → (ca : CmdArgs) (os : List Opt) → P ca
    → Holds P (parse_options c ca os)
unfolding parse_options
Holds-parse_options c P f ca [] h = h
Holds-parse_options c P f ca (o ∷ os) h =
    Holds-then P P (parse_option c ca o) (λ ca'. parse_options c ca' os) (f ca o h)
      (λ ca' k. Holds-parse_options c P f ca' os k)

Named : Command → ℕ → Type 0
Named c chain = names_chain c ≡ true → chain ≢ chain_none

abbrev HasChain : CmdArgs → Type 0
HasChain ca = Named ca.command ca.fr.base.chain

set_chain-HasChain : (ca : CmdArgs) (c : Command) (t : Text) → HasChain (set_chain ca c t)
unfolding Named set_chain names_chain
set_chain-HasChain ca c t h e = ground arith

-- To fall back on the help keeps it.
keeps-Named :
    (c : Command) (chain : ℕ) (b : Bool)
    → Named c chain
    → Named (if b then cmd_print_help else c) chain
unfolding Named names_chain
keeps-Named c chain true h k = ground arith
keeps-Named c chain false h k = ground arith

set_policy-HasChain :
    (ca : CmdArgs) (t : Text) (w : Option Text) → HasChain ca → HasChain (set_policy ca t w)
unfolding Named set_policy names_chain
set_policy-HasChain ca t none h k e = ground arith
set_policy-HasChain ca t (some w) h k e = ground arith

parse_option-HasChain :
    (c : LibC) (ca : CmdArgs) (o : Opt) → HasChain ca → Holds HasChain (parse_option c ca o)
unfolding parse_option Named names_chain
parse_option-HasChain c ca (opt_list t) h = set_chain-HasChain ca cmd_list t
parse_option-HasChain c ca (opt_append t) h = set_chain-HasChain ca cmd_append t
parse_option-HasChain c ca (opt_delete t) h = set_chain-HasChain ca cmd_delete t
parse_option-HasChain c ca (opt_flush t) h = set_chain-HasChain ca cmd_flush t
parse_option-HasChain c ca (opt_update t) h = set_chain-HasChain ca cmd_update t
parse_option-HasChain c ca (opt_srcip t) h = keeps-Named ca.command ca.fr.base.chain false h
parse_option-HasChain c ca (opt_off t) h =
    keeps-Named ca.command ca.fr.base.chain (get_switch t == sw_none) h
parse_option-HasChain c ca (opt_srcport t) h = keeps-Named ca.command ca.fr.base.chain false h
parse_option-HasChain c ca (opt_destip t) h = keeps-Named ca.command ca.fr.base.chain false h
parse_option-HasChain c ca (opt_destport t) h = keeps-Named ca.command ca.fr.base.chain false h
parse_option-HasChain c ca (opt_proto t) h =
    keeps-Named ca.command ca.fr.base.chain (get_proto t == ipproto_notexist) h
parse_option-HasChain c ca (opt_file none) h = keeps-Named ca.command ca.fr.base.chain true h
parse_option-HasChain c ca (opt_file (some t)) h = λ k. ground arith
parse_option-HasChain c ca (opt_jump none) h = tt
parse_option-HasChain c ca (opt_jump (some t)) h =
    keeps-Named ca.command ca.fr.base.chain (get_policy t == policy_none) h
parse_option-HasChain c ca (opt_policy t w) h = set_policy-HasChain ca t w h
parse_option-HasChain c ca opt_unknown h = h
parse_option-HasChain c ca opt_other h = tt

-- An option goes on unless it aborts, and then sets `proto_mandatory` if it is one that does.
WentOn : Opt → CmdArgs → CmdArgs → Type 0
WentOn o ca ca' = ca'.proto_mandatory ≡ (ca.proto_mandatory || gives_proto o)

parse_option-WentOn :
    (c : LibC) (ca : CmdArgs) (o : Opt) → Holds (WentOn o ca) (parse_option c ca o)
unfolding parse_option WentOn gives_proto set_policy set_chain
parse_option-WentOn c ca (opt_jump none) = tt
parse_option-WentOn c ca (opt_jump (some t)) = ground arith
parse_option-WentOn c ca (opt_file none) = ground arith
parse_option-WentOn c ca (opt_file (some t)) = ground arith
parse_option-WentOn c ca (opt_policy t none) = ground arith
parse_option-WentOn c ca (opt_policy t (some w)) = ground arith
parse_option-WentOn c ca opt_other = tt
parse_option-WentOn c ca o = ground arith

parse_options-proto :
    (c : LibC) (ca : CmdArgs) (os : List Opt)
    → Holds
        (λ ca'. ca'.proto_mandatory ≡ (ca.proto_mandatory || any gives_proto os))
        (parse_options c ca os)
unfolding parse_options WentOn
parse_options-proto c ca [] = ground arith
parse_options-proto c ca (o ∷ os) =
    Holds-then (WentOn o ca) _ (parse_option c ca o) (λ ca'. parse_options c ca' os)
      (parse_option-WentOn c ca o)
      (λ ca' k.
        Holds-mono _ _ (parse_options c ca' os) (λ ca'' e. ground (arith, e, k))
          (parse_options-proto c ca' os))

Checked : List Opt → CmdArgs → Type 0
Checked os ca =
    (names_chain ca.command ≡ true → ca.fr.base.chain ≢ chain_none)
    × (needs_proto ca.command ≡ true → any gives_proto os ≡ true)

check_proto-Checked :
    (os : List Opt) (ca : CmdArgs)
    → HasChain ca
    → ca.proto_mandatory ≡ (false || any gives_proto os)
    → Checked os (check_proto ca)
unfolding Named Checked check_proto needs_proto names_chain
check_proto-Checked os ca h e = (λ k. ground arith, λ k. ground arith)

pub Holds_some :
    (P : CmdArgs → Type 0) (r : Option CmdArgs) (ca : CmdArgs) → r ≡ some ca → Holds P r → P ca
Holds_some P r ca e h = coe 0 1 (i. Holds P (e i)) h

Holds-both :
    (P Q : CmdArgs → Type 0) (r : Option CmdArgs)
    → Holds P r
    → Holds Q r
    → Holds (λ ca. P ca × Q ca) r
Holds-both P Q none h k = tt
Holds-both P Q (some ca) h k = (h, k)

parse_cmd_args-Checked :
    (c : LibC) (file_name : Text) (os : List Opt)
    → Holds (Checked os) (parse_cmd_args c file_name os)
unfolding parse_cmd_args Named names_chain
parse_cmd_args-Checked c file_name os =
    let r = parse_options c (initial file_name) os in
    Holds-then _ (Checked os) r (λ ca. some (check_proto ca))
      (Holds-both HasChain _ r
        (Holds-parse_options c HasChain (parse_option-HasChain c) (initial file_name) os
          (λ k. ground (arith, k)))
        (parse_options-proto c (initial file_name) os))
      (λ ca h. check_proto-Checked os ca h.0 h.1)

-- Where bfctl gets a command that works on a chain from its command line, the rule names a chain.
pub parse_cmd_args-chain :
    (c : LibC) (file_name : Text) (os : List Opt) (ca : CmdArgs)
    → parse_cmd_args c file_name os ≡ some ca
    → names_chain ca.command ≡ true
    → ca.fr.base.chain ≢ chain_none
unfolding Checked
parse_cmd_args-chain c file_name os ca h =
    (Holds_some (Checked os) (parse_cmd_args c file_name os) ca h
      (parse_cmd_args-Checked c file_name os)).0

-- Where bfctl gets the command to add or to delete a rule from its command line, an option `--proto` or
-- `--off` was given.
pub parse_cmd_args-proto :
    (c : LibC) (file_name : Text) (os : List Opt) (ca : CmdArgs)
    → parse_cmd_args c file_name os ≡ some ca
    → needs_proto ca.command ≡ true
    → any gives_proto os ≡ true
unfolding Checked
parse_cmd_args-proto c file_name os ca h =
    (Holds_some (Checked os) (parse_cmd_args c file_name os) ca h
      (parse_cmd_args-Checked c file_name os)).1
