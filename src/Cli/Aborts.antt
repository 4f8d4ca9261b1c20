-- ===== src/Cli/Aborts.antt =====
-- Which command lines bfctl does not get through.
use bf.Base.{
  ◌≡◌, refl, sym, Bool, true, false, ◌||◌, List, [], ◌∷◌, Option, none, some, any, ◌↔◌, arith,
}
use bf.Names.{Text}
use bf.Cli.{
  Opt, opt_file, opt_jump, opt_policy, opt_other, CmdArgs, LibC, parse_option, parse_options,
  initial, check_proto, parse_cmd_args,
}

-- The options that end the program.
unfoldable pub aborts : Opt → Bool
aborts (opt_jump none) = true
aborts opt_other = true
aborts _ = false

is_none : Option CmdArgs → Bool
is_none none = true
is_none (some ca) = false

parse_option-is_none :
    (c : LibC) (ca : CmdArgs) (o : Opt) → is_none (parse_option c ca o) ≡ aborts o
unfolding parse_option is_none aborts
parse_option-is_none c ca (opt_jump none) = refl
parse_option-is_none c ca (opt_jump (some t)) = refl
parse_option-is_none c ca (opt_file none) = refl
parse_option-is_none c ca (opt_file (some t)) = refl
parse_option-is_none c ca (opt_policy t w) = refl
parse_option-is_none c ca opt_other = refl
parse_option-is_none c ca o = ground arith

is_none_then :
    (r : Option CmdArgs) (f : CmdArgs → Option CmdArgs) (b b' : Bool)
    → is_none r ≡ b
    → ((ca : CmdArgs) → is_none (f ca) ≡ b')
    → is_none (elim r [ none ↦ none | some ca ↦ f ca ]) ≡ (b || b')
unfolding is_none
is_none_then none f b b' e h = ground (arith, e)
is_none_then (some ca) f b b' e h = ground (arith, e, h ca)

parse_options-is_none :
    (c : LibC) (ca : CmdArgs) (os : List Opt) → is_none (parse_options c ca os) ≡ any aborts os
unfolding parse_options is_none
parse_options-is_none c ca [] = refl
parse_options-is_none c ca (o ∷ os) =
    is_none_then (parse_option c ca o) (λ ca'. parse_options c ca' os) (aborts o) (any aborts os)
      (parse_option-is_none c ca o) (λ ca'. parse_options-is_none c ca' os)

checked-none :
    (r : Option CmdArgs) (b : Bool)
    → is_none r ≡ b
    → (elim r [ none ↦ none | some ca ↦ some (check_proto ca) ] ≡ none) ↔ (b ≡ true)
unfolding is_none
checked-none none b e = (λ _. sym e, λ _. refl)
checked-none (some ca) b e = (λ h. ground (arith, h), λ h. ground (arith, e, h))

-- bfctl gets through its command line unless an option aborts it, and these are `-j`, which has no
-- argument in its short form, and the results of getopt_long that the switch does not know.
pub parse_cmd_args-returns :
    (c : LibC) (file_name : Text) (os : List Opt)
    → (parse_cmd_args c file_name os ≡ none) ↔ (any aborts os ≡ true)
unfolding parse_cmd_args
parse_cmd_args-returns c file_name os =
    checked-none (parse_options c (initial file_name) os) (any aborts os)
      (parse_options-is_none c (initial file_name) os)
