-- ===== src/Bfctl/Changes.antt =====
-- What the commands of bfctl that change the rules do and print.
use bf.Base.{
  ℕ, ◌≡◌, refl, ap, ◌∙◌, List, [], ◌∷◌, Option, none, some, find, if◌then◌else◌, arith, ◌>>=◌, Bool,
}
use bf.Rule.{FilterRule, policy_rule, bf_err_already_have_rule, bf_err_missing_rule}
use bf.Store.{IsStore, rules}
use bf.Store.Refines.{has_base}
use bf.Kernel.{Kernel}
use bf.Message.{MessageType, msg_add_rule, msg_update_rule, msg_delete_rule}
use bf.Netlink.{nl_rcv_msg}
use bf.Netlink.Rules.{request_spec, nl_rcv_msg-rules}
use bf.Stream.{DataStream}
use bf.Client.{Control, Result}
use bf.Client.Commands.{answered, client_request, add_result, result_for, command-nl_rcv_msg}
use bf.Link.{Link, call}
use bf.Link.Adding.{call-answered}
use bf.Service.Restarted.{some-bind}
use bf.Cli.{CmdArgs, Command, cmd_append, cmd_delete, cmd_update}
use bf.Names.{Text}
use bf.Bfctl.{
  Output, rule_added, rule_present, rule_deleted, rule_missing, rule_updated, printed,
  process_command,
}

-- The request of a command that changes a rule.
abbrev pub request_type : Command → Option MessageType
request_type cmd_append = some msg_add_rule
request_type cmd_delete = some msg_delete_rule
request_type cmd_update = some msg_update_rule
request_type _ = none

-- What is printed, for the rules before the command.
abbrev pub printed_spec : Command → FilterRule → List FilterRule → List Output
printed_spec cmd_append fr rs =
    if policy_rule fr.base then rule_added fr ∷ [] else (elim (find (has_base fr.base) rs) [
      | some r ↦ rule_present fr ∷ []
      | none ↦ rule_added fr ∷ []
    ])
printed_spec cmd_delete fr rs = elim (find (has_base fr.base) rs) [
  | some r ↦ rule_deleted fr ∷ []
  | none ↦ rule_missing fr ∷ []
]
printed_spec cmd_update fr rs = elim (find (has_base fr.base) rs) [
  | some r ↦ rule_updated fr ∷ []
  | none ↦ rule_missing fr ∷ []
]
printed_spec _ fr rs = []

printed-add :
    (fr : FilterRule) (rs : List FilterRule)
    → printed (add_result fr rs) bf_err_already_have_rule (rule_added fr) (rule_present fr)
      ≡ printed_spec cmd_append fr rs
unfolding printed
printed-add fr rs = ground arith

printed-found :
    (o : Option FilterRule) (done refused : Output)
    → printed (result_for o) bf_err_missing_rule done refused
      ≡ (elim o [ some r ↦ done ∷ [] | none ↦ refused ∷ [] ])
unfolding printed
printed-found none done refused = refl
printed-found (some r) done refused = refl

some_inj : {A : Type 0} {x y : A} → some x ≡ some y → x ≡ y
some_inj e = cc

none_ne_some : {A : Type 0} {a : A} → none ≡ some a → ⊥
none_ne_some e = cc

module _ (s : DataStream) (blank : FilterRule) (file : Text → Option (List ℕ)) (sent pid : ℕ)
    (send_ok : ℕ → Bool) (k : Kernel) (c : Control) where
  commanded :
      (type : MessageType) (fr : FilterRule) (ret : Result) (error : ℕ) (done refused : Output)
      (out : List Output)
      → answered k c sent pid type fr ≡ some (c, ret)
      → printed ret error done refused ≡ out
      → (◌>>=◌ {B = Link × List Output}
          (call sent pid type (record { kernel = k; control = c }) fr)
          (λ x. some (x.0, printed x.1 error done refused)))
        ≡ some (
          record { kernel = (nl_rcv_msg k (client_request pid type fr)).kernel; control = c },
          out,
        )
  commanded type fr ret error done refused out e h =
      some-bind _ _ _ _ (call-answered sent pid k c type fr ret e) (
        ap
          (λ xs. some (
            record { kernel = (nl_rcv_msg k (client_request pid type fr)).kernel; control = c },
            xs,
          ))
          h)

  changed :
      (ca : CmdArgs) (cm : Command) (t : MessageType)
      → IsStore k.store
      → request_type cm ≡ some t
      → (k' : Kernel) × (process_command s blank file sent pid send_ok
            (record { kernel = k; control = c })
            (record ca { command = cm })
          ≡ some (record { kernel = k'; control = c }, printed_spec cm ca.fr (rules k.store)))
        × (rules k'.store ≡ request_spec t ca.fr (rules k.store))
  unfolding process_command
  changed ca cmd_append t v e = (
    (nl_rcv_msg k (client_request pid msg_add_rule ca.fr)).kernel,
    commanded msg_add_rule ca.fr _ bf_err_already_have_rule (rule_added ca.fr) (rule_present ca.fr)
        _ (command-nl_rcv_msg k c sent pid ca.fr v).0 (printed-add ca.fr (rules k.store)),
    nl_rcv_msg-rules k (client_request pid msg_add_rule ca.fr) v
        ∙ ap (λ x. request_spec x ca.fr (rules k.store)) (some_inj e),
  )
  changed ca cmd_delete t v e = (
    (nl_rcv_msg k (client_request pid msg_delete_rule ca.fr)).kernel,
    commanded msg_delete_rule ca.fr _ bf_err_missing_rule (rule_deleted ca.fr) (rule_missing ca.fr)
        _ (command-nl_rcv_msg k c sent pid ca.fr v).2
        (printed-found (find (has_base ca.fr.base) (rules k.store)) _ _),
    nl_rcv_msg-rules k (client_request pid msg_delete_rule ca.fr) v
        ∙ ap (λ x. request_spec x ca.fr (rules k.store)) (some_inj e),
  )
  changed ca cmd_update t v e = (
    (nl_rcv_msg k (client_request pid msg_update_rule ca.fr)).kernel,
    commanded msg_update_rule ca.fr _ bf_err_missing_rule (rule_updated ca.fr) (rule_missing ca.fr)
        _ (command-nl_rcv_msg k c sent pid ca.fr v).1
        (printed-found (find (has_base ca.fr.base) (rules k.store)) _ _),
    nl_rcv_msg-rules k (client_request pid msg_update_rule ca.fr) v
        ∙ ap (λ x. request_spec x ca.fr (rules k.store)) (some_inj e),
  )
  changed ca _ t v e = absurd (none_ne_some e)

-- `bfctl -A`, `-D` and `-U` against a module that answers: the rules are those of the request, and what
-- is printed tells whether the rule was there, for every rule that is no policy rule; a policy rule is
-- reported as added and is not.
pub process_command-changes :
    (s : DataStream) (blank : FilterRule) (file : Text → Option (List ℕ)) (sent pid : ℕ)
    (send_ok : ℕ → Bool) (k : Kernel) (c : Control) (ca : CmdArgs) (t : MessageType)
    → IsStore k.store
    → request_type ca.command ≡ some t
    → (k' : Kernel) × (process_command s blank file sent pid send_ok
          (record { kernel = k; control = c })
          ca
        ≡ some (record { kernel = k'; control = c }, printed_spec ca.command ca.fr (rules k.store)))
      × (rules k'.store ≡ request_spec t ca.fr (rules k.store))
process_command-changes s blank file sent pid send_ok k c ca t v e =
    changed s blank file sent pid send_ok k c ca ca.command t v e
