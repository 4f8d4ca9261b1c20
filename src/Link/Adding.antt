-- ===== src/Link/Adding.antt =====
-- What sendRulesSync does to the kernel module.
use bf.Base.{
  ℕ, ◌≡◌, refl, ap, ◌∙◌, List, [], ◌∷◌, Option, none, some, Bool, true, false, if◌then◌else◌, arith,
}
use bf.Rule.{FilterRule}
use bf.Store.{IsStore, rules}
use bf.Kernel.{Kernel}
use bf.Hook.{chain_policy}
use bf.Message.{MessageType, msg_add_rule}
use bf.Netlink.{nl_rcv_msg}
use bf.Netlink.Invariant.{nl_rcv_msg-IsStore}
use bf.Netlink.Rules.{add_spec, nl_rcv_msg-rules}
use bf.System.Verdicts.{dispatch-policy, dispatch-filter_value}
use bf.Client.{Control, Result, returned, send_rules, is_sock_error}
use bf.Client.Commands.{answered, client_request, add_result, command-nl_rcv_msg}
use bf.Link.{Link, call, send_rules_sync}

-- The rules after a list of additions, and the kernel module after them.
abbrev pub add_specs : List FilterRule → List FilterRule → List FilterRule
add_specs [] xs = xs
add_specs (fr ∷ frs) xs = add_specs frs (add_spec fr xs)

abbrev pub after_add : ℕ → Kernel → FilterRule → Kernel
after_add pid k fr = (nl_rcv_msg k (client_request pid msg_add_rule fr)).kernel

abbrev pub added : ℕ → Kernel → List FilterRule → Kernel
added pid k [] = k
added pid k (fr ∷ frs) = added pid (after_add pid k fr) frs

-- A command that the client's wait has answered.
pub call-answered :
    (sent pid : ℕ) (k : Kernel) (c : Control) (type : MessageType) (fr : FilterRule) (ret : Result)
    → answered k c sent pid type fr ≡ some (c, ret)
    → call sent pid type (record { kernel = k; control = c }) fr
      ≡ some
          (record { kernel = (nl_rcv_msg k (client_request pid type fr)).kernel; control = c }, ret)
unfolding call
call-answered sent pid k c type fr ret e =
    ap
      (λ (o : Option (Control × Result)).
        let r : Option (Link × Result) = elim o [
          | none ↦ none
          | some (d, x) ↦ some (
            record { kernel = (nl_rcv_msg k (client_request pid type fr)).kernel; control = d },
            x,
          )
        ] in
        r)
      e

pub call-add_result :
    (sent pid : ℕ) (k : Kernel) (c : Control) (fr : FilterRule)
    → IsStore k.store
    → call sent pid msg_add_rule (record { kernel = k; control = c }) fr
      ≡ some (
        record { kernel = (nl_rcv_msg k (client_request pid msg_add_rule fr)).kernel; control = c },
        add_result fr (rules k.store),
      )
call-add_result sent pid k c fr v =
    call-answered sent pid k c msg_add_rule fr (add_result fr (rules k.store))
      (command-nl_rcv_msg k c sent pid fr v).0

add_result-goes_on :
    (fr : FilterRule) (rs : List FilterRule) → is_sock_error (add_result fr rs) ≡ false
unfolding is_sock_error
add_result-goes_on fr rs = ground arith

-- An addition that does not stop the loop.
pub send_rules-step :
    {S : Type 0} (stops : Result → Bool) (reset : S → S)
    (add : S → FilterRule → Option (S × Result)) (s s' : S) (ret : Result) (fr : FilterRule)
    (frs : List FilterRule)
    → add s fr ≡ some (s', ret)
    → stops ret ≡ false
    → send_rules stops reset add s (fr ∷ frs) ≡ send_rules stops reset add s' frs
unfolding send_rules
send_rules-step {S} stops reset add s s' ret fr frs e go =
    ap
      (λ (o : Option (S × Result)).
        let r : Option (S × Result) = elim o [
          | none ↦ none
          | some (t, x) ↦ if stops x then some (reset t, x) else send_rules stops reset add t frs
        ] in
        r)
      e
    ∙ rw go

-- An addition at which the loop stops.
pub send_rules-stop :
    {S : Type 0} (stops : Result → Bool) (reset : S → S)
    (add : S → FilterRule → Option (S × Result)) (s s' : S) (ret : Result) (fr : FilterRule)
    (frs : List FilterRule)
    → add s fr ≡ some (s', ret)
    → stops ret ≡ true
    → send_rules stops reset add s (fr ∷ frs) ≡ some (reset s', ret)
unfolding send_rules
send_rules-stop {S} stops reset add s s' ret fr frs e stop =
    ap
      (λ (o : Option (S × Result)).
        let r : Option (S × Result) = elim o [
          | none ↦ none
          | some (t, x) ↦ if stops x then some (reset t, x) else send_rules stops reset add t frs
        ] in
        r)
      e
    ∙ rw stop

-- Against a kernel module that answers, sendRulesSync sends every rule, whether or not it is there
-- already, and returns 0; the rules are then those of the additions one after the other.
pub send_rules_sync-added :
    (sent pid : ℕ) (k : Kernel) (c : Control) (frs : List FilterRule)
    → IsStore k.store
    → send_rules_sync sent pid (record { kernel = k; control = c }) frs
      ≡ some (record { kernel = added pid k frs; control = c }, returned 0)
unfolding send_rules_sync
send_rules_sync-added sent pid k c [] v = unfold send_rules in refl
send_rules_sync-added sent pid k c (fr ∷ frs) v =
    send_rules-step is_sock_error _ _ _ _ (add_result fr (rules k.store)) fr frs
      (call-add_result sent pid k c fr v) (add_result-goes_on fr (rules k.store))
    ∙ send_rules_sync-added sent pid (after_add pid k fr) c frs
        (nl_rcv_msg-IsStore k (client_request pid msg_add_rule fr) v)

pub added-IsStore :
    (pid : ℕ) (k : Kernel) (frs : List FilterRule)
    → IsStore k.store
    → IsStore (added pid k frs).store
added-IsStore pid k [] v = v
added-IsStore pid k (fr ∷ frs) v =
    added-IsStore pid (after_add pid k fr) frs
      (nl_rcv_msg-IsStore k (client_request pid msg_add_rule fr) v)

pub rules-added :
    (pid : ℕ) (k : Kernel) (frs : List FilterRule)
    → IsStore k.store
    → rules (added pid k frs).store ≡ add_specs frs (rules k.store)
rules-added pid k [] v = refl
rules-added pid k (fr ∷ frs) v =
    let req = client_request pid msg_add_rule fr in
    rules-added pid (after_add pid k fr) frs (nl_rcv_msg-IsStore k req v)
    ∙ ap (add_specs frs) (nl_rcv_msg-rules k req v)

pub chain_policy-added :
    (pid : ℕ) (k : Kernel) (frs : List FilterRule) (incoming : Bool)
    → chain_policy (added pid k frs) incoming ≡ chain_policy k incoming
unfolding nl_rcv_msg
chain_policy-added pid k [] incoming = refl
chain_policy-added pid k (fr ∷ frs) incoming =
    chain_policy-added pid (after_add pid k fr) frs incoming
    ∙ dispatch-policy (record k { thrd_pid = pid }) (client_request pid msg_add_rule fr)
        msg_add_rule incoming

pub filter_value-added :
    (pid : ℕ) (k : Kernel) (frs : List FilterRule) → (added pid k frs).filter_value ≡ k.filter_value
unfolding nl_rcv_msg
filter_value-added pid k [] = refl
filter_value-added pid k (fr ∷ frs) =
    filter_value-added pid (after_add pid k fr) frs
    ∙ dispatch-filter_value (record k { thrd_pid = pid }) (client_request pid msg_add_rule fr)
        msg_add_rule
