-- ===== src/Client/Commands.antt =====
-- The commands of a client together with the kernel module that answers them.
use bf.Base.{
  ℕ, ◌≡◌, refl, ap, ◌∙◌, ==_refl, List, [], ◌∷◌, find, Option, none, some, Bool-cases, Option-cases,
  inl, inr, if◌then◌else◌,
}
use bf.Rule.{FilterRule, policy_rule, bf_err_ok, bf_err_already_have_rule, bf_err_missing_rule}
use bf.Store.{IsStore, rules}
use bf.Store.Refines.{has_base}
use bf.Kernel.{Kernel}
use bf.Message.{
  MessageType, msg_add_rule, msg_delete_rule, msg_update_rule, msg_chain_policy, Request,
}
use bf.Netlink.{nl_rcv_msg, err_msg}
use bf.Netlink.Replies.{reply_spec, add_reply, reply_for, nl_rcv_msg-sent}
use bf.Client.{
  wait_for, command_for, Control, Result, returned, failed, negative, process, process_data,
  acknowledge, wait, set_error, is_error, command, policy_request, data_of_sent, incoming, receive,
}

-- What a command returns for a list of rules.
abbrev pub add_result : FilterRule → List FilterRule → Result
add_result fr rs = if policy_rule fr.base then returned 0 else (elim (find (has_base fr.base) rs) [
  | some r ↦ failed bf_err_already_have_rule
  | none ↦ returned 0
])

abbrev pub result_for : Option FilterRule → Result
result_for (some r) = returned 0
result_for none = failed bf_err_missing_rule

-- The client hears the one answer to its request.
command-reply :
    (n pid : ℕ) (c : Control) (o : Option FilterRule) (code : ℕ)
    → command (returned n) c (receive pid (err_msg pid o code ∷ [])) ≡ some (c, negative code)
unfolding command command_for receive incoming data_of_sent wait wait_for process process_data
    acknowledge set_error is_error
command-reply n pid c o code = rw (==_refl pid)

command-silence :
    (n pid : ℕ) (c : Control) → command (returned n) c (receive pid []) ≡ some (c, returned 0)
unfolding command command_for receive wait wait_for negative
command-silence n pid c = refl

command-reply_for :
    (n pid : ℕ) (c : Control) (fr : FilterRule) (o : Option FilterRule)
    → command (returned n) c (receive pid (reply_for pid fr o)) ≡ some (c, result_for o)
unfolding negative
command-reply_for n pid c fr none = command-reply n pid c (some fr) bf_err_missing_rule
command-reply_for n pid c fr (some r) = command-reply n pid c none bf_err_ok

command-add_reply :
    (n pid : ℕ) (c : Control) (fr : FilterRule) (rs : List FilterRule)
    → command (returned n) c (receive pid (add_reply pid fr rs)) ≡ some (c, add_result fr rs)
unfolding negative
command-add_reply n pid c fr rs = elim (Bool-cases (policy_rule fr.base)) [
  | inl p ↦ rw (p, command-silence n pid c)
  | inr p ↦ elim (Option-cases (find (has_base fr.base) rs)) [
    | inl e ↦ rw (p, e, command-reply n pid c none bf_err_ok)
    | inr (r, e) ↦ rw (p, e, command-reply n pid c (some fr) bf_err_already_have_rule)
  ]
]

-- The request of a client whose process is `pid`.
abbrev pub client_request : ℕ → MessageType → FilterRule → Request
client_request pid t fr = record { nlmsg_type = t; nlmsg_pid = pid; fr = fr }

-- The command, with the messages that the kernel module answers its request with.
abbrev pub answered :
    Kernel → Control → ℕ → ℕ → MessageType → FilterRule → Option (Control × Result)
answered k c n pid t fr =
    command (returned n) c (receive pid (nl_rcv_msg k (client_request pid t fr)).sent)

answered-reply_spec :
    (k : Kernel) (c : Control) (n pid : ℕ) (t : MessageType) (fr : FilterRule)
    → IsStore k.store
    → answered k c n pid t fr
      ≡ command (returned n) c (receive pid (reply_spec t pid fr (rules k.store)))
answered-reply_spec k c n pid t fr v =
    ap (λ s. command (returned n) c (receive pid s))
      (nl_rcv_msg-sent k (client_request pid t fr) v).0

-- A command of a client whose message is sent and answered returns what the rules of the kernel module
-- before it decide: an addition fails with BF_ERR_ALREADY_HAVE_RULE exactly if a rule has its base and
-- the rule is not a policy rule, for which the client waits in vain and returns success; an update and
-- a deletion fail with BF_ERR_MISSING_RULE exactly if no rule has the base; a policy is always set.
pub command-nl_rcv_msg :
    (k : Kernel) (c : Control) (n pid : ℕ) (fr : FilterRule)
    → IsStore k.store
    → (answered k c n pid msg_add_rule fr ≡ some (c, add_result fr (rules k.store)))
      × (answered k c n pid msg_update_rule fr
          ≡ some (c, result_for (find (has_base fr.base) (rules k.store))))
      × (answered k c n pid msg_delete_rule fr
          ≡ some (c, result_for (find (has_base fr.base) (rules k.store))))
      × (answered k c n pid msg_chain_policy (policy_request fr) ≡ some (c, returned 0))
unfolding negative
command-nl_rcv_msg k c n pid fr v = (
  answered-reply_spec k c n pid msg_add_rule fr v ∙ command-add_reply n pid c fr (rules k.store),
  answered-reply_spec k c n pid msg_update_rule fr v
      ∙ command-reply_for n pid c fr (find (has_base fr.base) (rules k.store)),
  answered-reply_spec k c n pid msg_delete_rule fr v
      ∙ command-reply_for n pid c fr (find (has_base fr.base) (rules k.store)),
  answered-reply_spec k c n pid msg_chain_policy (policy_request fr) v
      ∙ command-reply n pid c none bf_err_ok,
)
