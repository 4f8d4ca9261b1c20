-- ===== src/LocalServer/Sending.antt =====
-- What sendRulesSync of a BFLocalControl does to the rules of the kernel module.
use bf.Base.{ℕ, suc, ◌^◌, ◌<◌, List, [], ◌∷◌, find, none, some, if◌then◌else◌, Bool}
use bf.Rule.{FilterRule, policy_rule, bf_err_already_have_rule}
use bf.Store.{rules}
use bf.Store.Refines.{has_base}
use bf.Stream.Laws.{restored}
use bf.Kernel.{Kernel}
use bf.Netlink.Rules.{add_spec}
use bf.Client.{Control, Result, returned}
use bf.Client.Commands.{add_result}
use bf.Link.{Link}
use bf.Link.Adding.{after_add}
use bf.Local.{CmdStream, is_error_result}
use bf.Local.Codec.{IsCmdStream}
use bf.LocalServer.Relay.{served}
use bf.LocalServer.Session.{Session}

-- The code of an addition.
abbrev add_code : FilterRule → List FilterRule → ℕ
add_code fr rs =
    if policy_rule fr.base
    then 0
    else (elim (find (has_base fr.base) rs) [ some r ↦ bf_err_already_have_rule | none ↦ 0 ])

-- The rules after the additions of a list up to the first that fails, and the result of that one, or 0.
abbrev pub added_until : List FilterRule → List FilterRule → List FilterRule × Result
added_until [] rs = (rs, returned 0)
added_until (fr ∷ frs) rs =
    let rest = added_until frs (add_spec fr rs) in
    if is_error_result (add_result fr rs) then (rs, add_result fr rs) else rest

module _ (s : CmdStream) (blank : FilterRule) (law : IsCmdStream s blank) (sent pid : ℕ)
    (send_ok : ℕ → Bool) (seq : ℕ → ℕ) (words : (i : ℕ) → seq i < 2 ^ 32) (socket : ℕ) where
  -- The session after a command that the service has answered with a code.
  abbrev after : Session → Link → ℕ → Session
  after x l e = record {
    server = served s x.server socket (seq x.commands) l e;
    control = x.control;
    commands = suc x.commands;
  }

  -- The session after an addition on a kernel module.
  abbrev after_rule : Session → Kernel → Control → FilterRule → Session
  after_rule x k c fr =
      after x (record { kernel = after_add pid k (restored blank fr); control = c })
        (add_code (restored blank fr) (rules k.store))
