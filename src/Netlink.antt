-- ===== src/Netlink.antt =====
-- nl_rcv_msg of bf-ko/nl_int.c: the kernel module's handler of the requests of its clients. The
-- result of nl_send_msg is ignored there, so the handler returns what it sends. `NLMSG_DATA` is never
-- NULL. The counter of the added rules is an `int` that is taken not to overflow.
pub mod Invariant
pub mod Rules
pub mod Replies
use bf.Base.{
  ℕ, suc, ◌+◌, ◌≡◌, Bool, true, false, List, [], ◌∷◌, Option, none, some, if◌then◌else◌, ◌==◌,
}
use bf.Rule.{
  FilterRule, policy_rule, sw_none, policy_none, bf_err_ok, bf_err_already_have_rule,
  bf_err_missing_rule,
}
use bf.Store.{Store, poke, add_rule, delete_rule, delete_rules, find_rule}
use bf.Kernel.{Kernel, set_chain_policy}
use bf.Message.{
  MessageType, nlmsg_error, msg_add_rule, msg_data, msg_done, msg_delete_rule, msg_delete_all_rules,
  msg_update_rule, msg_chain_policy, msg_get_rules, msg_ok, msg_err, msg_log, msg_log_subscribe,
  other, Payload, err, Sent, Request,
}

-- 0, or -EINVAL
pub data ReturnCode : Type 0 where
  ok einval : ReturnCode

pub record Handled : Type 0 where
  pub kernel : Kernel
  pub sent : List Sent
  pub result : ReturnCode

abbrev pub err_msg : ℕ → Option FilterRule → ℕ → Sent
err_msg pid fr code = record { destpid = pid; msg_type = msg_err; flags = 0; payload = err fr code }

-- send_err_ok: the rule of its message is not set
unfoldable pub send_err_ok : Kernel → Sent
send_err_ok k = err_msg k.thrd_pid none bf_err_ok

abbrev pub handled : Kernel → List Sent → Handled
handled k sent = record { kernel = k; sent = sent; result = ok }

unfoldable pub rcv_add_rule : Kernel → FilterRule → Handled
unfolding send_err_ok
rcv_add_rule k fr =
    if policy_rule fr.base then handled k [] else (elim (find_rule k.store fr.base) [
      | some a ↦ handled k (err_msg k.thrd_pid (some fr) bf_err_already_have_rule ∷ [])
      | none ↦
          handled (record k { store = add_rule k.store fr; rules_counter = suc k.rules_counter })
            (send_err_ok k ∷ [])
    ])

-- The fields that a request sets, in the order of the code's tests.
unfoldable pub updated : FilterRule → FilterRule → FilterRule
updated fr old = record old {
  off = if fr.off == sw_none then old.off else fr.off;
  policy = if fr.policy == policy_none then old.policy else fr.policy;
}

unfoldable pub rcv_update_rule : Kernel → FilterRule → Handled
unfolding send_err_ok
rcv_update_rule k fr = elim (find_rule k.store fr.base) [
  | some fl ↦
      let heap = poke k.store.heap fl (updated fr (k.store.heap fl)) in
      handled (record k { store = record k.store { heap = heap } }) (send_err_ok k ∷ [])
  | none ↦ handled k (err_msg k.thrd_pid (some fr) bf_err_missing_rule ∷ [])
]

unfoldable pub rcv_delete_rule : Kernel → FilterRule → Handled
unfolding send_err_ok
rcv_delete_rule k fr = elim (find_rule k.store fr.base) [
  | some a ↦ handled (record k { store = delete_rule k.store fr }) (send_err_ok k ∷ [])
  | none ↦ handled k (err_msg k.thrd_pid (some fr) bf_err_missing_rule ∷ [])
]

-- The switch over the type of the request.
unfoldable pub dispatch : Kernel → Request → MessageType → Handled
unfolding send_err_ok
dispatch k req msg_add_rule = rcv_add_rule k req.fr
dispatch k req msg_update_rule = rcv_update_rule k req.fr
dispatch k req msg_delete_rule = rcv_delete_rule k req.fr
dispatch k req msg_delete_all_rules =
    handled (record k { store = delete_rules k.store }) (send_err_ok k ∷ [])
dispatch k req msg_chain_policy = handled (set_chain_policy k req.fr) (send_err_ok k ∷ [])
dispatch k req msg_log_subscribe = handled (record k { pid_log = req.nlmsg_pid; init = 1 }) []
dispatch k req msg_get_rules =
    handled (record k { thrd_fr = req.fr; thrd_pid = req.nlmsg_pid; threads = suc k.threads }) []
dispatch k req msg_done = handled k []
dispatch k req msg_ok = handled (record k { completions = suc k.completions }) []
dispatch k req nlmsg_error = handled k []
dispatch k req msg_data = record { kernel = k; sent = []; result = einval }
dispatch k req msg_err = record { kernel = k; sent = []; result = einval }
dispatch k req msg_log = record { kernel = k; sent = []; result = einval }
dispatch k req (other n) = record { kernel = k; sent = []; result = einval }

unfoldable pub nl_rcv_msg : Kernel → Request → Handled
nl_rcv_msg k req = dispatch (record k { thrd_pid = req.nlmsg_pid }) req req.nlmsg_type
