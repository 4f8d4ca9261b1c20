-- ===== src/Client.antt =====
-- bf-link/bfcontrol.cpp with bf-link/qwaitfordone.cpp and bf-link/errorreceiver.h: the client's end of
-- the netlink connection. The socket is NetlinkSocket's: what its sendMsg returns is an argument, and
-- so are the messages that arrive until the time limit of a wait, in their order. Signals call their
-- slots at once, and a wait ends with the message at which its `quit` was called.
pub mod Commands
pub mod Rules
use bf.Base.{
  ℕ, zero, suc, ◌+◌, ◌/◌, ◌%◌, ltb, Bool, true, false, List, [], ◌∷◌, ◌++◌, Option, none, some, any,
  map, if◌then◌else◌, ◌==◌, replicate,
}
use bf.Rule.{FilterRule, bf_err_sock}
use bf.Message.{
  MessageType, msg_add_rule, msg_delete_rule, msg_update_rule, msg_chain_policy, msg_data, msg_done,
  msg_log, msg_err, Payload, rule, err, done, nlm_f_ack, Sent,
}

-- What BFControl::process reads of a message: its type, and the data that it takes it for.
pub data Data : Type 0 where
  nl_done : Data
  nl_log nl_data : FilterRule → Data
  nl_error nl_err : ℕ → Data
  nl_other : Data

pub record Incoming : Type 0 where
  pub data_of : Data
  pub ack : Bool

-- The signals that `process` emits.
pub data Signal : Type 0 where
  sig_rules : List FilterRule → Signal
  sig_data sig_log : FilterRule → Signal
  sig_error : ℕ → Signal
  sig_done : Signal

-- `attached` tells whether the pointer `d->ruleslst` is not NULL, `ruleslst` is the list that it points
-- to or has pointed to last; `acks` counts the MSG_OK that were sent.
pub record Control : Type 0 where
  pub attached : Bool
  pub ruleslst : List FilterRule
  pub acks : ℕ

-- An `int`, as itself or, below 0, as its opposite.
pub data Result : Type 0 where
  returned failed : ℕ → Result

unfoldable pub negative : ℕ → Result
negative zero = returned 0
negative (suc n) = failed (suc n)

-- The signals and the state; `none` where a NULL pointer is read.
unfoldable pub process_data : Control → Data → Option (Control × List Signal)
process_data c nl_done =
    if c.attached
    then some (record c { attached = false }, sig_rules c.ruleslst ∷ sig_done ∷ [])
    else none
process_data c (nl_log fr) = some (c, sig_log fr ∷ [])
process_data c (nl_data fr) =
    if c.attached
    then some (record c { ruleslst = c.ruleslst ++ fr ∷ [] }, [])
    else some (c, sig_data fr ∷ [])
process_data c (nl_error code) = some (c, [])
process_data c (nl_err code) = some (c, sig_error code ∷ [])
process_data c nl_other = some (c, [])

unfoldable pub acknowledge : Bool → Control → Control
acknowledge b c = if b then record c { acks = suc c.acks } else c

unfoldable pub process : Control → Incoming → Option (Control × List Signal)
unfolding process_data acknowledge
process c m = elim (process_data c m.data_of) [
  | none ↦ none
  | some (c', signals) ↦ some (acknowledge m.ack c', signals)
]

-- ErrorReciever: the code of the last error
unfoldable pub set_error : ℕ → List Signal → ℕ
set_error e [] = e
set_error e (sig_error code ∷ signals) = set_error code signals
set_error e (s ∷ signals) = set_error e signals

-- The two signals that the `quit` of a QWaitForDone is connected to.
unfoldable pub is_error : Signal → Bool
is_error (sig_error code) = true
is_error _ = false

unfoldable pub is_done : Signal → Bool
is_done sig_done = true
is_done _ = false

-- What BFControl and BFLocalControl do while they wait, by what each makes of a message.
module _ {M : Type 0} (process : Control → M → Option (Control × List Signal)) where
  -- QWaitForDone::start with the messages that arrive, and the code that the error receiver has then.
  unfoldable pub wait_for : (Signal → Bool) → Control → ℕ → List M → Option (Control × ℕ)
  unfolding set_error is_error is_done
  wait_for quit c e [] = some (c, e)
  wait_for quit c e (m ∷ ms) = elim (process c m) [
    | none ↦ none
    | some (c', signals) ↦
        let rest = wait_for quit c' (set_error e signals) ms in
        if any quit signals then some (c', set_error e signals) else rest
  ]

  -- A command whose message is sent, and which then waits for an error code.
  unfoldable pub command_for : Result → Control → List M → Option (Control × Result)
  unfolding wait_for negative
  command_for (failed n) c ms = some (c, failed bf_err_sock)
  command_for (returned n) c ms = elim (wait_for is_error c 0 ms) [
    | none ↦ none
    | some (c', e) ↦ some (c', negative e)
  ]

  -- getRulesSync with the caller's list. Where the message is not sent, the pointer stays set.
  unfoldable pub get_rules_for :
      Result → Control → List FilterRule → List M → Option (Control × Result)
  unfolding wait_for
  get_rules_for (failed n) c given ms =
      some (record c { attached = true; ruleslst = given }, failed bf_err_sock)
  get_rules_for (returned n) c given ms =
      elim (wait_for is_done (record c { attached = true; ruleslst = given }) 0 ms) [
        | none ↦ none
        | some (c', e) ↦
            some (record c' { attached = false }, if ltb 0 e then failed e else returned n)
      ]

unfoldable pub wait : (Signal → Bool) → Control → ℕ → List Incoming → Option (Control × ℕ)
unfolding process wait_for
wait = wait_for process

-- addRule, deleteRule and updateRule, which differ in the type of their message.
unfoldable pub command : Result → Control → List Incoming → Option (Control × Result)
unfolding process command_for
command = command_for process

-- The rule that setChainPolicy sends.
unfoldable pub policy_request : FilterRule → FilterRule
policy_request pattern = record {
  h_dest = replicate 6 0;
  h_source = replicate 6 0;
  base = record {
    chain = pattern.base.chain;
    proto = 0;
    src_port = 0;
    dst_port = 0;
    s_addr = 0;
    d_addr = 0;
  };
  off = 0;
  policy = pattern.policy;
  id = 0;
}

unfoldable pub get_rules_sync :
    Result → Control → List FilterRule → List Incoming → Option (Control × Result)
unfolding process get_rules_for
get_rules_sync = get_rules_for process

-- getRulesAsync: the rules of the answer go to a new list.
unfoldable pub get_rules_async : Result → Control → Control × Result
get_rules_async (failed n) c = (record c { attached = false; ruleslst = [] }, failed bf_err_sock)
get_rules_async (returned n) c = (record c { attached = true; ruleslst = [] }, returned n)

-- deleteRules and subscribeLog, which wait for no answer.
unfoldable pub send_only : Result → Result
send_only (failed n) = failed bf_err_sock
send_only (returned n) = returned 0

-- The loop of sendRulesSync over an object's own addRule: `stops` is its test of what that returns, and
-- `reset` clears the pointer `ruleslst`.
module _ {S : Type 0} (stops : Result → Bool) (reset : S → S)
    (add : S → FilterRule → Option (S × Result)) where
  unfoldable pub send_rules : S → List FilterRule → Option (S × Result)
  send_rules s [] = some (s, returned 0)
  send_rules s (fr ∷ frs) = elim (add s fr) [
    | none ↦ none
    | some (s', ret) ↦
        let rest = send_rules s' frs in if stops ret then some (reset s', ret) else rest
  ]

-- `ret < 0 && ret == -BF_ERR_SOCK`
unfoldable pub is_sock_error : Result → Bool
is_sock_error (returned n) = false
is_sock_error (failed n) = n == bf_err_sock

-- The messages of the kernel module, as they arrive at the socket of the process `pid`.
unfoldable pub data_of_sent : MessageType → Payload → Data
data_of_sent msg_data (rule fr) = nl_data fr
data_of_sent msg_log (rule fr) = nl_log fr
data_of_sent msg_done p = nl_done
data_of_sent msg_err (err fr code) = nl_err code
data_of_sent t p = nl_other

unfoldable pub incoming : Sent → Incoming
unfolding data_of_sent
incoming s = record {
  data_of = data_of_sent s.msg_type s.payload;
  ack = s.flags / nlm_f_ack % 2 == 1;
}

unfoldable pub receive : ℕ → List Sent → List Incoming
unfolding incoming
receive pid [] = []
receive pid (s ∷ ss) = if s.destpid == pid then incoming s ∷ receive pid ss else receive pid ss
