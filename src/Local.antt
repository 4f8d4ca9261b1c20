-- ===== src/Local.antt =====
-- The commands that travel between a program and the service over a local socket: bf_cmd_t and BfCmd of
-- common/trx_data.h, and the client bf-link/bflocalcontrolprivate.cpp. QDataStream and its QVariant are
-- Qt's: a parameter gives their bytes. `blank` is what a new filter_rule_t holds in the fields that its
-- constructor leaves unset.

pub mod Codec
pub mod Socket
use bf.Base.{ℕ, true, false, List, [], ◌∷◌, ◌++◌, Option, none, some, if◌then◌else◌, ◌==◌, Bool}
use bf.Rule.{FilterRule}
use bf.Stream.{DataStream}
use bf.Frames.{write_frame}
use bf.Client.{
  Control, Signal, sig_rules, sig_data, sig_error, sig_done, Result, returned, failed, command_for,
  get_rules_for,
}

-- bf_cmd_t; `unnamed` holds a number that has no name.
pub data CmdType : Type 0 where
  bf_cmd_add_rule bf_cmd_data bf_cmd_done bf_cmd_delete_rule bf_cmd_delete_all_rules : CmdType
  bf_cmd_update_rule bf_cmd_chain_policy bf_cmd_get_rules bf_cmd_ok bf_cmd_err bf_cmd_log : CmdType
  bf_cmd_log_subscribe : CmdType
  unnamed : ℕ → CmdType

unfoldable pub cmd_number : CmdType → ℕ
cmd_number bf_cmd_add_rule = 0
cmd_number bf_cmd_data = 1
cmd_number bf_cmd_done = 2
cmd_number bf_cmd_delete_rule = 3
cmd_number bf_cmd_delete_all_rules = 4
cmd_number bf_cmd_update_rule = 5
cmd_number bf_cmd_chain_policy = 6
cmd_number bf_cmd_get_rules = 7
cmd_number bf_cmd_ok = 8
cmd_number bf_cmd_err = 9
cmd_number bf_cmd_log = 10
cmd_number bf_cmd_log_subscribe = 11
cmd_number (unnamed n) = n

unfoldable pub cmd_type : ℕ → CmdType
cmd_type n =
    if n == 0
    then bf_cmd_add_rule
    else if n == 1
    then bf_cmd_data
    else if n == 2
    then bf_cmd_done
    else if n == 3
    then bf_cmd_delete_rule
    else if n == 4
    then bf_cmd_delete_all_rules
    else if n == 5
    then bf_cmd_update_rule
    else if n == 6
    then bf_cmd_chain_policy
    else if n == 7
    then bf_cmd_get_rules
    else if n == 8
    then bf_cmd_ok
    else if n == 9
    then bf_cmd_err
    else if n == 10
    then bf_cmd_log
    else if n == 11
    then bf_cmd_log_subscribe
    else unnamed n

-- A QVariant of a command: a rule, a msg_err_t by its code, a msg_done_t, or what else it may hold.
pub data Value : Type 0 where
  rule_value : FilterRule → Value
  err_value done_value : ℕ → Value
  other_value : Value

pub record BfCmd : Type 0 where
  pub cmd_type_of : CmdType
  pub sequence : ℕ
  pub value : Value

-- cmd.mValue.value<filter_rule_t>() and value<msg_err_t>(): a new object where the type is another.
unfoldable pub rule_of_value : FilterRule → Value → FilterRule
rule_of_value blank (rule_value fr) = fr
rule_of_value blank v = record blank {
  base = record { chain = 0; proto = 0; src_port = 0; dst_port = 0; s_addr = 0; d_addr = 0 };
  off = 0;
  policy = 0;
}

unfoldable pub code_of_value : Value → ℕ
code_of_value (err_value code) = code
code_of_value v = 0

pub record CmdStream : Type 0 where
  pub words : DataStream
  pub put_value : Value → List ℕ
  pub get_value : List ℕ → Value × List ℕ

-- operator<< and operator>> for a command
unfoldable pub put_cmd : CmdStream → BfCmd → List ℕ
unfolding cmd_number
put_cmd s cmd =
    s.words.put8 (cmd_number cmd.cmd_type_of)
    ++ (s.words.put32 cmd.sequence ++ s.put_value cmd.value)

unfoldable pub get_cmd : CmdStream → List ℕ → BfCmd
unfolding cmd_type
get_cmd s bytes =
    let (type, b1) = s.words.get8 bytes in
    let (sequence, b2) = s.words.get32 b1 in
    let (value, b3) = s.get_value b2 in
    record { cmd_type_of = cmd_type type; sequence = sequence; value = value }

-- onReadyRead with a command: the signals and the state; `none` where a NULL pointer is read.
unfoldable pub local_process : FilterRule → Control → BfCmd → Option (Control × List Signal)
unfolding rule_of_value code_of_value
local_process blank c cmd = elim cmd.cmd_type_of [
  | bf_cmd_err ↦ some (c, sig_error (code_of_value cmd.value) ∷ [])
  | bf_cmd_data ↦
      let fr = rule_of_value blank cmd.value in
      if c.attached
      then some (record c { ruleslst = c.ruleslst ++ fr ∷ [] }, sig_data fr ∷ [])
      else some (c, sig_data fr ∷ [])
  | bf_cmd_done ↦
      if c.attached
      then some (record c { attached = false }, sig_rules c.ruleslst ∷ sig_done ∷ [])
      else none
  | _ ↦ some (c, [])
]

-- sendCommand: the bytes that are written to a socket that is connected.
unfoldable pub send_command : CmdStream → BfCmd → List ℕ
unfolding put_cmd write_frame
send_command s cmd = write_frame (put_cmd s cmd) []

-- onReadyRead, up to what is done with the command: the commands so far and one more.
unfoldable pub read_command : CmdStream → List BfCmd → List ℕ → List BfCmd
unfolding get_cmd
read_command s cmds message = cmds ++ get_cmd s message ∷ []

-- deleteRule, deleteRules, addRule, updateRule and setChainPolicy
unfoldable pub local_command :
    FilterRule → Result → Control → List BfCmd → Option (Control × Result)
unfolding command_for local_process
local_command blank = command_for (local_process blank)

unfoldable pub local_get_rules :
    FilterRule → Result → Control → List FilterRule → List BfCmd → Option (Control × Result)
unfolding get_rules_for local_process
local_get_rules blank = get_rules_for (local_process blank)

-- `ret < 0`, at which sendRulesSync stops
unfoldable pub is_error_result : Result → Bool
is_error_result (returned n) = false
is_error_result (failed n) = true
