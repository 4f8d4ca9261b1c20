-- ===== src/Local/Codec.antt =====
-- Commands in a stream.
use bf.Base.{
  ℕ, ◌^◌, ◌<◌, ◌≤◌, ◌≡◌, refl, sym, List, [], ◌++◌, append-nil, length, length-append, arith,
}
use bf.Rule.{FilterRule}
use bf.Stream.{IsDataStream, IsRule}
use bf.Stream.Laws.{restored}
use bf.Frames.Sizes.{IsFrame}
use bf.Local.{
  CmdType, bf_cmd_add_rule, bf_cmd_data, bf_cmd_done, bf_cmd_delete_rule, bf_cmd_delete_all_rules,
  bf_cmd_update_rule, bf_cmd_chain_policy, bf_cmd_get_rules, bf_cmd_ok, bf_cmd_err, bf_cmd_log,
  bf_cmd_log_subscribe, unnamed, cmd_number, cmd_type, Value, rule_value, err_value, done_value,
  other_value, BfCmd, CmdStream, put_cmd, get_cmd,
}

-- What a value is after it went through a stream into a new object.
abbrev pub carried : FilterRule → Value → Value
carried blank (rule_value fr) = rule_value (restored blank fr)
carried blank v = v

-- The words of a value are of their widths.
abbrev pub IsValue : Value → Type 0
IsValue (rule_value fr) = IsRule fr
IsValue (err_value code) = code < 2 ^ 16
IsValue (done_value n) = n < 2 ^ 32
IsValue other_value = Unit

-- What the program relies on: the operators of integers, and those that are registered for a QVariant.
pub record IsCmdStream (s : CmdStream) (blank : FilterRule) : Type 0 where
  pub of_words : IsDataStream s.words
  pub length-put8 : (v : ℕ) → length (s.words.put8 v) ≡ 1
  pub length-put32 : (v : ℕ) → length (s.words.put32 v) ≡ 4
  pub length-put_value : (v : Value) → length (s.put_value v) ≤ 1000
  pub get_value-put_value :
      (v : Value) (rest : List ℕ)
      → IsValue v
      → s.get_value (s.put_value v ++ rest) ≡ (carried blank v, rest)

-- Only types with a name are sent.
abbrev pub Named : CmdType → Type 0
Named (unnamed n) = ⊥
Named t = Unit

pub record IsCmd (cmd : BfCmd) : Type 0 where
  pub named : Named cmd.cmd_type_of
  pub sequence_u32 : cmd.sequence < 2 ^ 32
  pub words : IsValue cmd.value

cmd_type-cmd_number :
    (t : CmdType) → Named t → (cmd_type (cmd_number t) ≡ t) × (cmd_number t < 2 ^ 8)
unfolding cmd_type cmd_number
cmd_type-cmd_number bf_cmd_add_rule h = (refl, omega arith)
cmd_type-cmd_number bf_cmd_data h = (refl, omega arith)
cmd_type-cmd_number bf_cmd_done h = (refl, omega arith)
cmd_type-cmd_number bf_cmd_delete_rule h = (refl, omega arith)
cmd_type-cmd_number bf_cmd_delete_all_rules h = (refl, omega arith)
cmd_type-cmd_number bf_cmd_update_rule h = (refl, omega arith)
cmd_type-cmd_number bf_cmd_chain_policy h = (refl, omega arith)
cmd_type-cmd_number bf_cmd_get_rules h = (refl, omega arith)
cmd_type-cmd_number bf_cmd_ok h = (refl, omega arith)
cmd_type-cmd_number bf_cmd_err h = (refl, omega arith)
cmd_type-cmd_number bf_cmd_log h = (refl, omega arith)
cmd_type-cmd_number bf_cmd_log_subscribe h = (refl, omega arith)
cmd_type-cmd_number (unnamed n) h = absurd h

module _ (s : CmdStream) (blank : FilterRule) (law : IsCmdStream s blank) where
  -- A command is read back with its type, its number and its value, but for the number and the hardware
  -- addresses of a rule, which do not travel.
  pub get_cmd-put_cmd :
      (cmd : BfCmd)
      → IsCmd cmd
      → get_cmd s (put_cmd s cmd) ≡ record cmd { value = carried blank cmd.value }
  unfolding get_cmd put_cmd
  get_cmd-put_cmd cmd w =
      let type = cmd_type-cmd_number cmd.cmd_type_of w.named in
      rw (
        law.of_words.get8-put8 (cmd_number cmd.cmd_type_of) _ type.1,
        law.of_words.get32-put32 cmd.sequence _ w.sequence_u32,
        sym (append-nil (s.put_value cmd.value)),
        law.get_value-put_value cmd.value [] w.words,
        type.0,
      )

  pub put_cmd-IsFrame : (cmd : BfCmd) → IsFrame (put_cmd s cmd)
  unfolding put_cmd
  put_cmd-IsFrame cmd =
      simp (length-append, law.length-put8, law.length-put32)
        ((omega arith, omega (arith, law.length-put_value cmd.value)))
