-- ===== src/CommandTool/Main/Errors.antt =====
-- The line of the old tool about an error code.
use bf.Base.{
  ℕ, ◌≡◌, refl, ◌∙◌, Bool, true, not, ◌&&◌, List, [], ◌∷◌, ◌++◌, All, All-append, length,
  if◌then◌else◌, ◌==◌, if_cases, arith,
}
use bf.Rule.{FilterRule}
use bf.Message.{
  MessageType, msg_add_rule, msg_get_rules, msg_delete_rule, msg_delete_all_rules, nlmsg_error,
  msg_done, msg_ok, Payload, rule, done,
}
use bf.Cli.{zeroed_rule}
use bf.CommandTool.{ToolCommand, cmd_append, cmd_list, cmd_delete, cmd_flush, cmd_print_help}
use bf.CommandTool.Main.{
  ToolMessage, Received, buffer, recv_failed, ToolLine, rule_line, got_error, ToolState, ToolEnd,
  exit_success, exit_failure, blocked, undefined, help_printed, to_kernel, tool_send, is_done,
  is_data, Scan, passed, send_failed, at_message, first_error, on_error, print_data, scan,
  list_loop, say_done, tool_action, tool_main, tool_started,
}

unfoldable pub IsRuleLine : ToolLine → Type 0
IsRuleLine (rule_line n base proto) = Unit
IsRuleLine (got_error code) = ¬ Unit

abbrev pub HasRuleLines : ToolState → Type 0
HasRuleLines s = All IsRuleLine s.lines

-- Nothing but rules has been printed at the end of the program, or at the end of a buffer; behind the
-- last message of a buffer, there was no error either.
unfoldable pub EndHasRuleLines : ToolEnd → Type 0
EndHasRuleLines (exit_success s) = HasRuleLines s
EndHasRuleLines (exit_failure s) = HasRuleLines s
EndHasRuleLines (blocked s) = HasRuleLines s
EndHasRuleLines (undefined s) = HasRuleLines s
EndHasRuleLines help_printed = Unit

ScanHasRuleLines : Scan → Type 0
ScanHasRuleLines (at_message t s) = HasRuleLines s
ScanHasRuleLines (passed s) = HasRuleLines s × (s.nlerrr ≡ 0)
ScanHasRuleLines (send_failed s) = HasRuleLines s

print_data-HasRuleLines :
    (s : ToolState) (m : ToolMessage) → HasRuleLines s → HasRuleLines (print_data s m)
unfolding print_data IsRuleLine
print_data-HasRuleLines s m h =
    if_cases HasRuleLines (is_data m.nlmsg_type) (λ e. All-append IsRuleLine s.lines _ h (tt, tt))
      (λ e. h)

print_data-nlerrr : (s : ToolState) (m : ToolMessage) → (print_data s m).nlerrr ≡ s.nlerrr
unfolding print_data
print_data-nlerrr s m = ground arith

-- The three cases of a message's type in the loop over a buffer.
message_cases :
    (P : Scan → Type 0) (t : MessageType) (x y z : Scan)
    → P x
    → P y
    → P z
    → P (elim t [ nlmsg_error ↦ x | msg_done ↦ y | _ ↦ z ])
message_cases P nlmsg_error x y z a b c = a
message_cases P msg_done x y z a b c = b
message_cases P _ x y z a b c = c

on_error-HasRuleLines :
    (e : ℕ) (s : ToolState) → s.nlerrr ≡ 0 → HasRuleLines s → HasRuleLines (on_error e s)
unfolding on_error
on_error-HasRuleLines e s z h = rw z h

scan-HasRuleLines :
    (send_ok : ℕ → Bool) (e : ℕ) (s : ToolState) (ms : List ToolMessage)
    → s.nlerrr ≡ 0
    → HasRuleLines s
    → ScanHasRuleLines (scan send_ok e s ms)
unfolding scan ScanHasRuleLines
scan-HasRuleLines send_ok e s [] z h = (h, z)
scan-HasRuleLines send_ok e s (m ∷ ms) z h =
    let s' = print_data s m in
    let answered = record s' { sent = s'.sent ++ to_kernel msg_ok (rule zeroed_rule) ∷ [] } in
    let k = print_data-HasRuleLines s m h in
    let y : s'.nlerrr ≡ 0 = print_data-nlerrr s m ∙ z in
    message_cases ScanHasRuleLines m.nlmsg_type _ _ _ (on_error-HasRuleLines e s z h) h (
      if_cases ScanHasRuleLines m.ack
        (λ a.
          if_cases ScanHasRuleLines (send_ok (length s'.sent))
            (λ b. scan-HasRuleLines send_ok e answered ms y k) (λ b. k))
        (λ a. scan-HasRuleLines send_ok e s' ms y k))

module _ (send_ok : ℕ → Bool) where
  tool_send-EndHasRuleLines :
      (s : ToolState) (t : MessageType) (p : Payload) (f : ToolState → ToolEnd)
      → HasRuleLines s
      → ((x : ToolState) → x.lines ≡ s.lines → x.nlerrr ≡ s.nlerrr → EndHasRuleLines (f x))
      → EndHasRuleLines (tool_send send_ok s t p f)
  unfolding tool_send EndHasRuleLines
  tool_send-EndHasRuleLines s t p f h g =
      if_cases EndHasRuleLines (send_ok (length s.sent)) (λ e. g _ refl refl) (λ e. h)

  say_done-EndHasRuleLines : (s : ToolState) → HasRuleLines s → EndHasRuleLines (say_done send_ok s)
  unfolding say_done EndHasRuleLines
  say_done-EndHasRuleLines s h =
      tool_send-EndHasRuleLines s msg_done (done 0) exit_success h (λ x e z. rw e h)

  -- The `do` loop goes on only without an error.
  goes_on : (n : ℕ) (b : Bool) → ((n == 0) && b) ≡ true → n ≡ 0
  goes_on n b e = ground arith

  after-EndHasRuleLines :
      (rest : ToolState → ToolEnd) (beyond : MessageType) (r : Scan)
      → ((x : ToolState) → x.nlerrr ≡ 0 → HasRuleLines x → EndHasRuleLines (rest x))
      → ScanHasRuleLines r
      → EndHasRuleLines (elim r [
        | send_failed x ↦ exit_failure x
        | at_message t x ↦ if x.nlerrr == 0 && not (is_done t) then rest x else say_done send_ok x
        | passed x ↦ if x.nlerrr == 0 && not (is_done beyond) then rest x else say_done send_ok x
      ])
  unfolding EndHasRuleLines ScanHasRuleLines
  after-EndHasRuleLines rest beyond (send_failed x) g h = h
  after-EndHasRuleLines rest beyond (at_message t x) g h =
      if_cases EndHasRuleLines (x.nlerrr == 0 && not (is_done t))
        (λ e. g x (goes_on x.nlerrr (not (is_done t)) e) h) (λ e. say_done-EndHasRuleLines x h)
  after-EndHasRuleLines rest beyond (passed x) g h =
      if_cases EndHasRuleLines (x.nlerrr == 0 && not (is_done beyond)) (λ e. g x h.1 h.0)
        (λ e. say_done-EndHasRuleLines x h.0)

  list_loop-EndHasRuleLines :
      (s : ToolState) (bs : List Received)
      → s.nlerrr ≡ 0
      → HasRuleLines s
      → EndHasRuleLines (list_loop send_ok (say_done send_ok) s bs)
  unfolding list_loop EndHasRuleLines
  list_loop-EndHasRuleLines s [] z h = h
  list_loop-EndHasRuleLines s (recv_failed ∷ bs) z h = h
  list_loop-EndHasRuleLines s (buffer ms beyond ∷ bs) z h =
      after-EndHasRuleLines (λ x. list_loop send_ok (say_done send_ok) x bs) beyond
        (scan send_ok (first_error ms) s ms) (λ x. list_loop-EndHasRuleLines x bs)
        (scan-HasRuleLines send_ok (first_error ms) s ms z h)

  -- A command that is one request.
  request-EndHasRuleLines :
      (t : MessageType) (p : Payload)
      → EndHasRuleLines (tool_send send_ok tool_started t p (say_done send_ok))
  request-EndHasRuleLines t p =
      tool_send-EndHasRuleLines tool_started t p (say_done send_ok) tt
        (λ x e z. say_done-EndHasRuleLines x (rw e tt))

  action-EndHasRuleLines :
      (action : ToolCommand) (fr : FilterRule) (bs : List Received)
      → EndHasRuleLines (tool_action send_ok action fr bs)
  unfolding tool_action EndHasRuleLines
  action-EndHasRuleLines cmd_append fr bs = request-EndHasRuleLines msg_add_rule (rule fr)
  action-EndHasRuleLines cmd_list fr bs =
      tool_send-EndHasRuleLines tool_started msg_get_rules (rule fr)
        (λ x. list_loop send_ok (say_done send_ok) x bs) tt
        (λ x e z. list_loop-EndHasRuleLines x bs z (rw e tt))
  action-EndHasRuleLines cmd_delete fr bs = request-EndHasRuleLines msg_delete_rule (rule fr)
  action-EndHasRuleLines cmd_flush fr bs = request-EndHasRuleLines msg_delete_all_rules (rule fr)
  action-EndHasRuleLines cmd_print_help fr bs = tt
  action-EndHasRuleLines _ fr bs = say_done-EndHasRuleLines tool_started tt

-- Whatever the command, the sends and the messages received, the line about an error code is never
-- printed: the code is tested before it is set.
pub tool_main-EndHasRuleLines :
    (alloc_ok connect_ok : Bool) (send_ok : ℕ → Bool) (action : ToolCommand) (fr : FilterRule)
    (bs : List Received)
    → EndHasRuleLines (tool_main alloc_ok connect_ok send_ok action fr bs)
unfolding tool_main EndHasRuleLines
tool_main-EndHasRuleLines alloc_ok connect_ok send_ok action fr bs =
    if_cases EndHasRuleLines (alloc_ok && connect_ok)
      (λ e. action-EndHasRuleLines send_ok action fr bs) (λ e. tt)
