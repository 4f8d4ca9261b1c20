-- ===== src/Examples/Tools.antt =====
-- The theorems on the old command tool and on the netlink socket at concrete inputs.
use bf.Base.{
  ℕ, ◌+◌, ◌*◌, ◌/◌, ◌≤◌, ◌≡◌, refl, true, false, not, ◌&&◌, List, [], ◌∷◌, ◌++◌, append-nil, map,
  replicate, length, get_or, drop, none, some, ltb, arith,
}
use bf.Rule.{FilterRule}
use bf.Names.{codes, get_policy}
use bf.Message.{msg_ok, msg_get_rules, msg_done, nlmsg_error, Payload, rule, done}
use bf.Listing.{list_rules, ack_every_n_msg}
use bf.Listing.Complete.{delivered, listed_rules}
use bf.Client.{returned, failed}
use bf.Client.Rules.{fetched}
use bf.Cli.{zeroed_rule, parse_cmd_args}
use bf.CommandTool.{ToolOpt, opt_append, opt_proto, opt_srcport, opt_jump, tool_args, cmd_list}
use bf.CommandTool.Agrees.{to_bfctl, kept_option, IsShared, tool_args-parse_cmd_args}
use bf.CommandTool.Main.{ToolMessage, exit_success, to_kernel, tool_main, is_done}
use bf.CommandTool.Main.Rounds.{Buffers, buffers}
use bf.CommandTool.Main.Rules.{tool_message, answer, going, lines_from, tool_main-list_rules}
use bf.NetlinkSocket.{
  Libnl, NetlinkSocket, create, close, send_msg, ready_read, got_none, sig_error,
}
use bf.NetlinkSocket.Closed.{create_call, send_call, close_call, calls, close-calls}
use bf.NetlinkSocket.Buffers.{IsLibnl, IsMessage, nlmsg_align}
use bf.Examples.{one_rule}
use bf.Examples.Kernels.{one_rule-IsStore}
use bf.Examples.Programs.{libc}

abbrev tool_line : List ToolOpt
tool_line =
    opt_append (codes "INPUT")
    ∷ opt_proto (codes "udp")
    ∷ opt_srcport (codes "70000")
    ∷ opt_jump (some (codes "drop"))
    ∷ []

tool_args-parse_cmd_args_example :
    tool_args libc tool_line ≡ kept_option (parse_cmd_args libc [] (map to_bfctl tool_line))
unfolding IsShared get_policy
tool_args-parse_cmd_args_example =
    tool_args-parse_cmd_args libc [] tool_line (tt, (tt, (tt, ((λ e. omega arith), tt))))

abbrev as_rule : Payload → FilterRule
as_rule p = zeroed_rule

abbrev as_error : Payload → ℕ
as_error p = 0

-- The whole listing in one buffer.
abbrev one_buffer : Buffers
one_buffer =
    (
      map (tool_message as_rule as_error) (list_rules delivered one_rule 1234 zeroed_rule).sent,
      msg_ok,
    )
    ∷ []

tool_main-list_rules_example :
    let n = length (listed_rules zeroed_rule one_rule.store) in
    tool_main true true delivered cmd_list zeroed_rule (buffers one_buffer)
    ≡ exit_success (
        going
          (to_kernel msg_get_rules (rule zeroed_rule)
            ∷ (replicate (n / ack_every_n_msg) answer ++ to_kernel msg_done (done 0) ∷ []))
          (lines_from 1 (fetched one_rule 1234 zeroed_rule))
          (2 + n))
unfolding is_done
tool_main-list_rules_example =
    tool_main-list_rules as_rule as_error one_rule 1234 zeroed_rule one_buffer one_rule-IsStore
      (refl, tt) (append-nil _)

-- A message with an error code, and a failure of nl_recv.
abbrev refused : ToolMessage
refused = record { nlmsg_type = nlmsg_error; ack = false; fr = zeroed_rule; error = 22 }

-- Headers whose length is in their first two bytes.
abbrev len_of : List ℕ → ℕ
len_of hdr = get_or hdr 0 0 + 256 * get_or hdr 1 0

abbrev libnl : Libnl
libnl = record {
  nlmsg_ok = λ hdr. not (ltb (len_of hdr) 16) && not (ltb (length hdr) (len_of hdr));
  nlmsg_len = len_of;
  nlmsg_next = λ hdr. drop (nlmsg_align (len_of hdr)) hdr;
}

len_of-append : (m rest : List ℕ) → 16 ≤ length m → len_of (m ++ rest) ≡ len_of m
len_of-append [] rest h = absurd (omega arith)
len_of-append (a ∷ []) rest h = absurd (omega arith)
len_of-append (a ∷ b ∷ m) rest h = refl

libnl-IsLibnl : IsLibnl libnl
libnl-IsLibnl = record {
  nlmsg_len-append = len_of-append;
  nlmsg_ok-len = λ hdr e. (ground arith, ground arith);
  ok_of_len = λ hdr h k. ground arith;
  nlmsg_next-drop = λ hdr. refl;
}

-- A message of 18 bytes.
abbrev short_message : List ℕ
short_message = 18 ∷ replicate 17 0

short_message-IsMessage : IsMessage libnl short_message
short_message-IsMessage = record { has_header = omega arith; has_len = refl }

abbrev open_socket : NetlinkSocket
open_socket = record { nl_socket = some true; init = true }

close-calls_example :
    let t =
      calls libnl
        (close open_socket)
        (create_call true (returned 0) ∷ send_call (returned 64) ∷ close_call ∷ []) in
    (t.nl_socket ≡ none)
    × (create true (returned 64) t ≡ (t, returned 0, []))
    × (send_msg (returned 64) t ≡ failed 1)
    × (ready_read libnl (got_none (failed 4)) t ≡ sig_error (failed 1) ∷ [])
close-calls_example =
    close-calls libnl open_socket
      (create_call true (returned 0) ∷ send_call (returned 64) ∷ close_call ∷ []) true (returned 64)
      (got_none (failed 4)) refl
