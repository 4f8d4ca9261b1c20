-- ===== src/Message.antt =====
-- The netlink messages between the kernel module and its clients: enum bf_messages_t and the message
-- structures of common/trx_data.h.
use bf.Base.{ℕ, Option, ◌+◌}
use bf.Rule.{FilterRule}

-- `nlmsg_type`; `other` holds the number of a type that the program gives no name to.
pub data MessageType : Type 0 where
  nlmsg_error msg_add_rule msg_data msg_done msg_delete_rule msg_delete_all_rules : MessageType
  msg_update_rule msg_chain_policy msg_get_rules msg_ok msg_err msg_log : MessageType
  msg_log_subscribe : MessageType
  other : ℕ → MessageType

-- NLMSG_MIN_TYPE + 2, and NLMSG_ERROR of the netlink interface
abbrev pub msg_base : ℕ
msg_base = 18

abbrev pub nlmsg_error_type : ℕ
nlmsg_error_type = 2

unfoldable pub type_number : MessageType → ℕ
type_number nlmsg_error = nlmsg_error_type
type_number msg_add_rule = msg_base
type_number msg_data = msg_base + 1
type_number msg_done = msg_base + 2
type_number msg_delete_rule = msg_base + 3
type_number msg_delete_all_rules = msg_base + 4
type_number msg_update_rule = msg_base + 5
type_number msg_chain_policy = msg_base + 6
type_number msg_get_rules = msg_base + 7
type_number msg_ok = msg_base + 8
type_number msg_err = msg_base + 9
type_number msg_log = msg_base + 10
type_number msg_log_subscribe = msg_base + 11
type_number (other n) = n

-- What a message carries. The rule of a msg_err_t is `none` where the code leaves it uninitialised.
pub data Payload : Type 0 where
  rule : FilterRule → Payload
  err : Option FilterRule → ℕ → Payload
  done : ℕ → Payload

-- A message that nl_send_msg hands to the socket.
pub record Sent : Type 0 where
  pub destpid : ℕ
  pub msg_type : MessageType
  pub flags : ℕ
  pub payload : Payload

-- NLM_F_ACK
abbrev pub nlm_f_ack : ℕ
nlm_f_ack = 4

-- What nl_rcv_msg reads of a request: the fields of its header, and its data as a rule.
pub record Request : Type 0 where
  pub nlmsg_type : MessageType
  pub nlmsg_pid : ℕ
  pub fr : FilterRule
