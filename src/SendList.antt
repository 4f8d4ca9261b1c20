-- ===== src/SendList.antt =====
-- nl_send_lst of bf-ko/nl_int.c: the rules of the module in packets of several messages, which the
-- branch of list_rules that is not built calls, with 20 for `lst_size`, which is not negative here. `send_ok
-- n` tells whether the n-th nlmsg_unicast succeeds, `room` how many messages nlmsg_put finds room
-- for in a new packet, and `default_size` is NLMSG_DEFAULT_SIZE by the size of a message. An error
-- of nlmsg_unicast comes as `failed 1`.
pub mod Packets
pub mod Rounds
use bf.Base.{
  ℕ, suc, ◌+◌, ◌-◌, ◌%◌, Bool, true, false, not, ◌&&◌, ◌||◌, List, [], ◌∷◌, ◌++◌, Option, none,
  some, length, ltb, if◌then◌else◌, ◌==◌,
}
use bf.Rule.{FilterRule}
use bf.Message.{nlm_f_ack}
use bf.Client.{Result, returned, failed}

-- A packet: the rules of its messages, with the flags of each.
abbrev pub Packet : Type 0
Packet = List (FilterRule × ℕ)

-- The variables of the call, what it has sent and how often it has waited.
pub record Sending : Type 0 where
  pub skb_out : Option Packet
  pub nlh : Bool
  pub i : ℕ
  pub msg_cnt : ℕ
  pub rules_cnt : ℕ
  pub packets : List Packet
  pub waits : ℕ

-- The packet that the next message goes to.
unfoldable pub open_packet : ℕ → Sending → Packet
open_packet lst_size s = elim s.skb_out [
  | none ↦ []
  | some skb ↦ if s.i == 0 || s.i == lst_size || not s.nlh then [] else skb
]

-- A round of the loop up to its test of `i`: the message is put into the packet.
unfoldable pub put_message : ℕ → ℕ → Sending → FilterRule → Sending
unfolding open_packet
put_message room lst_size s r =
    let skb = open_packet lst_size s in
    let flags = if s.msg_cnt % 2 == 0 && s.i == lst_size - 1 then nlm_f_ack else 0 in
    let nlh = ltb (length skb) room in
    record s {
      skb_out = some (if nlh then skb ++ (r, flags) ∷ [] else skb);
      nlh = nlh;
      i = suc s.i;
      rules_cnt = suc s.rules_cnt;
    }

-- nlmsg_unicast of a packet that is full; the call returns where it fails.
unfoldable pub flush_packet : (ℕ → Bool) → Sending → Packet → Option Sending
flush_packet send_ok s skb =
    if send_ok (length s.packets)
    then some (record s {
      skb_out = none;
      i = 0;
      msg_cnt = suc s.msg_cnt;
      packets = s.packets ++ skb ∷ [];
      waits = s.waits + (if s.msg_cnt % 2 == 0 then 1 else 0);
    })
    else none

-- A round of the loop; `none` where the call returns.
unfoldable pub send_rule : (ℕ → Bool) → ℕ → ℕ → Sending → FilterRule → Option Sending
unfolding put_message flush_packet
send_rule send_ok room lst_size s r =
    let s' = put_message room lst_size s r in
    let flushed : Option Sending = elim s'.skb_out [
      | none ↦ some s'
      | some skb ↦ flush_packet send_ok s' skb
    ] in
    if s'.i == lst_size then flushed else some s'

-- The packet that is left behind the loop, and the result.
unfoldable pub send_rest : (ℕ → Bool) → Sending → Sending × Result
send_rest send_ok s = elim s.skb_out [
  | none ↦ (s, returned s.rules_cnt)
  | some skb ↦
      if send_ok (length s.packets)
      then (record s { packets = s.packets ++ skb ∷ [] }, returned s.rules_cnt)
      else (s, failed 1)
]

unfoldable pub send_rules_from : (ℕ → Bool) → ℕ → ℕ → Sending → List FilterRule → Sending × Result
unfolding send_rule send_rest
send_rules_from send_ok room lst_size s [] = send_rest send_ok s
send_rules_from send_ok room lst_size s (r ∷ rs) = elim (send_rule send_ok room lst_size s r) [
  | none ↦ (s, failed 1)
  | some s' ↦ send_rules_from send_ok room lst_size s' rs
]

abbrev pub sending_started : Sending
sending_started = record {
  skb_out = none;
  nlh = false;
  i = 0;
  msg_cnt = 1;
  rules_cnt = 0;
  packets = [];
  waits = 0;
}

-- nl_send_lst
unfoldable pub nl_send_lst : (ℕ → Bool) → ℕ → ℕ → ℕ → List FilterRule → Sending × Result
unfolding send_rules_from
nl_send_lst send_ok room default_size lst_size rs =
    let size = if lst_size == 0 then default_size else lst_size in
    let all = send_rules_from send_ok room size sending_started rs in
    if size == 0 then (sending_started, failed 1) else all
