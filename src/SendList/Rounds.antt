-- ===== src/SendList/Rounds.antt =====
-- A round of nl_send_lst where every packet has room for its messages.
use bf.Base.{
  ℕ, suc, ◌+◌, ◌-◌, ◌&&◌, ◌≤◌, ◌<◌, ◌≡◌, refl, sym, ap, ◌∙◌, true, false, List, [], ◌∷◌, ◌++◌,
  append_assoc, append-nil, Option-cases, ◌%◌, map, map-append, Option, none, some, length,
  length-append, All, All-append, if◌then◌else◌, ◌==◌, Bool-cases, inl, inr, arith, ltb, Bool, ◌⊎◌,
}
use bf.Rule.{FilterRule}
use bf.Message.{nlm_f_ack}
use bf.SendList.{Packet, Sending, open_packet, put_message, flush_packet, send_rule}

-- The rules of packets, one after the other.
abbrev pub rules_of : List Packet → List FilterRule
rules_of [] = []
rules_of (p ∷ ps) = map (λ m. m.0) p ++ rules_of ps

pub rules_of-append : (ps qs : List Packet) → rules_of (ps ++ qs) ≡ rules_of ps ++ rules_of qs
rules_of-append [] qs = refl
rules_of-append (p ∷ ps) qs =
    ap (λ x. map (λ m. m.0) p ++ x) (rules_of-append ps qs)
    ∙ sym (append_assoc (map (λ m. m.0) p) (rules_of ps) (rules_of qs))

-- The messages that wait in the open packet.
abbrev pub waiting : Sending → Packet
waiting s = elim s.skb_out [ none ↦ [] | some skb ↦ skb ]

-- The rules that have been handled so far.
abbrev pub handled_rules : Sending → List FilterRule
handled_rules s = rules_of s.packets ++ map (λ m. m.0) (waiting s)

abbrev pub IsSmall : ℕ → List Packet → Type 0
IsSmall size = All (λ p. length p ≤ size)

-- Between two rounds: the open packet has `i` messages, but not as many as it may have, and an open packet
-- was not left without room; no packet that was sent is larger than `size`.
pub record IsSending (size : ℕ) (s : Sending) : Type 0 where
  pub filled : length (waiting s) ≡ s.i
  pub below : s.i < size
  pub opened : (skb : Packet) → s.skb_out ≡ some skb → (0 < s.i) × (s.nlh ≡ true)
  pub sizes : IsSmall size s.packets

-- What a round does: the rule is handled behind the others.
pub record IsRound (size : ℕ) (s : Sending) (r : FilterRule) (s' : Sending) : Type 0 where
  pub again : IsSending size s'
  pub counted : s'.rules_cnt ≡ suc s.rules_cnt
  pub rules : handled_rules s' ≡ handled_rules s ++ r ∷ []

module _ (room size : ℕ) (big : size ≤ room) where
  open_packet-waiting : (s : Sending) → IsSending size s → open_packet size s ≡ waiting s
  unfolding open_packet
  open_packet-waiting s v = elim (Option-cases s.skb_out) [
    | inl e ↦ rw e
    | inr (skb, e) ↦
        let o = v.opened skb e in
        let zero_test : (s.i == 0) ≡ false = ground arith in
        let size_test : (s.i == size) ≡ false = ground (arith, v.below) in
        rw (e, zero_test, size_test, o.1)
  ]

  -- The state behind the message of a rule, before the test of `i`.
  abbrev filled_with : Sending → Packet → Sending
  filled_with s skb = record s {
    skb_out = some skb;
    nlh = true;
    i = suc s.i;
    rules_cnt = suc s.rules_cnt;
  }

  put_message-filled_with :
      (s : Sending) (r : FilterRule)
      → IsSending size s
      → (flags : ℕ) × (put_message room size s r ≡ filled_with s (waiting s ++ (r, flags) ∷ []))
  unfolding put_message
  put_message-filled_with s r v =
      let room_left : ltb (length (waiting s)) room ≡ true =
        ground (arith, v.filled, v.below, big) in
      (
        if s.msg_cnt % 2 == 0 && s.i == size - 1 then nlm_f_ack else 0,
        rw (open_packet-waiting s v, room_left) refl,
      )

  module _ (s : Sending) (v : IsSending size s) (r : FilterRule) (flags : ℕ) where
    abbrev larger : Packet
    larger = waiting s ++ (r, flags) ∷ []

    length-larger : length larger ≡ suc s.i
    length-larger = omega (arith, length-append (waiting s) ((r, flags) ∷ []), v.filled)

    larger-rules : rules_of s.packets ++ map (λ m. m.0) larger ≡ handled_rules s ++ r ∷ []
    larger-rules =
        ap (λ x. rules_of s.packets ++ x) (map-append (λ m. m.0) (waiting s) ((r, flags) ∷ []))
        ∙ sym (append_assoc (rules_of s.packets) (map (λ m. m.0) (waiting s)) (r ∷ []))

    kept-IsRound : (suc s.i == size) ≡ false → IsRound size s r (filled_with s larger)
    kept-IsRound e = record {
      again = record {
        filled = length-larger;
        below = ground (arith, v.below);
        opened = λ skb e'. (omega arith, refl);
        sizes = v.sizes;
      };
      counted = refl;
      rules = larger-rules;
    }

    -- A packet that is full.
    abbrev flushed : Sending
    flushed = record s {
      skb_out = none;
      nlh = true;
      i = 0;
      rules_cnt = suc s.rules_cnt;
      msg_cnt = suc s.msg_cnt;
      packets = s.packets ++ larger ∷ [];
      waits = s.waits + (if s.msg_cnt % 2 == 0 then 1 else 0);
    }

    flushed-IsRound : (suc s.i == size) ≡ true → IsRound size s r flushed
    flushed-IsRound e = record {
      again = record {
        filled = refl;
        below = ground (arith, v.below);
        opened = λ skb e'. absurd cc;
        sizes =
            All-append (λ p. length p ≤ size) s.packets (larger ∷ []) v.sizes
              (ground (arith, length-larger), tt);
      };
      counted = refl;
      rules =
          append-nil (rules_of (s.packets ++ larger ∷ []))
          ∙ (rules_of-append s.packets (larger ∷ [])
              ∙ (ap (λ x. rules_of s.packets ++ x) (append-nil (map (λ m. m.0) larger))
                  ∙ larger-rules));
    }

  -- A round ends in a state between two rounds, or the call returns where a packet is not sent.
  pub send_rule-IsRound :
      (send_ok : ℕ → Bool) (s : Sending) (r : FilterRule)
      → IsSending size s
      → ((s' : Sending) × (send_rule send_ok room size s r ≡ some s') × IsRound size s r s')
        ⊎ ((send_rule send_ok room size s r ≡ none) × (send_ok (length s.packets) ≡ false))
  unfolding send_rule flush_packet
  send_rule-IsRound send_ok s r v =
      let (flags, e) = put_message-filled_with s r v in
      let ended : Sending → Option Sending = λ x.
        let sent : Option Sending = elim x.skb_out [
          | none ↦ some x
          | some skb ↦ flush_packet send_ok x skb
        ] in
        if x.i == size then sent else some x in
      elim (Bool-cases (suc s.i == size)) [
        | inl full ↦ elim (Bool-cases (send_ok (length s.packets))) [
          | inl sent ↦ inl (
            flushed s v r flags,
            ap ended e ∙ rw (full, sent) refl,
            flushed-IsRound s v r flags full,
          )
          | inr lost ↦ inr (ap ended e ∙ rw (full, lost) refl, lost)
        ]
        | inr more ↦ inl (
          filled_with s (larger s v r flags),
          ap ended e ∙ rw more refl,
          kept-IsRound s v r flags more,
        )
      ]
