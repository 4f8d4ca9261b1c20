-- ===== src/SendList/Packets.antt =====
-- What nl_send_lst sends where every packet has room for its messages, whether the sends succeed or not.
use mathlib.Core.Path.{subst, subst₂}
use bf.Base.{
  ℕ, ◌+◌, ◌≤◌, ◌<◌, ◌≡◌, refl, sym, ap, ◌∙◌, false, List, [], ◌∷◌, ◌++◌, append_assoc, append-nil,
  Option-cases, map, Option, none, some, length, All-append, if◌then◌else◌, ◌==◌, inl, inr, arith,
  Bool, ◌⊎◌, Bool-cases,
}
use bf.Rule.{FilterRule}
use bf.Client.{Result, returned, failed}
use bf.SendList.{Packet, Sending, send_rest, send_rules_from, sending_started, nl_send_lst}
use bf.SendList.Rounds.{
  rules_of, rules_of-append, waiting, handled_rules, IsSmall, IsSending, send_rule-IsRound,
}

-- What a call has sent of its rules: all of them, and the result is their number, or those in the packets
-- before one that is not sent.
pub record IsSent (send_ok : ℕ → Bool) (size : ℕ) (rs : List FilterRule) (count : ℕ) (t : Sending)
    (ret : Result) : Type 0 where
  pub unsent : List FilterRule
  pub rules : rules_of t.packets ++ unsent ≡ rs
  pub sizes : IsSmall size t.packets
  pub ended :
      ((ret ≡ returned count) × (unsent ≡ []))
      ⊎ ((ret ≡ failed 1) × (send_ok (length t.packets) ≡ false))

module _ (send_ok : ℕ → Bool) (room size : ℕ) (big : size ≤ room) where
  -- The packet that is left behind the loop.
  send_rest-IsSent :
      (s : Sending)
      → IsSending size s
      → (t : Sending) × (ret : Result) × (send_rest send_ok s ≡ (t, ret))
        × IsSent send_ok size (handled_rules s) s.rules_cnt t ret
  unfolding send_rest
  send_rest-IsSent s v =
      let with_skb : Packet → Sending = λ skb. record s { packets = s.packets ++ skb ∷ [] } in
      let sent : Option Packet → Sending × Result = λ o. elim o [
        | none ↦ (s, returned s.rules_cnt)
        | some skb ↦
            if send_ok (length s.packets)
            then (with_skb skb, returned s.rules_cnt)
            else (s, failed 1)
      ] in
      let waits_for : Option Packet → Packet = λ o. elim o [ none ↦ [] | some skb ↦ skb ] in
      elim (Option-cases s.skb_out) [
        | inl e ↦ (
          s,
          returned s.rules_cnt,
          ap sent e,
          record {
            unsent = [];
            rules = sym (ap (λ p. rules_of s.packets ++ map (λ m. m.0) (waits_for p)) e);
            sizes = v.sizes;
            ended = inl (refl, refl);
          },
        )
        | inr (skb, e) ↦
            let waiting_skb : waiting s ≡ skb = ap waits_for e in
            elim (Bool-cases (send_ok (length s.packets))) [
              | inl ok ↦ (
                with_skb skb,
                returned s.rules_cnt,
                ap sent e ∙ rw ok refl,
                record {
                  unsent = [];
                  rules =
                      append-nil (rules_of (s.packets ++ skb ∷ []))
                      ∙ (rules_of-append s.packets (skb ∷ [])
                          ∙ (ap (λ x. rules_of s.packets ++ x) (append-nil (map (λ m. m.0) skb))
                              ∙ sym
                                  (ap (λ p. rules_of s.packets ++ map (λ m. m.0) p) waiting_skb)));
                  sizes =
                      All-append (λ p. length p ≤ size) s.packets (skb ∷ []) v.sizes
                        (ground (arith, v.filled, v.below, ap length waiting_skb), tt);
                  ended = inl (refl, refl);
                },
              )
              | inr lost ↦ (
                s,
                failed 1,
                ap sent e ∙ rw lost refl,
                record {
                  unsent = map (λ m. m.0) (waiting s);
                  rules = refl;
                  sizes = v.sizes;
                  ended = inr (refl, lost);
                },
              )
            ]
      ]

  -- What the call has sent at its end, from a state between two rounds.
  send_rules_from-IsSent :
      (s : Sending) (rs : List FilterRule)
      → IsSending size s
      → (t : Sending) × (ret : Result) × (send_rules_from send_ok room size s rs ≡ (t, ret))
        × IsSent send_ok size (handled_rules s ++ rs) (s.rules_cnt + length rs) t ret
  unfolding send_rules_from
  send_rules_from-IsSent s [] v =
      let (t, ret, e, sent) = send_rest-IsSent s v in
      (
        t,
        ret,
        e,
        subst₂ (λ xs n. IsSent send_ok size xs n t ret) (sym (append-nil (handled_rules s)))
            (omega arith) sent,
      )
  send_rules_from-IsSent s (r ∷ rs) v = elim (send_rule-IsRound room size big send_ok s r v) [
    | inl (s', e, round) ↦
        let (t, ret, e', sent) = send_rules_from-IsSent s' rs round.again in
        let counted : s'.rules_cnt + length rs ≡ s.rules_cnt + length (r ∷ rs) =
          omega (arith, round.counted) in
        let rules : handled_rules s' ++ rs ≡ handled_rules s ++ r ∷ rs =
          ap (λ x. x ++ rs) round.rules ∙ append_assoc (handled_rules s) (r ∷ []) rs in
        (
          t,
          ret,
          rw (send_rules_from, e) e',
          subst₂ (λ xs n. IsSent send_ok size xs n t ret) rules counted sent,
        )
    | inr (e, lost) ↦ (
      s,
      failed 1,
      rw (send_rules_from, e) refl,
      record {
        unsent = map (λ m. m.0) (waiting s) ++ r ∷ rs;
        rules = sym (append_assoc (rules_of s.packets) (map (λ m. m.0) (waiting s)) (r ∷ rs));
        sizes = v.sizes;
        ended = inr (refl, lost);
      },
    )
  ]

-- For an `lst_size` for which every packet has room, nl_send_lst sends the rules in their order, each once
-- and at most `lst_size` of them in a packet, and returns their number, or it fails at the first packet
-- whose nlmsg_unicast fails, with the packets before it sent; an `lst_size` of 0 stands for the default
-- one, which is not 0.
pub nl_send_lst-IsSent :
    (send_ok : ℕ → Bool) (room default_size lst_size : ℕ) (rs : List FilterRule)
    → let size = if lst_size == 0 then default_size else lst_size in
      0 < size
      → size ≤ room
      → (t : Sending) × (ret : Result) × (nl_send_lst send_ok room default_size lst_size rs
          ≡ (t, ret))
        × IsSent send_ok size rs (length rs) t ret
unfolding nl_send_lst
nl_send_lst-IsSent send_ok room default_size lst_size rs positive big =
    let size : ℕ = if lst_size == 0 then default_size else lst_size in
    let start : IsSending size sending_started = record {
      filled = refl;
      below = positive;
      opened = λ skb e. absurd cc;
      sizes = tt;
    } in
    let (t, ret, e, sent) = send_rules_from-IsSent send_ok room size big sending_started rs start in
    let not_zero : (size == 0) ≡ false = ground (arith, positive) in
    (t, ret, rw not_zero e, subst (λ n. IsSent send_ok size rs n t ret) (omega arith) sent)
