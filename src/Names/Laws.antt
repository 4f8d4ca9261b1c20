-- ===== src/Names/Laws.antt =====
-- Printing and reading names.
use bf.Base.{ℕ, ◌≤◌, ◌≡◌, refl, sym, ap, ◌∙◌, ◌⊎◌, if_cases, inl, inr, arith}
use bf.Rule.{
  chain_output, policy_none, sw_none, ipproto_tcp, ipproto_udp, ipproto_all, ipproto_notexist,
}
use bf.Names.{
  Text, codes, strcasecmp_zero, get_sw_name, get_policy_name, get_proto, get_proto_name, get_switch,
  get_policy, get_chain_name, get_chain,
}

small : (n : ℕ) → n ≤ 3 → (n ≡ 0) ⊎ ((n ≡ 1) ⊎ ((n ≡ 2) ⊎ (n ≡ 3)))
small n h = ground arith

get_chain-name : (c : ℕ) → c ≤ chain_output → get_chain (get_chain_name c) ≡ c
unfolding get_chain get_chain_name
get_chain-name c h = elim (small c h) [
  | inl e ↦ rw e
  | inr (inl e) ↦ rw e
  | inr (inr (inl e)) ↦ rw e
  | inr (inr (inr e)) ↦ rw e
]

get_policy-name : (p : ℕ) → p ≤ policy_none → get_policy (get_policy_name p) ≡ p
unfolding get_policy get_policy_name
get_policy-name p h = elim (small p (omega arith)) [
  | inl e ↦ rw e
  | inr (inl e) ↦ rw e
  | inr (inr (inl e)) ↦ rw e
  | inr (inr (inr e)) ↦ absurd (omega arith)
]

get_switch-name : (s : ℕ) → s ≤ sw_none → get_switch (get_sw_name s) ≡ s
unfolding get_switch get_sw_name
get_switch-name s h = elim (small s (omega arith)) [
  | inl e ↦ rw e
  | inr (inl e) ↦ rw e
  | inr (inr (inl e)) ↦ rw e
  | inr (inr (inr e)) ↦ absurd (omega arith)
]

-- Every value of the chain, policy and switch enumerations is read back from its printed name.
pub names_roundtrip :
    (c p s : ℕ)
    → c ≤ chain_output
    → p ≤ policy_none
    → s ≤ sw_none
    → (get_chain (get_chain_name c) ≡ c)
      × (get_policy (get_policy_name p) ≡ p)
      × (get_switch (get_sw_name s) ≡ s)
names_roundtrip c p s hc hp hs = (get_chain-name c hc, get_policy-name p hp, get_switch-name s hs)

abbrev read_back : ℕ → ℕ
read_back p = get_proto (get_proto_name p)

read_all : read_back ipproto_all ≡ ipproto_notexist
unfolding get_proto get_proto_name
read_all = refl

read_notexist : read_back ipproto_notexist ≡ ipproto_all
unfolding get_proto get_proto_name
read_notexist = refl

read_tcp : read_back ipproto_tcp ≡ ipproto_tcp
unfolding get_proto get_proto_name
read_tcp = refl

read_udp : read_back ipproto_udp ≡ ipproto_udp
unfolding get_proto get_proto_name
read_udp = refl

OneOf : ℕ → Type 0
OneOf p = (p ≡ ipproto_all) ⊎ ((p ≡ ipproto_notexist) ⊎ ((p ≡ ipproto_tcp) ⊎ (p ≡ ipproto_udp)))

get_proto-OneOf : (t : Text) → OneOf (get_proto t)
unfolding OneOf get_proto
get_proto-OneOf t =
    if_cases OneOf (strcasecmp_zero t (codes "ALL")) (λ _. inl refl)
      (λ _.
        if_cases OneOf (strcasecmp_zero t (codes "TCP")) (λ _. inr (inr (inl refl)))
          (λ _.
            if_cases OneOf (strcasecmp_zero t (codes "UDP")) (λ _. inr (inr (inr refl)))
              (λ _. inr (inl refl))))

-- A protocol that was read from a text is read back from its printed name exactly when it is TCP or
-- UDP: the name ALL is printed for the unknown protocol, and NONE for all protocols.
pub get_proto-roundtrip :
    (t : Text)
    → ((get_proto t ≡ ipproto_all) × (get_proto (get_proto_name (get_proto t)) ≡ ipproto_notexist))
      ⊎ (((get_proto t ≡ ipproto_notexist)
            × (get_proto (get_proto_name (get_proto t)) ≡ ipproto_all))
          ⊎ (((get_proto t ≡ ipproto_tcp) ⊎ (get_proto t ≡ ipproto_udp))
              × (get_proto (get_proto_name (get_proto t)) ≡ get_proto t)))
unfolding OneOf
get_proto-roundtrip t = elim (get_proto-OneOf t) [
  | inl e ↦ inl (e, ap read_back e ∙ read_all)
  | inr (inl e) ↦ inr (inl (e, ap read_back e ∙ read_notexist))
  | inr (inr (inl e)) ↦ inr (inr (inl e, ap read_back e ∙ read_tcp ∙ sym e))
  | inr (inr (inr e)) ↦ inr (inr (inr e, ap read_back e ∙ read_udp ∙ sym e))
]
