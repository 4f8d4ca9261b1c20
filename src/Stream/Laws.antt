-- ===== src/Stream/Laws.antt =====
-- Rules in a stream.
use bf.Base.{ℕ, ◌<◌, ◌^◌, ◌≡◌, ap, ◌∙◌, List, ◌++◌, ◌∷◌, length, arith}
use bf.Rule.{FilterRule}
use bf.Stream.{
  DataStream, IsDataStream, put_rule, get_rule, put_err, get_err, put_word, get_word, IsRule,
}

-- What a rule is after it went through a stream into `blank`.
abbrev pub restored : FilterRule → FilterRule → FilterRule
restored blank fr = record blank { base = fr.base; policy = fr.policy; off = fr.off }

module _ (s : DataStream) (law : IsDataStream s) where
  pub get_rule-put_rule :
      (blank fr : FilterRule) (rest : List ℕ)
      → IsRule fr
      → get_rule s blank (put_rule s fr rest) ≡ (restored blank fr, rest)
  unfolding get_rule put_rule
  get_rule-put_rule blank fr rest w = rw (
    law.get16-put16 fr.base.src_port _ w.words.src_port_u16,
    law.get16-put16 fr.base.dst_port _ w.words.dst_port_u16,
    law.get32-put32 fr.base.s_addr _ w.words.s_addr_u32,
    law.get32-put32 fr.base.d_addr _ w.words.d_addr_u32,
    law.get16-put16 fr.base.proto _ w.words.proto_u16,
    law.get8-put8 fr.base.chain _ w.words.chain_u8,
    law.get8-put8 fr.policy _ w.policy_u8,
    law.get8-put8 fr.off _ w.off_u8,
  )

  pub get_err-put_err :
      (blank fr : FilterRule) (code : ℕ) (rest : List ℕ)
      → IsRule fr
      → code < 2 ^ 16
      → get_err s blank (put_err s fr code rest) ≡ (restored blank fr, code, rest)
  unfolding get_err put_err
  get_err-put_err blank fr code rest w h =
      ap (λ (x : FilterRule × List ℕ). (x.0, (s.get16 x.1).0, (s.get16 x.1).1))
        (get_rule-put_rule blank fr (s.put16 code ++ rest) w)
      ∙ ap (λ (x : ℕ × List ℕ). (restored blank fr, x.0, x.1)) (law.get16-put16 code rest h)

  pub get_word-put_word :
      (v : ℕ) (rest : List ℕ) → v < 2 ^ 32 → get_word s (put_word s v rest) ≡ (v, rest)
  unfolding get_word put_word
  get_word-put_word v rest h = law.get32-put32 v rest h

  -- A read of a rule from bytes takes some.
  pub get_rule-lt :
      (blank : FilterRule) (b : ℕ) (bytes : List ℕ)
      → length (get_rule s blank (b ∷ bytes)).1 < length (b ∷ bytes)
  unfolding get_rule
  get_rule-lt blank b bytes =
      let b1 = (s.get16 (b ∷ bytes)).1 in
      let b2 = (s.get16 b1).1 in
      let b3 = (s.get32 b2).1 in
      let b4 = (s.get32 b3).1 in
      let b5 = (s.get16 b4).1 in
      let b6 = (s.get8 b5).1 in
      let b7 = (s.get8 b6).1 in
      omega (
        arith,
        law.get16-lt b bytes,
        law.get16-le b1,
        law.get32-le b2,
        law.get32-le b3,
        law.get16-le b4,
        law.get8-le b5,
        law.get8-le b6,
        law.get8-le b7,
      )
