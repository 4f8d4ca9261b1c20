-- ===== src/Rule/Matching.antt =====
-- Rules against patterns: what `fr_pattern` can and cannot select, and its relation to the
-- equality of bases.
use bf.Base.{ℕ, ◌≡◌, ◌↔◌, ◌⊎◌, true, arith, if◌then◌else◌, ◌==◌}
use bf.Rule.{FilterRule, fr_pattern, policy_drop, sw_no}

-- A field of a pattern holds no demand when it is zero, and otherwise the field of the rule.
abbrev pub Demands : ℕ → ℕ → Type 0
Demands wanted field = (wanted ≡ 0) ⊎ (field ≡ wanted)

-- What a pattern asks of a rule.
pub record Selects (pattern r : FilterRule) : Type 0 where
  pub chain : Demands pattern.base.chain r.base.chain
  pub proto : Demands pattern.base.proto r.base.proto
  pub src_port : Demands pattern.base.src_port r.base.src_port
  pub dst_port : Demands pattern.base.dst_port r.base.dst_port
  pub s_addr : Demands pattern.base.s_addr r.base.s_addr
  pub d_addr : Demands pattern.base.d_addr r.base.d_addr
  pub off : Demands pattern.off r.off
  pub policy : Demands pattern.policy r.policy

fr_pattern_sound : (r p : FilterRule) → fr_pattern r p ≡ true → Selects p r
unfolding fr_pattern
fr_pattern_sound r p h = ground arith

-- The test that `fr_pattern` makes of one field.
field_demand :
    (wanted field : ℕ)
    → Demands wanted field
    → (if wanted == 0 then true else field == wanted) ≡ true
field_demand wanted field h = ground arith

fr_pattern_complete : (r p : FilterRule) → Selects p r → fr_pattern r p ≡ true
unfolding fr_pattern
fr_pattern_complete r p s = rw (
  field_demand _ _ s.chain,
  field_demand _ _ s.dst_port,
  field_demand _ _ s.d_addr,
  field_demand _ _ s.proto,
  field_demand _ _ s.src_port,
  field_demand _ _ s.s_addr,
  field_demand _ _ s.off,
  field_demand _ _ s.policy,
)

-- `fr_pattern` decides `Selects`: each of the eight compared fields of the pattern is zero or equals
-- the rule's field.
pub fr_pattern_iff : (r p : FilterRule) → (fr_pattern r p ≡ true) ↔ Selects p r
fr_pattern_iff r p = (fr_pattern_sound r p, fr_pattern_complete r p)

-- No pattern selects by the policy DROP or by the switch NO, which are zero: the pattern selects
-- the same rules whatever policy and switch they have.
pub fr_pattern-ignores_drop :
    (r p : FilterRule) (policy off : ℕ)
    → p.policy ≡ policy_drop
    → p.off ≡ sw_no
    → fr_pattern (record r { policy = policy; off = off }) p ≡ fr_pattern r p
unfolding fr_pattern
fr_pattern-ignores_drop r p policy off h k = ground arith
