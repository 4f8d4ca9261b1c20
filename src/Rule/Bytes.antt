-- ===== src/Rule/Bytes.antt =====
-- The byte image of a rule's base is faithful: comparing images compares all six fields.
use bf.Base.{ℕ, ◌≡◌, ◌↔◌, refl, ap, sym, true, arith, length, get_or, ◌∙◌}
use bf.Base.Bytes.{memcmp_zero, memcmp_zero_refl, eq_of_memcmp_zero, memcmp_zero_comm}
use bf.Rule.{FilterRuleBase, base_bytes, base_size, cmp_rule_zero, IsBase}

pub length-base_bytes : (b : FilterRuleBase) → length (base_bytes b) ≡ base_size
unfolding base_bytes
length-base_bytes b = refl

pub cmp_rule_zero_refl : (b : FilterRuleBase) → cmp_rule_zero b b ≡ true
unfolding cmp_rule_zero
cmp_rule_zero_refl b = memcmp_zero_refl (base_bytes b) base_size

pub cmp_rule_zero_comm : (a b : FilterRuleBase) → cmp_rule_zero a b ≡ cmp_rule_zero b a
unfolding cmp_rule_zero
cmp_rule_zero_comm a b = memcmp_zero_comm (base_bytes a) (base_bytes b) base_size

pub base_bytes-eq_of_cmp :
    (a b : FilterRuleBase) → cmp_rule_zero a b ≡ true → base_bytes a ≡ base_bytes b
unfolding cmp_rule_zero
base_bytes-eq_of_cmp a b h =
    eq_of_memcmp_zero (base_bytes a) (base_bytes b) base_size (length-base_bytes a)
      (length-base_bytes b) h

-- The test against `c` does not tell apart bases whose images agree.
pub cmp_rule_zero_congr :
    (a b c : FilterRuleBase) → cmp_rule_zero a b ≡ true → cmp_rule_zero a c ≡ cmp_rule_zero b c
unfolding cmp_rule_zero
cmp_rule_zero_congr a b c h =
    ap (λ bs. memcmp_zero bs (base_bytes c) base_size) (base_bytes-eq_of_cmp a b h)

byte_at :
    (a b : FilterRuleBase)
    → base_bytes a ≡ base_bytes b
    → (i : ℕ) → get_or (base_bytes a) i 0 ≡ get_or (base_bytes b) i 0
byte_at a b e i = ap (λ bs. get_or bs i 0) e

eq_of_bytes : (a b : FilterRuleBase) → IsBase a → IsBase b → base_bytes a ≡ base_bytes b → a ≡ b
unfolding base_bytes
eq_of_bytes a b u v e =
    let at = byte_at a b e in
    let e0 : a.chain ≡ b.chain = omega (arith, at 0) in
    let e1 : a.proto ≡ b.proto = omega (arith, at 1, at 2) in
    let e2 : a.src_port ≡ b.src_port = omega (arith, at 3, at 4) in
    let e3 : a.dst_port ≡ b.dst_port = omega (arith, at 5, at 6) in
    let e4 : a.s_addr ≡ b.s_addr = omega (arith, at 7, at 8, at 9, at 10) in
    let e5 : a.d_addr ≡ b.d_addr = omega (arith, at 11, at 12, at 13, at 14) in
    λ i. record {
      chain = e0 i;
      proto = e1 i;
      src_port = e2 i;
      dst_port = e3 i;
      s_addr = e4 i;
      d_addr = e5 i;
    }

-- For bases whose fields fit their declared widths, the memcmp of `cmp_rule` is zero exactly when
-- all six fields, the chain included, are equal.
pub cmp_rule_zero_iff :
    (a b : FilterRuleBase) → IsBase a → IsBase b → (cmp_rule_zero a b ≡ true) ↔ (a ≡ b)
cmp_rule_zero_iff a b u v = (
  λ h. eq_of_bytes a b u v (base_bytes-eq_of_cmp a b h),
  λ e. ap (cmp_rule_zero a) (sym e) ∙ cmp_rule_zero_refl a,
)
