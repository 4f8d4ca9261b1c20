-- ===== src/Rule.antt =====
-- common/trx_data.h: the rule structures that the kernel module and the user-space programs
-- exchange, the enumerations by the numbers that travel in their fields, and the tests on rules.
pub mod Bytes
pub mod Matching
use bf.Base.{ℕ, ◌≡◌, ◌<◌, ◌^◌, Bool, true, ◌&&◌, List, if◌then◌else◌, ◌==◌, ◌%◌}
use bf.Base.Bytes.{le16, le32, memcmp_zero}
use mathlib.Core.List.{[], ◌∷◌}

-- enum bf_chain_t
abbrev pub chain_none : ℕ
chain_none = 0

abbrev pub chain_all : ℕ
chain_all = 1

abbrev pub chain_input : ℕ
chain_input = 2

abbrev pub chain_output : ℕ
chain_output = 3

-- enum bf_policy_t
abbrev pub policy_drop : ℕ
policy_drop = 0

abbrev pub policy_accept : ℕ
policy_accept = 1

abbrev pub policy_none : ℕ
policy_none = 2

-- enum bf_switch_rules_t
abbrev pub sw_no : ℕ
sw_no = 0

abbrev pub sw_yes : ℕ
sw_yes = 1

abbrev pub sw_none : ℕ
sw_none = 2

-- enum bf_error_t
abbrev pub bf_err_ok : ℕ
bf_err_ok = 0

abbrev pub bf_err_already_have_rule : ℕ
bf_err_already_have_rule = 1

abbrev pub bf_err_missing_rule : ℕ
bf_err_missing_rule = 2

abbrev pub bf_err_sock : ℕ
bf_err_sock = 3

-- IPPROTO_TCP and IPPROTO_UDP, and the two protocol numbers of the program's own
abbrev pub ipproto_tcp : ℕ
ipproto_tcp = 6

abbrev pub ipproto_udp : ℕ
ipproto_udp = 17

abbrev pub ipproto_notexist : ℕ
ipproto_notexist = 65000

abbrev pub ipproto_all : ℕ
ipproto_all = 65001

-- struct filter_rule_base; an address is the field `addr` of its ip_addr_t
pub record FilterRuleBase : Type 0 where
  pub chain : ℕ
  pub proto : ℕ
  pub src_port : ℕ
  pub dst_port : ℕ
  pub s_addr : ℕ
  pub d_addr : ℕ

-- struct filter_rule
pub record FilterRule : Type 0 where
  pub h_dest : List ℕ
  pub h_source : List ℕ
  pub base : FilterRuleBase
  pub off : ℕ
  pub policy : ℕ
  pub id : ℕ

-- filter_rule_base::operator==, which leaves the chain out
unfoldable pub base_eq : FilterRuleBase → FilterRuleBase → Bool
base_eq a s =
    a.proto == s.proto
    && (a.src_port == s.src_port
        && (a.dst_port == s.dst_port && (a.s_addr == s.s_addr && a.d_addr == s.d_addr)))

-- filter_rule::operator==
unfoldable pub rule_eq : FilterRule → FilterRule → Bool
unfolding base_eq
rule_eq a s = base_eq a.base s.base

unfoldable pub policy_rule : FilterRuleBase → Bool
policy_rule fr =
    fr.proto == 0 && (fr.src_port == 0 && (fr.dst_port == 0 && (fr.d_addr == 0 && fr.s_addr == 0)))

unfoldable pub fr_pattern : FilterRule → FilterRule → Bool
fr_pattern fr1 fr2 =
    (if fr2.base.chain == 0 then true else fr1.base.chain == fr2.base.chain)
    && ((if fr2.base.dst_port == 0 then true else fr1.base.dst_port == fr2.base.dst_port)
        && ((if fr2.base.d_addr == 0 then true else fr1.base.d_addr == fr2.base.d_addr)
            && ((if fr2.base.proto == 0 then true else fr1.base.proto == fr2.base.proto)
                && ((if fr2.base.src_port == 0
                      then true
                      else fr1.base.src_port == fr2.base.src_port)
                    && ((if fr2.base.s_addr == 0 then true else fr1.base.s_addr == fr2.base.s_addr)
                        && ((if fr2.off == 0 then true else fr1.off == fr2.off)
                            && (if fr2.policy == 0 then true else fr1.policy == fr2.policy)))))))

-- sizeof(struct filter_rule_base), which #pragma pack(1) leaves without padding
abbrev pub base_size : ℕ
base_size = 15

-- The memory image of a packed filter_rule_base on the little-endian machines that the code is for.
unfoldable pub base_bytes : FilterRuleBase → List ℕ
base_bytes b =
    b.chain % 256
    ∷ le16 b.proto (le16 b.src_port (le16 b.dst_port (le32 b.s_addr (le32 b.d_addr []))))

-- `cmp_rule(a, b) == 0` of bf_module.c: a memcmp of the packed structures
unfoldable pub cmp_rule_zero : FilterRuleBase → FilterRuleBase → Bool
cmp_rule_zero fr1 fr2 = memcmp_zero (base_bytes fr1) (base_bytes fr2) base_size

-- The fields are machine words of their declared widths.
pub record IsBase (b : FilterRuleBase) : Type 0 where
  pub chain_u8 : b.chain < 2 ^ 8
  pub proto_u16 : b.proto < 2 ^ 16
  pub src_port_u16 : b.src_port < 2 ^ 16
  pub dst_port_u16 : b.dst_port < 2 ^ 16
  pub s_addr_u32 : b.s_addr < 2 ^ 32
  pub d_addr_u32 : b.d_addr < 2 ^ 32
