-- ===== src/Kernel.antt =====
-- bf-ko/bf_config.h, and the state that the kernel module keeps between calls: the configuration
-- `bf_config`, the variables of nl_int.c and the rule lists of bf_module.c; with the policy functions.
use bf.Base.{ℕ, ◌+◌, ◌*◌, ◌/◌, ◌%◌, Bool, List, [], Option, if◌then◌else◌, ◌==◌}
use bf.Rule.{
  FilterRule, chain_input, chain_output, chain_all, policy_drop, policy_accept, policy_none,
}
use bf.Store.{Store, Heap, init_rules}

-- NF_DROP and NF_ACCEPT of the netfilter interface
abbrev pub nf_drop : ℕ
nf_drop = 0

abbrev pub nf_accept : ℕ
nf_accept = 1

-- The IP header and the ports, as the words that a load reads: multi-byte fields are big-endian in the
-- packet, so they are read with their bytes reversed.
pub record IpHeader : Type 0 where
  pub protocol : ℕ
  pub saddr : ℕ
  pub daddr : ℕ

pub record Ports : Type 0 where
  pub source : ℕ
  pub dest : ℕ

-- A packet by the headers that the module reads; `none` and `false` stand for a NULL pointer.
pub record SkBuff : Type 0 where
  pub mac_header : Bool
  pub network_header : Option IpHeader
  pub transport_header : Option Ports

pub record Kernel : Type 0 where
  pub store : Store
  pub policy_input : ℕ
  pub policy_output : ℕ
  pub filter_value : ℕ
  -- the packets that wait for work_handler
  pub skb_list : List SkBuff
  pub init : ℕ
  pub pid_log : ℕ
  pub rules_counter : ℕ
  -- thrd_params, which every listing thread is started with
  pub thrd_pid : ℕ
  pub thrd_fr : FilterRule
  -- listing threads that have been created and have not run yet
  pub threads : ℕ
  -- complete(&comp)
  pub completions : ℕ

-- init_module with init_rules: both chains accept, the filter is on, nobody listens to the log.
unfoldable pub init_module : Heap → FilterRule → Kernel
init_module heap zeroed = record {
  store = init_rules heap;
  policy_input = nf_accept;
  policy_output = nf_accept;
  filter_value = 1;
  skb_list = [];
  init = 0;
  pid_log = 0;
  rules_counter = 0;
  thrd_pid = 0;
  thrd_fr = zeroed;
  threads = 0;
  completions = 0;
}

unfoldable pub apply_policy : ℕ → ℕ
apply_policy p =
    if p == policy_accept then nf_accept else if p == policy_drop then nf_drop else nf_drop

unfoldable pub convert_policy : ℕ → ℕ
convert_policy p =
    if p == nf_accept then policy_accept else if p == nf_drop then policy_drop else policy_none

unfoldable pub set_chain_policy : Kernel → FilterRule → Kernel
set_chain_policy k fr =
    if fr.base.chain == chain_input
    then record k { policy_input = apply_policy fr.policy }
    else if fr.base.chain == chain_output
    then record k { policy_output = apply_policy fr.policy }
    else if fr.base.chain == chain_all
    then record k { policy_input = apply_policy fr.policy; policy_output = apply_policy fr.policy }
    else k

-- The byte swaps of a little-endian machine. A 32-bit argument of ntohs is cut to 16 bits.
unfoldable pub ntohs : ℕ → ℕ
ntohs x = x % 256 * 256 + x / 256 % 256

unfoldable pub ntohl : ℕ → ℕ
ntohl x = x % 256 * 16777216 + x / 256 % 256 * 65536 + x / 65536 % 256 * 256 + x / 16777216 % 256
