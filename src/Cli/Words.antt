-- ===== src/Cli/Words.antt =====
-- The widths of the fields that parse_cmd_args fills in.
use bf.Base.{
  ℕ, not, ◌&&◌, ◌≡◌, ◌≤◌, ◌<◌, ◌^◌, ◌%◌, refl, List, Option, none, some, ◌==◌, if_cases, arith,
}
use bf.Rule.{FilterRuleBase, IsBase, chain_none, chain_output, policy_none, sw_none}
use bf.Names.{Text, get_proto, get_switch, get_policy, get_chain}
use bf.Cli.{
  Command, cmd_append, cmd_delete, cmd_list, cmd_flush, cmd_update, Opt, opt_list, opt_append,
  opt_delete, opt_flush, opt_update, opt_srcip, opt_off, opt_srcport, opt_destip, opt_destport,
  opt_proto, opt_file, opt_jump, opt_policy, opt_unknown, opt_other, CmdArgs, LibC, set_chain,
  is_argument, set_policy, converted, needs_proto, parse_option, parse_options, initial,
  check_proto, parse_cmd_args,
}
use bf.Cli.Commands.{Holds, Holds-then, Holds_some, Holds-parse_options}

get_chain-le : (t : Text) → get_chain t ≤ chain_output
unfolding get_chain
get_chain-le t = ground arith

get_proto-lt : (t : Text) → get_proto t < 2 ^ 16
unfolding get_proto
get_proto-lt t = ground arith

get_switch-le : (t : Text) → get_switch t ≤ sw_none
unfolding get_switch
get_switch-le t = ground arith

get_policy-le : (t : Text) → get_policy t ≤ policy_none
unfolding get_policy
get_policy-le t = ground arith

-- The fields hold machine words, and the two enumerations values of theirs.
pub record IsArgs (ca : CmdArgs) : Type 0 where
  pub words : IsBase ca.fr.base
  pub off_le : ca.fr.off ≤ sw_none
  pub policy_le : ca.fr.policy ≤ policy_none

converted-lt :
    (o : Option ℕ) (old n : ℕ) → ((a : ℕ) → o ≡ some a → a < n) → old < n → converted o old < n
unfolding converted
converted-lt none old n f h = h
converted-lt (some a) old n f h = f a refl

-- A field that is set to a word of its width.
module _ (b : FilterRuleBase) (h : IsBase b) (n : ℕ) where
  chain-IsBase : n < 2 ^ 8 → IsBase (record b { chain = n })
  chain-IsBase k = record {
    chain_u8 = k;
    proto_u16 = h.proto_u16;
    src_port_u16 = h.src_port_u16;
    dst_port_u16 = h.dst_port_u16;
    s_addr_u32 = h.s_addr_u32;
    d_addr_u32 = h.d_addr_u32;
  }

  proto-IsBase : n < 2 ^ 16 → IsBase (record b { proto = n })
  proto-IsBase k = record {
    chain_u8 = h.chain_u8;
    proto_u16 = k;
    src_port_u16 = h.src_port_u16;
    dst_port_u16 = h.dst_port_u16;
    s_addr_u32 = h.s_addr_u32;
    d_addr_u32 = h.d_addr_u32;
  }

  src_port-IsBase : n < 2 ^ 16 → IsBase (record b { src_port = n })
  src_port-IsBase k = record {
    chain_u8 = h.chain_u8;
    proto_u16 = h.proto_u16;
    src_port_u16 = k;
    dst_port_u16 = h.dst_port_u16;
    s_addr_u32 = h.s_addr_u32;
    d_addr_u32 = h.d_addr_u32;
  }

  dst_port-IsBase : n < 2 ^ 16 → IsBase (record b { dst_port = n })
  dst_port-IsBase k = record {
    chain_u8 = h.chain_u8;
    proto_u16 = h.proto_u16;
    src_port_u16 = h.src_port_u16;
    dst_port_u16 = k;
    s_addr_u32 = h.s_addr_u32;
    d_addr_u32 = h.d_addr_u32;
  }

  s_addr-IsBase : n < 2 ^ 32 → IsBase (record b { s_addr = n })
  s_addr-IsBase k = record {
    chain_u8 = h.chain_u8;
    proto_u16 = h.proto_u16;
    src_port_u16 = h.src_port_u16;
    dst_port_u16 = h.dst_port_u16;
    s_addr_u32 = k;
    d_addr_u32 = h.d_addr_u32;
  }

  d_addr-IsBase : n < 2 ^ 32 → IsBase (record b { d_addr = n })
  d_addr-IsBase k = record {
    chain_u8 = h.chain_u8;
    proto_u16 = h.proto_u16;
    src_port_u16 = h.src_port_u16;
    dst_port_u16 = h.dst_port_u16;
    s_addr_u32 = h.s_addr_u32;
    d_addr_u32 = k;
  }

set_chain-IsArgs : (ca : CmdArgs) (c : Command) (t : Text) → IsArgs ca → IsArgs (set_chain ca c t)
unfolding set_chain
set_chain-IsArgs ca c t h = record {
  words = chain-IsBase ca.fr.base h.words (get_chain t) (omega (arith, get_chain-le t));
  off_le = h.off_le;
  policy_le = h.policy_le;
}

set_policy-IsArgs :
    (ca : CmdArgs) (t : Text) (w : Option Text) → IsArgs ca → IsArgs (set_policy ca t w)
unfolding set_policy
set_policy-IsArgs ca t none h =
    let words = chain-IsBase ca.fr.base h.words (get_chain t) (omega (arith, get_chain-le t)) in
    if_cases IsArgs (get_chain t == chain_none)
      (λ _. record { words = words; off_le = h.off_le; policy_le = h.policy_le })
      (λ _. record { words = words; off_le = h.off_le; policy_le = h.policy_le })
set_policy-IsArgs ca t (some w) h =
    let words = chain-IsBase ca.fr.base h.words (get_chain t) (omega (arith, get_chain-le t)) in
    if_cases IsArgs (get_chain t == chain_none)
      (λ _. record { words = words; off_le = h.off_le; policy_le = h.policy_le })
      (λ _.
        if_cases IsArgs (is_argument w)
          (λ _. record { words = words; off_le = h.off_le; policy_le = get_policy-le w })
          (λ _. record { words = words; off_le = h.off_le; policy_le = h.policy_le }))

-- The addresses that inet_pton finds have 32 bits.
abbrev pub IsLibC : LibC → Type 0
IsLibC c = (t : Text) (a : ℕ) → c.inet_pton t ≡ some a → a < 2 ^ 32

initial-IsArgs : (t : Text) → IsArgs (initial t)
initial-IsArgs t = record {
  words = record {
    chain_u8 = omega arith;
    proto_u16 = omega arith;
    src_port_u16 = omega arith;
    dst_port_u16 = omega arith;
    s_addr_u32 = omega arith;
    d_addr_u32 = omega arith;
  };
  off_le = omega arith;
  policy_le = omega arith;
}

check_proto-IsArgs : (ca : CmdArgs) → IsArgs ca → IsArgs (check_proto ca)
unfolding check_proto
check_proto-IsArgs ca h =
    if_cases IsArgs (not ca.proto_mandatory && needs_proto ca.command)
      (λ _. record { words = h.words; off_le = h.off_le; policy_le = h.policy_le }) (λ _. h)

module _ (c : LibC) (lc : IsLibC c) where
  parse_option-IsArgs : (ca : CmdArgs) (o : Opt) → IsArgs ca → Holds IsArgs (parse_option c ca o)
  unfolding parse_option
  parse_option-IsArgs ca (opt_list t) h = set_chain-IsArgs ca cmd_list t h
  parse_option-IsArgs ca (opt_append t) h = set_chain-IsArgs ca cmd_append t h
  parse_option-IsArgs ca (opt_delete t) h = set_chain-IsArgs ca cmd_delete t h
  parse_option-IsArgs ca (opt_flush t) h = set_chain-IsArgs ca cmd_flush t h
  parse_option-IsArgs ca (opt_update t) h = set_chain-IsArgs ca cmd_update t h
  parse_option-IsArgs ca (opt_file none) h = record {
    words = h.words;
    off_le = h.off_le;
    policy_le = h.policy_le;
  }
  parse_option-IsArgs ca (opt_file (some t)) h = record {
    words = h.words;
    off_le = h.off_le;
    policy_le = h.policy_le;
  }
  parse_option-IsArgs ca (opt_srcip t) h = record {
    words =
        s_addr-IsBase ca.fr.base h.words (converted (c.inet_pton t) ca.fr.base.s_addr)
          (converted-lt (c.inet_pton t) ca.fr.base.s_addr (2 ^ 32) (lc t) h.words.s_addr_u32);
    off_le = h.off_le;
    policy_le = h.policy_le;
  }
  parse_option-IsArgs ca (opt_destip t) h = record {
    words =
        d_addr-IsBase ca.fr.base h.words (converted (c.inet_pton t) ca.fr.base.d_addr)
          (converted-lt (c.inet_pton t) ca.fr.base.d_addr (2 ^ 32) (lc t) h.words.d_addr_u32);
    off_le = h.off_le;
    policy_le = h.policy_le;
  }
  parse_option-IsArgs ca (opt_off t) h = record {
    words = h.words;
    off_le = get_switch-le t;
    policy_le = h.policy_le;
  }
  parse_option-IsArgs ca (opt_srcport t) h = record {
    words = src_port-IsBase ca.fr.base h.words (c.atoi t % 2 ^ 16) (omega arith);
    off_le = h.off_le;
    policy_le = h.policy_le;
  }
  parse_option-IsArgs ca (opt_destport t) h = record {
    words = dst_port-IsBase ca.fr.base h.words (c.atoi t % 2 ^ 16) (omega arith);
    off_le = h.off_le;
    policy_le = h.policy_le;
  }
  parse_option-IsArgs ca (opt_proto t) h = record {
    words = proto-IsBase ca.fr.base h.words (get_proto t) (get_proto-lt t);
    off_le = h.off_le;
    policy_le = h.policy_le;
  }
  parse_option-IsArgs ca (opt_policy t w) h = set_policy-IsArgs ca t w h
  parse_option-IsArgs ca (opt_jump none) h = tt
  parse_option-IsArgs ca (opt_jump (some t)) h = record {
    words = h.words;
    off_le = h.off_le;
    policy_le = get_policy-le t;
  }
  parse_option-IsArgs ca opt_unknown h = h
  parse_option-IsArgs ca opt_other h = tt

-- The rule that bfctl sends consists of words of the declared widths, and its switch and policy are
-- values of their enumerations, whatever numbers the command line has, if the addresses that
-- inet_pton finds have 32 bits.
pub parse_cmd_args-IsArgs :
    (c : LibC) (file_name : Text) (os : List Opt) (ca : CmdArgs)
    → IsLibC c
    → parse_cmd_args c file_name os ≡ some ca
    → IsArgs ca
unfolding parse_cmd_args
parse_cmd_args-IsArgs c file_name os ca lc h =
    Holds_some IsArgs (parse_cmd_args c file_name os) ca h (
      Holds-then IsArgs IsArgs (parse_options c (initial file_name) os) (λ a. some (check_proto a))
        (Holds-parse_options c IsArgs (parse_option-IsArgs c lc) (initial file_name) os
          (initial-IsArgs file_name))
        check_proto-IsArgs)
