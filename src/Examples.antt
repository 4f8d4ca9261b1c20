-- ===== src/Examples.antt =====
-- Concrete rules, packets and command lines, on which the theorems are tried out.
pub mod Kernels
pub mod Programs
pub mod Bfctl
pub mod Edits
pub mod Services
pub mod Commands
pub mod Sockets
pub mod Tables
pub mod Tools
pub mod Logs
pub mod Turns
pub mod Windows
pub mod Processes
use bf.Base.{ℕ, Bool, true, false, List, [], ◌∷◌, Option, none, some}
use bf.Rule.{
  FilterRule, FilterRuleBase, chain_input, chain_output, policy_drop, policy_accept, sw_no,
  ipproto_udp, ipproto_tcp,
}
use bf.Store.{Heap, Store, add_rule}
use bf.Kernel.{Kernel, IpHeader, Ports, SkBuff, init_module}
use bf.Message.{MessageType, Request}
use bf.Cli.{zeroed_rule}

-- DROP for UDP to port 53 in the input chain
abbrev pub dns_base : FilterRuleBase
dns_base = record {
  chain = chain_input;
  proto = ipproto_udp;
  src_port = 0;
  dst_port = 53;
  s_addr = 0;
  d_addr = 0;
}

abbrev pub dns_rule : FilterRule
dns_rule = record zeroed_rule { base = dns_base; policy = policy_drop }

-- ACCEPT for TCP from 10.0.0.1 in the output chain
abbrev pub tcp_rule : FilterRule
tcp_rule = record zeroed_rule {
  base = record {
    chain = chain_output;
    proto = ipproto_tcp;
    src_port = 0;
    dst_port = 80;
    s_addr = 16777226;
    d_addr = 16777227;
  };
  policy = policy_accept;
}

abbrev pub heap : Heap
heap a = zeroed_rule

abbrev pub started : Kernel
started = init_module heap zeroed_rule

-- The module with one rule.
abbrev pub one_rule : Kernel
one_rule = record started { store = add_rule started.store dns_rule }

abbrev pub request_of : MessageType → FilterRule → Request
request_of t fr = record { nlmsg_type = t; nlmsg_pid = 1234; fr = fr }

-- UDP from 10.0.0.1, port 4096, to 10.0.0.2, port 53
abbrev pub dns_ip : IpHeader
dns_ip = record { protocol = ipproto_udp; saddr = 16777226; daddr = 33554442 }

abbrev pub dns_ports : Ports
dns_ports = record { source = 16; dest = 13568 }

abbrev pub dns_packet : SkBuff
dns_packet = record {
  mac_header = true;
  network_header = some dns_ip;
  transport_header = some dns_ports;
}
