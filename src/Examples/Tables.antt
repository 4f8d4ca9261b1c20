-- ===== src/Examples/Tables.antt =====
-- The theorems on the hash table, on rules and on packets at concrete values.
use bf.Base.{ℕ, ◌≡◌, refl, true, List, [], ◌∷◌, some, arith}
use bf.Rule.{IsBase, ipproto_udp}
use bf.HashTable.{HashTable, hash_table_init, hash_table_insert, IsTable}
use bf.HashTable.Laws.{init-IsTable, insert-IsTable}
use bf.Kernel.{Kernel, IpHeader}
use bf.Hook.{hook_func}
use bf.Hook.Addresses.{packet_of, hook_func-ignores_destination}
use bf.Hook.Log.{IsLoggable}
use bf.Examples.{dns_base, one_rule, dns_ip, dns_ports, dns_packet}

abbrev key : List ℕ
key = 1 ∷ 2 ∷ []

abbrev table : HashTable
table = hash_table_insert (hash_table_init 10) 7 key 2

table-IsTable : IsTable table
table-IsTable = insert-IsTable (hash_table_init 10) 7 key 2 refl (init-IsTable 10 (omega arith))

dns_base-IsBase : IsBase dns_base
dns_base-IsBase = record {
  chain_u8 = omega arith;
  proto_u16 = omega arith;
  src_port_u16 = omega arith;
  dst_port_u16 = omega arith;
  s_addr_u32 = omega arith;
  d_addr_u32 = omega arith;
}

hook_func-ignores_destination_example :
    (hook_func one_rule true (packet_of true (record dns_ip { daddr = 0 }) (some dns_ports))).1
    ≡ (hook_func one_rule true (packet_of true dns_ip (some dns_ports))).1
hook_func-ignores_destination_example =
    hook_func-ignores_destination one_rule true true dns_ip (some dns_ports) 0

abbrev logging : Kernel
logging = record one_rule { skb_list = dns_packet ∷ []; init = 1; pid_log = 1234 }

dns_packet-IsLoggable : IsLoggable dns_packet
dns_packet-IsLoggable = record {
  ip = dns_ip;
  ports = dns_ports;
  has_ip = refl;
  has_ports = refl;
  is_udp = refl;
}

-- UDP from 1.0.0.1, which reads the same in both byte orders.
abbrev even_ip : IpHeader
even_ip = record { protocol = ipproto_udp; saddr = 16777217; daddr = 0 }
