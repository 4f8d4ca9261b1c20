-- ===== src/Examples/Services.antt =====
-- The service's theorems at a concrete stream and at concrete rules.
use bf.System.Verdicts.{verdict_spec, direction_rules}
use bf.Base.{
  ℕ, false, ◌+◌, ◌*◌, ◌/◌, ◌%◌, ◌≤◌, ◌≡◌, refl, true, List, [], ◌∷◌, map, length, none, some, ◌>>=◌,
  ap, arith,
}
use bf.Stream.{DataStream, IsDataStream, IsRule}
use bf.Stream.Laws.{restored}
use bf.RulesFile.{load_from_file, write_rules}
use bf.RulesFile.RoundTrip.{load_from_file-write_rules}
use bf.Client.{Control}
use bf.Kernel.{init_module, nf_accept}
use bf.Hook.{hook_func, chain_policy}
use bf.Service.{Service, stop, started as service_started}
use bf.Service.Restart.{restart-verdict}
use bf.Store.{add_rule, init_rules, rules}
use bf.Rule.{policy_rule}
use bf.Cli.{zeroed_rule}
use bf.Examples.{dns_rule, heap, one_rule, dns_packet, dns_ip, dns_ports}
use bf.Examples.Kernels.{one_rule-IsStore, filter_on, dns_packet-IsFiltered}

-- Words from the highest byte to the lowest; what is cut short is 0 and ends the stream.
abbrev put16_be : ℕ → List ℕ
put16_be v = v / 256 ∷ v % 256 ∷ []

abbrev get16_be : List ℕ → ℕ × List ℕ
get16_be [] = (0, [])
get16_be (a ∷ []) = (0, [])
get16_be (a ∷ b ∷ rest) = (a * 256 + b, rest)

abbrev get8_be : List ℕ → ℕ × List ℕ
get8_be [] = (0, [])
get8_be (a ∷ rest) = (a, rest)

abbrev get32_be : List ℕ → ℕ × List ℕ
get32_be (a ∷ b ∷ c ∷ d ∷ rest) = (((a * 256 + b) * 256 + c) * 256 + d, rest)
get32_be _ = (0, [])

abbrev pub big_endian : DataStream
big_endian = record {
  put8 = λ v. v ∷ [];
  put16 = put16_be;
  put32 = λ v. v / 16777216 ∷ v / 65536 % 256 ∷ v / 256 % 256 ∷ v % 256 ∷ [];
  get8 = get8_be;
  get16 = get16_be;
  get32 = get32_be;
}

get16_be-le : (bytes : List ℕ) → length (get16_be bytes).1 ≤ length bytes
get16_be-le bytes = ground arith

get32_be-le : (bytes : List ℕ) → length (get32_be bytes).1 ≤ length bytes
get32_be-le bytes = ground arith

pub big_endian-IsDataStream : IsDataStream big_endian
big_endian-IsDataStream = record {
  get8-put8 = λ v rest h. refl;
  get16-put16 = λ v rest h. ap (λ (x : ℕ). (x, rest)) (omega arith);
  get32-put32 = λ v rest h. ap (λ (x : ℕ). (x, rest)) (omega arith);
  get8-le = λ bytes. ground arith;
  get16-le = get16_be-le;
  get32-le = get32_be-le;
  get16-lt = λ b bytes. ground arith;
}

pub dns_rule-IsRule : IsRule dns_rule
dns_rule-IsRule = record {
  words = record {
    chain_u8 = omega arith;
    proto_u16 = omega arith;
    src_port_u16 = omega arith;
    dst_port_u16 = omega arith;
    s_addr_u32 = omega arith;
    d_addr_u32 = omega arith;
  };
  off_u8 = omega arith;
  policy_u8 = omega arith;
}

load_from_file-write_rules_example :
    load_from_file big_endian zeroed_rule (some (write_rules big_endian (dns_rule ∷ []))) []
    ≡ some (map (restored zeroed_rule) (dns_rule ∷ []), map (restored zeroed_rule) (dns_rule ∷ []))
load_from_file-write_rules_example =
    load_from_file-write_rules big_endian big_endian-IsDataStream zeroed_rule (dns_rule ∷ []) []
      (dns_rule-IsRule, tt)

abbrev pub idle : Control
idle = record { attached = false; ruleslst = []; acks = 0 }

restart-verdict_example :
    (sv' : Service) × ((do
      sv ← stop big_endian 0 77 (record {
        link = record { kernel = one_rule; control = idle };
        s_rules = [];
        file = none;
      })
      service_started big_endian 0 78 zeroed_rule (record {
        link = record { kernel = init_module heap zeroed_rule; control = idle };
        s_rules = [];
        file = sv.file;
      }))
      ≡ some sv')
    × ((hook_func sv'.link.kernel true dns_packet).1
        ≡ verdict_spec dns_ip dns_ports nf_accept (direction_rules true (rules one_rule.store)))
    × ((hook_func one_rule true dns_packet).1
        ≡ verdict_spec dns_ip dns_ports
            (chain_policy one_rule true)
            (direction_rules true (rules one_rule.store)))
unfolding add_rule init_module init_rules policy_rule
restart-verdict_example =
    restart-verdict big_endian big_endian-IsDataStream zeroed_rule 0 77 78 one_rule idle idle []
      none heap zeroed_rule true dns_packet dns_ip dns_ports one_rule-IsStore (dns_rule-IsRule, tt)
      (refl, tt) filter_on dns_packet-IsFiltered
