-- ===== src/Examples/Bfctl.antt =====
-- The theorems on bfctl at concrete command lines.
use bf.Base.{ℕ, ◌≡◌, refl, true, false, List, [], ◌++◌, Option, none, some}
use bf.Rule.{policy_rule}
use bf.Store.{rules, add_rule, init_rules}
use bf.Kernel.{Kernel, init_module}
use bf.Message.{msg_delete_rule}
use bf.Netlink.Rules.{request_spec}
use bf.Listing.Complete.{delivered}
use bf.Link.{Link}
use bf.Cli.{CmdArgs, cmd_list, cmd_delete, zeroed_rule}
use bf.Names.{Text}
use bf.Service.{chain_pattern}
use bf.Rule.{chain_all}
use bf.Bfctl.{process_command}
use bf.Bfctl.Lists.{shown, process_command-list}
use bf.Bfctl.Changes.{printed_spec, process_command-changes}
use bf.Examples.{dns_rule, one_rule}
use bf.Examples.Kernels.{one_rule-IsStore}
use bf.Examples.Services.{big_endian, idle}

abbrev no_files : Text → Option (List ℕ)
no_files name = none

abbrev list_all : CmdArgs
list_all = record {
  command = cmd_list;
  fr = chain_pattern chain_all;
  file_name = [];
  proto_mandatory = false;
}

abbrev delete_dns : CmdArgs
delete_dns = record { command = cmd_delete; fr = dns_rule; file_name = []; proto_mandatory = true }

process_command-list_example :
    (l : Link) × (process_command big_endian zeroed_rule no_files 0 1234 delivered
        (record { kernel = one_rule; control = idle })
        list_all
      ≡ some (l, shown one_rule list_all.fr true ++ shown one_rule list_all.fr false))
unfolding add_rule init_module init_rules policy_rule
process_command-list_example =
    process_command-list big_endian zeroed_rule no_files 0 1234 one_rule idle list_all
      one_rule-IsStore (refl, tt) refl

process_command-changes_example :
    (k' : Kernel) × (process_command big_endian zeroed_rule no_files 0 1234 delivered
        (record { kernel = one_rule; control = idle })
        delete_dns
      ≡ some (
        record { kernel = k'; control = idle },
        printed_spec cmd_delete dns_rule (rules one_rule.store),
      ))
    × (rules k'.store ≡ request_spec msg_delete_rule dns_rule (rules one_rule.store))
process_command-changes_example =
    process_command-changes big_endian zeroed_rule no_files 0 1234 delivered one_rule idle
      delete_dns msg_delete_rule one_rule-IsStore refl
