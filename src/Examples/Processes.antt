-- ===== src/Examples/Processes.antt =====
-- The module from its loading to its unloading, and the service's process, at concrete events.
use bf.Base.{◌+◌, ◌≡◌, refl, true, false, not, List, [], ◌∷◌, none, ◌>>=◌, ◌==◌}
use bf.Message.{msg_add_rule, msg_delete_rule}
use bf.System.{Event, request, run}
use bf.Lifetime.{module_loaded, cleanup_module}
use bf.Lifetime.Freeing.{Unloaded, Leaked, cleanup_module-Unloaded}
use bf.SignalCatcher.{
  Catcher, Happening, arrives, notified, sigint, sigterm, happen_all, new_catcher,
  install_signal_handlers,
}
use bf.SignalCatcher.Counting.{arrivals, happen_all-counted}
use bf.Daemon.{Daemon, announced, create_application, start, create_application-start}
use bf.Cli.{zeroed_rule}
use bf.Examples.{heap, one_rule, dns_rule, tcp_rule, request_of}
use bf.Examples.Services.{big_endian, idle}

-- Two rules are added, one is deleted, and its grace period does not end before the module is unloaded.
abbrev history : List Event
history =
    request (request_of msg_add_rule dns_rule)
    ∷ request (request_of msg_add_rule tcp_rule)
    ∷ request (request_of msg_delete_rule dns_rule)
    ∷ []

cleanup_module-Unloaded_example :
    let m = (module_loaded heap zeroed_rule true true).0 in
    let m' = (cleanup_module true (record m { kernel = (run m.kernel history).0 })).0 in
    Unloaded m' × Leaked m'
cleanup_module-Unloaded_example = cleanup_module-Unloaded heap zeroed_rule true true history

abbrev catcher : Catcher
catcher = record {
  pending = λ s. 0;
  installed = λ s. true;
  emitted = λ s. 0;
  exited = false;
  killed = false;
}

abbrev happenings : List Happening
happenings =
    arrives sigint ∷ arrives sigterm ∷ notified sigterm ∷ arrives sigint ∷ notified sigint ∷ []

happen_all-counted_example :
    let d = happen_all happenings catcher in
    (d.emitted sigint + d.pending sigint ≡ arrivals sigint happenings)
    × (d.killed ≡ false)
    × (d.exited ≡ not (d.emitted sigterm == 0))
unfolding new_catcher install_signal_handlers
happen_all-counted_example = happen_all-counted catcher happenings sigint refl

abbrev daemon : Daemon
daemon = record {
  service = record {
    link = record { kernel = one_rule; control = idle };
    s_rules = dns_rule ∷ [];
    file = none;
  };
  boot_file = none;
  rebooted = false;
  running = false;
  audit = 0;
  translator = false;
}

create_application-start_example :
    (create_application big_endian 0 1234 zeroed_rule true daemon
      >>= start big_endian 0 1234 zeroed_rule 100)
    ≡ start big_endian 0 1234 zeroed_rule 100 (announced true daemon)
create_application-start_example =
    create_application-start big_endian 0 1234 zeroed_rule true 100 daemon
