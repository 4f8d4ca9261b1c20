-- ===== src/Service/Restart.antt =====
-- A stop of the service and its start on a kernel module that was loaded afresh.
use bf.Base.{ℕ, ◌≡◌, ◌≢◌, sym, ap, ◌∙◌, Bool, true, List, [], map, All, some, Option, ◌>>=◌, arith}
use bf.Rule.{FilterRule, chain_all}
use bf.Stream.{DataStream, IsDataStream, IsRule}
use bf.Stream.Laws.{restored}
use bf.Store.{IsStore, rules, Heap}
use bf.Kernel.{Kernel, IpHeader, Ports, SkBuff, nf_accept, init_module}
use bf.Hook.{hook_func, chain_policy}
use bf.System.Verdicts.{IsFiltered, verdict_spec, direction_rules, hook_func-verdict}
use bf.Client.{Control}
use bf.Client.Rules.{fetched}
use bf.Service.{Service, chain_pattern, stop, started}
use bf.Service.Core.{core, verdict-core, is_plain, filter-direction}
use bf.Service.Kept.{by_direction, core-direction}
use bf.Service.Fetching.{fetched-IsRule}
use bf.Service.Restarted.{
  some-bind, stop-file, started-restarted, restarted, restarted-policy, restarted-filter_value,
  restarted-IsStore, core-restarted,
}

-- The verdict of a kernel module that has the rules of another, but for their order by chain.
restarted-verdict :
    (k k' : Kernel) (incoming : Bool) (skb : SkBuff) (ip : IpHeader) (ports : Ports)
    → IsStore k'.store
    → map core (rules k'.store) ≡ by_direction (map core (rules k.store))
    → IsFiltered skb ip ports
    → k'.filter_value ≢ 0
    → (hook_func k' incoming skb).1
      ≡ verdict_spec ip ports (chain_policy k' incoming) (direction_rules incoming (rules k.store))
restarted-verdict k k' incoming skb ip ports v' e f on' =
    let rs = rules k.store in
    let rs' = rules k'.store in
    let policy = chain_policy k' incoming in
    let by_core : (xs : List FilterRule)
        → verdict_spec ip ports policy (direction_rules incoming xs)
          ≡ verdict_spec ip ports policy (direction_rules incoming (map core xs)) =
      λ xs.
        sym (verdict-core ip ports policy (direction_rules incoming xs))
        ∙ ap (verdict_spec ip ports policy) (core-direction incoming xs) in
    hook_func-verdict k' incoming skb ip ports v' f on'
    ∙ by_core rs'
    ∙ ap (verdict_spec ip ports policy)
        (ap (direction_rules incoming) e ∙ filter-direction incoming (map core rs))
    ∙ sym (by_core rs)

-- The service is stopped, the module is loaded afresh, and the service is started with the file that it
-- left: it comes up, and the verdict on every TCP or UDP packet with all its headers is that of the
-- first rule of the packet's chain that applies to it, as before, but where none applies it is ACCEPT,
-- whatever the policy of the chain was before. The module answered, no rule was for a whole chain
-- without protocol, ports and addresses, which the module takes for a policy, the fields of the rules
-- were words of their widths, and the filter was on.
pub restart-verdict :
    (s : DataStream) (law : IsDataStream s) (blank : FilterRule) (sent pid pid' : ℕ) (k : Kernel)
    (c c' : Control) (s_rules : List FilterRule) (file : Option (List ℕ)) (heap : Heap)
    (zeroed : FilterRule) (incoming : Bool) (skb : SkBuff) (ip : IpHeader) (ports : Ports)
    → IsStore k.store
    → All IsRule (rules k.store)
    → All (λ r. is_plain r ≡ true) (rules k.store)
    → k.filter_value ≢ 0
    → IsFiltered skb ip ports
    → (sv' : Service) × ((do
      sv ←
          stop s sent pid
            (record { link = record { kernel = k; control = c }; s_rules = s_rules; file = file })
      started s sent pid' blank (record {
        link = record { kernel = init_module heap zeroed; control = c' };
        s_rules = [];
        file = sv.file;
      }))
        ≡ some sv')
      × ((hook_func sv'.link.kernel incoming skb).1
          ≡ verdict_spec ip ports nf_accept (direction_rules incoming (rules k.store)))
      × ((hook_func k incoming skb).1
          ≡ verdict_spec ip ports
              (chain_policy k incoming)
              (direction_rules incoming (rules k.store)))
restart-verdict s law blank sent pid pid' k c c' s_rules file heap zeroed incoming skb ip ports v w
      plain on f =
    let fs = fetched k pid (chain_pattern chain_all) in
    let stopped = stop-file s sent pid k c s_rules file v in
    let up = started-restarted s law blank sent pid' heap zeroed c' fs (fetched-IsRule k pid w) in
    let k' = restarted pid' heap zeroed blank (map (restored blank) fs) in
    (
      up.0,
      some-bind _ _ _ _ stopped.1 up.1,
      ap (λ (x : Kernel). (hook_func x incoming skb).1) up.2
          ∙ restarted-verdict k k' incoming skb ip ports
              (restarted-IsStore pid' heap zeroed blank (map (restored blank) fs))
              (core-restarted pid' pid k heap zeroed blank v plain) f
              (λ e. absurd (
                omega (
                  arith,
                  e,
                  restarted-filter_value pid' heap zeroed blank (map (restored blank) fs),
                )))
          ∙ ap (λ policy. verdict_spec ip ports policy (direction_rules incoming (rules k.store)))
              (restarted-policy pid' heap zeroed blank _ incoming),
      hook_func-verdict k incoming skb ip ports v f on,
    )
