-- ===== src/Service/Restarted.antt =====
-- What the service's stop leaves in its file, and the kernel module after its start.
use bf.Base.{
  ℕ, suc, ◌≤◌, ◌≡◌, refl, sym, ap, ◌∙◌, Bool, true, false, List, [], ◌∷◌, map, filter, length,
  length-append, All, filter-append, some, Option, ◌>>=◌, arith,
}
use bf.Rule.{FilterRule, chain_input, chain_all}
use bf.Stream.{DataStream, IsDataStream, IsRule}
use bf.Stream.Laws.{restored}
use bf.RulesFile.{write_rules, load_from_list}
use bf.RulesFile.RoundTrip.{load_from_file-write_rules}
use bf.Store.{IsStore, rules, Heap, init_rules, owners}
use bf.Store.Refines.{has_base, map-filter_nodes}
use bf.Store.Invariant.{init_rules-IsStore}
use bf.Kernel.{Kernel, nf_accept, init_module}
use bf.Hook.{chain_policy}
use bf.System.Verdicts.{direction_rules}
use bf.Client.{Control}
use bf.Client.Rules.{fetched}
use bf.Client.Commands.{client_request}
use bf.Message.{msg_log_subscribe}
use bf.Netlink.{nl_rcv_msg, dispatch}
use bf.System.{run_thread}
use bf.Link.{Link, subscribe_log}
use bf.Link.Adding.{
  added, added-IsStore, rules-added, chain_policy-added, filter_value-added, send_rules_sync-added,
}
use bf.Service.{Service, chain_pattern, keep_rules, stop, started}
use bf.Service.Core.{
  core, filter-core, is_plain, Unique, add_specs-Unique, add_specs-plain, length-directions,
}
use bf.Service.Kept.{by_direction, rules_list, core-kept}
use bf.Service.Fetching.{
  after_listing, get_rules-fetched, after_listing-IsStore, core-after_listing,
}

length-map : (f : FilterRule → FilterRule) (rs : List FilterRule) → length (map f rs) ≡ length rs
length-map f [] = refl
length-map f (r ∷ rs) = ap suc (length-map f rs)

length-nodes : (heap : Heap) (nodes : List ℕ) → length (map heap nodes) ≡ length nodes
length-nodes heap [] = refl
length-nodes heap (a ∷ nodes) = ap suc (length-nodes heap nodes)

filter-passes : (p : FilterRule → Bool) (rs : List FilterRule) → All (λ r. p r ≡ true) (filter p rs)
filter-passes p [] = tt
filter-passes p (r ∷ rs) = ground (arith, filter-passes p rs)

-- Rules that are the store's, but for their cores' order by chain, have different bases.
kept-Unique :
    (k : Kernel) (xs : List FilterRule)
    → IsStore k.store
    → map core xs ≡ by_direction (map core (rules k.store))
    → Unique xs
kept-Unique k xs v e b =
    let p = has_base b in
    let cs = map core (rules k.store) in
    let on_core : (rs : List FilterRule) → length (filter p (map core rs)) ≡ length (filter p rs) =
      λ rs. ap length (sym (filter-core p (λ r. refl) rs)) ∙ length-map core (filter p rs) in
    let all : length (filter p (rules k.store)) ≡ length (owners k.store.heap k.store.full_list b) =
      ap length (sym (map-filter_nodes p k.store.heap k.store.full_list))
      ∙ length-nodes k.store.heap _ in
    let parts : length (filter p (by_direction cs)) ≤ length (filter p cs) = omega (
      arith,
      ap length (filter-append p (direction_rules true cs) (direction_rules false cs)),
      length-append (filter p (direction_rules true cs)) (filter p (direction_rules false cs)),
      length-directions p cs,
    ) in
    omega (
      arith,
      on_core xs,
      on_core (rules k.store),
      ap (λ ys. length (filter p ys)) e,
      all,
      parts,
      v.unique b,
    )

pub some-bind {ℓ κ} :
    {A : Type ℓ} {B : Type κ} (o : Option A) (a : A) (f : A → Option B) (b : Option B)
    → o ≡ some a
    → f a ≡ b
    → (o >>= f) ≡ b
some-bind o a f b h g = ap (λ x. x >>= f) h ∙ g

-- What a stop leaves: the rules of the kernel module are in the file.
pub stop-file :
    (s : DataStream) (sent pid : ℕ) (k : Kernel) (c : Control) (s_rules : List FilterRule)
    (file : Option (List ℕ))
    → IsStore k.store
    → let fs = fetched k pid (chain_pattern chain_all) in
      (l : Link) × (stop s sent pid
          (record { link = record { kernel = k; control = c }; s_rules = s_rules; file = file })
        ≡ some (record { link = l; s_rules = fs; file = some (write_rules s fs) }))
unfolding stop keep_rules load_from_list
stop-file s sent pid k c s_rules file v =
    let got = get_rules-fetched sent pid k c (chain_pattern chain_all) v in
    (_, some-bind _ _ _ _ got.1 refl)

-- The kernel module after the start, by the rules that were read from the file.
abbrev pub restarted : ℕ → Heap → FilterRule → FilterRule → List FilterRule → Kernel
restarted pid heap zeroed blank fs =
    let k = added pid (init_module heap zeroed) (rules_list fs) in
    after_listing pid (nl_rcv_msg k (client_request pid msg_log_subscribe blank)).kernel
      (chain_pattern chain_input)

pub started-restarted :
    (s : DataStream) (law : IsDataStream s) (blank : FilterRule) (sent pid : ℕ) (heap : Heap)
    (zeroed : FilterRule) (c : Control) (fs : List FilterRule)
    → All IsRule fs
    → (sv : Service) × (started s sent pid blank (record {
      link = record { kernel = init_module heap zeroed; control = c };
      s_rules = [];
      file = some (write_rules s fs);
    })
        ≡ some sv)
      × (sv.link.kernel ≡ restarted pid heap zeroed blank (map (restored blank) fs))
unfolding started keep_rules load_from_list subscribe_log nl_rcv_msg dispatch init_module
started-restarted s law blank sent pid heap zeroed c fs w =
    let rs = rules_list (map (restored blank) fs) in
    let k0 = init_module heap zeroed in
    let v0 : IsStore k0.store = init_rules-IsStore heap in
    let k = added pid k0 rs in
    let k2 = (nl_rcv_msg k (client_request pid msg_log_subscribe blank)).kernel in
    let got =
      get_rules-fetched sent pid k2 c (chain_pattern chain_input) (added-IsStore pid k0 rs v0) in
    (
      _,
      some-bind _ _ _ _ (load_from_file-write_rules s law blank fs [] w) (
          some-bind _ _ _ _ (send_rules_sync-added sent pid k0 c rs v0)
            (some-bind _ _ _ _ got.1 refl)),
      refl,
    )

pub restarted-IsStore :
    (pid : ℕ) (heap : Heap) (zeroed blank : FilterRule) (fs : List FilterRule)
    → IsStore (restarted pid heap zeroed blank fs).store
unfolding nl_rcv_msg dispatch init_module
restarted-IsStore pid heap zeroed blank fs =
    let k0 = init_module heap zeroed in
    let k = added pid k0 (rules_list fs) in
    after_listing-IsStore pid (nl_rcv_msg k (client_request pid msg_log_subscribe blank)).kernel
      (chain_pattern chain_input) (added-IsStore pid k0 (rules_list fs) (init_rules-IsStore heap))

-- Its rules are those of the module that was stopped, but for the order by chain.
pub core-restarted :
    (pid pid0 : ℕ) (k : Kernel) (heap : Heap) (zeroed blank : FilterRule)
    → IsStore k.store
    → All (λ r. is_plain r ≡ true) (rules k.store)
    → map core (
        rules
          (restarted pid heap zeroed blank
            (map (restored blank) (fetched k pid0 (chain_pattern chain_all)))).store)
      ≡ by_direction (map core (rules k.store))
unfolding nl_rcv_msg dispatch init_module init_rules
core-restarted pid pid0 k heap zeroed blank v plain =
    let fs = map (restored blank) (fetched k pid0 (chain_pattern chain_all)) in
    let k0 = init_module heap zeroed in
    let kept = filter is_plain (rules_list fs) in
    let e = core-kept k pid0 blank plain in
    core-after_listing pid
      (nl_rcv_msg (added pid k0 (rules_list fs))
        (client_request pid msg_log_subscribe blank)).kernel
      (chain_pattern chain_input)
    ∙ (ap (map core) (
          rules-added pid k0 (rules_list fs) (init_rules-IsStore heap)
          ∙ add_specs-plain (rules_list fs) []
          ∙ add_specs-Unique kept [] (kept-Unique k kept v e)
              (filter-passes is_plain (rules_list fs)))
        ∙ e)

pub restarted-policy :
    (pid : ℕ) (heap : Heap) (zeroed blank : FilterRule) (fs : List FilterRule) (incoming : Bool)
    → chain_policy (restarted pid heap zeroed blank fs) incoming ≡ nf_accept
unfolding nl_rcv_msg dispatch init_module run_thread
restarted-policy pid heap zeroed blank fs true =
    chain_policy-added pid (init_module heap zeroed) (rules_list fs) true
restarted-policy pid heap zeroed blank fs false =
    chain_policy-added pid (init_module heap zeroed) (rules_list fs) false

pub restarted-filter_value :
    (pid : ℕ) (heap : Heap) (zeroed blank : FilterRule) (fs : List FilterRule)
    → (restarted pid heap zeroed blank fs).filter_value ≡ 1
unfolding nl_rcv_msg dispatch init_module run_thread
restarted-filter_value pid heap zeroed blank fs =
    filter_value-added pid (init_module heap zeroed) (rules_list fs)
