-- ===== src/Lifetime/Freeing.antt =====
-- What is freed when the module is unloaded, and what is left.
use mathlib.Core.Path.{subst}
use bf.Base.{
  ℕ, ◌≡◌, refl, sym, ◌∙◌, Bool, true, false, List, [], ◌++◌, length, if◌then◌else◌, ltb, ◌==◌,
  arith,
}
use bf.Rule.{FilterRule}
use bf.Store.{Heap, Store, cleanup_rules, free_retired, init_rules}
use bf.Kernel.{Kernel, init_module}
use bf.Hook.Log.{work_handler}
use bf.System.{Event, run}
use bf.Lifetime.{
  Module, module_loaded, nl_init, nl_exit, hash_table_finit, cleanup_module, flushed_work,
  entry_keys,
}
use bf.Lifetime.Accounts.{
  count, count_below, occurrences, count_below-eq, count_below-all, count-all, count-append,
  Accounted, run-Accounted, dequeued-store,
}

-- Where nothing but freed nodes is left.
pub record Unloaded (m : Module) : Type 0 where
  pub freed_once :
      (a : ℕ)
      → occurrences a m.kernel.store.freed ≡ (if ltb a m.kernel.store.next_node then 1 else 0)
  pub no_nodes : (m.kernel.store.full_list ≡ []) × (m.kernel.store.retired ≡ [])
  pub no_hooks : (m.nfho_in ≡ false) × (m.nfho_out ≡ false)
  pub no_entry : m.skb_filter ≡ false
  pub no_queue : m.wq_logging ≡ false
  pub no_socket : m.nl_sk ≡ false
  pub no_table : m.table ≡ false

-- What is never given back: the locks of the buckets, the head of the packet queue, and the key of
-- each node that was freed.
pub record Leaked (m : Module) : Type 0 where
  pub locks_left : m.bucket_locks ≡ true
  pub head_left : m.skb_head ≡ true
  pub keys_left : entry_keys m ≡ length m.kernel.store.freed

init_rules-Accounted : (heap : Heap) → Accounted (init_rules heap)
unfolding init_rules
init_rules-Accounted heap p = refl

loaded-Accounted :
    (heap : Heap) (zeroed : FilterRule) (nl_ok : Bool)
    → Accounted (module_loaded heap zeroed true nl_ok).0.kernel.store
unfolding module_loaded nl_init init_module
loaded-Accounted heap zeroed true = init_rules-Accounted heap
loaded-Accounted heap zeroed false = init_rules-Accounted heap

locks_kept :
    (heap : Heap) (zeroed : FilterRule) (nl_ok : Bool)
    → let m = (module_loaded heap zeroed true nl_ok).0 in
      (m.bucket_locks ≡ true) × (m.skb_head ≡ true)
unfolding module_loaded nl_init
locks_kept heap zeroed true = (refl, refl)
locks_kept heap zeroed false = (refl, refl)

flushed-store : (pending : Bool) (k : Kernel) → (flushed_work pending k).0.store ≡ k.store
unfolding flushed_work work_handler
flushed-store true k = dequeued-store k k.skb_list
flushed-store false k = refl

-- Where every node is accounted for, cleanup_rules behind the grace period leaves only freed ones.
freed_all :
    (s : Store) (p : ℕ → Bool)
    → Accounted s
    → count p (cleanup_rules (free_retired s)).freed ≡ count_below p s.next_node
unfolding cleanup_rules free_retired
freed_all s p v = omega (
  arith,
  count-append p (s.freed ++ s.retired) s.full_list,
  count-append p s.freed s.retired,
  v p,
)

-- When the module is loaded, also where its socket cannot be made, and unloaded after any history of
-- events, with work for its queue pending or not, every node that was allocated for a rule has been
-- freed exactly once, and neither hook, /proc entry, work queue, socket nor the array of buckets is
-- left. What is left are the locks of the buckets, the head of the packet queue, and as many keys of
-- the hash table as nodes were freed.
pub cleanup_module-Unloaded :
    (heap : Heap) (zeroed : FilterRule) (nl_ok pending : Bool) (es : List Event)
    → let m = (module_loaded heap zeroed true nl_ok).0 in
      let m' = (cleanup_module pending (record m { kernel = (run m.kernel es).0 })).0 in
      Unloaded m' × Leaked m'
unfolding cleanup_module nl_exit hash_table_finit cleanup_rules free_retired entry_keys
cleanup_module-Unloaded heap zeroed nl_ok pending es =
    let k = (run (module_loaded heap zeroed true nl_ok).0.kernel es).0 in
    let store = (flushed_work pending k).0.store in
    let acc : Accounted store =
      subst Accounted (sym (flushed-store pending k))
        (run-Accounted _ es (loaded-Accounted heap zeroed nl_ok)) in
    let freed = (cleanup_rules (free_retired store)).freed in
    let kept = locks_kept heap zeroed nl_ok in
    (
      record {
        freed_once = λ a. freed_all store (λ x. x == a) acc ∙ count_below-eq a store.next_node;
        no_nodes = (refl, refl);
        no_hooks = (refl, refl);
        no_entry = refl;
        no_queue = refl;
        no_socket = refl;
        no_table = refl;
      },
      record {
        locks_left = kept.0;
        head_left = kept.1;
        keys_left =
            sym (count_below-all store.next_node)
            ∙ (sym (freed_all store (λ x. true) acc) ∙ count-all freed);
      },
    )
