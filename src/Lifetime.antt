-- ===== src/Lifetime.antt =====
-- init_module and cleanup_module of bf-ko/bf_module.c as wholes, with nl_init and nl_exit of bf-ko/nl_int.c and
-- hash_table_finit of bf-ko/base/hash_table.h: what the module registers and allocates, and what it
-- gives back. Of the allocations only that of the /proc entry and of the socket may fail. A history of
-- the module in between is one of System.
pub mod Accounts
pub mod Freeing
use bf.Base.{ℕ, Bool, true, false, List, []}
use bf.Rule.{FilterRule}
use bf.Store.{Heap, cleanup_rules, free_retired}
use bf.Kernel.{Kernel, init_module}
use bf.Message.{Sent}
use bf.Hook.Log.{work_handler}
use bf.Client.{Result, returned, failed}

-- What is registered or allocated: the hooks, the /proc entry, the work queue, the netlink socket, the
-- arrays `table` and `bucket_locks` of the hash table, and the head of the packet queue.
pub record Module : Type 0 where
  pub kernel : Kernel
  pub nfho_out : Bool
  pub nfho_in : Bool
  pub skb_filter : Bool
  pub wq_logging : Bool
  pub nl_sk : Bool
  pub table : Bool
  pub bucket_locks : Bool
  pub skb_head : Bool

-- nl_init, with its result
unfoldable pub nl_init : Bool → Module → Module × Result
nl_init true m = (record m { nl_sk = true }, returned 0)
nl_init false m = (m, failed 12)

-- init_module, by whether create_proc_entry and netlink_kernel_create succeed.
unfoldable pub module_loaded : Heap → FilterRule → Bool → Bool → Module × Result
unfolding nl_init
module_loaded heap zeroed proc_ok nl_ok =
    let allocated : Module = record {
      kernel = init_module heap zeroed;
      nfho_out = false;
      nfho_in = false;
      skb_filter = false;
      wq_logging = true;
      nl_sk = false;
      table = true;
      bucket_locks = true;
      skb_head = true;
    } in
    elim proc_ok [
      | false ↦ (allocated, failed 12)
      | true ↦ (
        (nl_init nl_ok (record allocated { nfho_out = true; nfho_in = true; skb_filter = true })).0,
        returned 0,
      )
    ]

-- nl_exit
unfoldable pub nl_exit : Module → Module
nl_exit m = record m { nl_sk = false }

-- hash_table_finit, which frees the one of the two arrays.
unfoldable pub hash_table_finit : Module → Module
hash_table_finit m = record m { table = false }

-- The keys that are allocated: hash_entry_init makes one for each node that add_rule inserts, and
-- nothing calls hash_entry_finit.
unfoldable pub entry_keys : Module → ℕ
entry_keys m = m.kernel.store.next_node

-- What flush_workqueue comes to: the one work item of the module has run, if it was pending. What it
-- sends comes too.
unfoldable pub flushed_work : Bool → Kernel → Kernel × List Sent
flushed_work true k = work_handler k
flushed_work false k = (k, [])

-- cleanup_module, by whether the work item is pending, with what the flushed work queue sends.
unfoldable pub cleanup_module : Bool → Module → Module × List Sent
unfolding nl_exit hash_table_finit flushed_work
cleanup_module pending m =
    let unhooked = record m { nfho_in = false; nfho_out = false; skb_filter = false } in
    let (k, sent) = flushed_work pending unhooked.kernel in
    let flushed = record unhooked { kernel = k; wq_logging = false } in
    let closed = nl_exit flushed in
    let store = cleanup_rules (free_retired closed.kernel.store) in
    (hash_table_finit (record closed { kernel = record closed.kernel { store = store } }), sent)
