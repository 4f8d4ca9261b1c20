-- ===== src/System.antt =====
-- The kernel module as a whole: the events that reach it, in any order, and what it sends. A listing
-- thread that was created by a MSG_GET_RULES runs some time later, with the parameters that
-- `thrd_params` holds then; one event is one call, so a listing is not interrupted.
pub mod Reachable
pub mod Verdicts
pub mod Threads
pub mod Interleaved
use bf.Base.{ℕ, suc, ◌+◌, ◌-◌, ◌≡◌, ◌≤◌, Bool, List, [], ◌∷◌, ◌++◌, All, if◌then◌else◌, ◌==◌}
use bf.Store.{Store, IsStore, free_retired}
use bf.Kernel.{Kernel, SkBuff}
use bf.Message.{Sent, Request}
use bf.Hook.{hook_func}
use bf.Hook.Log.{work_handler, IsLoggable}
use bf.Netlink.{nl_rcv_msg}
use bf.Listing.{Listing, list_rules}

pub data Event : Type 0 where
  -- nl_skb_rcv_msg with one request
  request : Request → Event
  -- hook_func of one of the two hooks; `true` for the incoming one
  packet : Bool → SkBuff → Event
  -- the work queue runs work_handler
  log_work : Event
  -- a listing thread runs
  listing : (ℕ → Bool) → Event
  -- an RCU grace period ends
  grace_period : Event
  -- skb_write: a new value of the file in /proc
  proc_write : ℕ → Event

unfoldable pub run_thread : (ℕ → Bool) → Kernel → Kernel × List Sent
run_thread send_ok k =
    let l = list_rules send_ok k k.thrd_pid k.thrd_fr in
    (record k { store = record k.store { heap = l.heap }; threads = k.threads - 1 }, l.sent)

unfoldable pub step : Kernel → Event → Kernel × List Sent
unfolding run_thread
step k (request req) = let r = nl_rcv_msg k req in (r.kernel, r.sent)
step k (packet incoming skb) = ((hook_func k incoming skb).0, [])
step k log_work = work_handler k
step k (listing send_ok) = if k.threads == 0 then (k, []) else run_thread send_ok k
step k grace_period = (record k { store = free_retired k.store }, [])
step k (proc_write v) = (record k { filter_value = v }, [])

unfoldable pub run : Kernel → List Event → Kernel × List Sent
unfolding step
run k [] = (k, [])
run k (e ∷ es) = let (k', sent) = step k e in let (k'', later) = run k' es in (k'', sent ++ later)

-- The invariant of the module.
pub record IsKernel (k : Kernel) : Type 0 where
  pub lists : IsStore k.store
  pub input_verdict : k.policy_input ≤ 1
  pub output_verdict : k.policy_output ≤ 1
  pub queue : All IsLoggable k.skb_list
