-- ===== src/Lifetime/Accounts.antt =====
-- Where the nodes of the rules are, after any history: every node that was allocated is in use, retired
-- or freed, and once.
use mathlib.Core.Path.{subst}
use bf.System.Reachable.{hook_func-frame}
use bf.Base.{
  ℕ, zero, suc, ◌+◌, ◌≡◌, refl, sym, ap, ◌∙◌, Bool, true, not, List, [], ◌∷◌, ◌++◌, filter,
  filter-append, length, length-append, Option, none, some, Option-cases, inl, inr, if_cases,
  if◌then◌else◌, ltb, ◌==◌, arith,
}
use bf.Rule.{FilterRule, policy_rule, bf_err_already_have_rule}
use bf.Store.{Store, add_rule, delete_rule, delete_rules, free_retired, find_rule, is_node_of}
use bf.Kernel.{Kernel, SkBuff}
use bf.Message.{
  MessageType, msg_add_rule, msg_delete_rule, msg_delete_all_rules, msg_update_rule,
  msg_chain_policy, Request, Sent,
}
use bf.Netlink.{
  dispatch, nl_rcv_msg, rcv_add_rule, rcv_update_rule, rcv_delete_rule, Handled, handled, err_msg,
  send_err_ok,
}
use bf.Netlink.Invariant.{set_chain_policy-store}
use bf.Hook.Log.{work_handler, dequeued}
use bf.System.{
  Event, request, packet, log_work, listing, grace_period, proc_write, step, run, run_thread,
}

-- How many nodes of a list, and of those below a number, pass a test.
abbrev pub count : (ℕ → Bool) → List ℕ → ℕ
count p xs = length (filter p xs)

abbrev pub count_below : (ℕ → Bool) → ℕ → ℕ
count_below p zero = 0
count_below p (suc n) = count_below p n + (if p n then 1 else 0)

abbrev pub occurrences : ℕ → List ℕ → ℕ
occurrences a = count (λ x. x == a)

pub count_below-eq : (a n : ℕ) → count_below (λ x. x == a) n ≡ (if ltb a n then 1 else 0)
count_below-eq a zero = ground arith
count_below-eq a (suc n) = ground (arith, count_below-eq a n)

pub count_below-all : (n : ℕ) → count_below (λ x. true) n ≡ n
count_below-all zero = refl
count_below-all (suc n) = omega (arith, count_below-all n)

pub count-all : (xs : List ℕ) → count (λ x. true) xs ≡ length xs
count-all [] = refl
count-all (x ∷ xs) = ap suc (count-all xs)

pub count-append : (p : ℕ → Bool) (xs ys : List ℕ) → count p (xs ++ ys) ≡ count p xs + count p ys
count-append p xs ys = ap length (filter-append p xs ys) ∙ length-append (filter p xs) (filter p ys)

count-split :
    (p : ℕ → Bool) (hit : ℕ → Bool) (xs : List ℕ)
    → count p (filter (λ x. not (hit x)) xs) + count p (filter hit xs) ≡ count p xs
count-split p hit [] = refl
count-split p hit (x ∷ xs) = ground (arith, count-split p hit xs)

-- Every node that was allocated is in use, retired or freed, and only one of these, and once.
abbrev pub Accounted : Store → Type 0
Accounted s =
    (p : ℕ → Bool)
    → count p s.full_list + count p s.retired + count p s.freed ≡ count_below p s.next_node

add_rule-Accounted : (s : Store) (fr : FilterRule) → Accounted s → Accounted (add_rule s fr)
unfolding add_rule
add_rule-Accounted s fr v p = ground (arith, count-append p s.full_list (s.next_node ∷ []), v p)

delete_rule-Accounted : (s : Store) (fr : FilterRule) → Accounted s → Accounted (delete_rule s fr)
unfolding delete_rule
delete_rule-Accounted s fr v p =
    let hit = is_node_of s.heap fr.base in
    omega
      (arith, count-split p hit s.full_list, count-append p s.retired (filter hit s.full_list), v p)

delete_rules-Accounted : (s : Store) → Accounted s → Accounted (delete_rules s)
unfolding delete_rules
delete_rules-Accounted s v p = omega (arith, count-append p s.retired s.full_list, v p)

free_retired-Accounted : (s : Store) → Accounted s → Accounted (free_retired s)
unfolding free_retired
free_retired-Accounted s v p = omega (arith, count-append p s.freed s.retired, v p)

-- The handlers, by what the lookup finds.
abbrev AccountedEnd : Handled → Type 0
AccountedEnd h = Accounted h.kernel.store

rcv_add_rule-Accounted :
    (k : Kernel) (fr : FilterRule) → Accounted k.store → AccountedEnd (rcv_add_rule k fr)
unfolding rcv_add_rule
rcv_add_rule-Accounted k fr v =
    if_cases AccountedEnd (policy_rule fr.base) (λ _. v) (λ _. found (find_rule k.store fr.base))
  where
    found :
        (o : Option ℕ)
        → AccountedEnd (elim o [
          | some a ↦ handled k (err_msg k.thrd_pid (some fr) bf_err_already_have_rule ∷ [])
          | none ↦
              handled
                (record k { store = add_rule k.store fr; rules_counter = suc k.rules_counter })
                (send_err_ok k ∷ [])
        ])
    found none = add_rule-Accounted k.store fr v
    found (some a) = v

rcv_update_rule-Accounted :
    (k : Kernel) (fr : FilterRule) → Accounted k.store → AccountedEnd (rcv_update_rule k fr)
unfolding rcv_update_rule
rcv_update_rule-Accounted k fr v = elim (Option-cases (find_rule k.store fr.base)) [
  | inl e ↦ rw (rcv_update_rule, e) v
  | inr (a, e) ↦ rw (rcv_update_rule, e) v
]

rcv_delete_rule-Accounted :
    (k : Kernel) (fr : FilterRule) → Accounted k.store → AccountedEnd (rcv_delete_rule k fr)
unfolding rcv_delete_rule
rcv_delete_rule-Accounted k fr v = elim (Option-cases (find_rule k.store fr.base)) [
  | inl e ↦ rw (rcv_delete_rule, e) v
  | inr (a, e) ↦ rw (rcv_delete_rule, e) (delete_rule-Accounted k.store fr v)
]

dispatch-Accounted :
    (k : Kernel) (req : Request) (t : MessageType)
    → Accounted k.store
    → AccountedEnd (dispatch k req t)
unfolding dispatch
dispatch-Accounted k req msg_add_rule v = rcv_add_rule-Accounted k req.fr v
dispatch-Accounted k req msg_update_rule v = rcv_update_rule-Accounted k req.fr v
dispatch-Accounted k req msg_delete_rule v = rcv_delete_rule-Accounted k req.fr v
dispatch-Accounted k req msg_delete_all_rules v = delete_rules-Accounted k.store v
dispatch-Accounted k req msg_chain_policy v =
    subst Accounted (sym (set_chain_policy-store k req.fr)) v
dispatch-Accounted k req _ v = v

pub dequeued-store : (k : Kernel) (q : List SkBuff) → (dequeued k q).0.store ≡ k.store
dequeued-store k [] = refl
dequeued-store k (skb ∷ rest) = refl

step-Accounted : (k : Kernel) (e : Event) → Accounted k.store → Accounted (step k e).0.store
unfolding step nl_rcv_msg work_handler run_thread
step-Accounted k (request req) v =
    dispatch-Accounted (record k { thrd_pid = req.nlmsg_pid }) req req.nlmsg_type v
step-Accounted k (packet incoming skb) v =
    subst (λ (k' : Kernel). Accounted k'.store) (sym (hook_func-frame k incoming skb).1) v
step-Accounted k log_work v = subst Accounted (sym (dequeued-store k k.skb_list)) v
step-Accounted k (listing send_ok) v =
    if_cases (λ (r : Kernel × List Sent). Accounted r.0.store) (k.threads == 0) (λ _. v) (λ _. v)
step-Accounted k grace_period v = free_retired-Accounted k.store v
step-Accounted k (proc_write x) v = v

pub run-Accounted :
    (k : Kernel) (es : List Event) → Accounted k.store → Accounted (run k es).0.store
unfolding run
run-Accounted k [] v = v
run-Accounted k (e ∷ es) v = run-Accounted (step k e).0 es (step-Accounted k e v)
