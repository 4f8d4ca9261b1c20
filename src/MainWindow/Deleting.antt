-- ===== src/MainWindow/Deleting.antt =====
-- Rules that are deleted in the window.
use mathlib.Core.Path.{subst}
use bf.System.Verdicts.{direction_rules, chain_of}
use bf.Store.{IsStore, rules}
use bf.Kernel.{Kernel}
use bf.Service.Restarted.{some-bind}
use bf.Service.Core.{core, filter-core}
use bf.Client.Commands.{command-nl_rcv_msg}
use bf.Base.{
  ℕ, zero, suc, ◌≡◌, refl, ap, ◌∙◌, Bool, false, not, List, [], ◌∷◌, any, filter, All, Option, none,
  some, Option-cases, Bool-cases, inl, inr, ◌==◌, ==_iff, ==_refl, arith, ◌<◌, length, filter_comm,
  map, sym,
}
use bf.Rule.{FilterRule}
use bf.Rule.Bytes.{cmp_rule_zero_refl, cmp_rule_zero_comm}
use bf.Store.Refines.{has_base}
use bf.Message.{msg_delete_rule}
use bf.Netlink.Rules.{delete_spec}
use bf.Stream.{IsRule}
use bf.RulesTable.{item_at}
use bf.RulesTable.Tracking.{Distinct, some_inj, none_ne_some}
use bf.RulesTable.Ascending.{member, Different}
use bf.RulesTable.Removing.{without, remove_items-without}
use bf.MainWindow.{rules_at, Window, delete_clicked, reply_yes}
use bf.MainWindow.Updates.{others-differ}
use bf.MainWindow.Asking.{request_specs, InStep, Answers, ask_all-Asked}

-- Whether a rule is not among those that are deleted.
abbrev stays : List FilterRule → FilterRule → Bool
stays ds r = not (any (λ d. has_base d.base r) ds)

filter-stays :
    (d : FilterRule) (ds rs : List FilterRule)
    → filter (stays ds) (delete_spec d rs) ≡ filter (stays (d ∷ ds)) rs
filter-stays d ds [] = refl
filter-stays d ds (r ∷ rs) = ground (arith, filter-stays d ds rs)

filter_all : (rs : List FilterRule) → rs ≡ filter (stays []) rs
filter_all [] = refl
filter_all (r ∷ rs) = ap (λ xs. r ∷ xs) (filter_all rs)

delete-request_specs :
    (blank : FilterRule) (ds rs : List FilterRule)
    → request_specs blank msg_delete_rule ds rs ≡ filter (stays ds) rs
delete-request_specs blank [] rs = filter_all rs
delete-request_specs blank (d ∷ ds) rs =
    delete-request_specs blank ds (delete_spec d rs) ∙ filter-stays d ds rs

-- The items of different rows have different bases.
abbrev Separate : List FilterRule → Type 0
Separate xs =
    (i j : ℕ) (x y : FilterRule)
    → item_at i xs ≡ some x
    → item_at j xs ≡ some y
    → (j == i) ≡ false
    → has_base y.base x ≡ false

All-item_at :
    (P : FilterRule → Type 0) (xs : List FilterRule) (i : ℕ) (x : FilterRule)
    → All P xs
    → item_at i xs ≡ some x
    → P x
unfolding item_at
All-item_at P [] i x h e = absurd (none_ne_some e)
All-item_at P (y ∷ xs) zero x h e = subst P (some_inj e) h.0
All-item_at P (y ∷ xs) (suc i) x h e = All-item_at P xs i x h.1 e

Distinct-Separate : (xs : List FilterRule) → Distinct xs → All IsRule xs → Separate xs
unfolding item_at
Distinct-Separate [] d w i j x y e f n = absurd (none_ne_some e)
Distinct-Separate (o ∷ xs) d w zero zero x y e f n = cc (==_refl 0)
Distinct-Separate (o ∷ xs) d w zero (suc j) x y e f n =
    let differ = others-differ o xs w.0 w.1 d.0 in
    cmp_rule_zero_comm x.base y.base
    ∙ subst (λ (z : FilterRule). has_base z.base y ≡ false) (some_inj e)
        (All-item_at (λ p. has_base o.base p ≡ false) xs j y differ f)
Distinct-Separate (o ∷ xs) d w (suc i) zero x y e f n =
    let differ = others-differ o xs w.0 w.1 d.0 in
    subst (λ (z : FilterRule). has_base z.base x ≡ false) (some_inj f)
      (All-item_at (λ p. has_base o.base p ≡ false) xs i x differ e)
Distinct-Separate (o ∷ xs) d w (suc i) (suc j) x y e f n =
    Distinct-Separate xs d.1 w.1 i j x y e f (ground (arith, n))

-- A rule is among those of the selected rows exactly if its row is selected.
any-rules_at :
    (rows : List ℕ) (xs : List FilterRule) (i : ℕ) (x : FilterRule)
    → Separate xs
    → item_at i xs ≡ some x
    → any (λ d. has_base d.base x) (rules_at rows xs) ≡ member rows i
unfolding rules_at
any-rules_at [] xs i x s e = refl
any-rules_at (j ∷ rows) xs i x s e =
    let rest = any-rules_at rows xs i x s e in
    let found : Option FilterRule → Bool = λ o.
      let rs : List FilterRule = elim o [
        | none ↦ rules_at rows xs
        | some r ↦ r ∷ rules_at rows xs
      ] in
      any (λ d. has_base d.base x) rs in
    elim (Bool-cases (j == i)) [
      | inl here ↦
          let same : j ≡ i = (==_iff j i).0 here in
          ap found (ap (λ k. item_at k xs) same ∙ e) ∙ rw (cmp_rule_zero_refl x.base, here) refl
      | inr other ↦ elim (Option-cases (item_at j xs)) [
        | inl gone ↦ ap found gone ∙ rw other rest
        | inr (y, there) ↦ ap found there ∙ rw (s i j x y e there other, other) rest
      ]
    ]

filter-without :
    (P : FilterRule → Bool) (q : ℕ → Bool) (xs : List FilterRule)
    → ((i : ℕ) (x : FilterRule) → item_at i xs ≡ some x → P x ≡ not (q i))
    → filter P xs ≡ without q xs
unfolding item_at
filter-without P q [] h = refl
filter-without P q (x ∷ xs) h =
    let rest = filter-without P (λ i. q (suc i)) xs (λ i y e. h (suc i) y e) in
    ground (arith, h 0 x refl, rest)

delete-Answers : (sent pid : ℕ) (blank : FilterRule) → Answers blank sent pid msg_delete_rule
delete-Answers sent pid blank k c fr v = (_, (command-nl_rcv_msg k c sent pid fr v).2)

-- A test that reads no more than the core keeps a table in step that it filters as the module.
filter-InStep :
    (P : FilterRule → Bool) (items : List FilterRule) (k k' : Kernel)
    → ((r : FilterRule) → P (core r) ≡ P r)
    → InStep items k
    → rules k'.store ≡ filter P (rules k.store)
    → InStep (filter P items) k'
filter-InStep P items k k' h s e b =
    let on : FilterRule → Bool = λ r. r.base.chain == chain_of b in
    let inside : (xs : List FilterRule)
        → direction_rules b (map core (filter P xs)) ≡ filter P (direction_rules b (map core xs)) =
      λ xs. ap (direction_rules b) (filter-core P h xs) ∙ filter_comm on P (map core xs) in
    inside items
    ∙ ap (filter P) (s b)
    ∙ sym (ap (λ xs. direction_rules b (map core xs)) e ∙ inside (rules k.store))

-- A deletion that is confirmed reads the numbers of the selected rows, which are rows of the proxy, as rows
-- of the table. It ends, takes out of the table exactly the rows with these numbers, whichever rules were
-- selected, and takes the rules of these rows out of the module: the window shows the rules of the module
-- again, if it did so before. Each number comes once and is that of a row of the table, no two rules of
-- the table are equal for it, which does not compare chains, and their fields are words of their widths.
pub delete_clicked-InStep :
    (blank : FilterRule) (sent pid : ℕ) (row : ℕ) (rows : List ℕ) (w : Window)
    → IsStore w.link.kernel.store
    → InStep w.table.items w.link.kernel
    → Distinct w.table.items
    → All IsRule w.table.items
    → All (λ i. i < length w.table.items) (row ∷ rows)
    → Different (row ∷ rows)
    → (w' : Window) × (delete_clicked blank sent pid w (row ∷ rows) reply_yes ≡ some w')
      × (w'.table.items ≡ without (member (row ∷ rows)) w.table.items)
      × IsStore w'.link.kernel.store
      × InStep w'.table.items w'.link.kernel
unfolding delete_clicked
delete_clicked-InStep blank sent pid row rows w v s d words there once =
    let k = w.link.kernel in
    let ds = rules_at (row ∷ rows) w.table.items in
    let sent_all =
      ask_all-Asked blank sent pid msg_delete_rule ds k w.link.control
        (delete-Answers sent pid blank) v in
    let removed = remove_items-without (row ∷ rows) w.table there once in
    let kept : filter (stays ds) w.table.items ≡ without (member (row ∷ rows)) w.table.items =
      filter-without (stays ds) (member (row ∷ rows)) w.table.items (λ i x e. ap not (
        any-rules_at (row ∷ rows) w.table.items i x (Distinct-Separate w.table.items d words) e)) in
    (
      _,
      some-bind _ _ _ _ sent_all.returns refl,
      removed,
      sent_all.lists,
      subst (λ xs. InStep xs sent_all.kernel) (kept ∙ sym removed)
          (filter-InStep (stays ds) w.table.items k sent_all.kernel (λ r. refl) s
            (sent_all.has_rules ∙ delete-request_specs blank ds (rules k.store))),
    )
