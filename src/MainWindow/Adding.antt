-- ===== src/MainWindow/Adding.antt =====
-- A rule that is added in the window.
use bf.Base.{
  ℕ, ◌≡◌, refl, sym, ap, ◌∙◌, Bool, true, false, List, [], ◌∷◌, ◌++◌, ◌==◌, map, map-append,
  filter-append, find, none, some, Option-cases, inl, inr,
}
use bf.Rule.{FilterRule, bf_err_already_have_rule}
use bf.Store.{IsStore, rules}
use bf.Store.Refines.{has_base}
use bf.Message.{msg_add_rule}
use bf.Netlink.{nl_rcv_msg}
use bf.Netlink.Invariant.{nl_rcv_msg-IsStore}
use bf.Netlink.Rules.{nl_rcv_msg-rules}
use bf.System.Verdicts.{direction_rules, chain_of}
use bf.Stream.Laws.{restored}
use bf.Client.{returned, failed}
use bf.Client.Commands.{client_request, add_result}
use bf.Link.{Link}
use bf.Link.Adding.{call-add_result}
use bf.Service.Core.{core}
use bf.Service.Restarted.{some-bind}
use bf.RulesTable.{append_item}
use bf.MainWindow.{Window, ask, add_clicked}
use bf.MainWindow.Asking.{InStep}
use bf.MainWindow.AddDialog.{AddDialog, accept, accepted, accept-policy_rule}

direction-append :
    (b : Bool) (xs : List FilterRule) (fr : FilterRule)
    → direction_rules b (map core (xs ++ fr ∷ []))
      ≡ direction_rules b (map core xs) ++ direction_rules b (core fr ∷ [])
direction-append b xs fr =
    ap (direction_rules b) (map-append core xs (fr ∷ []))
    ∙ filter-append (λ r. r.base.chain == chain_of b) (map core xs) (core fr ∷ [])

-- A rule that the dialog accepts and the window adds, where the window shows the rules of the module: the
-- click ends; if the module has a rule with the base, the message about it is shown and neither the
-- table nor the rules of the module change; else both get the rule at their ends, but for its number
-- and hardware addresses. The window shows the rules of the module again.
pub add_clicked-InStep :
    (blank : FilterRule) (sent pid : ℕ) (d : AddDialog) (fr : FilterRule) (w : Window)
    → accept blank d ≡ accepted fr
    → IsStore w.link.kernel.store
    → InStep w.table.items w.link.kernel
    → (w' : Window) × (shown : Bool) × (add_clicked blank sent pid w (some fr) ≡ some (w', shown))
      × (let rs = rules w.link.kernel.store in
          elim (find (has_base fr.base) rs) as (λ _. Type 0) [
            | some r ↦ (shown ≡ true) × (w'.table ≡ w.table) × (rules w'.link.kernel.store ≡ rs)
            | none ↦
                (shown ≡ false)
                × (w'.table.items ≡ w.table.items ++ fr ∷ [])
                × (rules w'.link.kernel.store ≡ rs ++ restored blank fr ∷ [])
          ])
      × IsStore w'.link.kernel.store
      × InStep w'.table.items w'.link.kernel
unfolding add_clicked ask append_item
add_clicked-InStep blank sent pid d fr w acc v s =
    let k = w.link.kernel in
    let rs = rules k.store in
    let req = client_request pid msg_add_rule (restored blank fr) in
    let k' = (nl_rcv_msg k req).kernel in
    let l : Link = record { kernel = k'; control = w.link.control } in
    let plain = accept-policy_rule blank d fr acc in
    let after = nl_rcv_msg-rules k req v in
    let answer = call-add_result sent pid k w.link.control (restored blank fr) v in
    let lists = nl_rcv_msg-IsStore k req v in
    elim (Option-cases (find (has_base fr.base) rs)) [
      | inl e ↦
          let new : rules k'.store ≡ rs ++ restored blank fr ∷ [] = after ∙ rw (plain, e) refl in
          let ok : add_result (restored blank fr) rs ≡ returned 0 = rw (plain, e) refl in
          (
            record w { link = l; table = append_item fr w.table },
            false,
            some-bind _ _ _ _ (answer ∙ ap (λ x. some (l, x)) ok) refl,
            rw e (refl, refl, new),
            lists,
            λ b.
                direction-append b w.table.items fr
                ∙ (ap (λ xs. xs ++ direction_rules b (core fr ∷ [])) (s b)
                    ∙ sym (
                        ap (λ xs. direction_rules b (map core xs)) new
                        ∙ direction-append b rs (restored blank fr))),
          )
      | inr (r, e) ↦
          let same : rules k'.store ≡ rs = after ∙ rw (plain, e) refl in
          let refused : add_result (restored blank fr) rs ≡ failed bf_err_already_have_rule =
            rw (plain, e) refl in
          (
            record w { link = l },
            true,
            some-bind _ _ _ _ (answer ∙ ap (λ x. some (l, x)) refused) refl,
            rw e (refl, refl, same),
            lists,
            λ b. s b ∙ sym (ap (λ xs. direction_rules b (map core xs)) same),
          )
    ]
