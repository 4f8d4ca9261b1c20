-- ===== src/MainWindow/Opening.antt =====
-- The window when it is opened.
use bf.RulesTable.{set_rules, get_dirty, is_dirty, index_of}
use bf.Base.{ℕ, ◌≡◌, refl, sym, ap, ◌∙◌, true, List, [], ◌∷◌, map, filter, All, some, not}
use bf.Rule.{FilterRule, fr_pattern}
use bf.Store.{IsStore, rules}
use bf.Kernel.{Kernel}
use bf.System.Verdicts.{direction_rules}
use bf.Stream.Laws.{restored}
use bf.Client.{Control}
use bf.Client.Rules.{fetched}
use bf.Listing.{selected}
use bf.Listing.Complete.{delivered}
use bf.Service.Core.{core, is_plain, filter-core, filter-All, filter-direction}
use bf.Service.Kept.{
  by_direction, core-restored, core-by_direction, filter-by_direction, fetched-plain,
}
use bf.Service.Fetching.{get_rules-fetched, after_listing-IsStore, core-after_listing}
use bf.Service.Restarted.{some-bind}
use bf.MainWindow.{Window, new_rule, window_opened, listing_taken, policy_changed, is_empty}
use bf.MainWindow.Asking.{InStep}
use bf.MainWindow.Edits.{Flagged}

-- The pattern of the window selects every rule.
selected-new_rule :
    (blank : FilterRule) (rs : List FilterRule) → filter (selected (new_rule blank)) rs ≡ rs
unfolding selected fr_pattern
selected-new_rule blank [] = refl
selected-new_rule blank (r ∷ rs) = ap (λ xs. r ∷ xs) (selected-new_rule blank rs)

shown-by_direction :
    (k : Kernel) (pid : ℕ) (blank : FilterRule)
    → All (λ r. is_plain r ≡ true) (rules k.store)
    → map core (filter is_plain (map (restored blank) (fetched k pid (new_rule blank))))
      ≡ by_direction (map core (rules k.store))
shown-by_direction k pid blank plain =
    let pattern = new_rule blank in
    let rs = rules k.store in
    filter-core is_plain (λ r. refl) (map (restored blank) (fetched k pid pattern))
    ∙ (ap (filter is_plain) (core-restored blank (fetched k pid pattern))
        ∙ (fetched-plain k pid pattern
            ∙ (ap (λ xs. filter is_plain (map core xs)) (selected-new_rule blank (by_direction rs))
                ∙ (sym (filter-core is_plain (λ r. refl) (by_direction rs))
                    ∙ (ap (map core) (
                          filter-by_direction is_plain rs
                          ∙ ap by_direction (filter-All is_plain rs plain))
                        ∙ core-by_direction rs)))))

get_dirty-clean : (rs : List FilterRule) → get_dirty (record { items = rs; old_items = [] }) ≡ []
unfolding get_dirty is_dirty index_of
get_dirty-clean [] = refl
get_dirty-clean (r ∷ rs) = get_dirty-clean rs

-- A window that is opened, when the whole listing of a module without policy rules arrives in time,
-- shows the rules of the module, each chain in its order, but for numbers and hardware addresses; the
-- module keeps its rules, no changes are noted, the buttons are disabled, and later edits reach the
-- window.
pub window_opened-InStep :
    (blank : FilterRule) (sent pid : ℕ) (k : Kernel) (c : Control)
    → IsStore k.store
    → All (λ r. is_plain r ≡ true) (rules k.store)
    → (w : Window) × (window_opened blank sent pid delivered true
          (record { kernel = k; control = c })
        ≡ some w)
      × InStep w.table.items w.link.kernel
      × IsStore w.link.kernel.store
      × (map core (rules w.link.kernel.store) ≡ map core (rules k.store))
      × (w.table.old_items ≡ [])
      × Flagged w
      × (w.is_connected ≡ true)
unfolding window_opened listing_taken policy_changed set_rules is_empty
window_opened-InStep blank sent pid k c v plain =
    let pattern = new_rule blank in
    let got = get_rules-fetched sent pid k c pattern v in
    let kept = core-after_listing pid k pattern in
    (
      _,
      some-bind _ _ _ _ got.1 refl,
      λ b.
          ap (direction_rules b) (shown-by_direction k pid blank plain)
          ∙ (filter-direction b (map core (rules k.store)) ∙ ap (direction_rules b) (sym kept)),
      after_listing-IsStore pid k pattern v,
      kept,
      refl,
      record {
        flag = sym (
            ap (λ xs. not (is_empty xs))
              (get_dirty-clean (filter is_plain (map (restored blank) (fetched k pid pattern)))));
        apply_button = refl;
        cancel_button = refl;
      },
      refl,
    )
