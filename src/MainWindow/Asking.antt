-- ===== src/MainWindow/Asking.antt =====
-- Commands of the window for a list of rules, and what they leave in the kernel module.
use bf.Base.{
  ℕ, ◌≡◌, refl, ap, ◌∙◌, Bool, true, false, List, [], ◌∷◌, map, some, if◌then◌else◌, arith,
}
use bf.Rule.{FilterRule}
use bf.Store.{IsStore, rules}
use bf.Store.Refines.{has_base}
use bf.Kernel.{Kernel}
use bf.Netlink.{nl_rcv_msg, updated}
use bf.Netlink.Invariant.{nl_rcv_msg-IsStore}
use bf.Netlink.Rules.{request_spec, nl_rcv_msg-rules}
use bf.Message.{MessageType, msg_update_rule}
use bf.System.Verdicts.{direction_rules}
use bf.Stream.Laws.{restored}
use bf.Client.{Control, Result}
use bf.Client.Commands.{answered, client_request, command-nl_rcv_msg}
use bf.Link.Adding.{call-answered}
use bf.Service.Core.{core}
use bf.Service.Restarted.{some-bind}
use bf.MainWindow.{ask, ask_all}
use bf.MainWindow.Updates.{updates, map-updates}

-- The rules of a list of requests of one type.
abbrev pub request_specs :
    FilterRule → MessageType → List FilterRule → List FilterRule → List FilterRule
request_specs blank t [] rs = rs
request_specs blank t (d ∷ ds) rs = request_specs blank t ds (request_spec t (restored blank d) rs)

module _ (blank : FilterRule) (sent pid : ℕ) where
  -- The commands of a type that the client hears an answer to.
  abbrev pub Answers : MessageType → Type 0
  Answers t =
      (k : Kernel) (c : Control) (fr : FilterRule)
      → IsStore k.store
      → (ret : Result) × (answered k c sent pid t fr ≡ some (c, ret))

  -- What a list of commands leaves.
  pub record Asked (t : MessageType) (ds : List FilterRule) (k : Kernel) (c : Control)
      : Type 0 where
    pub kernel : Kernel
    pub returns :
        ask_all blank sent pid t ds (record { kernel = k; control = c })
        ≡ some (record { kernel = kernel; control = c })
    pub lists : IsStore kernel.store
    pub has_rules : rules kernel.store ≡ request_specs blank t ds (rules k.store)

  pub ask_all-Asked :
      (t : MessageType) (ds : List FilterRule) (k : Kernel) (c : Control)
      → Answers t
      → IsStore k.store
      → Asked t ds k c
  unfolding ask_all ask
  ask_all-Asked t [] k c a v = record { kernel = k; returns = refl; lists = v; has_rules = refl }
  ask_all-Asked t (d ∷ ds) k c a v =
      let fr = restored blank d in
      let req = client_request pid t fr in
      let k1 = (nl_rcv_msg k req).kernel in
      let (ret, e) = a k c fr v in
      let rest = ask_all-Asked t ds k1 c a (nl_rcv_msg-IsStore k req v) in
      record {
        kernel = rest.kernel;
        returns = some-bind _ _ _ _ (call-answered sent pid k c t fr ret e) rest.returns;
        lists = rest.lists;
        has_rules = rest.has_rules ∙ ap (request_specs blank t ds) (nl_rcv_msg-rules k req v);
      }

  pub update-Answers : Answers msg_update_rule
  update-Answers k c fr v = (_, (command-nl_rcv_msg k c sent pid fr v).1)

map_id : (rs : List FilterRule) → rs ≡ map (updates []) rs
map_id [] = refl
map_id (r ∷ rs) = ap (λ xs. r ∷ xs) (map_id rs)

pub update-request_specs :
    (blank : FilterRule) (ds rs : List FilterRule)
    → request_specs blank msg_update_rule ds rs ≡ map (updates ds) rs
unfolding updated
update-request_specs blank [] rs = map_id rs
update-request_specs blank (d ∷ ds) rs =
    update-request_specs blank ds (request_spec msg_update_rule d rs) ∙ map-updates d ds rs

base-if : (b : Bool) (d r : FilterRule) → (if b then updated d r else r).base ≡ r.base
unfolding updated
base-if true d r = refl
base-if false d r = refl

base-updates : (ds : List FilterRule) (r : FilterRule) → (updates ds r).base ≡ r.base
base-updates [] r = refl
base-updates (d ∷ ds) r =
    base-updates ds (if has_base d.base r then updated d r else r) ∙ base-if (has_base d.base r) d r

pub direction-updates :
    (b : Bool) (ds rs : List FilterRule)
    → direction_rules b (map (updates ds) rs) ≡ map (updates ds) (direction_rules b rs)
direction-updates b ds [] = refl
direction-updates b ds (r ∷ rs) = ground (arith, base-updates ds r, direction-updates b ds rs)

-- The table shows the rules of the module, each chain in its order, but for their numbers and hardware
-- addresses.
abbrev pub InStep : List FilterRule → Kernel → Type 0
InStep items k =
    (b : Bool) → direction_rules b (map core items) ≡ direction_rules b (map core (rules k.store))
