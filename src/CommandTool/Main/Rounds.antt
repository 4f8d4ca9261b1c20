-- ===== src/CommandTool/Main/Rounds.antt =====
-- The loop of the old tool over the messages of a list.
use bf.Base.{
  ℕ, ◌≡◌, refl, sym, ap, ◌∙◌, ◌⊎◌, inl, inr, Bool, true, false, List, [], ◌∷◌, ◌++◌, append-nil,
  All, map, if◌then◌else◌, ◌==◌, not, ◌&&◌, arith,
}
use mathlib.Core.List.{cons-eq-cons, append-eq-nil_iff, append-ne-nil_of_right_ne-nil, cons-ne-nil}
use mathlib.Core.Path.{ap₂}
use bf.Rule.{FilterRule}
use bf.Message.{MessageType, msg_data, msg_done, msg_ok, rule}
use bf.Cli.{zeroed_rule}
use bf.CommandTool.Main.{
  ToolMessage, Received, buffer, ToolState, ToolEnd, to_kernel, is_done, is_data, Scan, passed,
  at_message, first_error, print_data, scan, list_loop, send_failed,
}
use bf.Listing.Complete.{delivered}

-- What a message of the type MSG_DATA does where every send succeeds.
abbrev pub pass : ToolState → ToolMessage → ToolState
pass s m =
    let s' = print_data s m in
    if m.ack then record s' { sent = s'.sent ++ to_kernel msg_ok (rule zeroed_rule) ∷ [] } else s'

abbrev pub passes : ToolState → List ToolMessage → ToolState
passes s [] = s
passes s (m ∷ ms) = passes (pass s m) ms

abbrev pub IsData : ToolMessage → Type 0
IsData m = m.nlmsg_type ≡ msg_data

pub passes-append :
    (s : ToolState) (xs ys : List ToolMessage) → passes s (xs ++ ys) ≡ passes (passes s xs) ys
passes-append s [] ys = refl
passes-append s (x ∷ xs) ys = passes-append (pass s x) xs ys

scan-data :
    (e : ℕ) (s : ToolState) (ack : Bool) (fr : FilterRule) (error : ℕ) (ms : List ToolMessage)
    → let m : ToolMessage = record { nlmsg_type = msg_data; ack = ack; fr = fr; error = error } in
      scan delivered e s (m ∷ ms) ≡ scan delivered e (pass s m) ms
unfolding scan print_data is_data
scan-data e s true fr error ms = refl
scan-data e s false fr error ms = refl

scan-pass :
    (e : ℕ) (s : ToolState) (m : ToolMessage) (ms : List ToolMessage)
    → IsData m
    → scan delivered e s (m ∷ ms) ≡ scan delivered e (pass s m) ms
scan-pass e s m ms h =
    let same : m ≡ record m { nlmsg_type = msg_data } = ap (λ t. record m { nlmsg_type = t }) h in
    ap (λ x. scan delivered e s (x ∷ ms)) same
    ∙ (scan-data e s m.ack m.fr m.error ms ∙ ap (λ x. scan delivered e (pass s x) ms) (sym same))

scan-passes :
    (e : ℕ) (s : ToolState) (ms rest : List ToolMessage)
    → All IsData ms
    → scan delivered e s (ms ++ rest) ≡ scan delivered e (passes s ms) rest
scan-passes e s [] rest h = refl
scan-passes e s (m ∷ ms) rest h =
    scan-pass e s m (ms ++ rest) h.0 ∙ scan-passes e (pass s m) ms rest h.1

-- A list that is cut in two, and has an element at its end: the cut is in front of the element or
-- behind it.
append-cut {ℓ} :
    {A : Type ℓ} (xs ys zs : List A) (d : A)
    → xs ++ ys ≡ zs ++ d ∷ []
    → ((ws : List A) × (zs ≡ xs ++ ws) × (ys ≡ ws ++ d ∷ [])) ⊎ ((xs ≡ zs ++ d ∷ []) × (ys ≡ []))
append-cut [] ys zs d h = inl (zs, refl, h)
append-cut (x ∷ xs) ys [] d h =
    let empty = append-eq-nil_iff.0 (cons-eq-cons.0 h).1 in
    inr (ap₂ (◌∷◌) (cons-eq-cons.0 h).0 empty.0, empty.1)
append-cut (x ∷ xs) ys (z ∷ zs) d h =
    let e = cons-eq-cons.0 h in
    elim (append-cut xs ys zs d e.1) [
      | inl w ↦ inl (w.0, ap₂ (◌∷◌) (sym e.0) w.1, w.2)
      | inr w ↦ inr (ap₂ (◌∷◌) e.0 w.0, w.1)
    ]

-- The buffers of nl_recv: their messages, and the type behind the last.
abbrev pub Buffers : Type 0
Buffers = List (List ToolMessage × MessageType)

abbrev pub all_messages : Buffers → List ToolMessage
all_messages [] = []
all_messages (b ∷ bs) = b.0 ++ all_messages bs

abbrev pub buffers : Buffers → List Received
buffers = map (λ b. buffer b.0 b.1)

-- No buffer shows the type MSG_DONE behind its last message.
abbrev pub IsClean : Buffers → Type 0
IsClean = All (λ b. is_done b.1 ≡ false)

pass-nlerrr : (s : ToolState) (m : ToolMessage) → (pass s m).nlerrr ≡ s.nlerrr
unfolding print_data
pass-nlerrr s m = ground arith

passes-nlerrr : (s : ToolState) (ms : List ToolMessage) → (passes s ms).nlerrr ≡ s.nlerrr
passes-nlerrr s [] = refl
passes-nlerrr s (m ∷ ms) = passes-nlerrr (pass s m) ms ∙ pass-nlerrr s m

All-prefix {ℓ κ} :
    {A : Type ℓ} (P : A → Type κ) (xs ys : List A) → All P (xs ++ ys) → All P xs × All P ys
All-prefix P [] ys h = (tt, h)
All-prefix P (x ∷ xs) ys h = let k = All-prefix P xs ys h.1 in ((h.0, k.0), k.1)

module _ (f : ToolState → ToolEnd) (s s' : ToolState) (b : List ToolMessage × MessageType)
    (bs : Buffers) (z : s'.nlerrr ≡ 0) where
  -- What the `do` loop does behind a buffer.
  abbrev after : Scan → ToolEnd
  after (send_failed x) = ToolEnd.exit_failure x
  after (at_message t x) =
      if x.nlerrr == 0 && not (is_done t) then list_loop delivered f x (buffers bs) else f x
  after (passed x) =
      if x.nlerrr == 0 && not (is_done b.1) then list_loop delivered f x (buffers bs) else f x

  list_loop-after :
      list_loop delivered f s (buffers (b ∷ bs)) ≡ after (scan delivered (first_error b.0) s b.0)
  unfolding list_loop
  list_loop-after = refl

  list_loop-passed :
      scan delivered (first_error b.0) s b.0 ≡ passed s'
      → is_done b.1 ≡ false
      → list_loop delivered f s (buffers (b ∷ bs)) ≡ list_loop delivered f s' (buffers bs)
  list_loop-passed h c = list_loop-after ∙ (ap after h ∙ rw (z, c))

  list_loop-done :
      scan delivered (first_error b.0) s b.0 ≡ at_message msg_done s'
      → list_loop delivered f s (buffers (b ∷ bs)) ≡ f s'
  unfolding is_done
  list_loop-done h = list_loop-after ∙ (ap after h ∙ rw z)

scan-behind :
    (e : ℕ) (s : ToolState) (ms : List ToolMessage)
    → All IsData ms
    → scan delivered e s ms ≡ passed (passes s ms)
unfolding scan
scan-behind e s ms h = ap (scan delivered e s) (sym (append-nil ms)) ∙ scan-passes e s ms [] h

scan-done :
    (e : ℕ) (s : ToolState) (ms : List ToolMessage) (last : ToolMessage)
    → All IsData ms
    → last.nlmsg_type ≡ msg_done
    → scan delivered e s (ms ++ last ∷ []) ≡ at_message msg_done (passes s ms)
unfolding scan
scan-done e s ms last h l = scan-passes e s ms (last ∷ []) h ∙ rw l

-- However the messages of a list are cut into buffers, the loop ends at the MSG_DONE.
pub list_loop-passes :
    (f : ToolState → ToolEnd) (s : ToolState) (bs : Buffers) (ms : List ToolMessage)
    (last : ToolMessage)
    → s.nlerrr ≡ 0
    → All IsData ms
    → last.nlmsg_type ≡ msg_done
    → IsClean bs
    → all_messages bs ≡ ms ++ last ∷ []
    → list_loop delivered f s (buffers bs) ≡ f (passes s ms)
list_loop-passes f s [] ms last z h l c e =
    absurd (append-ne-nil_of_right_ne-nil ms (cons-ne-nil last []) (sym e))
list_loop-passes f s (b ∷ bs) ms last z h l c e =
    let first = first_error b.0 in
    elim (append-cut b.0 (all_messages bs) ms last e) [
      | inl w ↦
          let parts = All-prefix IsData b.0 w.0 (rw (sym w.1) h) in
          let s' = passes s b.0 in
          let z' : s'.nlerrr ≡ 0 = passes-nlerrr s b.0 ∙ z in
          list_loop-passed f s s' b bs z' (scan-behind first s b.0 parts.0) c.0
          ∙ (list_loop-passes f s' bs w.0 last z' parts.1 l c.1 w.2
              ∙ (ap f (sym (passes-append s b.0 w.0)) ∙ ap (λ xs. f (passes s xs)) (sym w.1)))
      | inr w ↦
          list_loop-done f s (passes s ms) b bs (passes-nlerrr s ms ∙ z)
            (ap (scan delivered first s) w.0 ∙ scan-done first s ms last h l)
    ]
