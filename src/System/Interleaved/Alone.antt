-- ===== src/System/Interleaved/Alone.antt =====
-- Turns of a listing thread with no event in between.
use bf.Base.{
  ℕ, zero, suc, ◌≡◌, refl, sym, ap, ◌∙◌, Bool, true, false, List, [], ◌∷◌, length, replicate,
  if_cases, if◌then◌else◌, Bool-cases, inl, inr, arith,
}
use bf.Rule.{FilterRule}
use bf.Message.{Sent}
use bf.Listing.{Listing, send, when_going, selected, list_node, list_chain}
use bf.System.Interleaved.{
  numbered_node, Position, at_node, behind_node, finished, World, send_then, number_node, visit,
  turn_at, thread_turn, take_turn, interleave,
}

-- A number of turns of the thread.
abbrev pub alone : (ℕ → Bool) → ℕ → World → World
alone send_ok n w = interleave send_ok w (replicate n thread_turn)

alone-turn :
    (send_ok : ℕ → Bool) (n : ℕ) (w : World)
    → alone send_ok (suc n) w ≡ alone send_ok n (turn_at send_ok w w.lister.position)
unfolding interleave take_turn
alone-turn send_ok n w = refl

alone-finished :
    (send_ok : ℕ → Bool) (n : ℕ) (w : World) → w.lister.position ≡ finished → alone send_ok n w ≡ w
unfolding interleave turn_at
alone-finished send_ok zero w h = refl
alone-finished send_ok (suc n) w h =
    alone-turn send_ok n w
    ∙ (ap (λ p. alone send_ok n (turn_at send_ok w p)) h ∙ alone-finished send_ok n w h)

-- The world of a listing that runs at once.
module _ (w0 : World) where
  abbrev pub world_of : Listing → Position → World
  world_of l p = record {
    kernel = record w0.kernel { store = record w0.kernel.store { heap = l.heap } };
    lister = record {
      position = if l.go_on then p else finished;
      destpid = w0.lister.destpid;
      pattern = w0.lister.pattern;
      count = l.count;
      sent = l.sent;
      waits = l.waits;
    };
    unlinked = w0.unlinked;
  }

  module _ (send_ok : ℕ → Bool) where
    turn-send :
        (m : Sent) (p q : Position) (l : Listing)
        → l.go_on ≡ true
        → send_then send_ok m p (world_of l q) ≡ world_of (send send_ok m l) p
    unfolding send_then
    turn-send m p q l h = elim (Bool-cases (send_ok (length l.sent))) [
      | inl e ↦ rw (e, h)
      | inr e ↦ rw e
    ]

    pub visit-node :
        (b : Bool) (a : ℕ) (l : Listing)
        → l.go_on ≡ true
        → visit send_ok b a (world_of l (at_node b a))
          ≡ world_of
              (if selected w0.lister.pattern (l.heap a)
                then list_node send_ok w0.lister.destpid a l
                else l)
              (behind_node b a)
    unfolding visit number_node numbered_node send_then list_node
    visit-node b a l h = elim (Bool-cases (selected w0.lister.pattern (l.heap a))) [
      | inr skip ↦ rw (skip, h)
      | inl take ↦ elim (Bool-cases (send_ok (length l.sent))) [
        | inl ok ↦ rw (take, ok, h)
        | inr fails ↦ rw (take, fails)
      ]
    ]

    -- A listing that goes on takes its next turn, and one that has stopped none.
    pub going-turn :
        (n : ℕ) (l : Listing) (p : Position)
        → l.go_on ≡ true
        → alone send_ok (suc n) (world_of l p) ≡ alone send_ok n (turn_at send_ok (world_of l p) p)
    going-turn n l p h =
        let at_p : (world_of l p).lister.position ≡ p = rw h refl in
        alone-turn send_ok n (world_of l p)
        ∙ ap (λ q. alone send_ok n (turn_at send_ok (world_of l p) q)) at_p

    pub stopped :
        (m n : ℕ) (l : Listing) (p q : Position)
        → l.go_on ≡ false
        → alone send_ok m (world_of l p) ≡ alone send_ok n (world_of l q)
    stopped m n l p q h =
        let same : world_of l p ≡ world_of l q = rw h refl in
        alone-finished send_ok m (world_of l p) (rw h refl)
        ∙ (same ∙ sym (alone-finished send_ok n (world_of l q) (rw h refl)))

    pub list_chain-stopped :
        (destpid : ℕ) (pattern : FilterRule) (rest : List ℕ) (l : Listing)
        → l.go_on ≡ false
        → list_chain send_ok destpid pattern rest l ≡ l
    unfolding list_chain
    list_chain-stopped destpid pattern [] l h = refl
    list_chain-stopped destpid pattern (a ∷ rest) l h =
        let node : Listing =
          if selected pattern (l.heap a) then list_node send_ok destpid a l else l in
        let body : (if l.go_on then node else l) ≡ l =
          if_cases (λ (x : Listing). x ≡ l) l.go_on (λ e. absurd (ground arith)) (λ e. refl) in
        ap (list_chain send_ok destpid pattern rest) body
        ∙ list_chain-stopped destpid pattern rest l h

    -- A step that a stopped listing skips.
    pub on_or_off :
        (m n : ℕ) (l l' : Listing) (p q : Position)
        → (l.go_on ≡ true → alone send_ok m (world_of l p) ≡ alone send_ok n (world_of l' q))
        → (l.go_on ≡ false → l' ≡ l)
        → alone send_ok m (world_of l p) ≡ alone send_ok n (world_of l' q)
    on_or_off m n l l' p q f g = elim (Bool-cases l.go_on) [
      | inl on ↦ f on
      | inr off ↦ stopped m n l p q off ∙ ap (λ x. alone send_ok n (world_of x q)) (sym (g off))
    ]

    -- A turn that sends a message.
    pub alone-send :
        (n : ℕ) (m : Sent) (l : Listing) (p q : Position)
        → turn_at send_ok (world_of l p) p ≡ send_then send_ok m q (world_of l p)
        → alone send_ok (suc n) (world_of l p)
          ≡ alone send_ok n (world_of (when_going (send send_ok m) l) q)
    alone-send n m l p q e =
        on_or_off (suc n) n l (when_going (send send_ok m) l) p q
          (λ on.
            let sends : when_going (send send_ok m) l ≡ send send_ok m l =
              if_cases (λ (x : Listing). x ≡ send send_ok m l) l.go_on (λ _. refl)
                (λ off. absurd (ground arith)) in
            going-turn n l p on
            ∙ (ap (alone send_ok n) (e ∙ turn-send m q p l on)
                ∙ ap (λ x. alone send_ok n (world_of x q)) (sym sends)))
          (λ off.
            if_cases (λ (x : Listing). x ≡ l) l.go_on (λ on. absurd (ground arith)) (λ _. refl))
