-- ===== src/SignalCatcher/Counting.antt =====
-- Every signal that arrives is emitted once.
use mathlib.Core.Path.{ap₂, subst}
use bf.Base.{
  ℕ, zero, suc, ◌+◌, ◌-◌, ◌≡◌, refl, sym, ap, ◌∙◌, Bool, true, false, not, List, [], ◌∷◌, replicate,
  some, if◌then◌else◌, ◌==◌, arith, ◌||◌, Bool-cases, inl, inr, if_cases,
}
use bf.SignalCatcher.{
  UnixSignal, sigint, sigusr2, sigterm, sighup, same, Catcher, install_signal_handlers, new_catcher,
  signal_handler, on_signal, handle_sig, Happening, arrives, notified, happen, happen_all,
}

some_inj : {A : Type 0} {x y : A} → some x ≡ some y → x ≡ y
some_inj e = cc

-- How often a signal arrives.
abbrev pub arrivals : UnixSignal → List Happening → ℕ
arrivals s [] = 0
arrivals s (arrives t ∷ hs) = if same t s then suc (arrivals s hs) else arrivals s hs
arrivals s (notified t ∷ hs) = arrivals s hs

-- With all handlers: the process lives, and its exit was called exactly if SIGTERM was emitted.
record Running (c : Catcher) : Type 0 where
  handlers : (s : UnixSignal) → c.installed s ≡ true
  alive : c.killed ≡ false
  left : c.exited ≡ not (c.emitted sigterm == 0)

-- What happens adds up, and keeps the process running.
record Counted (hs : List Happening) (c d : Catcher) : Type 0 where
  running : Running d
  counted : (s : UnixSignal) → d.emitted s + d.pending s ≡ c.emitted s + c.pending s + arrivals s hs

-- A byte more in the socket pair of a signal.
abbrev written : UnixSignal → Catcher → Catcher
written s c = record c { pending = λ t. if same s t then suc (c.pending t) else c.pending t }

happen-arrives : (s : UnixSignal) (c : Catcher) → Running c → happen (arrives s) c ≡ written s c
unfolding happen signal_handler
happen-arrives s c v =
    ap₂
      (λ (killed installed : Bool).
        let d : Catcher = if installed then written s c else record c { killed = true } in
        if killed then c else d)
      v.alive (v.handlers s)

arrives-Counted :
    (s : UnixSignal) (c : Catcher) → Running c → Counted (arrives s ∷ []) c (happen (arrives s) c)
arrives-Counted s c v = subst (Counted (arrives s ∷ []) c) (sym (happen-arrives s c v)) (record {
  running = record { handlers = v.handlers; alive = v.alive; left = v.left };
  counted = λ t. ground arith;
})

handle_sig-left :
    (s : UnixSignal) (c : Catcher)
    → c.exited ≡ not (c.emitted sigterm == 0)
    → let d = handle_sig s c in d.exited ≡ not (d.emitted sigterm == 0)
unfolding handle_sig on_signal
handle_sig-left sigint c h = h
handle_sig-left sigusr2 c h = h
handle_sig-left sigterm c h = ground arith
handle_sig-left sighup c h = h

handle_sig-installed :
    (s : UnixSignal) (c : Catcher) (t : UnixSignal) → (handle_sig s c).installed t ≡ c.installed t
unfolding handle_sig on_signal
handle_sig-installed sigint c t = refl
handle_sig-installed sigusr2 c t = refl
handle_sig-installed sigterm c t = refl
handle_sig-installed sighup c t = refl

handle_sig-killed : (s : UnixSignal) (c : Catcher) → (handle_sig s c).killed ≡ c.killed
unfolding handle_sig on_signal
handle_sig-killed sigint c = refl
handle_sig-killed sigusr2 c = refl
handle_sig-killed sigterm c = refl
handle_sig-killed sighup c = refl

same_refl : (s : UnixSignal) → same s s ≡ true
same_refl sigint = refl
same_refl sigusr2 = refl
same_refl sigterm = refl
same_refl sighup = refl

same-eq : (s t : UnixSignal) → same s t ≡ true → s ≡ t
same-eq s t h = ground (arith, h)

-- The numbers after a turn.
handle_sig-pending :
    (s : UnixSignal) (c : Catcher) (t : UnixSignal)
    → (handle_sig s c).pending t ≡ (if same s t then c.pending t - 1 else c.pending t)
unfolding handle_sig on_signal
handle_sig-pending sigint c t = refl
handle_sig-pending sigusr2 c t = refl
handle_sig-pending sigterm c t = refl
handle_sig-pending sighup c t = refl

handle_sig-emitted :
    (s : UnixSignal) (c : Catcher) (t : UnixSignal)
    → (handle_sig s c).emitted t ≡ (if same s t then suc (c.emitted t) else c.emitted t)
unfolding handle_sig on_signal
handle_sig-emitted sigint c t = refl
handle_sig-emitted sigusr2 c t = refl
handle_sig-emitted sigterm c t = refl
handle_sig-emitted sighup c t = refl

handle_sig-counts :
    (s : UnixSignal) (c : Catcher) (t : UnixSignal)
    → (c.pending s == 0) ≡ false
    → let d = handle_sig s c in d.emitted t + d.pending t ≡ c.emitted t + c.pending t + 0
handle_sig-counts s c t p = elim (Bool-cases (same s t)) [
  | inl h ↦
      let here : (c.pending t == 0) ≡ false =
        ap (λ u. c.pending u == 0) (sym (same-eq s t h)) ∙ p in
      rw (handle_sig-emitted s c t, handle_sig-pending s c t, h) (ground (arith, here))
  | inr h ↦ rw (handle_sig-emitted s c t, handle_sig-pending s c t, h) (omega arith)
]

handle_sig-Counted :
    (s : UnixSignal) (c : Catcher)
    → Running c
    → (c.pending s == 0) ≡ false
    → Counted (notified s ∷ []) c (handle_sig s c)
handle_sig-Counted s c v p = record {
  running = record {
    handlers = λ t. handle_sig-installed s c t ∙ v.handlers t;
    alive = handle_sig-killed s c ∙ v.alive;
    left = handle_sig-left s c v.left;
  };
  counted = λ t. handle_sig-counts s c t p;
}

-- Whether the loop takes the turn.
abbrev is_idle : UnixSignal → Catcher → Bool
is_idle s c = c.pending s == 0

happen-notified :
    (s : UnixSignal) (c : Catcher)
    → c.killed ≡ false
    → happen (notified s) c ≡ (if is_idle s c then c else handle_sig s c)
unfolding happen
happen-notified s c alive =
    ap (λ (killed : Bool). if killed || is_idle s c then c else handle_sig s c) alive

same-Counted : (s : UnixSignal) (c : Catcher) → Running c → Counted (notified s ∷ []) c c
same-Counted s c v = record { running = v; counted = λ t. omega arith }

notified-Counted :
    (s : UnixSignal) (c : Catcher) → Running c → Counted (notified s ∷ []) c (happen (notified s) c)
notified-Counted s c v = subst (Counted (notified s ∷ []) c) (sym (happen-notified s c v.alive)) (
    if_cases (Counted (notified s ∷ []) c) (is_idle s c) (λ _. same-Counted s c v)
      (λ off. handle_sig-Counted s c v off))

happen_all-Counted :
    (hs : List Happening) (c : Catcher) → Running c → Counted hs c (happen_all hs c)
unfolding happen_all
happen_all-Counted [] c v = record { running = v; counted = λ t. omega arith }
happen_all-Counted (arrives s ∷ hs) c v =
    let one = arrives-Counted s c v in
    let rest = happen_all-Counted hs (happen (arrives s) c) one.running in
    record { running = rest.running; counted = λ t. ground (arith, rest.counted t, one.counted t) }
happen_all-Counted (notified s ∷ hs) c v =
    let one = notified-Counted s c v in
    let rest = happen_all-Counted hs (happen (notified s) c) one.running in
    record { running = rest.running; counted = λ t. ground (arith, rest.counted t, one.counted t) }

-- When every socket pair is made and every handler installed, then whatever arrives and whichever turns
-- the event loop takes, each signal was emitted and is waiting as often as it has arrived, the process
-- was not killed, and its exit was called exactly if SIGTERM was emitted.
pub happen_all-counted :
    (c : Catcher) (hs : List Happening) (s : UnixSignal)
    → new_catcher (λ _. true) (λ _. true) ≡ some c
    → let d = happen_all hs c in
      (d.emitted s + d.pending s ≡ arrivals s hs)
      × (d.killed ≡ false)
      × (d.exited ≡ not (d.emitted sigterm == 0))
unfolding new_catcher install_signal_handlers
happen_all-counted c hs s e =
    let fresh : Catcher = record {
      pending = λ t. 0;
      installed = λ t. true;
      emitted = λ t. 0;
      exited = false;
      killed = false;
    } in
    let started : fresh ≡ c = some_inj e in
    let start : Running fresh = record { handlers = λ t. refl; alive = refl; left = refl } in
    let none_yet : (t : UnixSignal) → c.emitted t + c.pending t ≡ 0 =
      λ t. ap (λ (x : Catcher). x.emitted t + x.pending t) (sym started) in
    let end = happen_all-Counted hs c (subst Running started start) in
    (omega (arith, end.counted s, none_yet s), end.running.alive, end.running.left)

-- Once the loop has as many turns for a signal as bytes are waiting, none is left, and each was emitted.
pub happen_all-drained :
    (n : ℕ) (c : Catcher) (s : UnixSignal)
    → c.killed ≡ false
    → c.pending s ≡ n
    → let d = happen_all (replicate n (notified s)) c in
      (d.pending s ≡ 0) × (d.emitted s ≡ c.emitted s + n)
unfolding happen_all
happen_all-drained zero c s k p = (p, omega arith)
happen_all-drained (suc n) c s k p =
    let c1 = handle_sig s c in
    let busy : is_idle s c ≡ false = ground (arith, p) in
    let turn : happen (notified s) c ≡ c1 = happen-notified s c k ∙ rw busy refl in
    let left : c1.pending s ≡ n = handle_sig-pending s c s ∙ rw (same_refl s) (omega (arith, p)) in
    let more : c1.emitted s ≡ suc (c.emitted s) =
      handle_sig-emitted s c s ∙ rw (same_refl s) refl in
    let rest = happen_all-drained n c1 s (handle_sig-killed s c ∙ k) left in
    subst
      (λ (d : Catcher).
        ((happen_all (replicate n (notified s)) d).pending s ≡ 0)
        × ((happen_all (replicate n (notified s)) d).emitted s ≡ c.emitted s + suc n))
      (sym turn) (rest.0, omega (arith, rest.1, more))
