-- ===== src/Frames/Slot.antt =====
-- One call of the slot that reads a socket.
use mathlib.Core.List.{◌++◌}
use mathlib.Core.Path.{subst}
use bf.Base.{
  ℕ, zero, suc, ◌<◌, ◌≤◌, ◌≡◌, refl, sym, ap, ◌∙◌, inl, inr, true, false, ltb, List, [], ◌∷◌,
  length, length-append, take, drop, All, Option, some, if◌then◌else◌, arith,
}
use bf.Frames.{Reader, positive, read_int, read_size, on_ready_read}
use bf.Frames.Sizes.{
  IsFrame, encode, handle_all, Between, Within, Pending, taken, length-drop, short_encode, ltb_lt,
  ltb_ge, ltb_cases, and_false, positive_size, read_size-within, read_size_short, size_of,
  read_size-frame,
}

-- What a call of the slot has achieved.
pub record Progress (S : Type 0) (handle : S → List ℕ → S) (later : List ℕ) (fs : List (List ℕ))
    (s : S) (result : Option (Reader × S)) : Type 0 where
  pub reader : Reader
  pub state : S
  pub left : List (List ℕ)
  pub ends : result ≡ some (reader, state)
  pub pending : Pending reader later left
  pub starved : later ≡ [] → left ≡ []
  pub frames : All IsFrame left
  pub same : handle_all handle state left ≡ handle_all handle s fs

module _ {S : Type 0} (handle : S → List ℕ → S) where
  stops-between :
      (fuel : ℕ) (r : Reader) (s : S)
      → read_size r ≡ r
      → positive r.wanted ≡ false
      → on_ready_read handle (suc fuel) r s ≡ some (r, s)
  unfolding on_ready_read
  stops-between fuel r s e h = rw (e, h)

  stops-within :
      (fuel : ℕ) (r r1 : Reader) (s : S)
      → read_size r ≡ r1
      → length r1.available < r1.wanted
      → on_ready_read handle (suc fuel) r s ≡ some (r1, s)
  unfolding on_ready_read
  stops-within fuel r r1 s e h = rw (e, ltb_lt _ _ h, and_false (positive r1.wanted))

  delivers :
      (fuel : ℕ) (r r1 : Reader) (s : S)
      → read_size r ≡ r1
      → positive r1.wanted ≡ true
      → r1.wanted ≤ length r1.available
      → let r2 : Reader = record { wanted = 0; available = drop r1.wanted r1.available } in
        let s' = handle s (take r1.wanted r1.available) in
        on_ready_read handle (suc fuel) r s
        ≡ (if ltb 0 (length r2.available) then on_ready_read handle fuel r2 s' else some (r2, s'))
  unfolding on_ready_read
  delivers fuel r r1 s e h le = rw (e, h, ltb_ge _ _ le)

  -- A message that has arrived as a whole.
  delivers-frame :
      (fuel : ℕ) (r r1 : Reader) (f : List ℕ) (fs : List (List ℕ)) (later : List ℕ) (s : S)
      → read_size r ≡ r1
      → Within r1 later f fs
      → IsFrame f
      → length f ≤ length r1.available
      → let rest = drop (length f) r1.available in
        let r2 : Reader = record { wanted = 0; available = rest } in
        on_ready_read handle (suc fuel) r s ≡ (
          if ltb 0 (length rest)
          then on_ready_read handle fuel r2 (handle s f)
          else some (r2, handle s f))
  delivers-frame fuel r r1 f fs later s e within frame le =
      let got = taken f r1.available later (encode fs) within.1 le in
      delivers fuel r r1 s e (positive_size r1.wanted f within.0 frame) (omega (arith, within.0))
      ∙ rw (within.0, got.0)

  -- A message that has arrived as a whole is handled, and then those behind it.
  deliver :
      (fuel : ℕ) (r r1 : Reader) (f : List ℕ) (fs : List (List ℕ)) (later : List ℕ) (s : S)
      → read_size r ≡ r1
      → Within r1 later f fs
      → IsFrame f
      → All IsFrame fs
      → length r1.available ≤ fuel
      → ((s' : S) (avail : List ℕ)
          → let r2 : Reader = record { wanted = 0; available = avail } in
            Between r2 later fs
            → length avail < fuel
            → Progress S handle later fs s' (on_ready_read handle fuel r2 s'))
      → Progress S handle later (f ∷ fs) s (on_ready_read handle (suc fuel) r s)
  deliver fuel r r1 f fs later s e within frame frames enough next =
      elim (ltb_cases (length r1.available) r1.wanted) [
        | inl short ↦ record {
          reader = r1;
          state = s;
          left = f ∷ fs;
          ends = stops-within fuel r r1 s e short;
          pending = inr (f, fs, refl, within);
          starved = λ nil. absurd (
              omega (
                arith,
                length-append r1.available later,
                length-append f (encode fs),
                ap length within.1,
                ap length nil,
              ));
          frames = (frame, frames);
          same = refl;
        }
        | inr whole ↦
            let le : length f ≤ length r1.available = omega (arith, within.0) in
            let rest = drop (length f) r1.available in
            let r2 : Reader = record { wanted = 0; available = rest } in
            let got = taken f r1.available later (encode fs) within.1 le in
            let step = delivers-frame fuel r r1 f fs later s e within frame le in
            elim (ltb_cases 0 (length rest)) [
              | inl more ↦
                  let p =
                    next (handle s f) rest (refl, got.1)
                      (omega (arith, length-drop (length f) r1.available frame.0 le)) in
                  record {
                    reader = p.reader;
                    state = p.state;
                    left = p.left;
                    ends = step ∙ (rw (ltb_lt _ _ more) p.ends);
                    pending = p.pending;
                    starved = p.starved;
                    frames = p.frames;
                    same = p.same;
                  }
              | inr no_more ↦ record {
                reader = r2;
                state = handle s f;
                left = fs;
                ends = step ∙ rw (ltb_ge _ _ no_more);
                pending = inl (refl, got.1);
                starved = λ nil.
                    short_encode rest fs (omega arith) (ap (λ xs. rest ++ xs) (sym nil) ∙ got.1);
                frames = frames;
                same = refl;
              }
            ]
      ]

  -- Fewer than four bytes between two messages are left where they are.
  advance_short :
      (fuel : ℕ) (r : Reader) (fs : List (List ℕ)) (later : List ℕ) (s : S)
      → Between r later fs
      → All IsFrame fs
      → length r.available < 4
      → Progress S handle later fs s (on_ready_read handle (suc fuel) r s)
  advance_short fuel r fs later s between frames short = record {
    reader = r;
    state = s;
    left = fs;
    ends = stops-between fuel r s (read_size_short r between.0 short) between.0;
    pending = inl between;
    starved = λ nil.
        short_encode r.available fs short (ap (λ xs. r.available ++ xs) (sym nil) ∙ between.1);
    frames = frames;
    same = refl;
  }

  advance-Between :
      (fuel : ℕ) (r : Reader) (fs : List (List ℕ)) (later : List ℕ) (s : S)
      → Between r later fs
      → All IsFrame fs
      → length r.available < fuel
      → Progress S handle later fs s (on_ready_read handle fuel r s)
  advance-Between zero r fs later s between frames h = absurd (omega arith)
  advance-Between (suc fuel) r [] later s between frames h =
      advance_short fuel r [] later s between frames
        (omega (arith, length-append r.available later, ap length between.1))
  advance-Between (suc fuel) r (f ∷ fs) later s between frames h =
      elim (ltb_cases (length r.available) 4) [
        | inl short ↦ advance_short fuel r (f ∷ fs) later s between frames short
        | inr long ↦
            let size = size_of r.wanted f fs later r.available long frames.0.1 between.1 in
            deliver fuel r (read_int r.wanted r.available) f fs later s
              (read_size-frame r between.0) size.0 frames.0 frames.1 (omega (arith, size.1))
              (λ s' avail b lt.
                advance-Between fuel (record { wanted = 0; available = avail }) fs later s' b
                  frames.1 lt)
      ]

  pub advance :
      (r : Reader) (fs : List (List ℕ)) (later : List ℕ) (s : S)
      → Pending r later fs
      → All IsFrame fs
      → Progress S handle later fs s (on_ready_read handle (suc (length r.available)) r s)
  advance r fs later s (inl between) frames =
      advance-Between (suc (length r.available)) r fs later s between frames (omega arith)
  advance r fs later s (inr (f, gs, e, within)) frames =
      let frames' : All IsFrame (f ∷ gs) = subst (All IsFrame) e frames in
      subst
        (λ xs. Progress S handle later xs s (on_ready_read handle (suc (length r.available)) r s))
        (sym e)
        (deliver (length r.available) r r f gs later s
          (read_size-within r (positive_size r.wanted f within.0 frames'.0)) within frames'.0
          frames'.1 (omega arith)
          (λ s' avail b lt.
            advance-Between (length r.available) (record { wanted = 0; available = avail }) gs later
              s' b frames'.1 lt))
