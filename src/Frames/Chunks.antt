-- ===== src/Frames/Chunks.antt =====
-- Messages are read as they were written, however the bytes are split on their way.
use mathlib.Core.List.{◌++◌}
use bf.Base.{
  ℕ, ◌≡◌, refl, sym, ap, ◌∙◌, inl, inr, false, List, [], ◌∷◌, append_assoc, All, Option, none, some,
}
use bf.Frames.{Reader, positive, on_chunk, on_chunks}
use bf.Frames.Sizes.{IsFrame, encode, handle_all, concat, Pending, encode_nil}
use bf.Frames.Slot.{Progress, advance}

module _ {S : Type 0} (handle : S → List ℕ → S) where
  -- More bytes bring the reader closer to what is still to come.
  arrive :
      (r : Reader) (fs : List (List ℕ)) (c later : List ℕ)
      → Pending r (c ++ later) fs
      → Pending (record r { available = r.available ++ c }) later fs
  arrive r fs c later (inl (h, e)) = inl (h, append_assoc r.available c later ∙ e)
  arrive r fs c later (inr (f, gs, g, (h, e))) =
      inr (f, gs, g, (h, append_assoc r.available c later ∙ e))

  on_chunks-step :
      (r r' : Reader) (s s' : S) (c : List ℕ) (cs : List (List ℕ))
      → on_chunk handle r s c ≡ some (r', s')
      → on_chunks handle r s (c ∷ cs) ≡ on_chunks handle r' s' cs
  unfolding on_chunks
  on_chunks-step r r' s s' c cs e =
      ap
        (λ (o : Option (Reader × S)).
          let result : Option (Reader × S) = elim o [
            | none ↦ none
            | some (x, y) ↦ on_chunks handle x y cs
          ] in
          result)
        e

  on_chunk-Progress :
      (r : Reader) (fs : List (List ℕ)) (s : S) (c later : List ℕ)
      → Pending r (c ++ later) fs
      → All IsFrame fs
      → Progress S handle later fs s (on_chunk handle r s c)
  unfolding on_chunk
  on_chunk-Progress r fs s c later pending frames =
      advance handle (record r { available = r.available ++ c }) fs later s
        (arrive r fs c later pending) frames

  on_chunks-Pending :
      (r : Reader) (fs : List (List ℕ)) (s : S) (c : List ℕ) (cs : List (List ℕ))
      → Pending r (concat (c ∷ cs)) fs
      → All IsFrame fs
      → (r' : Reader) × (on_chunks handle r s (c ∷ cs) ≡ some (r', handle_all handle s fs))
  on_chunks-Pending r fs s c [] pending frames =
      let p = on_chunk-Progress r fs s c [] pending frames in
      let all : p.state ≡ handle_all handle s fs =
        ap (handle_all handle p.state) (sym (p.starved refl)) ∙ p.same in
      (
        p.reader,
        on_chunks-step r p.reader s p.state c [] p.ends
            ∙ unfold on_chunks in ap (λ x. some (p.reader, x)) all,
      )
  on_chunks-Pending r fs s c (d ∷ ds) pending frames =
      let p = on_chunk-Progress r fs s c (concat (d ∷ ds)) pending frames in
      let later = on_chunks-Pending p.reader p.left p.state d ds p.pending p.frames in
      (
        later.0,
        on_chunks-step r p.reader s p.state c (d ∷ ds) p.ends
            ∙ later.1
            ∙ ap (λ x. some (later.0, x)) p.same,
      )

  -- Messages of a positive size that are written one after the other are handled one after the other,
  -- each once and as a whole, however their bytes are split when they arrive.
  pub on_chunks-encode :
      (r : Reader) (fs : List (List ℕ)) (s : S) (cs : List (List ℕ))
      → positive r.wanted ≡ false
      → r.available ≡ []
      → All IsFrame fs
      → concat cs ≡ encode fs
      → (r' : Reader) × (on_chunks handle r s cs ≡ some (r', handle_all handle s fs))
  on_chunks-encode r fs s [] h empty frames e =
      (r, unfold on_chunks in ap (λ xs. some (r, handle_all handle s xs)) (sym (encode_nil fs e)))
  on_chunks-encode r fs s (c ∷ cs) h empty frames e =
      on_chunks-Pending r fs s c cs (inl (h, ap (λ xs. xs ++ concat (c ∷ cs)) empty ∙ e)) frames
