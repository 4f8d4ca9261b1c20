-- ===== src/Frames/Sizes.antt =====
-- Messages as bytes behind their sizes, and the reading of a size.
use mathlib.Core.List.{◌++◌}
use bf.Base.{
  ℕ, zero, suc, ◌^◌, ◌<◌, ◌≤◌, ◌≡◌, refl, sym, ap, ◌∙◌, ◌⊎◌, Bool, true, false, ◌&&◌, ltb, List, [],
  ◌∷◌, append-nil, length, take, drop, arith,
}
use bf.Frames.{Reader, positive, write_frame, read_int, read_size}

-- A message has a size that is a positive `qint32`.
abbrev pub IsFrame : List ℕ → Type 0
IsFrame f = (0 < length f) × (length f < 2 ^ 31)

-- The bytes of messages that are written one after the other, and their handling one after the other.
abbrev pub encode : List (List ℕ) → List ℕ
encode [] = []
encode (f ∷ fs) = write_frame f (encode fs)

abbrev pub handle_all : {S : Type 0} → (S → List ℕ → S) → S → List (List ℕ) → S
handle_all handle s [] = s
handle_all handle s (f ∷ fs) = handle_all handle (handle s f) fs

abbrev pub concat : List (List ℕ) → List ℕ
concat [] = []
concat (c ∷ cs) = c ++ concat cs

-- The reader is between two messages, or within one, when `later` and the messages `fs` are still to come.
abbrev pub Between : Reader → List ℕ → List (List ℕ) → Type 0
Between r later fs = (positive r.wanted ≡ false) × (r.available ++ later ≡ encode fs)

abbrev pub Within : Reader → List ℕ → List ℕ → List (List ℕ) → Type 0
Within r later f fs = (r.wanted ≡ length f) × (r.available ++ later ≡ f ++ encode fs)

abbrev pub Pending : Reader → List ℕ → List (List ℕ) → Type 0
Pending r later fs =
    Between r later fs ⊎ ((f : List ℕ) × (gs : List (List ℕ)) × (fs ≡ f ∷ gs) × Within r later f gs)

pub head_or : ℕ → List ℕ → ℕ
head_or d [] = d
head_or d (x ∷ xs) = x

pub rest_of : List ℕ → List ℕ
rest_of [] = []
rest_of (x ∷ xs) = xs

-- A message that has arrived as a whole.
pub taken :
    (f avail later next : List ℕ)
    → avail ++ later ≡ f ++ next
    → length f ≤ length avail
    → (take (length f) avail ≡ f) × (drop (length f) avail ++ later ≡ next)
unfolding head_or rest_of
taken [] avail later next e h = (refl, e)
taken (x ∷ f) [] later next e h = absurd (omega arith)
taken (x ∷ f) (y ∷ avail) later next e h =
    let ih = taken f avail later next (ap rest_of e) (omega arith) in
    (rw (ap (head_or 0) e, ih.0), ih.1)

pub length-drop : (n : ℕ) (xs : List ℕ) → 0 < n → n ≤ length xs → length (drop n xs) < length xs
length-drop zero xs p h = absurd (omega arith)
length-drop (suc zero) [] p h = absurd (omega arith)
length-drop (suc zero) (x ∷ xs) p h = omega arith
length-drop (suc (suc n)) [] p h = absurd (omega arith)
length-drop (suc (suc n)) (x ∷ xs) p h = omega (arith, length-drop (suc n) xs)

pub encode_nil : (fs : List (List ℕ)) → [] ≡ encode fs → fs ≡ []
unfolding write_frame
encode_nil [] e = refl
encode_nil (f ∷ fs) e = absurd (omega (arith, ap length e))

-- Fewer than four bytes hold no size.
pub short_encode :
    (avail : List ℕ) (fs : List (List ℕ)) → length avail < 4 → avail ++ [] ≡ encode fs → fs ≡ []
unfolding write_frame
short_encode avail [] h e = refl
short_encode avail (f ∷ fs) h e = absurd (omega (arith, ap length (sym (append-nil avail) ∙ e)))

pub ltb_lt : (a b : ℕ) → a < b → ltb a b ≡ true
ltb_lt a b h = ground arith

pub ltb_ge : (a b : ℕ) → b ≤ a → ltb a b ≡ false
ltb_ge a b h = ground arith

pub ltb_cases : (a b : ℕ) → (a < b) ⊎ (b ≤ a)
ltb_cases a b = ground arith

pub and_false : (b : Bool) → (b && false) ≡ false
and_false true = refl
and_false false = refl

pub positive_size : (w : ℕ) (f : List ℕ) → w ≡ length f → IsFrame f → positive w ≡ true
positive_size w f e h = rw (e, ltb_lt 0 (length f) h.0) (ltb_lt (length f) (2 ^ 31) h.1)

pub read_size-within : (r : Reader) → positive r.wanted ≡ true → read_size r ≡ r
unfolding read_size
read_size-within r h = rw h

pub read_int_short :
    (w : ℕ) (avail : List ℕ)
    → length avail < 4
    → read_int w avail ≡ record { wanted = w; available = avail }
unfolding read_int
read_int_short w avail h = ground arith

pub read_size_short :
    (r : Reader) → positive r.wanted ≡ false → length r.available < 4 → read_size r ≡ r
unfolding read_size
read_size_short r h short = rw h (read_int_short r.wanted r.available short)

-- The size of the next message is read from its first four bytes.
pub size_of :
    (w : ℕ) (f : List ℕ) (fs : List (List ℕ)) (later avail : List ℕ)
    → 4 ≤ length avail
    → length f < 2 ^ 31
    → avail ++ later ≡ write_frame f (encode fs)
    → Within (read_int w avail) later f fs × (length (read_int w avail).available < length avail)
unfolding read_int write_frame head_or rest_of
size_of w f fs later [] le u e = absurd (omega arith)
size_of w f fs later (a ∷ []) le u e = absurd (omega arith)
size_of w f fs later (a ∷ b ∷ []) le u e = absurd (omega arith)
size_of w f fs later (a ∷ b ∷ c ∷ []) le u e = absurd (omega arith)
size_of w f fs later (a ∷ b ∷ c ∷ d ∷ rest) le u e =
    let behind : List ℕ → List ℕ = λ xs. rest_of (rest_of (rest_of xs)) in
    (
      (
        omega (
          arith,
          ap (head_or 0) e,
          ap (λ xs. head_or 0 (rest_of xs)) e,
          ap (λ xs. head_or 0 (rest_of (rest_of xs))) e,
          ap (λ xs. head_or 0 (behind xs)) e,
        ),
        ap (λ xs. rest_of (behind xs)) e,
      ),
      omega arith,
    )

pub read_size-frame :
    (r : Reader) → positive r.wanted ≡ false → read_size r ≡ read_int r.wanted r.available
unfolding read_size
read_size-frame r h = rw h
