-- ===== src/FileLogger/Rotation.antt =====
-- What a rotation of the log keeps.
use bf.Base.{
  ℕ, zero, suc, ◌+◌, ◌≤◌, ◌<◌, ◌≡◌, ◌≢◌, refl, sym, ap, ◌∙◌, Bool, true, false, List, Option, none,
  some, ltb, if◌then◌else◌, ◌==◌, ==_iff, Bool-cases, inl, inr, if_cases, length, length-append,
  ◌++◌, [], ◌∷◌, Option-cases, arith,
}
use mathlib.Core.Path.{subst}
use bf.FileLogger.{
  FileName, log_file, numbered, FileSystem, IsFileSystem, bytes_of, write_msg, size, shift_files,
  check_and_rotate,
}

-- The contents by name, as a rotation with `n` old files is to leave them.
unfoldable pub shifted : ℕ → (FileName → Option (List ℕ)) → FileName → Option (List ℕ)
shifted n c log_file = none
shifted n c (numbered zero) = c (numbered 0)
shifted zero c (numbered j) = c (numbered j)
shifted (suc n) c (numbered (suc zero)) = c log_file
shifted (suc n) c (numbered (suc (suc j))) =
    if ltb j n then c (numbered (suc j)) else c (numbered (suc (suc j)))

unfoldable pub rotated : ℕ → ℕ → (FileName → Option (List ℕ)) → FileName → Option (List ℕ)
unfolding shifted
rotated max n c x = if ltb max (length (bytes_of (c log_file))) then shifted n c x else c x

-- A function of a conditional, branch by branch.
if_map {ℓ κ} :
    {A : Type ℓ} {B : Type κ} (g : A → B) (b : Bool) {x y : A} {z w : B}
    → g x ≡ z
    → g y ≡ w
    → g (if b then x else y) ≡ (if b then z else w)
if_map g true h k = h
if_map g false h k = k

number_of : FileName → ℕ
number_of log_file = 0
number_of (numbered i) = suc i

numbered-ne : {i j : ℕ} → i ≢ j → numbered i ≢ numbered j
unfolding number_of
numbered-ne h e = h (omega (arith, ap number_of e))

log_file-ne : (i : ℕ) → log_file ≢ numbered i
unfolding number_of
log_file-ne i e = let n : 0 ≡ suc i = ap number_of e in omega arith

module _ (fs : FileSystem) (v : IsFileSystem fs) where
  -- One round of the loop.
  abbrev shift_one : ℕ → fs.Files → fs.Files
  shift_one i f = fs.rename (numbered i) (numbered (suc i)) (fs.remove (numbered (suc i)) f)

  shift_one-new :
      (i : ℕ) (f : fs.Files)
      → fs.content (shift_one i f) (numbered (suc i)) ≡ fs.content f (numbered i)
  shift_one-new i f =
      v.content-rename_new (fs.remove (numbered (suc i)) f) (numbered i) (numbered (suc i))
        (numbered-ne (λ e. omega arith)) (v.content-remove_self f (numbered (suc i)))
      ∙ v.content-remove_other f (numbered (suc i)) (numbered i) (numbered-ne (λ e. omega arith))

  shift_one-old : (i : ℕ) (f : fs.Files) → fs.content (shift_one i f) (numbered i) ≡ none
  shift_one-old i f =
      v.content-rename_old (fs.remove (numbered (suc i)) f) (numbered i) (numbered (suc i))
        (numbered-ne (λ e. omega arith)) (v.content-remove_self f (numbered (suc i)))

  shift_one-other :
      (i : ℕ) (f : fs.Files) (y : FileName)
      → numbered i ≢ y
      → numbered (suc i) ≢ y
      → fs.content (shift_one i f) y ≡ fs.content f y
  shift_one-other i f y a b =
      v.content-rename_other (fs.remove (numbered (suc i)) f) (numbered i) (numbered (suc i)) y a b
      ∙ v.content-remove_other f (numbered (suc i)) y b

  -- The loop keeps the log itself and the files above its start, and moves the others one up.
  shift_files-log :
      (n : ℕ) (f : fs.Files) → fs.content (shift_files fs n f) log_file ≡ fs.content f log_file
  unfolding shift_files
  shift_files-log zero f = refl
  shift_files-log (suc zero) f = refl
  shift_files-log (suc (suc n)) f =
      shift_files-log (suc n) (shift_one (suc n) f)
      ∙ shift_one-other (suc n) f log_file (λ e. log_file-ne (suc n) (sym e))
          (λ e. log_file-ne (suc (suc n)) (sym e))

  shift_files-above :
      (n j : ℕ) (f : fs.Files)
      → n < j
      → fs.content (shift_files fs n f) (numbered j) ≡ fs.content f (numbered j)
  unfolding shift_files
  shift_files-above zero j f h = refl
  shift_files-above (suc zero) j f h = refl
  shift_files-above (suc (suc n)) j f h =
      shift_files-above (suc n) j (shift_one (suc n) f) (omega arith)
      ∙ shift_one-other (suc n) f (numbered j) (numbered-ne (λ e. omega arith))
          (numbered-ne (λ e. omega arith))

  shift_files-moved :
      (n j : ℕ) (f : fs.Files)
      → 0 < j
      → j < n
      → fs.content (shift_files fs n f) (numbered (suc j)) ≡ fs.content f (numbered j)
  unfolding shift_files
  shift_files-moved zero j f p h = absurd (omega arith)
  shift_files-moved (suc zero) j f p h = absurd (omega arith)
  shift_files-moved (suc (suc n)) j f p h = elim (Bool-cases (j == suc n)) [
    | inl e ↦
        let k : j ≡ suc n = (==_iff j (suc n)).0 e in
        shift_files-above (suc n) (suc j) (shift_one (suc n) f) (omega arith)
        ∙ subst
            (λ i. fs.content (shift_one (suc n) f) (numbered (suc i)) ≡ fs.content f (numbered i))
            (sym k) (shift_one-new (suc n) f)
    | inr d ↦
        let lt : j < suc n = ground arith in
        shift_files-moved (suc n) j (shift_one (suc n) f) p lt
        ∙ shift_one-other (suc n) f (numbered j) (numbered-ne (λ e. omega arith))
            (numbered-ne (λ e. omega arith))
  ]

  -- What follows the loop: the log becomes the first of the old files.
  abbrev rotate : ℕ → fs.Files → fs.Files
  rotate n f = fs.rename log_file (numbered 1) (fs.remove (numbered 1) (shift_files fs n f))

  rotate-log : (n : ℕ) (f : fs.Files) → fs.content (rotate n f) log_file ≡ none
  rotate-log n f =
      v.content-rename_old (fs.remove (numbered 1) (shift_files fs n f)) log_file (numbered 1)
        (log_file-ne 1) (v.content-remove_self (shift_files fs n f) (numbered 1))

  rotate-first :
      (n : ℕ) (f : fs.Files) → fs.content (rotate n f) (numbered 1) ≡ fs.content f log_file
  rotate-first n f =
      v.content-rename_new (fs.remove (numbered 1) (shift_files fs n f)) log_file (numbered 1)
        (log_file-ne 1) (v.content-remove_self (shift_files fs n f) (numbered 1))
      ∙ (v.content-remove_other (shift_files fs n f) (numbered 1) log_file
            (λ e. log_file-ne 1 (sym e))
          ∙ shift_files-log n f)

  rotate-other :
      (n j : ℕ) (f : fs.Files)
      → j ≢ 1
      → fs.content (rotate n f) (numbered j) ≡ fs.content (shift_files fs n f) (numbered j)
  rotate-other n j f h =
      let d : numbered 1 ≢ numbered j = numbered-ne (λ e. h (sym e)) in
      v.content-rename_other (fs.remove (numbered 1) (shift_files fs n f)) log_file (numbered 1)
        (numbered j) (log_file-ne j) d
      ∙ v.content-remove_other (shift_files fs n f) (numbered 1) (numbered j) d

  shift_files-zeroth :
      (n : ℕ) (f : fs.Files)
      → fs.content (shift_files fs n f) (numbered 0) ≡ fs.content f (numbered 0)
  unfolding shift_files
  shift_files-zeroth zero f = refl
  shift_files-zeroth (suc zero) f = refl
  shift_files-zeroth (suc (suc n)) f =
      shift_files-zeroth (suc n) (shift_one (suc n) f)
      ∙ shift_one-other (suc n) f (numbered 0) (numbered-ne (λ e. omega arith))
          (numbered-ne (λ e. omega arith))

  rotate-shifted :
      (n : ℕ) (f : fs.Files) (x : FileName)
      → fs.content (rotate (suc n) f) x ≡ shifted (suc n) (fs.content f) x
  unfolding shifted
  rotate-shifted n f log_file = rotate-log (suc n) f
  rotate-shifted n f (numbered zero) =
      rotate-other (suc n) 0 f (λ e. omega arith) ∙ shift_files-zeroth (suc n) f
  rotate-shifted n f (numbered (suc zero)) = rotate-first (suc n) f
  rotate-shifted n f (numbered (suc (suc j))) =
      rotate-other (suc n) (suc (suc j)) f (λ e. omega arith)
      ∙ if_cases (λ c. fs.content (shift_files fs (suc n) f) (numbered (suc (suc j))) ≡ c) (ltb j n)
          (λ e. shift_files-moved (suc n) (suc j) f (omega arith) (ground arith))
          (λ e. shift_files-above (suc n) (suc (suc j)) f (ground arith))

  removed-shifted :
      (f : fs.Files) (x : FileName)
      → fs.content (fs.remove log_file f) x ≡ shifted zero (fs.content f) x
  unfolding shifted
  removed-shifted f log_file = v.content-remove_self f log_file
  removed-shifted f (numbered zero) = v.content-remove_other f log_file (numbered 0) (log_file-ne 0)
  removed-shifted f (numbered (suc j)) =
      v.content-remove_other f log_file (numbered (suc j)) (log_file-ne (suc j))

  rotated-le :
      (max n : ℕ) (f : fs.Files) → length (bytes_of (rotated max n (fs.content f) log_file)) ≤ max
  unfolding rotated shifted
  rotated-le max n f =
      if_cases (λ c. length (bytes_of c) ≤ max) (ltb max (size fs f log_file)) (λ e. omega arith)
        (λ e. ground arith)

  -- checkAndRotate leaves the files as the contents by name say: a log that has not grown too large
  -- stays; otherwise, with no old files to keep, it is removed, and with `log_count` of them each moves
  -- one number up, the last is lost, the log becomes the first, and no other file changes.
  pub check_and_rotate-rotated :
      (max_file_size log_count : ℕ) (f : fs.Files) (x : FileName)
      → fs.content (check_and_rotate fs max_file_size log_count f) x
        ≡ rotated max_file_size log_count (fs.content f) x
  unfolding check_and_rotate rotated
  check_and_rotate-rotated max zero f x =
      if_map (λ g. fs.content g x) (ltb max (size fs f log_file)) (removed-shifted f x) refl
  check_and_rotate-rotated max (suc n) f x =
      if_map (λ g. fs.content g x) (ltb max (size fs f log_file))
        (if_cases (λ g. fs.content g x ≡ shifted (suc n) (fs.content f) x) (suc n == 0)
          (λ e. absurd (ground arith)) (λ e. rotate-shifted n f x))
        refl

  append-le :
      (max : ℕ) (text : List ℕ) (f : fs.Files)
      → size fs f log_file ≤ max
      → let bytes = text ++ 10 ∷ [] in
        let written : fs.Files × Bool = elim (fs.append log_file bytes f) [
          | none ↦ (f, false)
          | some f2 ↦ (f2, true)
        ] in
        size fs written.0 log_file ≤ max + length text + 1
  append-le max text f h = elim (Option-cases (fs.append log_file (text ++ 10 ∷ []) f)) [
    | inl e ↦ rw e (omega arith)
    | inr (f2, e) ↦
        let c = v.content-append f f2 log_file (text ++ 10 ∷ []) e in
        let old = bytes_of (fs.content f log_file) in
        let a = length-append old (text ++ 10 ∷ []) in
        let b = length-append text (10 ∷ []) in rw (e, c) (omega (arith, a, b, h))
  ]

  check_and_rotate-le :
      (max n : ℕ) (f : fs.Files) → size fs (check_and_rotate fs max n f) log_file ≤ max
  check_and_rotate-le max n f = rw (check_and_rotate-rotated max n f log_file) (rotated-le max n f)

  -- With a name for the log, a message is written to a log that is not too large: whatever its size was,
  -- it exceeds the greatest size by no more than the message and the end of its line.
  pub write_msg-le :
      (max_file_size log_count : ℕ) (text : List ℕ) (f : fs.Files)
      → size fs (write_msg fs false max_file_size log_count text f).0 log_file
        ≤ max_file_size + length text + 1
  unfolding write_msg
  write_msg-le max n text f =
      append-le max text (check_and_rotate fs max n f) (check_and_rotate-le max n f)
