-- ===== src/LocalServer/Sockets.antt =====
-- The table of the sockets that commands came from, when a socket is gone.
use bf.Base.{
  ℕ, zero, suc, ◌+◌, ◌≤◌, ◌≡◌, refl, sym, ap, ◌∙◌, ==_refl, not, List, [], ◌∷◌, filter, find,
  length, length-filter-le, filter-eq-nil, filter_comm, Option, none, some, Option-cases,
  Bool-cases, inl, inr, ◌==◌, arith, Bool, true, false,
}
use bf.LocalServer.{LocalServer, hash_remove, remove_socket, destroy_socket}

-- A key has one value at most.
abbrev pub IsHash : List (ℕ × ℕ) → Type 0
IsHash h = (key : ℕ) → length (filter (λ e. e.0 == key) h) ≤ 1

abbrev of_socket : ℕ → ℕ × ℕ → Bool
of_socket socket e = e.1 == socket

abbrev with_key : ℕ → ℕ × ℕ → Bool
with_key key e = e.0 == key

abbrev others : ℕ → ℕ × ℕ → Bool
others socket e = not (of_socket socket e)

some_inj : {A : Type 0} {x y : A} → some x ≡ some y → x ≡ y
some_inj e = cc

none_ne_some : {A : Type 0} {a : A} → none ≡ some a → ⊥
none_ne_some e = cc

filter_hit :
    (p : ℕ × ℕ → Bool) (x : ℕ × ℕ) (xs : List (ℕ × ℕ))
    → p x ≡ true
    → filter p (x ∷ xs) ≡ x ∷ filter p xs
filter_hit p x xs h = rw h

filter_miss :
    (p : ℕ × ℕ → Bool) (x : ℕ × ℕ) (xs : List (ℕ × ℕ))
    → p x ≡ false
    → filter p (x ∷ xs) ≡ filter p xs
filter_miss p x xs h = rw h

count-cons :
    (p : ℕ × ℕ → Bool) (x : ℕ × ℕ) (xs : List (ℕ × ℕ))
    → length (filter p xs) ≤ length (filter p (x ∷ xs))
count-cons p x xs = ground arith

key_self : (x e : ℕ × ℕ) → x ≡ e → with_key e.0 x ≡ true
key_self x e same = ap (λ y. with_key e.0 y) same ∙ ==_refl e.0

found-key :
    (socket : ℕ) (h : List (ℕ × ℕ)) (e : ℕ × ℕ)
    → find (of_socket socket) h ≡ some e
    → 1 ≤ length (filter (with_key e.0) h)
found-key socket [] e f = absurd (none_ne_some f)
found-key socket (x ∷ xs) e f = elim (Bool-cases (of_socket socket x)) [
  | inl hit ↦
      let same : x ≡ e = some_inj (sym (rw hit) ∙ f) in
      omega (arith, ap length (filter_hit (with_key e.0) x xs (key_self x e same)))
  | inr miss ↦
      let ih = found-key socket xs e (sym (rw miss) ∙ f) in
      omega (arith, ih, count-cons (with_key e.0) x xs)
]

-- With one value for a key, what is removed with the first entry of a socket is this entry.
kept-others :
    (socket : ℕ) (h : List (ℕ × ℕ)) (e : ℕ × ℕ)
    → find (of_socket socket) h ≡ some e
    → length (filter (with_key e.0) h) ≤ 1
    → filter (others socket) (hash_remove e.0 h) ≡ filter (others socket) h
unfolding hash_remove
kept-others socket [] e f u = refl
kept-others socket (x ∷ xs) e f u = elim (Bool-cases (of_socket socket x)) [
  | inl hit ↦
      let k = key_self x e (some_inj (sym (rw hit) ∙ f)) in
      let alone : length (filter (with_key e.0) xs) ≡ 0 =
        omega (arith, u, ap length (filter_hit (with_key e.0) x xs k)) in
      ap (filter (others socket)) (filter_miss (λ y. not (with_key e.0 y)) x xs (ap not k))
      ∙ ap (filter (others socket)) (filter-eq-nil (with_key e.0) xs alone)
      ∙ sym (filter_miss (others socket) x xs (ap not hit))
  | inr miss ↦
      let f' : find (of_socket socket) xs ≡ some e = sym (rw miss) ∙ f in
      elim (Bool-cases (with_key e.0 x)) [
        | inl k ↦ absurd (
            omega
              (arith, u, found-key socket xs e f', ap length (filter_hit (with_key e.0) x xs k)))
        | inr differs ↦
            let u' : length (filter (with_key e.0) xs) ≤ 1 =
              omega (arith, u, count-cons (with_key e.0) x xs) in
            ap (filter (others socket))
              (filter_hit (λ y. not (with_key e.0 y)) x xs (ap not differs))
            ∙ filter_hit (others socket) x (hash_remove e.0 xs) (ap not miss)
            ∙ ap (◌∷◌ x) (kept-others socket xs e f' u')
            ∙ sym (filter_hit (others socket) x xs (ap not miss))
      ]
]

removed-shorter :
    (key : ℕ) (h : List (ℕ × ℕ))
    → length (hash_remove key h) + length (filter (with_key key) h) ≡ length h
unfolding hash_remove
removed-shorter key [] = omega arith
removed-shorter key (x ∷ xs) = ground (arith, removed-shorter key xs)

hash_remove-IsHash : (key : ℕ) (h : List (ℕ × ℕ)) → IsHash h → IsHash (hash_remove key h)
unfolding hash_remove
hash_remove-IsHash key h u k = omega (
  arith,
  u k,
  ap length (filter_comm (with_key k) (λ y. not (with_key key y)) h),
  length-filter-le (λ y. not (with_key key y)) (filter (with_key k) h),
)

removed-none :
    (fuel socket : ℕ) (h : List (ℕ × ℕ))
    → find (of_socket socket) h ≡ none
    → remove_socket (suc fuel) socket h ≡ h
unfolding remove_socket
removed-none fuel socket h e =
    ap
      (λ (o : Option (ℕ × ℕ)).
        let r : List (ℕ × ℕ) = elim o [
          | none ↦ h
          | some x ↦ remove_socket fuel socket (hash_remove x.0 h)
        ] in
        r)
      e

removed-some :
    (fuel socket : ℕ) (h : List (ℕ × ℕ)) (x : ℕ × ℕ)
    → find (of_socket socket) h ≡ some x
    → remove_socket (suc fuel) socket h ≡ remove_socket fuel socket (hash_remove x.0 h)
unfolding remove_socket
removed-some fuel socket h x e =
    ap
      (λ (o : Option (ℕ × ℕ)).
        let r : List (ℕ × ℕ) = elim o [
          | none ↦ h
          | some y ↦ remove_socket fuel socket (hash_remove y.0 h)
        ] in
        r)
      e

none_found :
    (socket : ℕ) (h : List (ℕ × ℕ))
    → find (of_socket socket) h ≡ none
    → h ≡ filter (others socket) h
none_found socket [] e = refl
none_found socket (x ∷ xs) e = ground (arith, none_found socket xs)

remove_socket-filter :
    (fuel socket : ℕ) (h : List (ℕ × ℕ))
    → IsHash h
    → length h ≤ fuel
    → remove_socket fuel socket h ≡ filter (others socket) h
remove_socket-filter zero socket [] u le = unfold remove_socket in refl
remove_socket-filter zero socket (x ∷ xs) u le = absurd (omega arith)
remove_socket-filter (suc fuel) socket h u le = elim (Option-cases (find (of_socket socket) h)) [
  | inl free ↦ removed-none fuel socket h free ∙ none_found socket h free
  | inr (e, f) ↦
      removed-some fuel socket h e f
      ∙ remove_socket-filter fuel socket (hash_remove e.0 h) (hash_remove-IsHash e.0 h u)
          (omega (arith, removed-shorter e.0 h, found-key socket h e f))
      ∙ kept-others socket h e f (u e.0)
]

-- While no command number has two sockets, destroySocket comes to its end, and has removed exactly the
-- entries of the socket.
pub destroy_socket-filter :
    (sv : LocalServer) (socket : ℕ)
    → IsHash sv.client_commands
    → destroy_socket socket sv
      ≡ record sv { client_commands = filter (λ e. not (e.1 == socket)) sv.client_commands }
unfolding destroy_socket
destroy_socket-filter sv socket u =
    ap (λ h. record sv { client_commands = h })
      (remove_socket-filter (length sv.client_commands) socket sv.client_commands u (omega arith))
