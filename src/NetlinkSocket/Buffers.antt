-- ===== src/NetlinkSocket/Buffers.antt =====
-- The messages of a buffer.
use mathlib.Core.Path.{ap₂}
use bf.Base.{
  Bool, some, map, ℕ, zero, suc, ◌+◌, ◌-◌, ◌*◌, ◌/◌, ◌≤◌, ◌<◌, ◌≡◌, refl, sym, ap, ◌∙◌, true,
  Bool-cases, inl, inr, List, [], ◌∷◌, ◌++◌, append_assoc, length, length-append, take, drop,
  replicate, length-replicate, All, arith,
}
use bf.NetlinkSocket.{Libnl, NetlinkSocket, split, recv, got, ready_read, sig_data}

-- NLMSG_ALIGN
abbrev pub nlmsg_align : ℕ → ℕ
nlmsg_align n = (n + 3) / 4 * 4

-- What libnl documents: a message has a header of 16 bytes with its length, which the bytes behind it do
-- not change; it is found where its bytes are there; and the next starts at the next multiple of 4.
pub record IsLibnl (l : Libnl) : Type 0 where
  pub nlmsg_len-append : (m rest : List ℕ) → 16 ≤ length m → l.nlmsg_len (m ++ rest) ≡ l.nlmsg_len m
  pub nlmsg_ok-len :
      (hdr : List ℕ)
      → l.nlmsg_ok hdr ≡ true
      → (16 ≤ l.nlmsg_len hdr) × (l.nlmsg_len hdr ≤ length hdr)
  pub ok_of_len :
      (hdr : List ℕ) → 16 ≤ l.nlmsg_len hdr → l.nlmsg_len hdr ≤ length hdr → l.nlmsg_ok hdr ≡ true
  pub nlmsg_next-drop : (hdr : List ℕ) → l.nlmsg_next hdr ≡ drop (nlmsg_align (l.nlmsg_len hdr)) hdr

-- A message: a header whose length is the one of the bytes.
pub record IsMessage (l : Libnl) (m : List ℕ) : Type 0 where
  pub has_header : 16 ≤ length m
  pub has_len : l.nlmsg_len m ≡ length m

-- A message as it stands in a buffer.
abbrev pub padding : List ℕ → List ℕ
padding m = replicate (nlmsg_align (length m) - length m) 0

abbrev pub padded : List ℕ → List ℕ
padded m = m ++ padding m

abbrev pub joined : List (List ℕ) → List ℕ
joined [] = []
joined (m ∷ ms) = padded m ++ joined ms

length-padded : (m : List ℕ) → length (padded m) ≡ nlmsg_align (length m)
length-padded m = omega (
  arith,
  length-append m (padding m),
  length-replicate {A = ℕ} (nlmsg_align (length m) - length m) 0,
)

length-drop : (n : ℕ) (xs : List ℕ) → length (drop n xs) ≡ length xs - n
length-drop zero xs = omega arith
length-drop (suc n) [] = omega arith
length-drop (suc n) (x ∷ xs) = omega (arith, length-drop n xs)

drop-append : (xs ys : List ℕ) → drop (length xs) (xs ++ ys) ≡ ys
drop-append [] ys = refl
drop-append (x ∷ xs) ys = drop-append xs ys

take-append : (xs ys : List ℕ) → take (length xs) (xs ++ ys) ≡ xs
take-append [] ys = refl
take-append (x ∷ xs) ys = ap (◌∷◌ x) (take-append xs ys)

module _ (l : Libnl) (v : IsLibnl l) where
  nlmsg_next-lt : (hdr : List ℕ) → l.nlmsg_ok hdr ≡ true → length (l.nlmsg_next hdr) < length hdr
  nlmsg_next-lt hdr ok =
      let k = v.nlmsg_ok-len hdr ok in
      let n : length (l.nlmsg_next hdr) ≡ length hdr - nlmsg_align (l.nlmsg_len hdr) =
        ap length (v.nlmsg_next-drop hdr) ∙ length-drop (nlmsg_align (l.nlmsg_len hdr)) hdr in
      omega (arith, k.0, k.1, n)

  shorter :
      (hdr : List ℕ) (f : ℕ)
      → l.nlmsg_ok hdr ≡ true
      → length hdr < suc f
      → length (l.nlmsg_next hdr) < f
  shorter hdr f ok h = omega (arith, nlmsg_next-lt hdr ok)

  -- The loop makes at most one round for each byte.
  split-fuel :
      (f g : ℕ) (hdr : List ℕ) → length hdr < f → length hdr < g → split l f hdr ≡ split l g hdr
  unfolding split
  split-fuel zero g hdr p q = absurd (omega arith)
  split-fuel (suc f) zero hdr p q = absurd (omega arith)
  split-fuel (suc f) (suc g) hdr p q = elim (Bool-cases (l.nlmsg_ok hdr)) [
    | inl ok ↦ rw (ok, split-fuel f g (l.nlmsg_next hdr) (shorter hdr f ok p) (shorter hdr g ok q))
    | inr end ↦ rw end
  ]

  split-ok :
      (f : ℕ) (hdr : List ℕ)
      → l.nlmsg_ok hdr ≡ true
      → 0 < l.nlmsg_len hdr
      → split l (suc f) hdr ≡ take (l.nlmsg_len hdr) hdr ∷ split l f (l.nlmsg_next hdr)
  unfolding split
  split-ok f hdr ok h = ground arith

  split-message :
      (f : ℕ) (m rest : List ℕ)
      → IsMessage l m
      → split l (suc f) (padded m ++ rest) ≡ m ∷ split l f rest
  split-message f m rest h =
      let hdr = padded m ++ rest in
      let assoc = append_assoc m (padding m) rest in
      let n : l.nlmsg_len hdr ≡ length m =
        ap l.nlmsg_len assoc
        ∙ (v.nlmsg_len-append m (padding m ++ rest) h.has_header ∙ h.has_len) in
      let size : length hdr ≡ length (padded m) + length rest = length-append (padded m) rest in
      let size_m = length-padded m in
      let ok : l.nlmsg_ok hdr ≡ true =
        v.ok_of_len hdr (omega (arith, n, h.has_header)) (omega (arith, n, size, size_m)) in
      let next : l.nlmsg_next hdr ≡ rest =
        v.nlmsg_next-drop hdr
        ∙ (ap (λ k. drop k hdr) (ap nlmsg_align n ∙ sym size_m) ∙ drop-append (padded m) rest) in
      let taken : take (l.nlmsg_len hdr) hdr ≡ m =
        ap (λ k. take k hdr) n ∙ (ap (take (length m)) assoc ∙ take-append m (padding m ++ rest)) in
      split-ok f hdr ok (omega (arith, n, h.has_header)) ∙ ap₂ (λ x y. x ∷ split l f y) taken next

  -- A buffer of messages is taken apart into these messages, in their order.
  split-joined :
      (ms : List (List ℕ))
      → All (IsMessage l) ms
      → split l (suc (length (joined ms))) (joined ms) ≡ ms
  unfolding split
  split-joined [] h = elim (Bool-cases (l.nlmsg_ok [])) [
    | inl ok ↦ let k = v.nlmsg_ok-len [] ok in absurd (omega (arith, k.0, k.1))
    | inr end ↦ rw end
  ]
  split-joined (m ∷ ms) h =
      let n = length-append (padded m) (joined ms) in
      let size = length-padded m in
      let fuel = length (joined (m ∷ ms)) in
      let less : length (joined ms) < fuel = omega (arith, n, size, h.0.has_header) in
      split-message fuel m (joined ms) h.0
      ∙ ap (◌∷◌ m) (
          split-fuel fuel (suc (length (joined ms))) (joined ms) less (omega arith)
          ∙ split-joined ms h.1)

  -- Where an open socket receives a buffer of messages, it emits these messages and nothing else, in
  -- their order.
  pub ready_read-joined :
      (s : NetlinkSocket) (c : Bool) (b : ℕ) (buf : List ℕ) (ms : List (List ℕ))
      → s.nl_socket ≡ some c
      → b ∷ buf ≡ joined ms
      → All (IsMessage l) ms
      → ready_read l (got b buf) s ≡ map sig_data ms
  unfolding ready_read recv
  ready_read-joined s c b buf ms open_socket e h =
      let all : split l (suc (length (b ∷ buf))) (b ∷ buf) ≡ ms =
        ap (λ xs. split l (suc (length xs)) xs) e ∙ split-joined ms h in
      rw open_socket (ap (map sig_data) all)
