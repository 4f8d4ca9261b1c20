-- ===== src/System/Interleaved/Distinct.antt =====
-- No node is twice on a chain, so that the `next` of each is the one behind it.
use bf.Base.{
  ℕ, suc, ◌≤◌, ◌≡◌, Bool, true, false, List, [], ◌∷◌, ◌++◌, head?, filter, length, if_cases, ◌==◌,
  ==_iff, ==_refl, Bool-cases, inl, inr, arith,
}
use bf.Rule.Bytes.{cmp_rule_zero_refl}
use bf.Rule.{FilterRuleBase}
use bf.Store.{Heap, Store, IsStore, owners}
use bf.System.Interleaved.{in_list, chain_of, next_of}

-- A list without repetition
pub IsDistinct : List ℕ → Type 0
IsDistinct [] = Unit
IsDistinct (x ∷ xs) = (in_list xs x ≡ false) × IsDistinct xs

pub in_list-mid : (pre rest : List ℕ) (a : ℕ) → in_list (pre ++ a ∷ rest) a ≡ true
in_list-mid [] rest a = rw (==_refl a)
in_list-mid (x ∷ pre) rest a = ground (arith, in_list-mid pre rest a)

-- What follows a node of a list without repetition.
pub next_of-head? :
    (pre rest : List ℕ) (a : ℕ)
    → IsDistinct (pre ++ a ∷ rest)
    → next_of (pre ++ a ∷ rest) a ≡ head? rest
unfolding next_of IsDistinct
next_of-head? [] rest a h = rw (==_refl a)
next_of-head? (x ∷ pre) rest a h = elim (Bool-cases (x == a)) [
  | inr apart ↦ rw apart (next_of-head? pre rest a h.1)
  | inl same ↦
      let m = in_list-mid pre rest a in
      let e = (==_iff x a).0 same in absurd (ground (arith, rw e at h.0))
]

owners-of_in_list :
    (heap : Heap) (xs : List ℕ) (a : ℕ)
    → in_list xs a ≡ true
    → 1 ≤ length (owners heap xs (heap a).base)
owners-of_in_list heap [] a h = absurd (ground arith)
owners-of_in_list heap (x ∷ xs) a h = elim (Bool-cases (a == x)) [
  | inl e ↦ rw ((==_iff a x).0 e, cmp_rule_zero_refl (heap x).base) (omega arith)
  | inr e ↦ let r = owners-of_in_list heap xs a (ground arith) in ground arith
]

full_list-IsDistinct :
    (heap : Heap) (xs : List ℕ)
    → ((b : FilterRuleBase) → length (owners heap xs b) ≤ 1)
    → IsDistinct xs
unfolding IsDistinct
full_list-IsDistinct heap [] h = tt
full_list-IsDistinct heap (x ∷ xs) h = (
  elim (Bool-cases (in_list xs x)) [
    | inr e ↦ e
    | inl e ↦
        let r = owners-of_in_list heap xs x e in
        let u : suc (length (owners heap xs (heap x).base)) ≤ 1 =
          rw (cmp_rule_zero_refl (heap x).base) at (h (heap x).base) in
        absurd (omega (arith, r, u))
  ],
  full_list-IsDistinct heap xs (λ b. ground (arith, h b)),
)

in_list-filter :
    (q : ℕ → Bool) (xs : List ℕ) (a : ℕ) → in_list xs a ≡ false → in_list (filter q xs) a ≡ false
in_list-filter q [] a h = h
in_list-filter q (x ∷ xs) a h = ground (arith, in_list-filter q xs a)

filter-IsDistinct : (q : ℕ → Bool) (xs : List ℕ) → IsDistinct xs → IsDistinct (filter q xs)
unfolding IsDistinct
filter-IsDistinct q [] h = tt
filter-IsDistinct q (x ∷ xs) h =
    if_cases IsDistinct (q x) (λ e. (in_list-filter q xs x h.0, filter-IsDistinct q xs h.1))
      (λ e. filter-IsDistinct q xs h.1)

pub chain-IsDistinct : (s : Store) (b : Bool) → IsStore s → IsDistinct (chain_of b s)
chain-IsDistinct s true v =
    rw v.input (filter-IsDistinct _ s.full_list (full_list-IsDistinct s.heap s.full_list v.unique))
chain-IsDistinct s false v =
    rw v.output (filter-IsDistinct _ s.full_list (full_list-IsDistinct s.heap s.full_list v.unique))
