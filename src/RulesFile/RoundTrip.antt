-- ===== src/RulesFile/RoundTrip.antt =====
-- The rules file is read to its end, and yields what was written to it.
use bf.Base.{
  ℕ, zero, suc, ◌<◌, ◌≤◌, ◌≡◌, ◌≢◌, refl, sym, ap, ◌∙◌, ◌^◌, ◌++◌, length-append, List, [], ◌∷◌,
  Option, none, some, map, All, length, arith,
}
use bf.Rule.{FilterRule}
use bf.Stream.{DataStream, IsDataStream, put_rule, get_rule, IsRule}
use bf.Stream.Laws.{restored, get_rule-put_rule, get_rule-lt}
use bf.RulesFile.{read_rules, load_from_file, write_rules}

module _ (s : DataStream) (law : IsDataStream s) (blank : FilterRule) where
  read_rules-ne-none :
      (fuel : ℕ) (bytes : List ℕ) → length bytes ≤ fuel → read_rules s blank fuel bytes ≢ none
  unfolding read_rules
  read_rules-ne-none fuel [] h = λ e. cc
  read_rules-ne-none zero (b ∷ bytes) h = absurd (omega arith)
  read_rules-ne-none (suc fuel) (b ∷ bytes) h = ground (
    arith,
    get_rule-lt s law blank b bytes,
    read_rules-ne-none fuel (get_rule s blank (b ∷ bytes)).1,
  )

  -- Where a rule is read, the loop goes on behind it.
  read_rules-cons :
      (fuel : ℕ) (bytes rest : List ℕ) (fr : FilterRule) (rs : List FilterRule)
      → length rest < length bytes
      → get_rule s blank bytes ≡ (fr, rest)
      → read_rules s blank fuel rest ≡ some rs
      → read_rules s blank (suc fuel) bytes ≡ some (fr ∷ rs)
  unfolding read_rules
  read_rules-cons fuel [] rest fr rs lt e h = absurd (omega arith)
  read_rules-cons fuel (b ∷ bytes) rest fr rs lt e h = ground (arith, e, h)

  -- A word takes bytes, or else it would be read without taking any.
  length-put16 : (v : ℕ) (written : List ℕ) → v < 2 ^ 16 → s.put16 v ≡ written → 0 < length written
  length-put16 v [] w e =
      let read : s.get16 (0 ∷ []) ≡ (v, 0 ∷ []) =
        ap (λ (xs : List ℕ). s.get16 (xs ++ 0 ∷ [])) (sym e) ∙ law.get16-put16 v (0 ∷ []) w in
      absurd (omega (arith, law.get16-lt 0 [], ap (λ (r : ℕ × List ℕ). length r.1) read))
  length-put16 v (x ∷ xs) w e = omega arith

  put_rule-lt :
      (fr : FilterRule) (rest : List ℕ) → IsRule fr → length rest < length (put_rule s fr rest)
  unfolding put_rule
  put_rule-lt fr rest w =
      simp length-append (omega (arith, length-put16 fr.base.src_port _ w.words.src_port_u16 refl))

  read_rules-write_rules :
      (fuel : ℕ) (rs : List FilterRule)
      → All IsRule rs
      → length (write_rules s rs) ≤ fuel
      → read_rules s blank fuel (write_rules s rs) ≡ some (map (restored blank) rs)
  unfolding write_rules
  read_rules-write_rules fuel [] w h = unfold read_rules in refl
  read_rules-write_rules zero (p ∷ ps) w h =
      absurd (omega (arith, put_rule-lt p (write_rules s ps) w.0))
  read_rules-write_rules (suc fuel) (p ∷ ps) w h =
      let longer = put_rule-lt p (write_rules s ps) w.0 in
      read_rules-cons fuel _ (write_rules s ps) (restored blank p) _ longer
        (get_rule-put_rule s law blank p (write_rules s ps) w.0)
        (read_rules-write_rules fuel ps w.1 (omega arith))

  -- loadFromFile comes to its end on every file, also one that is cut short or holds no rules.
  pub load_from_file-ends :
      (file : Option (List ℕ)) (s_rules : List FilterRule)
      → load_from_file s blank file s_rules ≢ none
  unfolding load_from_file
  load_from_file-ends none s_rules = λ e. cc
  load_from_file-ends (some bytes) s_rules = ground (arith, read_rules-ne-none (length bytes) bytes)

  -- From a file that saveToFile wrote, loadFromFile reads the same rules in the same order, but for the
  -- number and the hardware addresses of each, which the file does not hold.
  pub load_from_file-write_rules :
      (rs s_rules : List FilterRule)
      → All IsRule rs
      → load_from_file s blank (some (write_rules s rs)) s_rules
        ≡ some (map (restored blank) rs, map (restored blank) rs)
  unfolding load_from_file
  load_from_file-write_rules rs s_rules w =
      ap
        (λ (o : Option (List FilterRule)).
          let r : Option (List FilterRule × List FilterRule) = elim o [
            | none ↦ none
            | some rs ↦ some (rs, rs)
          ] in
          r)
        (read_rules-write_rules (length (write_rules s rs)) rs w (omega arith))
