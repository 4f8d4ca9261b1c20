-- ===== src/Base/Bytes.antt =====
-- Little-endian byte images of machine words, and what the code uses of memcmp.
use Prim.Native.Nat.{ℕ, zero, suc, ◌/◌, ◌%◌}
use mathlib.Core.Path.{◌≡◌, refl}
use mathlib.Core.Bool.{Bool, true, false, ◌&&◌}
use mathlib.Core.List.{List, [], ◌∷◌}
use native.Mathlib.Omega.{arith}
use bf.Base.Tests.{◌==◌}
use bf.Base.Lists.{length}

-- The two bytes of a 16-bit word and the four of a 32-bit word, lowest first.
abbrev pub le16 : ℕ → List ℕ → List ℕ
le16 x rest = x % 256 ∷ x / 256 % 256 ∷ rest

abbrev pub le32 : ℕ → List ℕ → List ℕ
le32 x rest = x % 256 ∷ x / 256 % 256 ∷ x / 65536 % 256 ∷ x / 16777216 % 256 ∷ rest

-- `memcmp(a, b, n) == 0`. Two buffers that both end before `n` agree; one that ends alone differs.
unfoldable pub memcmp_zero : List ℕ → List ℕ → ℕ → Bool
memcmp_zero a b zero = true
memcmp_zero [] [] (suc n) = true
memcmp_zero [] (y ∷ b) (suc n) = false
memcmp_zero (x ∷ a) [] (suc n) = false
memcmp_zero (x ∷ a) (y ∷ b) (suc n) = x == y && memcmp_zero a b n

pub memcmp_zero_refl : (a : List ℕ) (n : ℕ) → memcmp_zero a a n ≡ true
unfolding memcmp_zero
memcmp_zero_refl a zero = refl
memcmp_zero_refl [] (suc n) = refl
memcmp_zero_refl (x ∷ a) (suc n) = ground (arith, memcmp_zero_refl a n)

-- Over their common length a comparison finds equal buffers exactly.
pub eq_of_memcmp_zero :
    (a b : List ℕ) (n : ℕ) → length a ≡ n → length b ≡ n → memcmp_zero a b n ≡ true → a ≡ b
unfolding memcmp_zero
eq_of_memcmp_zero [] [] n p q h = refl
eq_of_memcmp_zero [] (y ∷ b) n p q h = absurd (omega arith)
eq_of_memcmp_zero (x ∷ a) [] n p q h = absurd (omega arith)
eq_of_memcmp_zero (x ∷ a) (y ∷ b) zero p q h = absurd (omega arith)
eq_of_memcmp_zero (x ∷ a) (y ∷ b) (suc n) p q h = ground (arith, eq_of_memcmp_zero a b n)

pub memcmp_zero_comm : (a b : List ℕ) (n : ℕ) → memcmp_zero a b n ≡ memcmp_zero b a n
unfolding memcmp_zero
memcmp_zero_comm a b zero = refl
memcmp_zero_comm [] [] (suc n) = refl
memcmp_zero_comm [] (y ∷ b) (suc n) = refl
memcmp_zero_comm (x ∷ a) [] (suc n) = refl
memcmp_zero_comm (x ∷ a) (y ∷ b) (suc n) = ground (arith, memcmp_zero_comm a b n)
