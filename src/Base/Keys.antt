-- ===== src/Base/Keys.antt =====
-- Keys that the program compares: numbers (a UUID is its 128-bit number) and texts.
use Prim.Native.Nat.{ℕ}
use mathlib.Core.Path.{◌≡◌, refl}
use mathlib.Core.Logic.{◌↔◌}
use mathlib.Core.Bool.{Bool, true, false, ◌&&◌}
use mathlib.Core.List.{List, [], ◌∷◌}
use native.Mathlib.Omega.{arith}
use anglerfish_ai.Base.Tests.{◌==◌}

pub record Key {ℓ} (K : Type ℓ) : Type ℓ where
  pub same : K → K → Bool
  pub same_iff : (j k : K) → (same j k ≡ true) ↔ (j ≡ k)

pub number_iff : (a b : ℕ) → ((a == b) ≡ true) ↔ (a ≡ b)
number_iff a b = ground arith

abbrev pub text_same : List ℕ → List ℕ → Bool
text_same [] [] = true
text_same [] (y ∷ ys) = false
text_same (x ∷ xs) [] = false
text_same (x ∷ xs) (y ∷ ys) = x == y && text_same xs ys

pub text_iff : (s t : List ℕ) → (text_same s t ≡ true) ↔ (s ≡ t)
text_iff [] [] = ground arith
text_iff [] (y ∷ ys) = ground arith
text_iff (x ∷ xs) [] = ground arith
text_iff (x ∷ xs) (y ∷ ys) = ground (arith, text_iff xs ys)

instance abbrev pub number_key : Key ℕ
number_key = record { same = ◌==◌; same_iff = number_iff }

instance abbrev pub text_key : Key (List ℕ)
text_key = record { same = text_same; same_iff = text_iff }

pub same_refl {ℓ} : {K : Type ℓ} ⦃e : Key K⦄ (k : K) → e.same k k ≡ true
same_refl ⦃e⦄ k = (e.same_iff k k).1 refl
