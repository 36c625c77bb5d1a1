-- ===== src/Base/Dict.antt =====
-- Python dictionaries and sets, as lists of pairs in insertion order.
use Prim.Native.Nat.{◌+◌, ◌≤◌}
use mathlib.Core.Path.{◌≡◌, refl}
use mathlib.Core.Bool.{Bool, true}
use mathlib.Core.Option.{Option, none, some}
use mathlib.Core.List.{List, [], ◌∷◌}
use native.Mathlib.Omega.{arith}
use mathlib.Core.Logic.{inl, inr}
use anglerfish_ai.Base.Tests.{if◌then◌else◌, Bool-cases}
use anglerfish_ai.Base.Lists.{length, select}
use anglerfish_ai.Base.Keys.{Key}

abbrev pub Dict {ℓ κ} : Type ℓ → Type κ → Type (ℓ ⊔ κ)
Dict K V = List (K × V)

module _ {ℓ κ} {K : Type ℓ} {V : Type κ} ⦃e : Key K⦄ where
  abbrev pub get : K → Dict K V → Option V
  get k [] = none
  get k ((j, v) ∷ d) = if e.same j k then some v else get k d

  abbrev pub put : K → V → Dict K V → Dict K V
  put k v [] = (k, v) ∷ []
  put k v ((j, w) ∷ d) = if e.same j k then (j, v) ∷ d else (j, w) ∷ put k v d

  -- `d.pop(k, None)`
  abbrev pub remove : K → Dict K V → Dict K V
  remove k [] = []
  remove k ((j, v) ∷ d) = if e.same j k then remove k d else (j, v) ∷ remove k d

  pub get-put :
      (k j : K) (v : V) (d : Dict K V)
      → get j (put k v d) ≡ (if e.same k j then some v else get j d)
  get-put k j v [] = refl
  get-put k j v ((i, w) ∷ d) =
      ground (arith, e.same_iff k j, e.same_iff i k, e.same_iff i j, get-put k j v d)

  pub get-remove :
      (k j : K) (d : Dict K V) → get j (remove k d) ≡ (if e.same k j then none else get j d)
  get-remove k j [] = ground arith
  get-remove k j ((i, w) ∷ d) =
      ground (arith, e.same_iff k j, e.same_iff i k, e.same_iff i j, get-remove k j d)

  pub length-put-le : (k : K) (v : V) (d : Dict K V) → length (put k v d) ≤ length d + 1
  length-put-le k v [] = omega arith
  length-put-le k v ((i, w) ∷ d) = ground (arith, length-put-le k v d)

  pub length-remove-le : (k : K) (d : Dict K V) → length (remove k d) ≤ length d
  length-remove-le k [] = omega arith
  length-remove-le k ((i, w) ∷ d) = ground (arith, length-remove-le k d)

  -- What a filter keeps is found as before.
  pub get-select :
      (p : K × V → Bool) (k : K) (v : V) (d : Dict K V)
      → get k d ≡ some v
      → ((j : K) → e.same j k ≡ true → p (j, v) ≡ true)
      → get k (select p d) ≡ some v
  get-select p k v [] h keep = cc
  get-select p k v ((j, w) ∷ d) h keep = elim (Bool-cases (e.same j k)) [
    | inl here ↦ ground (arith, keep j)
    | inr other ↦ ground (arith, get-select p k v d, keep)
  ]
