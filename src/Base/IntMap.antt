-- ===== src/Base/IntMap.antt =====
-- A Go map with `int` keys, as the list of its entries, and slices of `int`.
use mathlib.Core.Path.{◌≡◌, refl}
use mathlib.Core.Option.{Option, none, some}
use mathlib.Core.List.{List, [], ◌∷◌, ◌++◌}
use native.Mathlib.Omega.{arith}
use falcon_plus_learn.Base.Tests.{if◌then◌else◌, Option-cases}
use falcon_plus_learn.Base.Int.{ℤ, eqb_ℤ, eqb_ℤ_iff}
use mathlib.Core.Logic.{inl, inr}

abbrev pub IntMap {ℓ} : Type ℓ → Type ℓ
IntMap V = List (ℤ × V)

module _ {ℓ} {V : Type ℓ} where
  unfoldable pub lookup_int : ℤ → IntMap V → Option V
  lookup_int k [] = none
  lookup_int k ((j, v) ∷ m) = if eqb_ℤ j k then some v else lookup_int k m

  unfoldable pub insert_int : ℤ → V → IntMap V → IntMap V
  insert_int k v [] = (k, v) ∷ []
  insert_int k v ((j, w) ∷ m) = if eqb_ℤ j k then (k, v) ∷ m else (j, w) ∷ insert_int k v m

  pub lookup_int-insert_int :
      (k j : ℤ) (v : V) (m : IntMap V)
      → lookup_int j (insert_int k v m) ≡ (if eqb_ℤ k j then some v else lookup_int j m)
  unfolding lookup_int insert_int
  lookup_int-insert_int k j v [] = refl
  lookup_int-insert_int k j v ((i, w) ∷ m) =
      ground (arith, eqb_ℤ_iff k j, eqb_ℤ_iff i k, eqb_ℤ_iff i j, lookup_int-insert_int k j v m)

module _ {V : Type 0} where
  -- `if exists { m[k] = append(m[k], x) } else { m[k] = []T{x} }`
  unfoldable pub append_int : ℤ → V → IntMap (List V) → IntMap (List V)
  unfolding lookup_int insert_int
  append_int k x m = elim (lookup_int k m) [
    | none ↦ insert_int k (x ∷ []) m
    | some xs ↦ insert_int k (xs ++ (x ∷ [])) m
  ]

  -- The entries at a key, none if it is missing.
  abbrev pub entries_int : ℤ → IntMap (List V) → List V
  entries_int k m = elim (lookup_int k m) [ none ↦ [] | some xs ↦ xs ]

  pub entries_int-append_int :
      (k j : ℤ) (x : V) (m : IntMap (List V))
      → entries_int j (append_int k x m)
        ≡ (if eqb_ℤ k j then entries_int j m ++ (x ∷ []) else entries_int j m)
  unfolding append_int
  entries_int-append_int k j x m = elim (Option-cases (lookup_int k m)) [
    | inl n ↦ ground (arith, n, lookup_int-insert_int k j (x ∷ []) m, eqb_ℤ_iff k j)
    | inr (xs, y) ↦ ground (arith, y, lookup_int-insert_int k j (xs ++ (x ∷ [])) m, eqb_ℤ_iff k j)
  ]
