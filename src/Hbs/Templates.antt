-- ===== src/Hbs/Templates.antt =====
-- modules/hbs/cache/strategies.go: the templates that a template inherits from.
pub mod Chain
use falcon_plus_learn.Base.{
  ℕ, zero, suc, Bool, true, false, Option, none, some, List, [], ◌∷◌, ◌++◌, if◌then◌else◌,
}
use falcon_plus_learn.Base.Int.{ℤ, pos, leb_ℤ}
use falcon_plus_learn.Base.IntMap.{IntMap, lookup_int}
use falcon_plus_learn.Common.Model.{Template}

abbrev pub cons_some : {A : Type 0} → A → Option (List A) → Option (List A)
cons_some x none = none
cons_some x (some l) = some (x ∷ l)

-- The loop of `ParentIds`, from `tid` upwards, with 10 - depth rounds left; `none` is the depth of
-- 10, where a cycle is logged.
unfoldable pub climb : ℕ → IntMap Template → ℤ → Option (List ℤ)
unfolding lookup_int
climb zero tpls tid = none
climb (suc n) tpls tid = elim (leb_ℤ tid (pos 0)) [
  | true ↦ some []
  | false ↦ elim (lookup_int tid tpls) [
    | none ↦ some []
    | some t ↦ cons_some tid (climb n tpls t.parent_id)
  ]
]

-- `desc[sz-i-1] = ret[i]`
unfoldable pub reversed : {A : Type 0} → List A → List A
reversed [] = []
reversed (x ∷ l) = reversed l ++ (x ∷ [])

unfoldable pub parent_ids : IntMap Template → ℤ → List ℤ
unfolding climb reversed
parent_ids tpls tid = elim (climb 10 tpls tid) [ none ↦ [] | some ids ↦ reversed ids ]
