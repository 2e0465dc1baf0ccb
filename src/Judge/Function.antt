-- ===== src/Judge/Function.antt =====
-- modules/judge/store/func.go: the judge functions, as one type with a constructor for each struct.
pub mod Compute
pub mod Loops
pub mod Points
pub mod Extremes
pub mod Total
use falcon_plus_learn.Base.{
  Text, codes, text_eq, drop, length, ◌-◌, ◌==◌, ℕ, zero, suc, Bool, true, false, Option, none,
  some, List, [], ◌∷◌, ◌||◌, ◌&&◌, not, get_elem?, if◌then◌else◌, ◌>>=◌,
}
use falcon_plus_learn.Base.Int.{ℤ, pos, negsuc, pos_part, add64, ltb_ℤ, eqb_ℤ}
use falcon_plus_learn.Base.Float.{Float}
use falcon_plus_learn.Common.Model.{JudgeItem, HistoryData}
use falcon_plus_learn.Judge.LinkedList.{history_data}

-- `Operator` and `RightValue`, which every judge function has.
pub record Threshold (V : Type 0) : Type 0 where
  pub operator : Text
  pub right_value : V

pub data Function : Type 0 where
  max_function : ℤ → Function
  min_function : ℤ → Function
  all_function : ℤ → Function
  lookup_function : ℤ → ℤ → Function  -- `Num`, `Limit`
  sum_function : ℤ → Function
  avg_function : ℤ → Function
  diff_function : ℤ → Function
  pdiff_function : ℤ → Function

-- The named results of `Compute`.
pub record Computed (V : Type 0) : Type 0 where
  pub vs : List (HistoryData V)
  pub left_value : V
  pub is_triggered : Bool
  pub is_enough : Bool

module _ {V : Type 0} (F : Float V) where
  unfoldable pub check_is_triggered : V → Threshold V → Bool
  unfolding text_eq
  check_is_triggered left t =
      if text_eq t.operator (codes "=") || text_eq t.operator (codes "==")
      then F.lt (F.abs (F.sub left t.right_value)) F.epsilon
      else if text_eq t.operator (codes "!=")
      then F.lt F.epsilon (F.abs (F.sub left t.right_value))
      else if text_eq t.operator (codes "<")
      then F.lt left t.right_value
      else if text_eq t.operator (codes "<=")
      then F.le left t.right_value
      else if text_eq t.operator (codes ">")
      then F.lt t.right_value left
      else if text_eq t.operator (codes ">=")
      then F.le t.right_value left
      else false

  -- The loops over `vs[i]`, from an index on and for a number of rounds; `none` is an index out of
  -- range.
  unfoldable pub max_loop : ℕ → V → List (HistoryData V) → Option V
  max_loop zero best vs = some best
  max_loop (suc n) best [] = none
  max_loop (suc n) best (v ∷ vs) = max_loop n (if F.lt best v.value then v.value else best) vs

  unfoldable pub min_loop : ℕ → V → List (HistoryData V) → Option V
  min_loop zero best vs = some best
  min_loop (suc n) best [] = none
  min_loop (suc n) best (v ∷ vs) = min_loop n (if F.lt v.value best then v.value else best) vs

  unfoldable pub sum_loop : ℕ → V → List (HistoryData V) → Option V
  sum_loop zero acc vs = some acc
  sum_loop (suc n) acc [] = none
  sum_loop (suc n) acc (v ∷ vs) = sum_loop n (F.add acc v.value) vs

  -- `isTriggered` after the loop, which ends at the first point that does not trigger.
  unfoldable pub all_loop : ℕ → Threshold V → Bool → List (HistoryData V) → Option Bool
  all_loop zero t triggered vs = some triggered
  all_loop (suc n) t triggered [] = none
  all_loop (suc n) t triggered (v ∷ vs) =
      let rest = all_loop n t true vs in if check_is_triggered v.value t then rest else some false

  unfoldable pub lookup_loop : ℕ → Threshold V → ℤ → ℕ → List (HistoryData V) → Option Bool
  lookup_loop zero t num n vs = some false
  lookup_loop (suc i) t num n [] = none
  lookup_loop (suc i) t num n (v ∷ vs) =
      let hit = lookup_loop i t num (suc n) vs in
      let miss = lookup_loop i t num n vs in
      if check_is_triggered v.value t
      then (if eqb_ℤ (pos (suc n)) num then some true else hit)
      else miss

  -- `leftValue` and `isTriggered`, from the value of `leftValue` before the loop.
  unfoldable pub diff_loop : ℕ → Threshold V → V → V → List (HistoryData V) → Option (V × Bool)
  diff_loop zero t first left vs = some (left, false)
  diff_loop (suc n) t first left [] = none
  diff_loop (suc n) t first left (v ∷ vs) =
      let rest = diff_loop n t first (F.sub first v.value) vs in
      if check_is_triggered (F.sub first v.value) t then some (F.sub first v.value, true) else rest

  -- `(first - v) / v * 100.0`
  abbrev pub percent : V → V → V
  percent first v = F.mul (F.div (F.sub first v) v) (F.of_int (pos 100))

  unfoldable pub pdiff_loop : ℕ → Threshold V → V → V → List (HistoryData V) → Option (V × Bool)
  pdiff_loop zero t first left vs = some (left, false)
  pdiff_loop (suc n) t first left [] = none
  pdiff_loop (suc n) t first left (v ∷ vs) =
      let skip = pdiff_loop n t first left vs in
      let rest = pdiff_loop n t first (percent first v.value) vs in
      if F.eq v.value (F.of_int (pos 0))
      then skip
      else if check_is_triggered (percent first v.value) t
      then some (percent first v.value, true)
      else rest

  -- `return` before the results are set
  abbrev pub not_enough : List (HistoryData V) → Computed V
  not_enough vs = record {
    vs = vs;
    left_value = F.of_int (pos 0);
    is_triggered = false;
    is_enough = false;
  }

  abbrev pub enough : List (HistoryData V) → V × Bool → Computed V
  enough vs r = record { vs = vs; left_value = r.0; is_triggered = r.1; is_enough = true }

  -- What stands behind `HistoryData` in each `Compute`: the points, the limit that was asked for.
  abbrev pub triggered_by : Threshold V → V → V × Bool
  triggered_by t left = (left, check_is_triggered left t)

  unfoldable pub max_body : ℤ → Threshold V → List (HistoryData V) → Option (V × Bool)
  unfolding max_loop
  max_body limit t vs = do
    v ← get_elem? vs 0
    best ← max_loop (pos_part limit - 1) v.value (drop 1 vs)
    some (triggered_by t best)

  unfoldable pub min_body : ℤ → Threshold V → List (HistoryData V) → Option (V × Bool)
  unfolding min_loop
  min_body limit t vs = do
    v ← get_elem? vs 0
    best ← min_loop (pos_part limit - 1) v.value (drop 1 vs)
    some (triggered_by t best)

  unfoldable pub all_body : ℤ → Threshold V → List (HistoryData V) → Option (V × Bool)
  unfolding all_loop
  all_body limit t vs = do
    triggered ← all_loop (pos_part limit) t true vs
    v ← get_elem? vs 0
    some (v.value, triggered)

  unfoldable pub lookup_body : ℤ → ℤ → Threshold V → List (HistoryData V) → Option (V × Bool)
  unfolding lookup_loop
  lookup_body num limit t vs = do
    v ← get_elem? vs 0
    triggered ← lookup_loop (pos_part limit) t num 0 vs
    some (v.value, triggered)

  unfoldable pub sum_body : ℤ → Threshold V → List (HistoryData V) → Option (V × Bool)
  unfolding sum_loop
  sum_body limit t vs = do
    sum ← sum_loop (pos_part limit) (F.of_int (pos 0)) vs
    some (triggered_by t sum)

  unfoldable pub avg_body : ℤ → Threshold V → List (HistoryData V) → Option (V × Bool)
  unfolding sum_loop
  avg_body limit t vs = do
    sum ← sum_loop (pos_part limit) (F.of_int (pos 0)) vs
    some (triggered_by t (F.div sum (F.of_int limit)))

  unfoldable pub diff_body : ℤ → Threshold V → List (HistoryData V) → Option (V × Bool)
  unfolding diff_loop
  diff_body limit t vs = do
    v ← get_elem? vs 0
    diff_loop (pos_part limit - 1) t v.value (F.of_int (pos 0)) (drop 1 vs)

  unfoldable pub pdiff_body : ℤ → Threshold V → List (HistoryData V) → Option (V × Bool)
  unfolding pdiff_loop
  pdiff_body limit t vs = do
    v ← get_elem? vs 0
    pdiff_loop (pos_part limit - 1) t v.value (F.of_int (pos 0)) (drop 1 vs)

  -- `vs, isEnough = L.HistoryData(limit)`, the early return, and the rest of a `Compute`.
  unfoldable pub with_points :
      List (JudgeItem V) → ℤ → (List (HistoryData V) → Option (V × Bool)) → Option (Computed V)
  with_points l limit body = do
    r ← history_data F l limit
    if r.1 then (do out ← body r.0; some (enough r.0 out)) else some (not_enough r.0)

  -- `diff` and `pdiff` ask for one point more, and test for an empty slice once again.
  unfoldable pub with_previous :
      List (JudgeItem V) → ℤ → (ℤ → List (HistoryData V) → Option (V × Bool)) → Option (Computed V)
  with_previous l limit body = do
    r ← history_data F l (add64 limit (pos 1))
    if r.1 && not (length r.0 == 0)
        then (do out ← body (add64 limit (pos 1)) r.0; some (enough r.0 out))
        else some (not_enough r.0)

  unfoldable pub compute : Function → Threshold V → List (JudgeItem V) → Option (Computed V)
  unfolding history_data with_points with_previous max_body min_body all_body lookup_body sum_body
      avg_body diff_body pdiff_body
  compute (max_function limit) t l = with_points l limit (max_body limit t)
  compute (min_function limit) t l = with_points l limit (min_body limit t)
  compute (all_function limit) t l = with_points l limit (all_body limit t)
  compute (lookup_function num limit) t l = with_points l limit (lookup_body num limit t)
  compute (sum_function limit) t l = with_points l limit (sum_body limit t)
  compute (avg_function limit) t l = with_points l limit (avg_body limit t)
  compute (diff_function limit) t l = with_previous l limit (λ n. diff_body n t)
  compute (pdiff_function limit) t l = with_previous l limit (λ n. pdiff_body n t)
