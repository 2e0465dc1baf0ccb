-- ===== src/Judge/Function/Extremes.antt =====
-- modules/judge/store/func.go: `max`, `min` and `avg` over the points they return.
use mathlib.Core.Path.{subst}
use falcon_plus_learn.Base.{
  suc, ◌-◌, ◌≡◌, ap, sym, Bool, true, false, Option, some, List, ◌∷◌, length, arith, All,
}
use falcon_plus_learn.Base.Int.{ℤ, pos, pos_part}
use falcon_plus_learn.Base.Float.{Float, IsOrdered}
use falcon_plus_learn.Common.Model.{JudgeItem, HistoryData}
use falcon_plus_learn.Judge.Function.{
  Threshold, Computed, max_function, min_function, avg_function, check_is_triggered, compute,
  max_body, min_body, avg_body,
}
use falcon_plus_learn.Judge.Function.Compute.{with_points-enough, nonempty}
use falcon_plus_learn.Judge.Function.Loops.{
  sum_loop_lem, total, max_loop_lem, min_loop_lem, IsMax, Occurs, AllNumbers, flip, flip-IsOrdered,
}

module _ {V : Type 0} (F : Float V) where
  -- `left` is the value of a point, and no point lies above it.
  abbrev pub IsLargest : V → List (HistoryData V) → Type 0
  IsLargest left vs = Occurs left vs × All (λ v. F.lt left v.value ≡ false) vs

  abbrev pub IsSmallest : V → List (HistoryData V) → Type 0
  IsSmallest left vs = Occurs left vs × All (λ v. F.lt v.value left ≡ false) vs

  IsLargest-of :
      (v : HistoryData V) (vs : List (HistoryData V)) (m : V)
      → IsMax F v.value vs m
      → IsLargest m (v ∷ vs)
  IsLargest-of v vs m x = (x.found, (x.above_best, x.above))

  max_points :
      (N : V → Type 0) (o : IsOrdered F N) (limit : ℤ) (t : Threshold V) (v : HistoryData V)
      (vs : List (HistoryData V)) {left : V} {b : Bool}
      → pos (suc (length vs)) ≡ limit
      → max_body F limit t (v ∷ vs) ≡ some (left, b)
      → AllNumbers N (v ∷ vs)
      → IsLargest left (v ∷ vs) × (b ≡ check_is_triggered F left t)
  unfolding max_body
  max_points N o limit t v vs {left} {b} n h a =
      let (m, same, _, x) = max_loop_lem F N o v.value vs a.0 a.1 in
      let rounds : pos_part limit - 1 ≡ length vs = omega (arith, ap pos_part n) in
      let ran : ◌≡◌ {A = Option (V × Bool)} (some (m, check_is_triggered F m t)) (some (left, b)) =
        rw (rounds, same) at h in
      let at : m ≡ left = ground arith in
      (subst (λ k. IsLargest k (v ∷ vs)) at (IsLargest-of v vs m x), ground arith)

  -- With enough points that are numbers, under an ordered comparison, max(#n) reports a largest
  -- value of the n points and triggers exactly when it does.
  pub compute-max :
      (N : V → Type 0) (o : IsOrdered F N) (limit : ℤ) (t : Threshold V) (l : List (JudgeItem V))
      (c : Computed V)
      → compute F (max_function limit) t l ≡ some c
      → c.is_enough ≡ true
      → AllNumbers N c.vs
      → (pos (length c.vs) ≡ limit)
        × IsLargest c.left_value c.vs
        × (c.is_triggered ≡ check_is_triggered F c.left_value t)
  unfolding compute
  compute-max N o limit t l c h e a =
      let (n, p, ran) = with_points-enough F l limit (max_body F limit t) c h e in
      let (v, vs, same) = nonempty F c.vs limit n p in
      let (x, b) =
        max_points N o limit t v vs (rw same at n) (rw same at ran) (subst (AllNumbers N) same a) in
      (n, subst (IsLargest c.left_value) (sym same) x, b)

  min_points :
      (N : V → Type 0) (o : IsOrdered F N) (limit : ℤ) (t : Threshold V) (v : HistoryData V)
      (vs : List (HistoryData V)) {left : V} {b : Bool}
      → pos (suc (length vs)) ≡ limit
      → min_body F limit t (v ∷ vs) ≡ some (left, b)
      → AllNumbers N (v ∷ vs)
      → IsSmallest left (v ∷ vs) × (b ≡ check_is_triggered F left t)
  unfolding min_body
  min_points N o limit t v vs {left} {b} n h a =
      let (m, same, _, x) = max_loop_lem (flip F) N (flip-IsOrdered F N o) v.value vs a.0 a.1 in
      let rounds : pos_part limit - 1 ≡ length vs = omega (arith, ap pos_part n) in
      let ran : ◌≡◌ {A = Option (V × Bool)} (some (m, check_is_triggered F m t)) (some (left, b)) =
        rw (rounds, min_loop_lem F (length vs) v.value vs, same) at h in
      let at : m ≡ left = ground arith in
      (subst (λ k. IsSmallest k (v ∷ vs)) at (x.found, (x.above_best, x.above)), ground arith)

  -- With enough points that are numbers, under an ordered comparison, min(#n) reports a smallest
  -- value of the n points and triggers exactly when it does.
  pub compute-min :
      (N : V → Type 0) (o : IsOrdered F N) (limit : ℤ) (t : Threshold V) (l : List (JudgeItem V))
      (c : Computed V)
      → compute F (min_function limit) t l ≡ some c
      → c.is_enough ≡ true
      → AllNumbers N c.vs
      → (pos (length c.vs) ≡ limit)
        × IsSmallest c.left_value c.vs
        × (c.is_triggered ≡ check_is_triggered F c.left_value t)
  unfolding compute
  compute-min N o limit t l c h e a =
      let (n, p, ran) = with_points-enough F l limit (min_body F limit t) c h e in
      let (v, vs, same) = nonempty F c.vs limit n p in
      let (x, b) =
        min_points N o limit t v vs (rw same at n) (rw same at ran) (subst (AllNumbers N) same a) in
      (n, subst (IsSmallest c.left_value) (sym same) x, b)

  avg_points :
      (limit : ℤ) (t : Threshold V) (vs : List (HistoryData V)) {left : V} {b : Bool}
      → pos (length vs) ≡ limit
      → avg_body F limit t vs ≡ some (left, b)
      → (left ≡ F.div (total F (F.of_int (pos 0)) vs) (F.of_int (pos (length vs))))
        × (b ≡ check_is_triggered F left t)
  unfolding avg_body
  avg_points limit t vs n h = ground (arith, sum_loop_lem F (F.of_int (pos 0)) vs)

  -- With enough points, avg(#n) reports the sum of the n values divided by their number and
  -- triggers exactly when that does.
  pub compute-avg :
      (limit : ℤ) (t : Threshold V) (l : List (JudgeItem V)) (c : Computed V)
      → compute F (avg_function limit) t l ≡ some c
      → c.is_enough ≡ true
      → (pos (length c.vs) ≡ limit)
        × (c.left_value ≡ F.div (total F (F.of_int (pos 0)) c.vs) (F.of_int (pos (length c.vs))))
        × (c.is_triggered ≡ check_is_triggered F c.left_value t)
  unfolding compute
  compute-avg limit t l c h e =
      let (n, p, ran) = with_points-enough F l limit (avg_body F limit t) c h e in
      let (left, b) = avg_points limit t c.vs n ran in (n, left, b)
