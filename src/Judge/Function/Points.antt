-- ===== src/Judge/Function/Points.antt =====
-- modules/judge/store/func.go: when each judge function triggers, over the points it returns.
use falcon_plus_learn.Base.{
  suc, ◌≡◌, Bool, true, some, List, [], ◌∷◌, ◌&&◌, length, arith, every, any, count,
}
use falcon_plus_learn.Base.Int.{ℤ, pos, ltb_ℤ, leb_ℤ, add64}
use falcon_plus_learn.Base.Float.{Float}
use falcon_plus_learn.Common.Model.{JudgeItem, HistoryData}
use falcon_plus_learn.Judge.Function.{
  Threshold, Computed, all_function, lookup_function, diff_function, pdiff_function,
  check_is_triggered, compute, all_body, lookup_body, diff_body, pdiff_body,
}
use falcon_plus_learn.Judge.Function.Compute.{with_points-enough, with_previous-enough, nonempty}
use falcon_plus_learn.Judge.Function.Loops.{
  triggers, diff_triggers, pdiff_triggers, all_loop_lem, lookup_loop_lem, diff_loop_lem,
  pdiff_loop_lem,
}

module _ {V : Type 0} (F : Float V) where
  all_points :
      (limit : ℤ) (t : Threshold V) (vs : List (HistoryData V)) {left : V} {b : Bool}
      → pos (length vs) ≡ limit
      → all_body F limit t vs ≡ some (left, b)
      → b ≡ every (triggers F t) vs
  unfolding all_body
  all_points limit t [] n h = ground arith
  all_points limit t (v ∷ vs) n h = ground (arith, all_loop_lem F t (v ∷ vs))

  -- With enough points, all(#n) triggers exactly when each of the n points does.
  pub compute-all :
      (limit : ℤ) (t : Threshold V) (l : List (JudgeItem V)) (c : Computed V)
      → compute F (all_function limit) t l ≡ some c
      → c.is_enough ≡ true
      → (pos (length c.vs) ≡ limit) × (c.is_triggered ≡ every (triggers F t) c.vs)
  unfolding compute
  compute-all limit t l c h e =
      let (n, _, ran) = with_points-enough F l limit (all_body F limit t) c h e in
      (n, all_points limit t c.vs n ran)

  lookup_points :
      (num limit : ℤ) (t : Threshold V) (vs : List (HistoryData V)) {left : V} {b : Bool}
      → pos (length vs) ≡ limit
      → lookup_body F num limit t vs ≡ some (left, b)
      → b ≡ (ltb_ℤ (pos 0) num && leb_ℤ num (pos (count (triggers F t) vs)))
  unfolding lookup_body
  lookup_points num limit t [] n h = ground arith
  lookup_points num limit t (v ∷ vs) n h = ground (arith, lookup_loop_lem F t num 0 (v ∷ vs))

  -- With enough points, lookup(#k,n) triggers exactly when k is positive and at least k of the n
  -- points trigger.
  pub compute-lookup :
      (num limit : ℤ) (t : Threshold V) (l : List (JudgeItem V)) (c : Computed V)
      → compute F (lookup_function num limit) t l ≡ some c
      → c.is_enough ≡ true
      → (pos (length c.vs) ≡ limit)
        × (c.is_triggered ≡ (ltb_ℤ (pos 0) num && leb_ℤ num (pos (count (triggers F t) c.vs))))
  unfolding compute
  compute-lookup num limit t l c h e =
      let (n, _, ran) = with_points-enough F l limit (lookup_body F num limit t) c h e in
      (n, lookup_points num limit t c.vs n ran)

  diff_points :
      (n : ℤ) (t : Threshold V) (v : HistoryData V) (vs : List (HistoryData V)) {left : V}
      {b : Bool}
      → pos (suc (length vs)) ≡ n
      → diff_body F n t (v ∷ vs) ≡ some (left, b)
      → (b ≡ any (diff_triggers F t v.value) vs) × (b ≡ true → check_is_triggered F left t ≡ true)
  unfolding diff_body
  diff_points n t v vs e h =
      let (r, same, hit) = diff_loop_lem F t v.value (F.of_int (pos 0)) vs in ground arith

  -- With enough points, diff(#n) asks for one point more and triggers exactly when the difference
  -- of the latest point to one of the others does; the reported value then triggers.
  pub compute-diff :
      (limit : ℤ) (t : Threshold V) (l : List (JudgeItem V)) (c : Computed V)
      → compute F (diff_function limit) t l ≡ some c
      → c.is_enough ≡ true
      → (v : HistoryData V) × (vs : List (HistoryData V)) × (c.vs ≡ v ∷ vs)
        × (pos (length c.vs) ≡ add64 limit (pos 1))
        × (c.is_triggered ≡ any (diff_triggers F t v.value) vs)
        × (c.is_triggered ≡ true → check_is_triggered F c.left_value t ≡ true)
  unfolding compute
  compute-diff limit t l c h e =
      let (n, p, ran) = with_previous-enough F l limit (λ n. diff_body F n t) c h e in
      let (v, vs, same) = nonempty F c.vs (add64 limit (pos 1)) n p in
      let (b, hit) = diff_points (add64 limit (pos 1)) t v vs (rw same at n) (rw same at ran) in
      (v, vs, same, n, b, hit)

  pdiff_points :
      (n : ℤ) (t : Threshold V) (v : HistoryData V) (vs : List (HistoryData V)) {left : V}
      {b : Bool}
      → pos (suc (length vs)) ≡ n
      → pdiff_body F n t (v ∷ vs) ≡ some (left, b)
      → (b ≡ any (pdiff_triggers F t v.value) vs) × (b ≡ true → check_is_triggered F left t ≡ true)
  unfolding pdiff_body
  pdiff_points n t v vs e h =
      let (r, same, hit) = pdiff_loop_lem F t v.value (F.of_int (pos 0)) vs in ground arith

  -- With enough points, pdiff(#n) triggers exactly when the percentage of change against one of
  -- the other points, those of value 0 passed over, does; the reported value then triggers.
  pub compute-pdiff :
      (limit : ℤ) (t : Threshold V) (l : List (JudgeItem V)) (c : Computed V)
      → compute F (pdiff_function limit) t l ≡ some c
      → c.is_enough ≡ true
      → (v : HistoryData V) × (vs : List (HistoryData V)) × (c.vs ≡ v ∷ vs)
        × (pos (length c.vs) ≡ add64 limit (pos 1))
        × (c.is_triggered ≡ any (pdiff_triggers F t v.value) vs)
        × (c.is_triggered ≡ true → check_is_triggered F c.left_value t ≡ true)
  unfolding compute
  compute-pdiff limit t l c h e =
      let (n, p, ran) = with_previous-enough F l limit (λ n. pdiff_body F n t) c h e in
      let (v, vs, same) = nonempty F c.vs (add64 limit (pos 1)) n p in
      let (b, hit) = pdiff_points (add64 limit (pos 1)) t v vs (rw same at n) (rw same at ran) in
      (v, vs, same, n, b, hit)
