-- ===== src/Judge/Function/Total.antt =====
-- modules/judge/store/func.go and linkedlist.go: when `Compute` returns without a panic.
use falcon_plus_learn.Base.{
  Text, ℕ, zero, suc, ◌-◌, ◌^◌, ◌≡◌, refl, ap, ◌∙◌, Bool, true, false, Option, some, List, [], ◌∷◌,
  length, if◌then◌else◌, every, any, count, map, take, ◌&&◌, ◌==◌, arith, leb,
}
use falcon_plus_learn.Base.Int.{ℤ, pos, negsuc, pos_part, InRange64, ltb_ℤ, leb_ℤ, add64, ◌<ℤ◌}
use falcon_plus_learn.Base.Float.{Float}
use falcon_plus_learn.Common.Model.{JudgeItem, HistoryData}
use falcon_plus_learn.Judge.LinkedList.{history_data, history_of, is_gauge, point}
use falcon_plus_learn.Judge.LinkedList.History.{rates, history_data_lem, history_data-enough}
use falcon_plus_learn.Judge.Function.{
  triggered_by, enough, not_enough, Threshold, Function, Computed, max_function, min_function,
  all_function, lookup_function, sum_function, avg_function, diff_function, pdiff_function, compute,
  max_loop, with_points, with_previous, all_body, lookup_body, max_body, min_body, sum_body,
  avg_body, diff_body, pdiff_body,
}
use falcon_plus_learn.Judge.Function.Compute.{nonempty}
use falcon_plus_learn.Judge.Function.Loops.{
  all_loop_lem, lookup_loop_lem, sum_loop_lem, diff_loop_lem, pdiff_loop_lem, min_loop_lem, flip,
  triggers, total, diff_triggers, pdiff_triggers,
}

module _ {V : Type 0} where
  -- The front of the list, if there is one, has a judge type that is not empty.
  abbrev pub IsTyped : List (JudgeItem V) → Type 0
  IsTyped [] = Unit
  IsTyped (x ∷ l) = (c : ℕ) × (t : Text) × (x.judge_type ≡ c ∷ t)

-- The limit of a judge function.
abbrev pub limit_of : Function → ℤ
limit_of (max_function n) = n
limit_of (min_function n) = n
limit_of (all_function n) = n
limit_of (lookup_function k n) = n
limit_of (sum_function n) = n
limit_of (avg_function n) = n
limit_of (diff_function n) = n
limit_of (pdiff_function n) = n

add64_one-lt : (n : ℤ) → InRange64 n → n <ℤ pos (2 ^ 63 - 2) → add64 n (pos 1) <ℤ pos (2 ^ 63 - 1)
unfolding add64
add64_one-lt (pos n) r p = ground arith
add64_one-lt (negsuc n) r p = ground arith

module _ {V : Type 0} (F : Float V) where
  pub history_data-total :
      (l : List (JudgeItem V)) (limit : ℤ)
      → IsTyped l
      → limit <ℤ pos (2 ^ 63 - 1)
      → (r : List (HistoryData V) × Bool) × (history_data F l limit ≡ some r)
  unfolding history_data
  history_data-total l (negsuc n) h p = (([], false), ground arith)
  history_data-total l (pos zero) h p = (([], false), ground arith)
  history_data-total [] (pos (suc n)) h p = (([], false), unfold history_of in ground arith)
  history_data-total (x ∷ l) (pos (suc n)) h p = (
    if is_gauge h.0
        then (map point (take (suc n) (x ∷ l)), leb (suc n) (suc (length l)))
        else (rates F (suc n) (x ∷ l), leb (suc n) (length l)),
    unfold history_data in history_data_lem F x l h.0 h.1 (suc n) h.2 (omega arith) (omega arith),
  )

  -- The body returns on as many points as were asked for.
  abbrev IsTotal : ℤ → (List (HistoryData V) → Option (V × Bool)) → Type 0
  IsTotal limit body =
      (v : HistoryData V) (vs : List (HistoryData V))
      → pos (suc (length vs)) ≡ limit
      → (r : V × Bool) × (body (v ∷ vs) ≡ some r)

  max_loop-total :
      (G : Float V) (best : V) (vs : List (HistoryData V))
      → (m : V) × (max_loop G (length vs) best vs ≡ some m)
  unfolding max_loop
  max_loop-total G best [] = (best, refl)
  max_loop-total G best (v ∷ vs) = max_loop-total G (if G.lt best v.value then v.value else best) vs

  all_body-IsTotal : (limit : ℤ) (t : Threshold V) → IsTotal limit (all_body F limit t)
  unfolding all_body
  all_body-IsTotal limit t v vs n =
      ((v.value, every (triggers F t) (v ∷ vs)), ground (arith, all_loop_lem F t (v ∷ vs)))

  lookup_body-IsTotal : (k limit : ℤ) (t : Threshold V) → IsTotal limit (lookup_body F k limit t)
  unfolding lookup_body
  lookup_body-IsTotal k limit t v vs n = (
    (v.value, ltb_ℤ (pos 0) k && leb_ℤ k (pos (count (triggers F t) (v ∷ vs)))),
    ground (arith, lookup_loop_lem F t k 0 (v ∷ vs)),
  )

  sum_body-IsTotal : (limit : ℤ) (t : Threshold V) → IsTotal limit (sum_body F limit t)
  unfolding sum_body
  sum_body-IsTotal limit t v vs n = (
    triggered_by F t (total F (F.of_int (pos 0)) (v ∷ vs)),
    ground (arith, sum_loop_lem F (F.of_int (pos 0)) (v ∷ vs)),
  )

  avg_body-IsTotal : (limit : ℤ) (t : Threshold V) → IsTotal limit (avg_body F limit t)
  unfolding avg_body
  avg_body-IsTotal limit t v vs n = (
    triggered_by F t (F.div (total F (F.of_int (pos 0)) (v ∷ vs)) (F.of_int limit)),
    ground (arith, sum_loop_lem F (F.of_int (pos 0)) (v ∷ vs)),
  )

  max_body-IsTotal : (limit : ℤ) (t : Threshold V) → IsTotal limit (max_body F limit t)
  unfolding max_body
  max_body-IsTotal limit t v vs n =
      let rounds : pos_part limit - 1 ≡ length vs = omega (arith, ap pos_part n) in
      let (m, e) = max_loop-total F v.value vs in (triggered_by F t m, rw (rounds, e))

  min_body-IsTotal : (limit : ℤ) (t : Threshold V) → IsTotal limit (min_body F limit t)
  unfolding min_body
  min_body-IsTotal limit t v vs n =
      let rounds : pos_part limit - 1 ≡ length vs = omega (arith, ap pos_part n) in
      let (m, e) = max_loop-total (flip F) v.value vs in
      (triggered_by F t m, rw (rounds, min_loop_lem F (length vs) v.value vs, e))

  diff_body-IsTotal : (limit : ℤ) (t : Threshold V) → IsTotal limit (diff_body F limit t)
  unfolding diff_body
  diff_body-IsTotal limit t v vs n =
      let rounds : pos_part limit - 1 ≡ length vs = omega (arith, ap pos_part n) in
      let (r, e, _) = diff_loop_lem F t v.value (F.of_int (pos 0)) vs in
      ((r, any (diff_triggers F t v.value) vs), rw (rounds, e))

  pdiff_body-IsTotal : (limit : ℤ) (t : Threshold V) → IsTotal limit (pdiff_body F limit t)
  unfolding pdiff_body
  pdiff_body-IsTotal limit t v vs n =
      let rounds : pos_part limit - 1 ≡ length vs = omega (arith, ap pos_part n) in
      let (r, e, _) = pdiff_loop_lem F t v.value (F.of_int (pos 0)) vs in
      ((r, any (pdiff_triggers F t v.value) vs), rw (rounds, e))

  enough_runs :
      (l : List (JudgeItem V)) (limit : ℤ) (body : List (HistoryData V) → Option (V × Bool))
      (vs : List (HistoryData V))
      → IsTotal limit body
      → history_data F l limit ≡ some (vs, true)
      → (r : V × Bool) × (body vs ≡ some r)
        × (v : HistoryData V) × (rest : List (HistoryData V)) × (vs ≡ v ∷ rest)
  enough_runs l limit body vs total_body e =
      let (n, q) = history_data-enough F l limit vs e in
      let (v, rest, same) = nonempty F vs limit n q in
      let (r, ran) = total_body v rest (rw same at n) in (r, ap body same ∙ ran, v, rest, same)

  points_then :
      (l : List (JudgeItem V)) (limit : ℤ) (body : List (HistoryData V) → Option (V × Bool))
      (r : List (HistoryData V) × Bool)
      → IsTotal limit body
      → history_data F l limit ≡ some r
      → (c : Computed V) × (with_points F l limit body ≡ some c)
  unfolding with_points
  points_then l limit body (vs, true) total_body e =
      let (r, ran, _, _, _) = enough_runs l limit body vs total_body e in
      (enough F vs r, rw (e, ran))
  points_then l limit body (vs, false) total_body e = (not_enough F vs, rw e)

  with_points-total :
      (l : List (JudgeItem V)) (limit : ℤ) (body : List (HistoryData V) → Option (V × Bool))
      → IsTyped l
      → limit <ℤ pos (2 ^ 63 - 1)
      → IsTotal limit body
      → (c : Computed V) × (with_points F l limit body ≡ some c)
  with_points-total l limit body h p total_body =
      let (r, e) = history_data-total l limit h p in points_then l limit body r total_body e

  previous_then :
      (l : List (JudgeItem V)) (limit : ℤ) (body : ℤ → List (HistoryData V) → Option (V × Bool))
      (r : List (HistoryData V) × Bool)
      → IsTotal (add64 limit (pos 1)) (body (add64 limit (pos 1)))
      → history_data F l (add64 limit (pos 1)) ≡ some r
      → (c : Computed V) × (with_previous F l limit body ≡ some c)
  unfolding with_previous
  previous_then l limit body (vs, true) total_body e =
      let (r, ran, v, rest, same) =
        enough_runs l (add64 limit (pos 1)) (body (add64 limit (pos 1))) vs total_body e in
      let full : (length vs == 0) ≡ false = ground (arith, ap (λ k. length k) same) in
      (enough F vs r, rw (e, full, ran))
  previous_then l limit body (vs, false) total_body e = (not_enough F vs, rw e)

  -- Compute of every judge function returns on a list whose front has a judge type, for a limit
  -- from -2^63 to below 2^63 - 2.
  pub compute-total :
      (f : Function) (t : Threshold V) (l : List (JudgeItem V))
      → IsTyped l
      → InRange64 (limit_of f)
      → limit_of f <ℤ pos (2 ^ 63 - 2)
      → (c : Computed V) × (compute F f t l ≡ some c)
  unfolding compute
  compute-total (max_function n) t l h r p =
      with_points-total l n (max_body F n t) h (omega arith) (max_body-IsTotal n t)
  compute-total (min_function n) t l h r p =
      with_points-total l n (min_body F n t) h (omega arith) (min_body-IsTotal n t)
  compute-total (all_function n) t l h r p =
      with_points-total l n (all_body F n t) h (omega arith) (all_body-IsTotal n t)
  compute-total (lookup_function k n) t l h r p =
      with_points-total l n (lookup_body F k n t) h (omega arith) (lookup_body-IsTotal k n t)
  compute-total (sum_function n) t l h r p =
      with_points-total l n (sum_body F n t) h (omega arith) (sum_body-IsTotal n t)
  compute-total (avg_function n) t l h r p =
      with_points-total l n (avg_body F n t) h (omega arith) (avg_body-IsTotal n t)
  compute-total (diff_function n) t l h r p =
      let m = add64 n (pos 1) in
      let (q, e) = history_data-total l m h (add64_one-lt n r p) in
      previous_then l n (λ k. diff_body F k t) q (diff_body-IsTotal m t) e
  compute-total (pdiff_function n) t l h r p =
      let m = add64 n (pos 1) in
      let (q, e) = history_data-total l m h (add64_one-lt n r p) in
      previous_then l n (λ k. pdiff_body F k t) q (pdiff_body-IsTotal m t) e
