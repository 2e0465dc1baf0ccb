-- ===== src/Judge/Match/Total.antt =====
-- modules/judge/store/judge.go: an item that is judged by one rule leaves known statuses.
use falcon_plus_learn.Base.{
  Text, Bool, ◌≤◌, ◌^◌, ◌≡◌, refl, ap, ◌∙◌, true, Option, some, List, [], ◌∷◌, length, get_elem?,
  ◌-◌, All, arith, Bool-cases, Option-cases, inl, inr,
}
use falcon_plus_learn.Base.Int.{ℤ, pos, InRange64, ◌<ℤ◌}
use falcon_plus_learn.Base.Float.{Float}
use falcon_plus_learn.Common.Model.{JudgeItem, HistoryData, Strategy, Expression, Event, priority}
use falcon_plus_learn.Judge.Function.{
  Function, Threshold, Computed, compute, max_function, min_function, all_function, lookup_function,
  sum_function, avg_function, diff_function, pdiff_function, diff_body, pdiff_body,
}
use falcon_plus_learn.Judge.Function.Total.{IsTyped, limit_of, compute-total}
use falcon_plus_learn.Judge.Function.Compute.{with_points-enough, with_previous-enough}
use falcon_plus_learn.Judge.Parse.{parse_func_from_string}
use falcon_plus_learn.Judge.Alarm.{Env, Alerts, send_event_if_need}
use falcon_plus_learn.Judge.Alarm.Refine.{IsWellFormed}
use falcon_plus_learn.Judge.Alarm.Steps.{send_event_if_need-Step}
use falcon_plus_learn.Judge.Match.{
  is_related, judge_item, judge_item_with_strategy, judge_item_with_expression, check_strategies,
  strategy_event, expression_event,
}
use falcon_plus_learn.Judge.Match.Select.{judge_all}

-- The text of a judge function is one that `ParseFuncFromString` takes or refuses, and a limit that
-- it has is at least -2^63 and below 2^63 - 2.
pub record IsSane (func : Text) : Type 0 where
  pub parsed : Option Function
  pub parses : parse_func_from_string func ≡ some parsed
  pub in_range :
      (f : Function) → parsed ≡ some f → InRange64 (limit_of f) × (limit_of f <ℤ pos (2 ^ 63 - 2))

-- A step that returns, and keeps the statuses known.
abbrev pub Keeps : {V : Type 0} → Option (Alerts V) → Type 0
Keeps {V = V} r = (s' : Alerts V) × (r ≡ some s') × IsWellFormed s'

module _ {V : Type 0} (F : Float V) where
  -- Enough points are at least one point.
  compute-points :
      (f : Function) (t : Threshold V) (l : List (JudgeItem V)) (c : Computed V)
      → compute F f t l ≡ some c
      → c.is_enough ≡ true
      → 1 ≤ length c.vs
  unfolding compute
  compute-points (max_function n) t l c h e = ground (arith, with_points-enough F l n _ c h e)
  compute-points (min_function n) t l c h e = ground (arith, with_points-enough F l n _ c h e)
  compute-points (all_function n) t l c h e = ground (arith, with_points-enough F l n _ c h e)
  compute-points (lookup_function k n) t l c h e = ground (arith, with_points-enough F l n _ c h e)
  compute-points (sum_function n) t l c h e = ground (arith, with_points-enough F l n _ c h e)
  compute-points (avg_function n) t l c h e = ground (arith, with_points-enough F l n _ c h e)
  compute-points (diff_function n) t l c h e =
      ground (arith, with_previous-enough F l n (λ k. diff_body F k t) c h e)
  compute-points (pdiff_function n) t l c h e =
      ground (arith, with_previous-enough F l n (λ k. pdiff_body F k t) c h e)

last_point : {A : Type 0} (x : A) (l : List A) → (y : A) × (get_elem? (x ∷ l) (length l) ≡ some y)
last_point x [] = (x, refl)
last_point x (y ∷ l) = last_point y l

last_of : {A : Type 0} (l : List A) → 1 ≤ length l → (y : A) × (get_elem? l (length l - 1) ≡ some y)
last_of [] h = absurd (omega arith)
last_of (x ∷ l) h =
    let (y, q) = last_point x l in (y, ap (λ k. get_elem? (x ∷ l) k) (omega arith) ∙ q)

module _ {V : Type 0} (F : Float V) (env : Env V) where
  send_kept :
      (vs : List (HistoryData V)) (triggered : Bool) (now max_step p : ℤ) (e : Event V)
      (s : Alerts V)
      → IsWellFormed s
      → priority e ≡ some p
      → 1 ≤ length vs
      → Keeps (send_event_if_need env vs triggered now e max_step s)
  send_kept vs triggered now max_step p e s w q n =
      let (oldest, g) = last_of vs n in
      let (_, s', r, _, _, _, w') =
        send_event_if_need-Step env vs max_step p e
          (record {
            is_triggered = triggered;
            now = now;
            time = e.event_time;
            oldest = oldest.timestamp;
          })
          s oldest w q refl g refl in
      (s', r, w')

  judge_item-kept :
      (func : Text) (t : Threshold V) (event : V → Event V) (max_step p : ℤ)
      (l : List (JudgeItem V)) (now : ℤ) (s : Alerts V)
      → IsSane func
      → ((x : V) → priority (event x) ≡ some p)
      → IsTyped l
      → IsWellFormed s
      → Keeps (judge_item F env func t event max_step l now s)
  unfolding judge_item
  judge_item-kept func t event max_step p l now s sane q typed w = elim (Option-cases sane.parsed) [
    | inl n ↦ (s, rw (sane.parses, n) refl, w)
    | inr (f, y) ↦
        let (c, run) = compute-total F f t l typed (sane.in_range f y).0 (sane.in_range f y).1 in
        elim (Bool-cases c.is_enough) [
          | inl b ↦
              let (s', r, w') =
                send_kept c.vs c.is_triggered now max_step p (event c.left_value) s w
                  (q c.left_value) (compute-points F f t l c run b) in
              (s', rw (sane.parses, y, run, b) r, w')
          | inr b ↦ (s, rw (sane.parses, y, run, b) refl, w)
        ]
  ]

  judge_item_with_strategy-kept :
      (l : List (JudgeItem V)) (r : Strategy V) (item : JudgeItem V) (now : ℤ) (s : Alerts V)
      → IsSane r.func
      → IsTyped l
      → IsWellFormed s
      → Keeps (judge_item_with_strategy F env l r item now s)
  unfolding judge_item_with_strategy
  judge_item_with_strategy-kept l r item now s sane typed w =
      judge_item-kept r.func _ _ r.max_step r.priority l now s sane
        (λ x. unfold priority strategy_event in refl) typed w

  judge_item_with_expression-kept :
      (l : List (JudgeItem V)) (e : Expression V) (item : JudgeItem V) (now : ℤ) (s : Alerts V)
      → IsSane e.func
      → IsTyped l
      → IsWellFormed s
      → Keeps (judge_item_with_expression F env l e item now s)
  unfolding judge_item_with_expression
  judge_item_with_expression-kept l e item now s sane typed w =
      judge_item-kept e.func _ _ e.max_step e.priority l now s sane
        (λ x. unfold priority expression_event in refl) typed w

  pub check_strategies-kept :
      (l : List (JudgeItem V)) (rs : List (Strategy V)) (item : JudgeItem V) (now : ℤ)
      (s : Alerts V)
      → All (λ r. IsSane r.func) rs
      → IsTyped l
      → IsWellFormed s
      → Keeps (check_strategies F env l rs item now s)
  unfolding check_strategies
  check_strategies-kept l [] item now s sane typed w = (s, refl, w)
  check_strategies-kept l (r ∷ rs) item now s sane typed w =
      elim (Bool-cases (is_related r.tags item.tags)) [
        | inl t ↦
            let (s₁, q, w₁) = judge_item_with_strategy-kept l r item now s sane.0 typed w in
            let (s₂, q₂, w₂) = check_strategies-kept l rs item now s₁ sane.1 typed w₁ in
            (s₂, rw (t, q, check_strategies) q₂, w₂)
        | inr f ↦
            let (s₁, q, w₁) = check_strategies-kept l rs item now s sane.1 typed w in
            (s₁, rw (f, check_strategies) q, w₁)
      ]

  pub judge_all-kept :
      (l : List (JudgeItem V)) (es : List (Expression V)) (item : JudgeItem V) (now : ℤ)
      (s : Alerts V)
      → All (λ e. IsSane e.func) es
      → IsTyped l
      → IsWellFormed s
      → Keeps (judge_all F env l item now es s)
  judge_all-kept l [] item now s sane typed w = (s, refl, w)
  judge_all-kept l (e ∷ es) item now s sane typed w =
      let (s₁, q, w₁) = judge_item_with_expression-kept l e item now s sane.0 typed w in
      let (s₂, q₂, w₂) = judge_all-kept l es item now s₁ sane.1 typed w₁ in (s₂, rw q q₂, w₂)
