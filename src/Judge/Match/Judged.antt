-- ===== src/Judge/Match/Judged.antt =====
-- modules/judge/store/judge.go: when `Judge` returns without a panic.
use falcon_plus_learn.Base.{
  Text, ◌≡◌, refl, ◌∙◌, some, List, [], ◌∷◌, ◌++◌, All, All-append, Bool-cases, Option-cases, inl,
  inr,
}
use falcon_plus_learn.Base.Int.{ℤ}
use falcon_plus_learn.Base.Float.{Float}
use falcon_plus_learn.Base.Map.{lookup}
use falcon_plus_learn.Common.Model.{JudgeItem, Strategy, Expression}
use falcon_plus_learn.Judge.Function.Total.{IsTyped}
use falcon_plus_learn.Judge.Alarm.{Env, Alerts}
use falcon_plus_learn.Judge.Alarm.Refine.{IsWellFormed}
use falcon_plus_learn.Judge.Match.{
  Rules, is_related, check_strategy, filter_related_expressions, build_keys_from_metric_and_tags,
  judge, is_handled, tags_for,
}
use falcon_plus_learn.Judge.Match.Select.{fresh, candidates, check_expression_lem}
use falcon_plus_learn.Judge.Match.Total.{Keeps, check_strategies-kept, judge_all-kept, IsSane}

-- Every function text of the rules is sane.
pub record IsSaneRules {V : Type 0} (rules : Rules V) : Type 0 where
  pub strategies :
      (key : Text) (rs : List (Strategy V))
      → lookup key rules.strategy_map ≡ some rs
      → All (λ r. IsSane r.func) rs
  pub expressions :
      (key : Text) (es : List (Expression V))
      → lookup key rules.expression_map ≡ some es
      → All (λ e. IsSane e.func) es

module _ {V : Type 0} where
  IsSane-filter :
      (es : List (Expression V)) (item : JudgeItem V)
      → All (λ e. IsSane e.func) es
      → All (λ e. IsSane e.func) (filter_related_expressions es item)
  unfolding filter_related_expressions
  IsSane-filter [] item h = tt
  IsSane-filter (e ∷ es) item h = elim (Bool-cases (is_related e.tags (tags_for e item))) [
    | inl t ↦ rw t (h.0, IsSane-filter es item h.1)
    | inr f ↦ rw f (IsSane-filter es item h.1)
  ]

  IsSane-candidates :
      (rules : Rules V) (keys : List Text) (item : JudgeItem V)
      → IsSaneRules rules
      → All (λ e. IsSane e.func) (candidates rules keys item)
  IsSane-candidates rules [] item h = tt
  IsSane-candidates rules (key ∷ keys) item h =
      elim (Option-cases (lookup key rules.expression_map)) [
        | inl n ↦ rw n (IsSane-candidates rules keys item h)
        | inr (es, y) ↦ rw y (
            All-append (λ e. IsSane e.func) (filter_related_expressions es item)
              (candidates rules keys item) (IsSane-filter es item (h.expressions key es y))
              (IsSane-candidates rules keys item h))
      ]

  IsSane-fresh :
      (handled : List ℤ) (es : List (Expression V))
      → All (λ e. IsSane e.func) es
      → All (λ e. IsSane e.func) (fresh handled es)
  IsSane-fresh handled [] h = tt
  IsSane-fresh handled (e ∷ es) h = elim (Bool-cases (is_handled e.id handled)) [
    | inl t ↦ rw t (IsSane-fresh handled es h.1)
    | inr f ↦ rw f (h.0, IsSane-fresh (e.id ∷ handled) es h.1)
  ]

module _ {V : Type 0} (F : Float V) (env : Env V) where
  check_strategy-kept :
      (rules : Rules V) (l : List (JudgeItem V)) (item : JudgeItem V) (now : ℤ) (s : Alerts V)
      → IsSaneRules rules
      → IsTyped l
      → IsWellFormed s
      → Keeps (check_strategy F env rules l item now s)
  unfolding check_strategy
  check_strategy-kept rules l item now s sane typed w =
      elim (Option-cases (lookup (item.endpoint ++ (b'/' ∷ item.metric)) rules.strategy_map)) [
        | inl n ↦ (s, rw (n, check_strategy) refl, w)
        | inr (rs, y) ↦
            let (s', q, w') =
              check_strategies-kept F env l rs item now s (sane.strategies _ rs y) typed w in
            (s', rw (y, check_strategy) q, w')
      ]

  -- Judge returns without a panic for a list whose front has a judge type, when each function text
  -- of the rules is one that the parser takes or refuses and has a limit from -2^63 to below 2^63
  -- - 2, and the kept statuses are known, which they stay.
  pub judge-total :
      (rules : Rules V) (l : List (JudgeItem V)) (item : JudgeItem V) (now : ℤ) (s : Alerts V)
      → IsSaneRules rules
      → IsTyped l
      → IsWellFormed s
      → Keeps (judge F env rules l item now s)
  unfolding judge
  judge-total rules l item now s sane typed w =
      let (s₁, q, w₁) = check_strategy-kept rules l item now s sane typed w in
      let cs = candidates rules (build_keys_from_metric_and_tags item) item in
      let (s₂, q₂, w₂) =
        judge_all-kept F env l (fresh [] cs) item now s₁
          (IsSane-fresh [] cs
            (IsSane-candidates rules (build_keys_from_metric_and_tags item) item sane))
          typed w₁ in
      (s₂, rw q ((check_expression_lem F env l item now rules s₁).0 ∙ q₂), w₂)
