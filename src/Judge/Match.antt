-- ===== src/Judge/Match.antt =====
-- modules/judge/store/judge.go: which strategies and expressions are judged for a new item, and the
-- event that each gives.
pub mod Select
pub mod Ids
pub mod Total
pub mod Judged
use falcon_plus_learn.Base.{
  Text, codes, text_eq, Bool, true, false, not, Option, none, some, List, [], ◌∷◌, ◌++◌, ◌||◌, any,
  if◌then◌else◌, ◌>>=◌,
}
use falcon_plus_learn.Base.Int.{ℤ, pos, eqb_ℤ}
use falcon_plus_learn.Base.Decimal.{fmt_int}
use falcon_plus_learn.Base.Float.{Float}
use falcon_plus_learn.Base.Map.{Map, lookup, insert}
use falcon_plus_learn.Common.Model.{JudgeItem, Strategy, Expression, Event}
use falcon_plus_learn.Common.Tags.{pk}
use falcon_plus_learn.Judge.Function.{Function, Threshold, Computed, compute}
use falcon_plus_learn.Judge.Parse.{parse_func_from_string}
use falcon_plus_learn.Judge.Alarm.{Env, Alerts, send_event_if_need}

-- `g.StrategyMap` and `g.ExpressionMap`
pub record Rules (V : Type 0) : Type 0 where
  pub strategy_map : Map (List (Strategy V))
  pub expression_map : Map (List (Expression V))

-- Every tag of a rule has its value among the tags of the item.
unfoldable pub is_related : Map Text → Map Text → Bool
unfolding lookup text_eq
is_related [] item_tags = true
is_related ((k, v) ∷ tags) item_tags =
    let rest = is_related tags item_tags in
    elim (lookup k item_tags) [ none ↦ false | some w ↦ if text_eq w v then rest else false ]

unfoldable pub insert_all : Map Text → Map Text → Map Text
unfolding insert
insert_all [] m = m
insert_all ((k, v) ∷ tags) m = insert_all tags (insert k v m)

-- `fmt.Sprintf("s_%d_%s", id, pk)` and `"e_%d_%s"`
unfoldable pub strategy_event_id : ℤ → Text → Text
unfolding fmt_int
strategy_event_id id key = codes "s_" ++ (fmt_int id ++ (b'_' ∷ key))

unfoldable pub expression_event_id : ℤ → Text → Text
unfolding fmt_int
expression_event_id id key = codes "e_" ++ (fmt_int id ++ (b'_' ∷ key))

-- `metric/k=v` for each tag
unfoldable pub tag_keys : Text → Map Text → List Text
tag_keys metric [] = []
tag_keys metric ((k, v) ∷ tags) = (metric ++ (b'/' ∷ k ++ (b'=' ∷ v))) ∷ tag_keys metric tags

-- Whether an expression was handled before.
abbrev pub is_handled : ℤ → List ℤ → Bool
is_handled id handled = any (λ j. eqb_ℤ j id) handled

module _ {V : Type 0} where
  unfoldable pub primary_key : Env V → JudgeItem V → Text
  unfolding pk
  primary_key env item = env.md5 (pk item.endpoint item.metric item.tags)

  unfoldable pub copy_item_tags : JudgeItem V → Map Text
  unfolding insert_all
  copy_item_tags item = insert_all item.tags ((codes "endpoint", item.endpoint) ∷ [])

  -- The tags that an expression is compared with: those of the item, and its endpoint as one more
  -- if the expression has a tag of that name.
  unfoldable pub tags_for : Expression V → JudgeItem V → Map Text
  unfolding copy_item_tags lookup
  tags_for e item = elim (lookup (codes "endpoint") e.tags) [
    | none ↦ item.tags
    | some _ ↦ copy_item_tags item
  ]

  unfoldable pub filter_related_expressions :
      List (Expression V) → JudgeItem V → List (Expression V)
  unfolding is_related tags_for
  filter_related_expressions [] item = []
  filter_related_expressions (e ∷ es) item =
      let rest = filter_related_expressions es item in
      if is_related e.tags (tags_for e item) then e ∷ rest else rest

  unfoldable pub build_keys_from_metric_and_tags : JudgeItem V → List Text
  unfolding tag_keys
  build_keys_from_metric_and_tags item =
      tag_keys item.metric item.tags
      ++ ((item.metric ++ (codes "/endpoint=" ++ item.endpoint)) ∷ [])

module _ {V : Type 0} (F : Float V) (env : Env V) where
  -- The common part of `judgeItemWithStrategy` and `judgeItemWithExpression`: parse, compute, and
  -- hand an event on. `none` is a panic; an error of the parser is logged.
  unfoldable pub judge_item :
      Text → Threshold V → (V → Event V) → ℤ → List (JudgeItem V) → ℤ → Alerts V → Option (Alerts V)
  judge_item func threshold event max_step l now s = do
    parsed ← parse_func_from_string func
    elim parsed [
      | none ↦ some s
      | some fn ↦ do
        c ← compute F fn threshold l
        if c.is_enough
            then send_event_if_need env c.vs c.is_triggered now (event c.left_value) max_step s
            else some s
    ]

  unfoldable pub strategy_event : Strategy V → JudgeItem V → V → Event V
  unfolding strategy_event_id primary_key
  strategy_event strategy item left = record {
    id = strategy_event_id strategy.id (primary_key env item);
    strategy = some strategy;
    expression = none;
    status = [];
    endpoint = item.endpoint;
    left_value = left;
    current_step = pos 0;
    event_time = item.timestamp;
    pushed_tags = item.tags;
  }

  unfoldable pub judge_item_with_strategy :
      List (JudgeItem V) → Strategy V → JudgeItem V → ℤ → Alerts V → Option (Alerts V)
  unfolding judge_item strategy_event
  judge_item_with_strategy l strategy item now s =
      judge_item strategy.func
        (record { operator = strategy.operator; right_value = strategy.right_value })
        (strategy_event strategy item) strategy.max_step l now s

  unfoldable pub expression_event : Expression V → JudgeItem V → V → Event V
  unfolding expression_event_id primary_key
  expression_event expression item left = record {
    id = expression_event_id expression.id (primary_key env item);
    strategy = none;
    expression = some expression;
    status = [];
    endpoint = item.endpoint;
    left_value = left;
    current_step = pos 0;
    event_time = item.timestamp;
    pushed_tags = item.tags;
  }

  unfoldable pub judge_item_with_expression :
      List (JudgeItem V) → Expression V → JudgeItem V → ℤ → Alerts V → Option (Alerts V)
  unfolding judge_item expression_event
  judge_item_with_expression l expression item now s =
      judge_item expression.func
        (record { operator = expression.operator; right_value = expression.right_value })
        (expression_event expression item) expression.max_step l now s

  unfoldable pub check_strategies :
      List (JudgeItem V) → List (Strategy V) → JudgeItem V → ℤ → Alerts V → Option (Alerts V)
  check_strategies l [] item now s = some s
  check_strategies l (r ∷ rs) item now s =
      let skip = check_strategies l rs item now s in
      if is_related r.tags item.tags
      then (do s' ← judge_item_with_strategy l r item now s; check_strategies l rs item now s')
      else skip

  unfoldable pub check_strategy :
      Rules V → List (JudgeItem V) → JudgeItem V → ℤ → Alerts V → Option (Alerts V)
  check_strategy rules l item now s =
      elim (lookup (item.endpoint ++ (b'/' ∷ item.metric)) rules.strategy_map) [
        | none ↦ some s
        | some rs ↦ check_strategies l rs item now s
      ]

  -- The inner loop, with the set of handled expressions.
  unfoldable pub judge_expressions :
      List (JudgeItem V)
      → List (Expression V)
      → JudgeItem V
      → ℤ
      → List ℤ × Alerts V
      → Option (List ℤ × Alerts V)
  judge_expressions l [] item now (handled, s) = some (handled, s)
  judge_expressions l (e ∷ es) item now (handled, s) =
      let skip = judge_expressions l es item now (handled, s) in
      if is_handled e.id handled then skip else (do
        s' ← judge_item_with_expression l e item now s
        judge_expressions l es item now (e.id ∷ handled, s'))

  -- The body of the loop over the keys; a key that is missing from the map is passed over.
  unfoldable pub judge_key :
      Option (List (Expression V))
      → List (JudgeItem V)
      → JudgeItem V
      → ℤ
      → List ℤ × Alerts V
      → Option (List ℤ × Alerts V)
  judge_key none l item now r = some r
  judge_key (some es) l item now r =
      judge_expressions l (filter_related_expressions es item) item now r

  unfoldable pub judge_keys :
      Rules V
      → List (JudgeItem V)
      → List Text
      → JudgeItem V
      → ℤ
      → List ℤ × Alerts V
      → Option (List ℤ × Alerts V)
  judge_keys rules l [] item now r = some r
  judge_keys rules l (key ∷ keys) item now r = do
    r' ← judge_key (lookup key rules.expression_map) l item now r
    judge_keys rules l keys item now r'

  unfoldable pub check_expression :
      Rules V → List (JudgeItem V) → JudgeItem V → ℤ → Alerts V → Option (Alerts V)
  check_expression rules l item now s = do
    r ← judge_keys rules l (build_keys_from_metric_and_tags item) item now ([], s)
    some r.1

  unfoldable pub judge :
      Rules V → List (JudgeItem V) → JudgeItem V → ℤ → Alerts V → Option (Alerts V)
  judge rules l item now s = do
    s' ← check_strategy rules l item now s
    check_expression rules l item now s'
