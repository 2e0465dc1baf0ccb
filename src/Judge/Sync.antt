-- ===== src/Judge/Sync.antt =====
-- modules/judge/cron/strategy.go: the maps of strategies and expressions, rebuilt from what hbs sends.
pub mod Strategies
pub mod Expressions
pub mod Candidates
use falcon_plus_learn.Base.{Text, Option, none, some, List, [], ◌∷◌, ◌++◌}
use falcon_plus_learn.Base.Map.{Map, lookup, insert}
use falcon_plus_learn.Common.Model.{Strategy, HostStrategy, Expression}

-- `if exists { m[key] = append(m[key], x) } else { m[key] = []T{x} }`
unfoldable pub append_at : {A : Type 0} → Text → A → Map (List A) → Map (List A)
unfolding lookup insert
append_at key x m = elim (lookup key m) [
  | none ↦ insert key (x ∷ []) m
  | some xs ↦ insert key (xs ++ (x ∷ [])) m
]

module _ {V : Type 0} where
  unfoldable pub add_strategies :
      Text → List (Strategy V) → Map (List (Strategy V)) → Map (List (Strategy V))
  unfolding append_at
  add_strategies hostname [] m = m
  add_strategies hostname (s ∷ ss) m =
      add_strategies hostname ss (append_at (hostname ++ (b'/' ∷ s.metric)) s m)

  unfoldable pub add_hosts :
      List (HostStrategy V) → Map (List (Strategy V)) → Map (List (Strategy V))
  unfolding add_strategies
  add_hosts [] m = m
  add_hosts (h ∷ hs) m = add_hosts hs (add_strategies h.hostname h.strategies m)

  -- The map that `g.StrategyMap.ReInit` is given.
  unfoldable pub rebuild_strategy_map : List (HostStrategy V) → Map (List (Strategy V))
  unfolding add_hosts
  rebuild_strategy_map hs = add_hosts hs []

  unfoldable pub add_expression :
      Map Text → Expression V → Map (List (Expression V)) → Map (List (Expression V))
  unfolding append_at
  add_expression [] e m = m
  add_expression ((k, v) ∷ tags) e m =
      add_expression tags e (append_at (e.metric ++ (b'/' ∷ k ++ (b'=' ∷ v))) e m)

  unfoldable pub add_expressions :
      List (Expression V) → Map (List (Expression V)) → Map (List (Expression V))
  unfolding add_expression
  add_expressions [] m = m
  add_expressions (e ∷ es) m = add_expressions es (add_expression e.tags e m)

  -- The map that `g.ExpressionMap.ReInit` is given.
  unfoldable pub rebuild_expression_map : List (Expression V) → Map (List (Expression V))
  unfolding add_expressions
  rebuild_expression_map es = add_expressions es []
