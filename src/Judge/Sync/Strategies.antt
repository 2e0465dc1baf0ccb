-- ===== src/Judge/Sync/Strategies.antt =====
-- modules/judge/cron/strategy.go with store/judge.go: an item is judged by the strategies that were
-- sent for its endpoint and metric and whose tags it has.
use mathlib.Core.List.{append-nil, append_assoc}
use falcon_plus_learn.Base.{
  Text, text_eq, text_eq_iff, ◌≡◌, refl, sym, ap, ◌∙◌, Option, none, some, List, [], ◌∷◌, ◌++◌,
  if◌then◌else◌, ◌>>=◌, arith, Bool-cases, Option-cases, inl, inr,
}
use falcon_plus_learn.Base.Int.{ℤ}
use falcon_plus_learn.Base.Float.{Float}
use falcon_plus_learn.Base.Map.{Map, lookup, lookup-insert}
use falcon_plus_learn.Common.Model.{JudgeItem, Strategy, HostStrategy, Expression}
use falcon_plus_learn.Judge.Alarm.{Env, Alerts}
use falcon_plus_learn.Judge.Match.{
  is_related, judge_item_with_strategy, check_strategies, check_strategy,
}
use falcon_plus_learn.Judge.Sync.{append_at, add_strategies, add_hosts, rebuild_strategy_map}

-- The entries at a key, none if it is missing.
abbrev pub entries : {A : Type 0} → Text → Map (List A) → List A
entries key m = elim (lookup key m) [ none ↦ [] | some xs ↦ xs ]

pub entries-append_at :
    {A : Type 0} (key j : Text) (x : A) (m : Map (List A))
    → entries j (append_at key x m)
      ≡ (if text_eq key j then entries j m ++ (x ∷ []) else entries j m)
unfolding append_at
entries-append_at key j x m = elim (Option-cases (lookup key m)) [
  | inl n ↦ ground (arith, n, lookup-insert key j (x ∷ []) m, text_eq_iff key j)
  | inr (xs, y) ↦ ground (arith, y, lookup-insert key j (xs ++ (x ∷ [])) m, text_eq_iff key j)
]

module _ {V : Type 0} where
  -- The strategies of a host whose key is `key`, and those of all hosts, in the order sent.
  abbrev pub keyed : Text → Text → List (Strategy V) → List (Strategy V)
  keyed hostname key [] = []
  keyed hostname key (s ∷ ss) =
      let rest = keyed hostname key ss in
      if text_eq (hostname ++ (b'/' ∷ s.metric)) key then s ∷ rest else rest

  abbrev pub sent : Text → List (HostStrategy V) → List (Strategy V)
  sent key [] = []
  sent key (h ∷ hs) = keyed h.hostname key h.strategies ++ sent key hs

  entries-add_strategies :
      (hostname key : Text) (ss : List (Strategy V)) (m : Map (List (Strategy V)))
      → entries key (add_strategies hostname ss m) ≡ entries key m ++ keyed hostname key ss
  unfolding add_strategies
  entries-add_strategies hostname key [] m = sym (append-nil (entries key m))
  entries-add_strategies hostname key (s ∷ ss) m =
      let k = hostname ++ (b'/' ∷ s.metric) in
      entries-add_strategies hostname key ss (append_at k s m)
      ∙ ap (λ l. l ++ keyed hostname key ss) (entries-append_at k key s m)
      ∙ elim (Bool-cases (text_eq k key)) [
        | inl e ↦ rw e (append_assoc (entries key m) (s ∷ []) (keyed hostname key ss))
        | inr e ↦ rw e refl
      ]

  entries-add_hosts :
      (key : Text) (hs : List (HostStrategy V)) (m : Map (List (Strategy V)))
      → entries key (add_hosts hs m) ≡ entries key m ++ sent key hs
  unfolding add_hosts
  entries-add_hosts key [] m = sym (append-nil (entries key m))
  entries-add_hosts key (h ∷ hs) m =
      entries-add_hosts key hs (add_strategies h.hostname h.strategies m)
      ∙ ap (λ l. l ++ sent key hs) (entries-add_strategies h.hostname key h.strategies m)
      ∙ append_assoc (entries key m) (keyed h.hostname key h.strategies) (sent key hs)

  pub entries-rebuild_strategy_map :
      (key : Text) (hs : List (HostStrategy V))
      → entries key (rebuild_strategy_map hs) ≡ sent key hs
  unfolding rebuild_strategy_map lookup
  entries-rebuild_strategy_map key hs = entries-add_hosts key hs []

  -- The strategies of a list whose tags the item has.
  abbrev pub related : JudgeItem V → List (Strategy V) → List (Strategy V)
  related item [] = []
  related item (r ∷ rs) =
      let rest = related item rs in if is_related r.tags item.tags then r ∷ rest else rest

module _ {V : Type 0} (F : Float V) (env : Env V) (l : List (JudgeItem V)) (item : JudgeItem V)
    (now : ℤ) where
  -- Judge by each strategy of a list, in order.
  abbrev pub judge_by : List (Strategy V) → Alerts V → Option (Alerts V)
  judge_by [] s = some s
  judge_by (r ∷ rs) s = do s' ← judge_item_with_strategy F env l r item now s; judge_by rs s'

  check_strategies_lem :
      (rs : List (Strategy V)) (s : Alerts V)
      → check_strategies F env l rs item now s ≡ judge_by (related item rs) s
  unfolding check_strategies
  check_strategies_lem [] s = refl
  check_strategies_lem (r ∷ rs) s = elim (Bool-cases (is_related r.tags item.tags)) [
    | inr e ↦ rw (e, check_strategies) (check_strategies_lem rs s)
    | inl e ↦ elim (Option-cases (judge_item_with_strategy F env l r item now s)) [
      | inl n ↦ rw (e, n, check_strategies) refl
      | inr (s', y) ↦ rw (e, y, check_strategies) (check_strategies_lem rs s')
    ]
  ]

  -- After rebuildStrategyMap, CheckStrategy judges an item by exactly the strategies that were
  -- sent under the key of its endpoint and metric and whose tags it has, in the order sent.
  pub check_strategy-rebuild :
      (hs : List (HostStrategy V)) (es : Map (List (Expression V))) (s : Alerts V)
      → check_strategy F env
          (record { strategy_map = rebuild_strategy_map hs; expression_map = es })
          l
          item
          now
          s
        ≡ judge_by (related item (sent (item.endpoint ++ (b'/' ∷ item.metric)) hs)) s
  unfolding check_strategy
  check_strategy-rebuild hs es s =
      looked_up (lookup key (rebuild_strategy_map hs))
      ∙ ap (λ rs. judge_by (related item rs) s) (entries-rebuild_strategy_map key hs)
    where
      key : Text
      key = item.endpoint ++ (b'/' ∷ item.metric)

      looked_up :
          (o : Option (List (Strategy V)))
          → ◌≡◌ {A = Option (Alerts V)}
              (elim o [ none ↦ some s | some rs ↦ check_strategies F env l rs item now s ])
              (judge_by (related item (elim o [ none ↦ [] | some rs ↦ rs ])) s)
      looked_up none = refl
      looked_up (some rs) = check_strategies_lem rs s
