-- ===== src/Judge/Tests/Rules.antt =====
-- Runs of the rules of modules/judge on one item.
use falcon_plus_learn.Base.{
  Text, codes, text_eq, ◌^◌, ◌≡◌, ◌-◌, ◌⊎◌, refl, ap, true, Option, none, some, [], ◌∷◌, arith, inl,
  inr, Bool-cases, All,
}
use mathlib.Core.Path.{subst}
use falcon_plus_learn.Base.Int.{ℤ, pos, InRange64, ◌<ℤ◌}
use falcon_plus_learn.Base.Map.{Map, lookup, insert}
use falcon_plus_learn.Base.Decimal.{fmt_int, fmt_digits}
use falcon_plus_learn.Common.Model.{Strategy, Expression}
use falcon_plus_learn.Judge.Function.{Function, all_function, lookup_function}
use falcon_plus_learn.Judge.Function.Total.{limit_of}
use falcon_plus_learn.Judge.Parse.{parse_func_from_string}
use falcon_plus_learn.Base.{◌↔◌}
use falcon_plus_learn.Base.Decimal.{split}
use falcon_plus_learn.Judge.Parse.Refused.{IsShort, IsRefused, parse_func_from_string-refused}
use falcon_plus_learn.Judge.Parse.Laws.{parse_func_from_string-func_text}
use falcon_plus_learn.Judge.Match.{
  Rules, check_strategy, check_expression, is_related, tags_for, copy_item_tags, insert_all,
  build_keys_from_metric_and_tags, judge,
}
use falcon_plus_learn.Judge.Match.Select.{
  fresh, candidates, judge_all, AreNew, check_expression_lem,
}
use falcon_plus_learn.Judge.Match.Total.{IsSane, Keeps}
use falcon_plus_learn.Judge.Match.Judged.{IsSaneRules, judge-total}
use falcon_plus_learn.Judge.Sync.{rebuild_strategy_map, rebuild_expression_map}
use falcon_plus_learn.Judge.Sync.Strategies.{judge_by, related, sent, check_strategy-rebuild}
use falcon_plus_learn.Judge.Sync.Candidates.{HasId, rebuild-candidates}
use falcon_plus_learn.Judge.Tests.{
  whole, item_at, three_items, cpu_strategy, cpu_expression, one_host, test_env, no_alerts,
}
use falcon_plus_learn.Judge.Tests.Alarm.{no_alerts-IsWellFormed}

parse_func_from_string-func_text_example :
    parse_func_from_string (codes "lookup(#2,3)") ≡ some (some (lookup_function (pos 2) (pos 3)))
unfolding fmt_int fmt_digits
parse_func_from_string-func_text_example =
    parse_func_from_string-func_text (lookup_function (pos 2) (pos 3))
      ((omega arith, omega arith), (omega arith, omega arith))

abbrev pub test_rules : Rules ℤ
test_rules = record {
  strategy_map = (codes "h1/cpu", cpu_strategy ∷ []) ∷ [];
  expression_map =
      (codes "cpu/core=0", cpu_expression ∷ [])
      ∷ (codes "cpu/endpoint=h1", cpu_expression ∷ [])
      ∷ [];
}

check_expression_lem_example :
    (check_expression whole test_env test_rules three_items
        (item_at (pos 30) (pos 9))
        (pos 31)
        no_alerts
      ≡ judge_all whole test_env three_items
          (item_at (pos 30) (pos 9))
          (pos 31)
          (fresh [] (
            candidates test_rules
              (build_keys_from_metric_and_tags (item_at (pos 30) (pos 9)))
              (item_at (pos 30) (pos 9))))
          no_alerts)
    × AreNew [] (
        fresh [] (
          candidates test_rules
            (build_keys_from_metric_and_tags (item_at (pos 30) (pos 9)))
            (item_at (pos 30) (pos 9))))
check_expression_lem_example =
    check_expression_lem whole test_env three_items (item_at (pos 30) (pos 9)) (pos 31) test_rules
      no_alerts

check_strategy-rebuild_example :
    check_strategy whole test_env
      (record { strategy_map = rebuild_strategy_map one_host; expression_map = [] })
      three_items
      (item_at (pos 30) (pos 9))
      (pos 31)
      no_alerts
    ≡ judge_by whole test_env three_items
        (item_at (pos 30) (pos 9))
        (pos 31)
        (related (item_at (pos 30) (pos 9)) (sent (codes "h1/cpu") one_host))
        no_alerts
check_strategy-rebuild_example =
    check_strategy-rebuild whole test_env three_items (item_at (pos 30) (pos 9)) (pos 31) one_host
      [] no_alerts

rebuild-candidates_example : HasId (pos 7) (
    fresh [] (
      candidates
        (record {
          strategy_map = [];
          expression_map = rebuild_expression_map (cpu_expression ∷ []);
        })
        (build_keys_from_metric_and_tags (item_at (pos 30) (pos 9)))
        (item_at (pos 30) (pos 9))))
rebuild-candidates_example =
    rebuild-candidates (cpu_expression ∷ []) [] cpu_expression (item_at (pos 30) (pos 9))
      (codes "core") (codes "0") ((codes "endpoint", codes "h1") ∷ []) (inl refl) refl refl
      related_here
  where
    related_here :
        is_related cpu_expression.tags (tags_for cpu_expression (item_at (pos 30) (pos 9))) ≡ true
    related_here =
        unfold is_related tags_for copy_item_tags insert_all lookup insert text_eq in refl

abbrev limit_or_zero : Option Function → ℤ
limit_or_zero none = pos 0
limit_or_zero (some f) = limit_of f

func_IsSane : IsSane (codes "all(#2)")
unfolding fmt_int fmt_digits
func_IsSane = record {
  parsed = some (all_function (pos 2));
  parses = parse_func_from_string-func_text (all_function (pos 2)) (omega arith, omega arith);
  in_range = λ f e.
      subst (λ n. InRange64 n × (n <ℤ pos (2 ^ 63 - 2))) (ap limit_or_zero e)
        ((omega arith, omega arith), omega arith);
}

one_entry :
    {A : Type 0} (k j : Text) (x y : A) (m : Map A)
    → lookup j ((k, x) ∷ m) ≡ some y
    → (x ≡ y) ⊎ (lookup j m ≡ some y)
unfolding lookup
one_entry k j x y m h = elim (Bool-cases (text_eq k j)) [
  | inl t ↦ inl (ground arith)
  | inr f ↦ inr (ground arith)
]

pub test_rules-IsSaneRules : IsSaneRules test_rules
test_rules-IsSaneRules = record {
  strategies = λ key rs e. elim (one_entry (codes "h1/cpu") key (cpu_strategy ∷ []) rs [] e) [
    | inl q ↦ subst (λ l. All (λ (r : Strategy ℤ). IsSane r.func) l) q (func_IsSane, tt)
    | inr q ↦ absurd (unfold lookup in cc)
  ];
  expressions = λ key es e.
      elim (one_entry (codes "cpu/core=0") key (cpu_expression ∷ []) es
        ((codes "cpu/endpoint=h1", cpu_expression ∷ []) ∷ []) e) [
          | inl q ↦ subst (λ l. All (λ (r : Expression ℤ). IsSane r.func) l) q (func_IsSane, tt)
          | inr q ↦ elim (one_entry (codes "cpu/endpoint=h1") key (cpu_expression ∷ []) es [] q) [
            | inl r ↦ subst (λ l. All (λ (r : Expression ℤ). IsSane r.func) l) r (func_IsSane, tt)
            | inr r ↦ absurd (unfold lookup in cc)
          ]
        ];
}

parse_func_from_string-refused_example :
    ((parse_func_from_string (codes "lookup(#3)") ≡ none) ↔ IsShort (codes "lookup") (codes "3"))
    × ((parse_func_from_string (codes "lookup(#3)") ≡ some none)
        ↔ IsRefused (codes "lookup") (codes "3"))
parse_func_from_string-refused_example =
    parse_func_from_string-refused (codes "lookup") (codes "3") (omega arith)

-- The panic at `args[1]`.
parse_func_from_string_run : parse_func_from_string (codes "lookup(#3)") ≡ none
unfolding parse_func_from_string split
parse_func_from_string_run = refl

judge-total_example :
    Keeps
      (judge whole test_env test_rules three_items (item_at (pos 30) (pos 9)) (pos 31) no_alerts)
judge-total_example =
    judge-total whole test_env test_rules three_items (item_at (pos 30) (pos 9)) (pos 31) no_alerts
      test_rules-IsSaneRules (b'G', codes "AUGE", refl) no_alerts-IsWellFormed
