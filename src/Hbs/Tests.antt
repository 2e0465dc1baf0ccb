-- ===== src/Hbs/Tests.antt =====
-- Runs of modules/hbs on two templates, a host and its agent.
use falcon_plus_learn.Base.{
  Text, codes, text_eq, ◌≤◌, ◌≡◌, ◌↔◌, ◌≢◌, refl, true, Option, none, some, List, [], ◌∷◌, length,
  ◌⊎◌, text_eq_iff, arith, Has,
}
use mathlib.Core.Option
use falcon_plus_learn.Base.Int.{ℤ, pos, sub64}
use falcon_plus_learn.Base.Map.{lookup, delete}
use falcon_plus_learn.Base.IntMap.{IntMap, lookup_int}
use falcon_plus_learn.Common.Model.{Template, Strategy, HostStrategy}
use falcon_plus_learn.Judge.Sync.{rebuild_strategy_map}
use falcon_plus_learn.Judge.Sync.Strategies.{entries}
use falcon_plus_learn.Hbs.Templates.{reversed, parent_ids}
use falcon_plus_learn.Hbs.Templates.Chain.{Line, parent_ids_lem}
use falcon_plus_learn.Hbs.Inherit.{
  tpl_buckets, uniq_tpl_buckets, tpl2_strategies, calc_inherit_strategies,
}
use falcon_plus_learn.Hbs.Inherit.Override.{youngest}
use falcon_plus_learn.Hbs.Inherit.Handed.{AreDistinct, has_id}
use falcon_plus_learn.Hbs.Inherit.Longest.{IsLongest}
use falcon_plus_learn.Hbs.Inherit.Buckets.{InBucket, Inherited, calc_inherit_strategies_lem}
use falcon_plus_learn.Hbs.Hosts.{Host, Caches, get_strategies}
use falcon_plus_learn.Hbs.Hosts.Judged.{OfHost, get_strategies-judged}
use falcon_plus_learn.Hbs.Hosts.Served.{Served, get_strategies-Served}
use falcon_plus_learn.Hbs.Plugins.{get_plugins}
use falcon_plus_learn.Hbs.Plugins.Rising.{IsRising}
use falcon_plus_learn.Hbs.Plugins.Sorted.{get_plugins_lem}
use falcon_plus_learn.Hbs.Plugins.Sorted
use falcon_plus_learn.Hbs.Expressions.{parsed, parse_expression}
use falcon_plus_learn.Hbs.Expressions.Read.{
  written, insert_all, letters-IsPlainText, parse_expression-written,
}
use falcon_plus_learn.Hbs.Agents.{AgentReportRequest, AgentUpdateInfo, Agents, delete_stale_agents}
use falcon_plus_learn.Hbs.Agents.Stale.{AreNamed, put_all, delete_stale_agents-put_all}

abbrev template : ℤ → ℤ → Template
template id parent = record {
  id = id;
  name = codes "t";
  parent_id = parent;
  action_id = pos 1;
  creator = codes "root";
}

-- Template 2 inherits from template 1.
abbrev two_templates : IntMap Template
two_templates = (pos 1, template (pos 1) (pos 0)) ∷ (pos 2, template (pos 2) (pos 1)) ∷ []

abbrev strategy : ℤ → Text → ℤ → Template → Strategy ℤ
strategy id metric limit tpl = record {
  id = id;
  metric = metric;
  tags = [];
  func = codes "all(#3)";
  operator = codes ">";
  right_value = limit;
  max_step = pos 3;
  priority = pos 0;
  note = [];
  tpl = some tpl;
}

-- Template 2 replaces the strategy for cpu.
abbrev three_strategies : IntMap (Option (Strategy ℤ))
three_strategies =
    (pos 10, some (strategy (pos 10) (codes "cpu") (pos 80) (template (pos 1) (pos 0))))
    ∷ (pos 11, some (strategy (pos 11) (codes "mem") (pos 90) (template (pos 1) (pos 0))))
    ∷ (pos 12, some (strategy (pos 12) (codes "cpu") (pos 95) (template (pos 2) (pos 1))))
    ∷ []

parent_ids_run : parent_ids two_templates (pos 2) ≡ pos 1 ∷ pos 2 ∷ []
unfolding parent_ids
parent_ids_run = refl

parent_ids_lem_example :
    ((ids : List ℤ) × Line two_templates (pos 2) ids
      × (length ids ≤ 9)
      × (parent_ids two_templates (pos 2) ≡ reversed ids))
    ⊎ ((parent_ids two_templates (pos 2) ≡ [])
        × ((ids : List ℤ) → Line two_templates (pos 2) ids → 10 ≤ length ids))
parent_ids_lem_example = parent_ids_lem two_templates (pos 2)

-- The ids and limits that are handed out.
abbrev ids_of : List (Strategy ℤ) → List (ℤ × ℤ)
ids_of [] = []
ids_of (s ∷ ss) = (s.id, s.right_value) ∷ ids_of ss

calc_inherit_strategies_run :
    Option.map ids_of (
      calc_inherit_strategies two_templates (tpl2_strategies three_strategies) (pos 1 ∷ pos 2 ∷ []))
    ≡ some ((pos 12, pos 95) ∷ (pos 11, pos 90) ∷ [])
unfolding calc_inherit_strategies tpl2_strategies
calc_inherit_strategies_run = refl

calc_inherit_strategies_lem_example :
    (out : List (Strategy ℤ)) × (calc_inherit_strategies two_templates
        (tpl2_strategies three_strategies)
        (pos 2 ∷ [])
      ≡ some out)
    × AreDistinct out
    × ((s : Strategy ℤ)
        → InBucket two_templates
            (tpl2_strategies three_strategies)
            (uniq_tpl_buckets (tpl_buckets two_templates (pos 2 ∷ [])))
            s
        → has_id s.id out ≡ true)
    × ((tid : ℤ) (u : Text) (ss : List (Strategy ℤ)) (s : Strategy ℤ)
        → Has tid (pos 2 ∷ [])
        → IsLongest two_templates (pos 2 ∷ []) tid
        → youngest (tpl2_strategies three_strategies) u (parent_ids two_templates tid) ≡ some ss
        → Has s ss
        → has_id s.id out ≡ true)
    × ((s : Strategy ℤ)
        → Has s out
        → Inherited two_templates
            (tpl2_strategies three_strategies)
            (uniq_tpl_buckets (tpl_buckets two_templates (pos 2 ∷ [])))
            s)
calc_inherit_strategies_lem_example =
    calc_inherit_strategies_lem two_templates three_strategies (pos 2 ∷ [])

abbrev one_host : Caches ℤ
one_host = record {
  group_plugins = (pos 5, codes "net" ∷ codes "disk" ∷ []) ∷ (pos 6, codes "disk" ∷ []) ∷ [];
  group_templates = [];
  host_groups_map = (pos 7, pos 5 ∷ pos 6 ∷ []) ∷ [];
  host_map = (codes "h1", pos 7) ∷ [];
  template_cache = two_templates;
  strategies = three_strategies;
  host_template_ids = (pos 7, pos 2 ∷ []) ∷ [];
  expression_cache = [];
  monitored_hosts = (pos 7, record { id = pos 7; name = codes "h1" }) ∷ [];
}

get_strategies-judged_example :
    (reply : List (HostStrategy ℤ)) × (get_strategies one_host ≡ some reply)
    × ((key : Text) (s : Strategy ℤ)
        → Has s (entries key (rebuild_strategy_map reply))
        → OfHost one_host.template_cache one_host.monitored_hosts one_host.strategies key
            one_host.host_template_ids s)
get_strategies-judged_example = get_strategies-judged one_host

get_strategies-Served_example :
    (reply : List (HostStrategy ℤ)) × (get_strategies one_host ≡ some reply)
    × ((host_id : ℤ) (tids : List ℤ) (h : Host) (s : Strategy ℤ)
        → Has (host_id, tids) one_host.host_template_ids
        → lookup_int host_id one_host.monitored_hosts ≡ some h
        → InBucket two_templates
            (tpl2_strategies three_strategies)
            (uniq_tpl_buckets (tpl_buckets two_templates tids))
            s
        → Served h.name s reply)
get_strategies-Served_example = get_strategies-Served one_host refl

get_plugins_run :
    get_plugins one_host.host_map one_host.host_groups_map one_host.group_plugins (codes "h1")
    ≡ codes "disk" ∷ codes "net" ∷ []
unfolding get_plugins
get_plugins_run = refl

get_plugins_lem_example :
    IsRising
      (get_plugins one_host.host_map one_host.host_groups_map one_host.group_plugins (codes "h1"))
    × ((z : Text)
        → Has z (
            get_plugins one_host.host_map one_host.host_groups_map one_host.group_plugins
              (codes "h1"))
          ↔ Sorted.OfHost one_host.group_plugins one_host.host_map one_host.host_groups_map
              (codes "h1")
              z)
get_plugins_lem_example =
    get_plugins_lem one_host.group_plugins one_host.host_map one_host.host_groups_map (codes "h1")

abbrev report : AgentReportRequest
report = record {
  hostname = codes "h1";
  ip = codes "10.0.0.1";
  agent_version = codes "5.1";
  plugin_version = [];
}

abbrev first_report : AgentUpdateInfo
first_report = record { last_update = pos 1000; report_request = report }

abbrev one_agent : Agents
one_agent = record { m = (codes "h1", first_report) ∷ []; updates = [] }

one_agent-AreNamed : AreNamed one_agent.m
unfolding lookup
one_agent-AreNamed = record { distinct = (refl, tt); named = λ j info e. named j info e }
  where
    named :
        (j : Text) (info : AgentUpdateInfo)
        → lookup j one_agent.m ≡ some info
        → info.report_request.hostname ≡ j
    named j info e = ground (arith, e, text_eq_iff (codes "h1") j)

one_agent-first_report : lookup (codes "h1") one_agent.m ≡ some first_report
unfolding lookup
one_agent-first_report = refl

-- The agent has reported a minute before.
delete_stale_agents-put_all_example :
    (s' : Agents) × (delete_stale_agents
        (pos 90000)
        (put_all (pos 45000 ∷ pos 89940 ∷ []) report one_agent)
      ≡ some s')
    × (lookup (codes "h1") s'.m ≡ none)
unfolding text_eq sub64
delete_stale_agents-put_all_example =
    delete_stale_agents-put_all (pos 90000) (pos 45000 ∷ pos 89940 ∷ []) report first_report
      one_agent one_agent-AreNamed one_agent-first_report refl refl

not_metric : codes "k" ≢ codes "metric"
not_metric e = cc

parse_expression_run :
    parse_expression (codes "each( metric=qps k=v )")
    ≡ some (parsed (codes "qps") ((codes "k", codes "v") ∷ []))
unfolding parse_expression
parse_expression_run = refl

parse_expression-written_example :
    parse_expression (written (codes "e") (codes "q") ((codes "k", codes "v") ∷ []))
    ≡ some (
        parsed (codes "q") (
          delete
            (codes "metric")
            (insert_all ((codes "metric", codes "q") ∷ (codes "k", codes "v") ∷ []) [])))
parse_expression-written_example =
    parse_expression-written (codes "e") (codes "q") (codes "k", codes "v") []
      ((λ e. omega (arith, e), λ e. omega (arith, e)), tt) (letters-IsPlainText (codes "q") refl)
      ((letters-IsPlainText (codes "k") refl, letters-IsPlainText (codes "v") refl), tt)
      (λ e. not_metric e, tt)
