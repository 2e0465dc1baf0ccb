-- ===== src/Hbs/Hosts.antt =====
-- modules/hbs/db, cache and rpc/hbs.go: the tables that are read, the caches of them, and the strategies
-- of every host, as judge asks for them.
pub mod Judged
pub mod Served
use falcon_plus_learn.Base.{
  Text, ℕ, Bool, true, false, ◌||◌, Option, none, some, List, [], ◌∷◌, ◌++◌, if◌then◌else◌, ◌>>=◌,
}
use falcon_plus_learn.Base.Int.{ℤ}
use falcon_plus_learn.Base.Decimal.{split}
use falcon_plus_learn.Base.Map.{Map, insert}
use falcon_plus_learn.Base.IntMap.{IntMap, lookup_int, insert_int, append_int}
use falcon_plus_learn.Common.Model.{Template, Strategy, HostStrategy, Expression}
use falcon_plus_learn.Common.Tags.{read_tags}
use falcon_plus_learn.Hbs.Inherit.{tpl2_strategies, calc_inherit_strategies}

pub record Host : Type 0 where
  pub id : ℤ
  pub name : Text

-- The rows of a table with two columns, by the first; a row that cannot be scanned is passed over.
unfoldable pub add_rows : {A : Type 0} → List (Option (ℤ × A)) → IntMap (List A) → IntMap (List A)
unfolding append_int
add_rows [] m = m
add_rows (none ∷ rows) m = add_rows rows m
add_rows (some (k, x) ∷ rows) m = add_rows rows (append_int k x m)

unfoldable pub query_group_templates : List (Option (ℤ × ℤ)) → IntMap (List ℤ)
unfolding add_rows
query_group_templates rows = add_rows rows []

unfoldable pub query_plugins : List (Option (ℤ × Text)) → IntMap (List Text)
unfolding add_rows
query_plugins rows = add_rows rows []

-- Here the rows are by the second column, the host.
unfoldable pub add_rows_by_host : List (Option (ℤ × ℤ)) → IntMap (List ℤ) → IntMap (List ℤ)
unfolding append_int
add_rows_by_host [] m = m
add_rows_by_host (none ∷ rows) m = add_rows_by_host rows m
add_rows_by_host (some (x, hid) ∷ rows) m = add_rows_by_host rows (append_int hid x m)

unfoldable pub query_host_groups : List (Option (ℤ × ℤ)) → IntMap (List ℤ)
unfolding add_rows_by_host
query_host_groups rows = add_rows_by_host rows []

unfoldable pub query_host_template_ids : List (Option (ℤ × ℤ)) → IntMap (List ℤ)
unfolding add_rows_by_host
query_host_template_ids rows = add_rows_by_host rows []

unfoldable pub query_templates : List (Option Template) → IntMap Template → IntMap Template
unfolding insert_int
query_templates [] m = m
query_templates (none ∷ rows) m = query_templates rows m
query_templates (some t ∷ rows) m = query_templates rows (insert_int t.id t m)

-- A later row of the same name replaces an earlier one.
unfoldable pub query_hosts : List (Option (ℤ × Text)) → Map ℤ → Map ℤ
unfolding insert
query_hosts [] m = m
query_hosts (none ∷ rows) m = query_hosts rows m
query_hosts (some (id, hostname) ∷ rows) m = query_hosts rows (insert hostname id m)

-- `QueryMonitoredHosts`
unfoldable pub query_monitored_hosts : List (Option Host) → IntMap Host → IntMap Host
unfolding insert_int
query_monitored_hosts [] m = m
query_monitored_hosts (none ∷ rows) m = query_monitored_hosts rows m
query_monitored_hosts (some h ∷ rows) m = query_monitored_hosts rows (insert_int h.id h m)

pub record StrategyRow (V : Type 0) : Type 0 where
  pub id : ℤ
  pub metric : Text
  pub tags : Text
  pub func : Text
  pub operator : Text
  pub right_value : V
  pub max_step : ℤ
  pub priority : ℤ
  pub note : Text
  pub tid : ℤ

-- A part without `=` is passed over.
unfoldable pub row_tags : Text → Map Text
unfolding read_tags split
row_tags [] = []
row_tags (c ∷ s) = read_tags (split b',' (c ∷ s)) []

module _ {V : Type 0} where
  abbrev pub strategy_of : StrategyRow V → Template → Strategy V
  strategy_of r t = record {
    id = r.id;
    metric = r.metric;
    tags = row_tags r.tags;
    func = r.func;
    operator = r.operator;
    right_value = r.right_value;
    max_step = r.max_step;
    priority = r.priority;
    note = r.note;
    tpl = some t;
  }

  -- A strategy of an unknown template has no action and is left out.
  unfoldable pub add_strategy_rows :
      IntMap Template
      → List (Option (StrategyRow V))
      → IntMap (Option (Strategy V))
      → IntMap (Option (Strategy V))
  unfolding lookup_int insert_int row_tags
  add_strategy_rows tpls [] m = m
  add_strategy_rows tpls (none ∷ rows) m = add_strategy_rows tpls rows m
  add_strategy_rows tpls (some r ∷ rows) m =
      add_strategy_rows tpls rows (elim (lookup_int r.tid tpls) [
        | none ↦ m
        | some t ↦ insert_int r.id (some (strategy_of r t)) m
      ])

  -- `none` is the error `illegal argument`, when there are no templates.
  unfoldable pub query_strategies :
      IntMap Template → List (Option (StrategyRow V)) → Option (IntMap (Option (Strategy V)))
  unfolding add_strategy_rows
  query_strategies [] rows = none
  query_strategies (t ∷ tpls) rows = some (add_strategy_rows (t ∷ tpls) rows [])

-- The caches that `GetStrategies` and `GetPlugins` read.
pub record Caches (V : Type 0) : Type 0 where
  pub group_plugins : IntMap (List Text)
  pub group_templates : IntMap (List ℤ)
  pub host_groups_map : IntMap (List ℤ)
  pub host_map : Map ℤ
  pub template_cache : IntMap Template
  pub strategies : IntMap (Option (Strategy V))
  pub host_template_ids : IntMap (List ℤ)
  pub expression_cache : List (Expression V)
  pub monitored_hosts : IntMap Host

-- What the queries give; `none` is an error of the database.
pub record Queries (V : Type 0) : Type 0 where
  pub plugins : Option (IntMap (List Text))
  pub group_templates : Option (IntMap (List ℤ))
  pub host_groups : Option (IntMap (List ℤ))
  pub hosts : Option (Map ℤ)
  pub templates : Option (IntMap Template)
  pub strategy_rows : Option (List (Option (StrategyRow V)))
  pub host_template_ids : Option (IntMap (List ℤ))
  pub expressions : Option (List (Expression V))
  pub monitored_hosts : Option (IntMap Host)

-- `Init` of a cache: at an error what it holds is kept.
abbrev pub reload : {A : Type 0} → Option A → A → A
reload none old = old
reload (some x) old = x

abbrev pub is_empty_list : {A : Type 0} → List A → Bool
is_empty_list [] = true
is_empty_list (x ∷ l) = false

module _ {V : Type 0} where
  -- A round of `LoopInit`: the strategies are read with the templates of this round.
  unfoldable pub init_all : Queries V → Caches V → Caches V
  unfolding query_strategies
  init_all q c =
      let tpls = reload q.templates c.template_cache in
      record {
        group_plugins = reload q.plugins c.group_plugins;
        group_templates = reload q.group_templates c.group_templates;
        host_groups_map = reload q.host_groups c.host_groups_map;
        host_map = reload q.hosts c.host_map;
        template_cache = tpls;
        strategies = reload (do rows ← q.strategy_rows; query_strategies tpls rows) c.strategies;
        host_template_ids = reload q.host_template_ids c.host_template_ids;
        expression_cache = reload q.expressions c.expression_cache;
        monitored_hosts = reload q.monitored_hosts c.monitored_hosts;
      }

  -- A host without strategies is left out.
  abbrev pub with_host : Text → List (Strategy V) → List (HostStrategy V) → List (HostStrategy V)
  with_host name [] rest = rest
  with_host name (s ∷ ss) rest = record { hostname = name; strategies = s ∷ ss } ∷ rest

  -- The loop of `GetStrategies`; a host that is not monitored is left out.
  unfoldable pub host_strategies :
      IntMap Template
      → IntMap Host
      → IntMap (List (Strategy V))
      → IntMap (List ℤ)
      → Option (List (HostStrategy V))
  unfolding lookup_int calc_inherit_strategies
  host_strategies tpls hosts tpl2 [] = some []
  host_strategies tpls hosts tpl2 ((host_id, tids) ∷ l) = elim (lookup_int host_id hosts) [
    | none ↦ host_strategies tpls hosts tpl2 l
    | some h ↦ do
      ss ← calc_inherit_strategies tpls tpl2 tids
      rest ← host_strategies tpls hosts tpl2 l
      some (with_host h.name ss rest)
  ]

  abbrev pub has_nothing : Caches V → Bool
  has_nothing c =
      is_empty_list c.host_template_ids
      || is_empty_list c.monitored_hosts
      || is_empty_list c.template_cache
      || is_empty_list c.strategies

  unfoldable pub get_strategies : Caches V → Option (List (HostStrategy V))
  unfolding host_strategies tpl2_strategies
  get_strategies c =
      if has_nothing c
      then some []
      else host_strategies c.template_cache c.monitored_hosts (tpl2_strategies c.strategies)
          c.host_template_ids
