-- ===== src/Transfer/Convert.antt =====
-- modules/transfer/sender/sender.go: an item as judge, graph and tsdb take it.
use falcon_plus_learn.Base.{Text, codes, text_eq, Option, none, some, [], if◌then◌else◌}
use falcon_plus_learn.Base.Int.{ℤ, ltb_ℤ, sub64, mul64, rem64}
use falcon_plus_learn.Base.Map.{Map, insert}
use falcon_plus_learn.Common.Model.{JudgeItem}
use falcon_plus_learn.Judge.Match.{insert_all}
use falcon_plus_learn.Graph.LinkedList.{GraphItem}
use falcon_plus_learn.Transfer.Receive.{MetaData}

pub record TsdbItem (V : Type 0) : Type 0 where
  pub metric : Text
  pub tags : Map Text
  pub value : V
  pub timestamp : ℤ

unfoldable pub align_ts : ℤ → ℤ → ℤ
unfolding sub64 rem64
align_ts ts period = sub64 ts (rem64 ts period)

-- `if step < MinStep { step = MinStep }`
unfoldable pub step_of : ℤ → ℤ → ℤ
step_of min_step step = if ltb_ℤ step min_step then min_step else step

module _ {V : Type 0} where
  -- The item that `Push2JudgeSendQueue` puts into the queue.
  unfoldable pub convert2_judge_item : ℤ → MetaData V → JudgeItem V
  unfolding align_ts step_of
  convert2_judge_item min_step d = record {
    endpoint = d.endpoint;
    metric = d.metric;
    value = d.value;
    timestamp = align_ts d.timestamp (step_of min_step d.step);
    judge_type = d.counter_type;
    tags = d.tags;
  }

  abbrev pub graph_item : ℤ → MetaData V → Text → Text → GraphItem V
  graph_item step d ds_type min = record {
    endpoint = d.endpoint;
    metric = d.metric;
    tags = d.tags;
    value = d.value;
    timestamp = align_ts d.timestamp step;
    ds_type = ds_type;
    step = step;
    heartbeat = mul64 step 2;
    min = min;
    max = codes "U";
  }

  -- `none` is the error `not_supported_counter_type`.
  unfoldable pub convert2_graph_item : ℤ → MetaData V → Option (GraphItem V)
  unfolding align_ts step_of mul64 text_eq
  convert2_graph_item min_step d =
      let step = step_of min_step d.step in
      if text_eq d.counter_type (codes "GAUGE")
      then some (graph_item step d d.counter_type (codes "U"))
      else if text_eq d.counter_type (codes "COUNTER")
      then some (graph_item step d (codes "DERIVE") (codes "0"))
      else if text_eq d.counter_type (codes "DERIVE")
      then some (graph_item step d (codes "DERIVE") (codes "0"))
      else none

  unfoldable pub convert2_tsdb_item : MetaData V → TsdbItem V
  unfolding insert insert_all
  convert2_tsdb_item d = record {
    metric = d.metric;
    tags = insert (codes "endpoint") d.endpoint (insert_all d.tags []);
    value = d.value;
    timestamp = d.timestamp;
  }
