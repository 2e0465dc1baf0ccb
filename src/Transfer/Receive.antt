-- ===== src/Transfer/Receive.antt =====
-- modules/transfer/receiver/rpc/rpc_transfer.go: the checks of RecvMetricValues, up to the queues.
use falcon_plus_learn.Base.{
  Text, codes, text_eq, ℕ, suc, ◌+◌, ltb, Bool, true, false, not, ◌||◌, Option, none, some, List,
  [], ◌∷◌, length, if◌then◌else◌, ◌>>=◌,
}
use falcon_plus_learn.Base.Int.{ℤ, pos, ltb_ℤ, leb_ℤ, mul64}
use falcon_plus_learn.Base.Float.{Float}
use falcon_plus_learn.Base.Map.{Map}
use falcon_plus_learn.Common.Tags.{dicted_tagstring}

-- The dynamic types of `Value` that the code tells apart.
pub data Value (V : Type 0) : Type 0 where
  text : Text → Value V
  float : V → Value V
  int : ℤ → Value V
  other : Value V

pub record MetricValue (V : Type 0) : Type 0 where
  pub endpoint : Text
  pub metric : Text
  pub value : Value V
  pub step : ℤ
  pub counter_type : Text
  pub tags : Text
  pub timestamp : ℤ

pub record MetaData (V : Type 0) : Type 0 where
  pub metric : Text
  pub endpoint : Text
  pub timestamp : ℤ
  pub step : ℤ
  pub value : V
  pub counter_type : Text
  pub tags : Map Text

abbrev pub is_empty : Text → Bool
is_empty [] = true
is_empty (c ∷ s) = false

unfoldable pub is_counter_type : Text → Bool
unfolding text_eq
is_counter_type t =
    text_eq t (codes "COUNTER") || text_eq t (codes "GAUGE") || text_eq t (codes "DERIVE")

-- `v.Value == ""`
abbrev pub is_empty_text : {V : Type 0} → Value V → Bool
is_empty_text (text s) = is_empty s
is_empty_text _ = false

-- A timestamp that cannot be is replaced by the time of the call.
unfoldable pub time_at : ℤ → ℤ → ℤ
unfolding mul64
time_at now timestamp =
    if leb_ℤ timestamp (pos 0) || ltb_ℤ (mul64 now 2) timestamp then now else timestamp

module _ {V : Type 0} where
  -- The checks that count a value as invalid before its value is read.
  unfoldable pub is_invalid : MetricValue V → Bool
  unfolding is_counter_type text_eq
  is_invalid v =
      text_eq v.metric (codes "kernel.hostname")
      || is_empty v.metric
      || is_empty v.endpoint
      || not (is_counter_type v.counter_type)
      || is_empty_text v.value
      || leb_ℤ v.step (pos 0)
      || ltb 510 (length v.metric + length v.tags)

  abbrev pub count_result : Option (MetaData V) → ℕ × List (MetaData V) → ℕ × List (MetaData V)
  count_result none (invalid, items) = (suc invalid, items)
  count_result (some d) (invalid, items) = (invalid, d ∷ items)

module _ {V : Type 0} (F : Float V) (parse_float : Text → Option V) where
  unfoldable pub value_of : Value V → Option V
  value_of (text s) = parse_float s
  value_of (float x) = some x
  value_of (int n) = some (F.of_int n)
  value_of other = none

  -- One turn of the loop; `none` counts the value as invalid.
  unfoldable pub recv_metric_value : ℤ → Option (MetricValue V) → Option (MetaData V)
  unfolding is_invalid value_of time_at dicted_tagstring
  recv_metric_value now none = none
  recv_metric_value now (some v) = if is_invalid v then none else do
    vv ← value_of v.value
    some (record {
      metric = v.metric;
      endpoint = v.endpoint;
      timestamp = time_at now v.timestamp;
      step = v.step;
      value = vv;
      counter_type = v.counter_type;
      tags = dicted_tagstring v.tags;
    })

  -- `reply.Invalid`, and the items in the order of the arguments.
  unfoldable pub recv_metric_values : ℤ → List (Option (MetricValue V)) → ℕ × List (MetaData V)
  recv_metric_values now [] = (0, [])
  recv_metric_values now (v ∷ vs) =
      count_result (recv_metric_value now v) (recv_metric_values now vs)
