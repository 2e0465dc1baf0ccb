-- ===== src/Transfer/Tests.antt =====
-- Runs of modules/transfer on one metric.
use falcon_plus_learn.Base.{
  Text, codes, ℕ, ◌+◌, ◌*◌, ◌/◌, ◌%◌, ◌≤◌, ◌<◌, ◌≡◌, refl, true, Option, none, some, List, [], ◌∷◌,
  length, arith, All,
}
use falcon_plus_learn.Base.Int.{ℤ, pos, pos_part, neg_part, ltb_ℤ, leb_ℤ, eqb_ℤ, add64, sub64}
use falcon_plus_learn.Base.Float.{Float}
use falcon_plus_learn.Graph.LinkedList.{GraphItem}
use falcon_plus_learn.Transfer.Receive.{
  MetricValue, MetaData, int, recv_metric_values, is_counter_type,
}
use falcon_plus_learn.Transfer.Checked.{IsReceived, recv_metric_values-IsReceived}
use falcon_plus_learn.Transfer.Convert.{convert2_graph_item, convert2_judge_item}
use falcon_plus_learn.Transfer.Aligned.{convert2_graph_item-aligned}

-- Whole numbers in the place of floats.
abbrev whole_values : Float ℤ
whole_values = record {
  add = add64;
  sub = sub64;
  mul = λ a b. pos (pos_part a * pos_part b);
  div = λ a b. pos (pos_part a / pos_part b);
  abs = λ a. pos (pos_part a + neg_part a);
  lt = ltb_ℤ;
  le = leb_ℤ;
  eq = eqb_ℤ;
  of_int = λ n. n;
  epsilon = pos 1;
}

abbrev no_float : Text → Option ℤ
no_float s = none

abbrev cpu_value : ℤ → MetricValue ℤ
cpu_value step = record {
  endpoint = codes "h1";
  metric = codes "cpu";
  value = int (pos 4);
  step = step;
  counter_type = codes "GAUGE";
  tags = codes "core=0";
  timestamp = pos 125;
}

-- The second of the two has no step.
abbrev two_values : List (Option (MetricValue ℤ))
two_values = some (cpu_value (pos 60)) ∷ some (cpu_value (pos 0)) ∷ none ∷ []

recv_metric_values-IsReceived_example :
    ((recv_metric_values whole_values no_float (pos 130) two_values).0
        + length (recv_metric_values whole_values no_float (pos 130) two_values).1
      ≡ length two_values)
    × All IsReceived (recv_metric_values whole_values no_float (pos 130) two_values).1
recv_metric_values-IsReceived_example =
    recv_metric_values-IsReceived whole_values no_float (pos 130) two_values (omega arith)

abbrev cpu_meta : MetaData ℤ
cpu_meta = record {
  metric = codes "cpu";
  endpoint = codes "h1";
  timestamp = pos 125;
  step = pos 60;
  value = pos 4;
  counter_type = codes "GAUGE";
  tags = [];
}

cpu_type : is_counter_type (codes "GAUGE") ≡ true
unfolding is_counter_type
cpu_type = refl

convert2_graph_item-aligned_example :
    (g : GraphItem ℤ) × (k : ℕ) × (u : ℕ) × (convert2_graph_item (pos 30) cpu_meta ≡ some g)
    × (g.step ≡ pos k)
    × (30 ≤ k)
    × (60 ≤ k)
    × (g.heartbeat ≡ pos (2 * k))
    × (g.timestamp ≡ pos u)
    × ((convert2_judge_item (pos 30) cpu_meta).timestamp ≡ pos u)
    × (u % k ≡ 0)
    × (u ≤ 125)
    × (125 < u + k)
convert2_graph_item-aligned_example =
    convert2_graph_item-aligned 30 60 125 cpu_meta cpu_type refl refl (omega arith) (omega arith)
      (omega arith) (omega arith)
