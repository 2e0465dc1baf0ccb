-- ===== src/Judge/Tests.antt =====
-- Test data for modules/judge: whole numbers for floats, a host with one counter, a strategy and an
-- expression about it, and the reports that they make.
pub mod Alarm
pub mod Store
pub mod Rules
pub mod Points
use falcon_plus_learn.Base.{Text, codes, ◌+◌, ◌*◌, ◌/◌, none, some, List, [], ◌∷◌, ◌++◌}
use falcon_plus_learn.Base.Int.{ℤ, pos, pos_part, neg_part, ltb_ℤ, leb_ℤ, eqb_ℤ, add64, sub64}
use falcon_plus_learn.Base.Float.{Float}
use falcon_plus_learn.Common.Model.{
  JudgeItem, HistoryData, Strategy, Expression, HostStrategy, Event,
}
use falcon_plus_learn.Judge.Function.{Threshold}
use falcon_plus_learn.Judge.Alarm.{Env, Alerts}

-- Whole numbers in the place of floats.
abbrev pub whole : Float ℤ
whole = record {
  add = add64;
  sub = sub64;
  mul = λ a b. pos (pos_part a * pos_part b);
  div = λ a b. pos (pos_part a / pos_part b);
  abs = λ a. pos (pos_part a + neg_part a);
  lt = ltb_ℤ;
  le = leb_ℤ;
  eq = eqb_ℤ;
  of_int = λ n. n;
  epsilon = pos 1;
}

abbrev pub item_at : ℤ → ℤ → JudgeItem ℤ
item_at time value = record {
  endpoint = codes "h1";
  metric = codes "cpu";
  value = value;
  timestamp = time;
  judge_type = codes "GAUGE";
  tags = (codes "core", codes "0") ∷ [];
}

abbrev pub three_items : List (JudgeItem ℤ)
three_items = item_at (pos 30) (pos 9) ∷ item_at (pos 20) (pos 6) ∷ item_at (pos 10) (pos 8) ∷ []

abbrev pub above_five : Threshold ℤ
above_five = record { operator = codes ">"; right_value = pos 5 }

abbrev pub cpu_strategy : Strategy ℤ
cpu_strategy = record {
  id = pos 1;
  metric = codes "cpu";
  tags = (codes "core", codes "0") ∷ [];
  func = codes "all(#2)";
  operator = codes ">";
  right_value = pos 5;
  max_step = pos 3;
  priority = pos 0;
  note = codes "busy";
  tpl = none;
}

abbrev pub cpu_expression : Expression ℤ
cpu_expression = record {
  id = pos 7;
  metric = codes "cpu";
  tags = (codes "core", codes "0") ∷ (codes "endpoint", codes "h1") ∷ [];
  func = codes "all(#2)";
  operator = codes ">";
  right_value = pos 5;
  max_step = pos 3;
  priority = pos 1;
  note = codes "busy";
  action_id = pos 4;
}

abbrev pub one_host : List (HostStrategy ℤ)
one_host = record { hostname = codes "h1"; strategies = cpu_strategy ∷ [] } ∷ []

abbrev pub test_env : Env ℤ
test_env = record {
  min_interval = pos 5;
  queue_name = λ p. codes "event:p0";
  md5 = λ t. codes "a7" ++ t;
  marshal = λ e. some e.id;
}

abbrev pub no_alerts : Alerts ℤ
no_alerts = record { last_events = []; pushed = [] }

abbrev pub cpu_event : ℤ → Event ℤ
cpu_event time = record {
  id = codes "s_1_a7";
  strategy = some cpu_strategy;
  expression = none;
  status = [];
  endpoint = codes "h1";
  left_value = pos 9;
  current_step = pos 0;
  event_time = time;
  pushed_tags = [];
}

-- The two latest points, of the times 30 and 20.
abbrev pub two_points : List (HistoryData ℤ)
two_points =
    record { timestamp = pos 30; value = pos 9 } ∷ record { timestamp = pos 20; value = pos 6 } ∷ []
