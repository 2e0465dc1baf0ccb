-- ===== src/Judge/Tests/Alarm.antt =====
-- Runs of modules/judge/store/judge.go on concrete events.
use falcon_plus_learn.Base.{
  Text, codes, ◌+◌, ◌≤◌, ◌≡◌, ◌≢◌, refl, true, some, List, [], ◌∷◌, ◌++◌, map, length, arith,
}
use falcon_plus_learn.Base.Int.{ℤ, pos, pos_part}
use falcon_plus_learn.Base.Map.{lookup}
use falcon_plus_learn.Common.Model.{priority, Event}
use falcon_plus_learn.Judge.Alarm.{Alerts, send_event_if_need}
use falcon_plus_learn.Judge.Alarm.Phase.{quiet, Sample, Report, Step, Run}
use falcon_plus_learn.Judge.Alarm.Refine.{phase, IsWellFormed, deliver, report_event}
use falcon_plus_learn.Judge.Alarm.Runs.{raises, oks, open_alarms}
use falcon_plus_learn.Judge.Alarm.Steps.{send_event_if_need-Step}
use falcon_plus_learn.Judge.Alarm.Calls.{Call, calls, calls-alternate, messages, calls-bounded}
use falcon_plus_learn.Judge.Tests.{cpu_event, two_points, no_alerts, test_env}

pub no_alerts-IsWellFormed : IsWellFormed no_alerts
no_alerts-IsWellFormed = record { known = λ k e h. absurd (nothing k e h) }
  where
    nothing : (k : Text) (e : Event ℤ) → lookup k [] ≡ some e → ⊥
    nothing k e h = unfold lookup in cc

abbrev first_sample : Sample
first_sample = record { is_triggered = true; now = pos 31; time = pos 30; oldest = pos 20 }

cpu_priority : (time : ℤ) → priority (cpu_event time) ≡ some (pos 0)
unfolding priority
cpu_priority time = refl

-- The first problem of an alarm that was quiet is sent.
send_event_if_need-Step_example :
    (o : Report) × (s' : Alerts ℤ) × (send_event_if_need test_env two_points true
        (pos 31)
        (cpu_event (pos 30))
        (pos 3)
        no_alerts
      ≡ some s')
    × (s' ≡ deliver test_env (pos 0) (report_event o (cpu_event (pos 30))) no_alerts)
    × Step
        (pos 5)
        (pos 3)
        (phase (codes "s_1_a7") no_alerts)
        first_sample
        o
        (phase (codes "s_1_a7") s')
    × ((k : Text) → k ≢ codes "s_1_a7" → lookup k s'.last_events ≡ lookup k no_alerts.last_events)
    × IsWellFormed s'
send_event_if_need-Step_example =
    send_event_if_need-Step test_env two_points (pos 3) (pos 0) (cpu_event (pos 30)) first_sample
      no_alerts (record { timestamp = pos 20; value = pos 6 }) no_alerts-IsWellFormed
      (cpu_priority (pos 30)) refl refl refl

abbrev call_at : ℤ → Call ℤ (codes "s_1_a7")
call_at time = record {
  history = two_points;
  sample = record { is_triggered = true; now = pos 100; time = time; oldest = pos 20 };
  event = cpu_event time;
  of_alarm = refl;
  queue = pos 0;
  queued = cpu_priority time;
  time = refl;
  oldest = record { timestamp = pos 20; value = pos 6 };
  last_point = refl;
  oldest_time = refl;
}

abbrev two_calls : List (Call ℤ (codes "s_1_a7"))
two_calls = call_at (pos 10) ∷ call_at (pos 30) ∷ []

phase_quiet : phase (codes "s_1_a7") no_alerts ≡ quiet
unfolding lookup
phase_quiet = refl

calls-bounded_example :
    (s' : Alerts ℤ) × (calls test_env (pos 3) (codes "s_1_a7") two_calls no_alerts ≡ some s')
    × (length s'.pushed ≤ length no_alerts.pushed + pos_part (pos 3))
calls-bounded_example =
    calls-bounded test_env (pos 3) (codes "s_1_a7") two_calls no_alerts no_alerts-IsWellFormed
      (omega arith, omega arith) (omega arith) phase_quiet (refl, (refl, tt))

calls-alternate_example :
    (os : List Report) × (s' : Alerts ℤ) × (calls test_env
        (pos 3)
        (codes "s_1_a7")
        two_calls
        no_alerts
      ≡ some s')
    × Run
        (pos 5)
        (pos 3)
        (phase (codes "s_1_a7") no_alerts)
        (map (λ c. c.sample) two_calls)
        os
        (phase (codes "s_1_a7") s')
    × (s'.pushed ≡ messages test_env (pos 3) (codes "s_1_a7") two_calls os ++ no_alerts.pushed)
    × (raises os + open_alarms (phase (codes "s_1_a7") no_alerts)
        ≡ oks os + open_alarms (phase (codes "s_1_a7") s'))
calls-alternate_example =
    calls-alternate test_env (pos 3) (codes "s_1_a7") two_calls no_alerts no_alerts-IsWellFormed
      (omega arith, omega arith) (unfold lookup in tt)
