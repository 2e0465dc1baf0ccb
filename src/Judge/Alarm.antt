-- ===== src/Judge/Alarm.antt =====
-- modules/judge/store/judge.go, g/var.go: the events of an alarm, the last one of each kept by its
-- id, and the queue that they are sent to.
pub mod Phase
pub mod Refine
pub mod Steps
pub mod Runs
pub mod Calls
use falcon_plus_learn.Base.{
  Text, codes, length, get_elem?, ◌-◌, ◌==◌, Bool, Option, none, some, List, ◌∷◌, if◌then◌else◌,
  ◌>>=◌,
}
use falcon_plus_learn.Base.Int.{ℤ, pos, eqb_ℤ, ltb_ℤ, leb_ℤ, add64, sub64}
use falcon_plus_learn.Base.Map.{Map, lookup, insert}
use falcon_plus_learn.Common.Model.{HistoryData, Event, priority}

-- What the code takes from its configuration and from the packages that it calls.
pub record Env (V : Type 0) : Type 0 where
  pub min_interval : ℤ
  pub queue_name : ℤ → Text  -- `Sprintf(QueuePattern, priority)`
  pub md5 : Text → Text  -- `utils.Md5`: the digest of `crypto/md5`, in hexadecimal
  pub marshal : Event V → Option Text  -- `json.Marshal`, which may fail

pub record Alerts (V : Type 0) : Type 0 where
  pub last_events : Map (Event V)  -- `g.LastEvents`
  pub pushed : List (Text × Text)  -- the `LPUSH` calls, the latest first

module _ {V : Type 0} (env : Env V) where
  unfoldable pub send_event : Event V → Alerts V → Option (Alerts V)
  unfolding insert priority
  send_event e s =
      let s' = record s { last_events = insert e.id e s.last_events } in
      elim (env.marshal e) [
        | none ↦ some s'
        | some bs ↦ do
          p ← priority e
          some (record s' { pushed = (env.queue_name p, bs) ∷ s.pushed })
      ]

  -- Nothing was reported before: a limit of 0 mutes the alarm.
  unfoldable pub first_problem : ℤ → Event V → Alerts V → Option (Alerts V)
  unfolding send_event
  first_problem max_step e s =
      if eqb_ℤ max_step (pos 0) then some s else send_event (record e { current_step = pos 1 }) s

  unfoldable pub repeat_problem :
      List (HistoryData V) → ℤ → ℤ → Event V → Event V → Alerts V → Option (Alerts V)
  unfolding send_event sub64 add64
  repeat_problem history now max_step last e s =
      if leb_ℤ max_step last.current_step then some s else do
        oldest ← get_elem? history (length history - 1)
        if leb_ℤ oldest.timestamp last.event_time
            then some s
            else if ltb_ℤ (sub64 now last.event_time) env.min_interval
            then some s
            else send_event (record e { current_step = add64 last.current_step (pos 1) }) s

  unfoldable pub on_problem :
      List (HistoryData V) → ℤ → ℤ → Option (Event V) → Event V → Alerts V → Option (Alerts V)
  unfolding first_problem repeat_problem
  on_problem history now max_step none e s = first_problem max_step e s
  on_problem history now max_step (some last) e s = do
    status ← get_elem? last.status 0
    if status == b'O'
        then first_problem max_step e s
        else repeat_problem history now max_step last e s

  unfoldable pub on_ok : Option (Event V) → Event V → Alerts V → Option (Alerts V)
  unfolding send_event
  on_ok none e s = some s
  on_ok (some last) e s = do
    status ← get_elem? last.status 0
    if status == b'P'
        then send_event (record e { status = codes "OK"; current_step = pos 1 }) s
        else some s

  unfoldable pub send_event_if_need :
      List (HistoryData V) → Bool → ℤ → Event V → ℤ → Alerts V → Option (Alerts V)
  unfolding on_problem on_ok lookup
  send_event_if_need history is_triggered now e max_step s =
      if is_triggered
      then on_problem history now max_step (lookup e.id s.last_events)
          (record e { status = codes "PROBLEM" }) s
      else on_ok (lookup e.id s.last_events) e s
