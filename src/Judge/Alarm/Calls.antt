-- ===== src/Judge/Alarm/Calls.antt =====
-- modules/judge/store/judge.go: many judgements of one alarm, one after the other.
use mathlib.Core.Path.{subst}
use mathlib.Core.List.{append_assoc}
use falcon_plus_learn.Base.{
  Text, codes, ◌+◌, ◌-◌, ◌≤◌, ◌≡◌, refl, sym, ap, ◌∙◌, true, Option, none, some, List, [], ◌∷◌,
  ◌++◌, Option-cases, inl, inr, map, length, get_elem?, arith, ◌>>=◌, All,
}
use falcon_plus_learn.Base.Int.{ℤ, pos, pos_part, ◌≤ℤ◌, InRange64}
use falcon_plus_learn.Common.Model.{HistoryData, Event, priority}
use falcon_plus_learn.Judge.Alarm.{Env, Alerts, send_event_if_need}
use falcon_plus_learn.Judge.Alarm.Phase.{
  Phase, quiet, alarming, Sample, Report, silence, problem, ok, Step, Run, done, more,
}
use falcon_plus_learn.Judge.Alarm.Refine.{phase, IsWellFormed, deliver, report_event}
use falcon_plus_learn.Judge.Alarm.Steps.{send_event_if_need-Step}
use falcon_plus_learn.Judge.Alarm.Runs.{
  loud, oks, raises, open_alarms, level, IsCapped, Run-IsCapped, Run-balance, Run-level, loud-cons,
}

-- One call of `sendEventIfNeed` for the alarm `id`, with what its callers guarantee: points that
-- are there, and an event with a strategy or an expression.
pub record Call (V : Type 0) (id : Text) : Type 0 where
  pub history : List (HistoryData V)
  pub sample : Sample
  pub event : Event V
  pub of_alarm : event.id ≡ id
  pub queue : ℤ
  pub queued : priority event ≡ some queue
  pub time : sample.time ≡ event.event_time
  pub oldest : HistoryData V
  pub last_point : get_elem? history (length history - 1) ≡ some oldest
  pub oldest_time : sample.oldest ≡ oldest.timestamp

module _ {V : Type 0} (env : Env V) (max_step : ℤ) (id : Text) where
  abbrev pub call : Call V id → Alerts V → Option (Alerts V)
  call c s = send_event_if_need env c.history c.sample.is_triggered c.sample.now c.event max_step s

  abbrev pub calls : List (Call V id) → Alerts V → Option (Alerts V)
  calls [] s = some s
  calls (c ∷ cs) s = do s' ← call c s; calls cs s'

  -- What a report pushes: the event of the call as a problem of that step, or as an OK, in the queue
  -- of its priority, if it can be marshalled.
  abbrev pub message : Call V id → Report → List (Text × Text)
  message c o = elim (report_event o c.event) [
    | none ↦ []
    | some e ↦ elim (env.marshal e) [ none ↦ [] | some bs ↦ (env.queue_name c.queue, bs) ∷ [] ]
  ]

  -- What the reports of the calls push, the latest first.
  abbrev pub messages : List (Call V id) → List Report → List (Text × Text)
  messages [] os = []
  messages (c ∷ cs) [] = []
  messages (c ∷ cs) (o ∷ os) = messages cs os ++ message c o

  pushed-deliver :
      (c : Call V id) (o : Report) (s : Alerts V)
      → (deliver env c.queue (report_event o c.event) s).pushed ≡ message c o ++ s.pushed
  pushed-deliver c silence s = refl
  pushed-deliver c (problem n) s =
      elim (Option-cases
        (env.marshal (record c.event { status = codes "PROBLEM"; current_step = n }))) [
          | inl m ↦ rw m refl
          | inr (bs, m) ↦ rw m refl
        ]
  pushed-deliver c ok s =
      elim (Option-cases
        (env.marshal (record c.event { status = codes "OK"; current_step = pos 1 }))) [
          | inl m ↦ rw m refl
          | inr (bs, m) ↦ rw m refl
        ]

  length-deliver :
      (p : ℤ) (o : Report) (e : Event V) (s : Alerts V)
      → length (deliver env p (report_event o e) s).pushed ≤ length s.pushed + loud (o ∷ [])
  length-deliver p silence e s = omega arith
  length-deliver p (problem n) e s = ground arith
  length-deliver p ok e s = ground arith

  -- The calls return, their reports make a run of the alarm's phase, and what is pushed are their
  -- messages, as many as there are reports at most.
  pub calls-Run :
      (cs : List (Call V id)) (s : Alerts V)
      → IsWellFormed s
      → (os : List Report) × (s' : Alerts V) × (calls cs s ≡ some s')
        × Run env.min_interval max_step (phase id s) (map (λ c. c.sample) cs) os (phase id s')
        × (s'.pushed ≡ messages cs os ++ s.pushed)
        × (length s'.pushed ≤ length s.pushed + loud os)
  calls-Run [] s w = ([], s, refl, done, refl, omega arith)
  calls-Run (c ∷ cs) s w =
      let (o, s₁, q, d, st, _, w₁) =
        send_event_if_need-Step env c.history max_step c.queue c.event c.sample s c.oldest w
          c.queued c.time c.last_point c.oldest_time in
      let (os, s₂, q₂, r, m, n) = calls-Run cs s₁ w₁ in
      (
        o ∷ os,
        s₂,
        rw (q, q₂),
        more
            (subst (λ k. Step env.min_interval max_step (phase k s) c.sample o (phase k s₁))
              c.of_alarm st)
            r,
        m
            ∙ ap (λ l. messages cs os ++ l)
                (ap (λ (k : Alerts V). k.pushed) d ∙ pushed-deliver c o s)
            ∙ sym (append_assoc (messages cs os) (message c o) s.pushed),
        omega (
          arith,
          n,
          length-deliver c.queue o c.event s,
          ap (λ (k : Alerts V). length k.pushed) d,
          loud-cons o os,
        ),
      )

  -- Over any sequence of judgements of one alarm under one MaxStep in the range of int64, from a
  -- state whose statuses are known and whose step is within that cap, the calls of sendEventIfNeed
  -- return, their reports are a run of the step relation, what is pushed are the events of these
  -- reports that can be marshalled, in their order, each to the queue of its priority, and the
  -- first problems and the OKs that are reported balance, but for an alarm that was open before or
  -- is open after.
  pub calls-alternate :
      (cs : List (Call V id)) (s : Alerts V)
      → IsWellFormed s
      → InRange64 max_step
      → IsCapped max_step (phase id s)
      → (os : List Report) × (s' : Alerts V) × (calls cs s ≡ some s')
        × Run env.min_interval max_step (phase id s) (map (λ c. c.sample) cs) os (phase id s')
        × (s'.pushed ≡ messages cs os ++ s.pushed)
        × (raises os + open_alarms (phase id s) ≡ oks os + open_alarms (phase id s'))
  calls-alternate cs s w small c =
      let (os, s', q, r, m, _) = calls-Run cs s w in
      (os, s', q, r, m, Run-balance env.min_interval max_step small r c)

  triggered_samples :
      (cs : List (Call V id))
      → All (λ c. c.sample.is_triggered ≡ true) cs
      → All (λ x. x.is_triggered ≡ true) (map (λ (c : Call V id). c.sample) cs)
  triggered_samples [] h = tt
  triggered_samples (c ∷ cs) h = (h.0, triggered_samples cs h.1)

  level-le : (p : Phase) → pos 1 ≤ℤ max_step → IsCapped max_step p → level p ≤ pos_part max_step
  level-le quiet h c = omega arith
  level-le (alarming step since) h c = ground arith

  -- From a state whose statuses are known, however often a quiet alarm triggers in a row under one
  -- positive MaxStep in the range of int64, on events with a strategy or an expression and
  -- histories with points, the calls of sendEventIfNeed return and push at most MaxStep events.
  pub calls-bounded :
      (cs : List (Call V id)) (s : Alerts V)
      → IsWellFormed s
      → InRange64 max_step
      → pos 1 ≤ℤ max_step
      → phase id s ≡ quiet
      → All (λ c. c.sample.is_triggered ≡ true) cs
      → (s' : Alerts V) × (calls cs s ≡ some s')
        × (length s'.pushed ≤ length s.pushed + pos_part max_step)
  calls-bounded cs s w small h quiet_first t =
      let (os, s', q, r, _, n) = calls-Run cs s w in
      let r' =
        subst (λ f. Run env.min_interval max_step f (map (λ c. c.sample) cs) os (phase id s'))
          quiet_first r in
      (
        s',
        q,
        omega (
          arith,
          n,
          Run-level env.min_interval max_step small r' (triggered_samples cs t) tt,
          level-le (phase id s') h (Run-IsCapped env.min_interval max_step small r' tt),
        ),
      )
