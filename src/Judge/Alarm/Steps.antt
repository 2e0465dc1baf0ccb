-- ===== src/Judge/Alarm/Steps.antt =====
-- modules/judge/store/judge.go: `sendEventIfNeed` follows the step relation of a phase, for the
-- alarm of its event, and leaves every other alarm alone.
use mathlib.Core.Path.{subst}
use falcon_plus_learn.Base.{
  Text, codes, text_eq, text_eq_iff, text_eq_refl, length, get_elem?, ◌-◌, ◌≡◌, ◌≢◌, refl, sym, ap,
  ◌∙◌, true, false, some, List, if◌then◌else◌, ◌⊎◌, inl, inr, arith, Bool-cases, Option-cases,
}
use falcon_plus_learn.Base.Int.{ℤ, pos}
use falcon_plus_learn.Base.Map.{lookup, lookup-insert}
use falcon_plus_learn.Common.Model.{HistoryData, Event, priority}
use falcon_plus_learn.Judge.Alarm.{Env, Alerts, send_event_if_need}
use falcon_plus_learn.Judge.Alarm.Refine.{
  phase_of, phase, IsWellFormed, report_event, keep, deliver, Outcome, IsKnown, problem_case,
  ok_case,
}
use falcon_plus_learn.Judge.Alarm.Phase.{Sample, Report, silence, problem, ok, Step}

module _ {V : Type 0} (env : Env V) where
  IsKnown-of : (s : Alerts V) (k : Text) → IsWellFormed s → IsKnown (lookup k s.last_events)
  IsKnown-of s k w = elim (Option-cases (lookup k s.last_events)) [
    | inl n ↦ rw n tt
    | inr (e, q) ↦ rw q (w.known k e q)
  ]

  Outcome-of :
      (history : List (HistoryData V)) (max_step p : ℤ) (e : Event V) (x : Sample) (s : Alerts V)
      (oldest : HistoryData V)
      → IsWellFormed s
      → priority e ≡ some p
      → x.time ≡ e.event_time
      → get_elem? history (length history - 1) ≡ some oldest
      → x.oldest ≡ oldest.timestamp
      → Outcome env max_step p e x
          (phase e.id s)
          s
          (send_event_if_need env history x.is_triggered x.now e max_step s)
  unfolding send_event_if_need
  Outcome-of history max_step p e x s oldest w h q g o = elim (Bool-cases x.is_triggered) [
    | inl t ↦ rw t (
        problem_case env history max_step p (lookup e.id s.last_events) e
          (record x { is_triggered = true }) s oldest (IsKnown-of s e.id w) h refl q g o)
    | inr t ↦ rw t (
        ok_case env max_step p (lookup e.id s.last_events) e (record x { is_triggered = false }) s
          (IsKnown-of s e.id w) h refl)
  ]

  lookup-keep :
      (p : ℤ) (e : Event V) (s : Alerts V) (k : Text)
      → lookup k (keep env p e s).last_events
        ≡ (if text_eq e.id k then some e else lookup k s.last_events)
  lookup-keep p e s k = lookup-insert e.id k e s.last_events

  id-report_event :
      (o : Report) (e e' : Event V)
      → report_event o e ≡ some e'
      → (e'.id ≡ e.id) × ((e'.status ≡ codes "PROBLEM") ⊎ (e'.status ≡ codes "OK"))
  id-report_event silence e e' h = cc
  id-report_event (problem n) e e' h = ground arith
  id-report_event ok e e' h = ground arith

  deliver-others :
      (p : ℤ) (o : Report) (e : Event V) (s : Alerts V) (k : Text)
      → k ≢ e.id
      → lookup k (deliver env p (report_event o e) s).last_events ≡ lookup k s.last_events
  deliver-others p silence e s k n = refl
  deliver-others p (problem m) e s k n = ground (
    arith,
    lookup-insert e.id k (record e { status = codes "PROBLEM"; current_step = m }) s.last_events,
    text_eq_iff e.id k,
  )
  deliver-others p ok e s k n = ground (
    arith,
    lookup-insert e.id k (record e { status = codes "OK"; current_step = pos 1 }) s.last_events,
    text_eq_iff e.id k,
  )

  deliver-phase :
      (p : ℤ) (o : Report) (e : Event V) (s : Alerts V)
      → o ≢ silence
      → phase e.id (deliver env p (report_event o e) s) ≡ phase_of (report_event o e)
  deliver-phase p silence e s n = absurd (n refl)
  deliver-phase p (problem m) e s n = rw (lookup-insert, text_eq_refl) refl
  deliver-phase p ok e s n = rw (lookup-insert, text_eq_refl) refl

  keep-IsWellFormed :
      (p : ℤ) (e : Event V) (s : Alerts V)
      → IsWellFormed s
      → (e.status ≡ codes "PROBLEM") ⊎ (e.status ≡ codes "OK")
      → IsWellFormed (keep env p e s)
  keep-IsWellFormed p e s w known = record {
    known = λ k e' h. elim (Bool-cases (text_eq e.id k)) [
      | inl t ↦ let q : some e ≡ some e' = rw (lookup-insert, t) at h in ground arith
      | inr t ↦ w.known k e' (rw (lookup-insert, t) at h)
    ];
  }

  deliver-IsWellFormed :
      (p : ℤ) (o : Report) (e : Event V) (s : Alerts V)
      → IsWellFormed s
      → IsWellFormed (deliver env p (report_event o e) s)
  deliver-IsWellFormed p silence e s w = w
  deliver-IsWellFormed p (problem m) e s w = keep-IsWellFormed p _ s w (inl refl)
  deliver-IsWellFormed p ok e s w = keep-IsWellFormed p _ s w (inr refl)

  -- From a state whose statuses are known, sendEventIfNeed on an event with a strategy or an
  -- expression and a history with points returns and is a step of the alarm phase relation (muted,
  -- raise, hold, again, recover, idle); what it keeps and pushes is the event of that step's
  -- report, every other alarm's last event stays, and the kept statuses stay known.
  pub send_event_if_need-Step :
      (history : List (HistoryData V)) (max_step p : ℤ) (e : Event V) (x : Sample) (s : Alerts V)
      (oldest : HistoryData V)
      → IsWellFormed s
      → priority e ≡ some p
      → x.time ≡ e.event_time
      → get_elem? history (length history - 1) ≡ some oldest
      → x.oldest ≡ oldest.timestamp
      → (o : Report) × (s' : Alerts V) × (send_event_if_need env history x.is_triggered x.now e
            max_step s
          ≡ some s')
        × (s' ≡ deliver env p (report_event o e) s)
        × Step env.min_interval max_step (phase e.id s) x o (phase e.id s')
        × ((k : Text) → k ≢ e.id → lookup k s'.last_events ≡ lookup k s.last_events)
        × IsWellFormed s'
  send_event_if_need-Step history max_step p e x s oldest w h q g o =
      let c = Outcome-of history max_step p e x s oldest w h q g o in
      (
        c.report,
        deliver env p (report_event c.report e) s,
        c.returns,
        refl,
        subst (λ f. Step env.min_interval max_step (phase e.id s) x c.report f) (lands c) c.step,
        deliver-others p c.report e s,
        deliver-IsWellFormed p c.report e s w,
      )
    where
      lands :
          (c : Outcome env max_step p e x
            (phase e.id s)
            s
            (send_event_if_need env history x.is_triggered x.now e max_step s))
          → c.after ≡ phase e.id (deliver env p (report_event c.report e) s)
      lands c = elim c.kept [
        | inl (quiet_report, same) ↦
            same ∙ sym (ap (λ r. phase e.id (deliver env p (report_event r e) s)) quiet_report)
        | inr (sent, loud) ↦ sym sent ∙ sym (deliver-phase p c.report e s loud)
      ]
