-- ===== src/Judge/Alarm/Refine.antt =====
-- modules/judge/store/judge.go: each branch of `sendEventIfNeed` as a step of the alarm's phase.
use falcon_plus_learn.Base.{
  Text, codes, text_eq, text_eq_iff, length, get_elem?, ◌-◌, ◌≡◌, ◌≢◌, refl, sym, ap, ◌∙◌, true,
  false, Option, none, some, List, ◌∷◌, if◌then◌else◌, ◌⊎◌, inl, inr, arith, Bool-cases,
  Option-cases,
}
use falcon_plus_learn.Base.Int.{ℤ, pos, eqb_ℤ, eqb_ℤ_iff, ltb_ℤ, leb_ℤ, add64, sub64}
use falcon_plus_learn.Base.Map.{lookup, insert}
use falcon_plus_learn.Common.Model.{HistoryData, Event, priority}
use falcon_plus_learn.Judge.Alarm.{
  Env, Alerts, send_event, first_problem, repeat_problem, on_problem, on_ok,
}
use falcon_plus_learn.Judge.Alarm.Phase.{
  Phase, quiet, alarming, Sample, Report, silence, problem, ok, Step, muted, raise, hold, again,
  recover, idle,
}

module _ {V : Type 0} where
  -- The phase that the last event of an alarm stands for.
  abbrev pub phase_of : Option (Event V) → Phase
  phase_of none = quiet
  phase_of (some e) =
      if text_eq e.status (codes "PROBLEM") then alarming e.current_step e.event_time else quiet

  abbrev pub phase : Text → Alerts V → Phase
  phase id s = phase_of (lookup id s.last_events)

  abbrev pub IsKnown : Option (Event V) → Type 0
  IsKnown none = Unit
  IsKnown (some e) = (e.status ≡ codes "PROBLEM") ⊎ (e.status ≡ codes "OK")

  -- The status of every kept event is one that the code writes.
  pub record IsWellFormed (s : Alerts V) : Type 0 where
    pub known :
        (k : Text) (e : Event V)
        → lookup k s.last_events ≡ some e
        → (e.status ≡ codes "PROBLEM") ⊎ (e.status ≡ codes "OK")

  -- The event that a report sends.
  abbrev pub report_event : Report → Event V → Option (Event V)
  report_event silence e = none
  report_event (problem n) e = some (record e { status = codes "PROBLEM"; current_step = n })
  report_event ok e = some (record e { status = codes "OK"; current_step = pos 1 })

  ok_quiet : (e : Event V) → e.status ≡ codes "OK" → text_eq e.status (codes "PROBLEM") ≡ false
  ok_quiet e k = ap (λ w. text_eq w (codes "PROBLEM")) k ∙ unfold text_eq in refl

module _ {V : Type 0} (env : Env V) where
  -- The event is kept, and pushed to the queue of its priority if it can be marshalled.
  abbrev pub keep : ℤ → Event V → Alerts V → Alerts V
  keep p e s = record {
    last_events = insert e.id e s.last_events;
    pushed = elim (env.marshal e) [ none ↦ s.pushed | some bs ↦ (env.queue_name p, bs) ∷ s.pushed ];
  }

  abbrev pub deliver : ℤ → Option (Event V) → Alerts V → Alerts V
  deliver p none s = s
  deliver p (some e) s = keep p e s

  send_event_lem :
      (p : ℤ) (e : Event V) (s : Alerts V)
      → priority e ≡ some p
      → send_event env e s ≡ some (keep p e s)
  unfolding send_event
  send_event_lem p e s h = elim (Option-cases (env.marshal e)) [
    | inl n ↦ rw (n, send_event)
    | inr (bs, m) ↦ rw (m, send_event) (rw h)
  ]

  -- What is left of `sendEventIfNeed` to say: it returns, and its report is a step of the phase.
  pub record Outcome (max_step p : ℤ) (e : Event V) (x : Sample) (before : Phase) (s : Alerts V)
      (r : Option (Alerts V)) : Type 0 where
    pub report : Report
    pub after : Phase
    pub returns : r ≡ some (deliver p (report_event report e) s)
    pub step : Step env.min_interval max_step before x report after
    pub kept :
        (report ≡ silence) × (after ≡ before)
        ⊎ (phase_of (report_event report e) ≡ after) × (report ≢ silence)

  first_problem_lem :
      (max_step p : ℤ) (e : Event V) (x : Sample) (s : Alerts V)
      → priority e ≡ some p
      → x.is_triggered ≡ true
      → x.time ≡ e.event_time
      → Outcome max_step p e x quiet s
          (first_problem env max_step (record e { status = codes "PROBLEM" }) s)
  unfolding first_problem
  first_problem_lem max_step p e x s h t q = elim (Bool-cases (eqb_ℤ max_step (pos 0))) [
    | inl z ↦ record {
      report = silence;
      after = quiet;
      returns = rw z;
      step = muted x t ((eqb_ℤ_iff _ _).0 z);
      kept = inl (refl, refl);
    }
    | inr z ↦ record {
      report = problem (pos 1);
      after = alarming (pos 1) x.time;
      returns = rw z (
          send_event_lem p (record e { status = codes "PROBLEM"; current_step = pos 1 }) s
            (unfold priority in h));
      step = raise x t (ground arith);
      kept = inr (unfold text_eq in ap (alarming (pos 1)) (sym q), λ c. cc);
    }
  ]

  silent-Step :
      (max_step p : ℤ) (e : Event V) (x : Sample) (before : Phase) (s : Alerts V)
      {r : Option (Alerts V)}
      → r ≡ some s
      → Step env.min_interval max_step before x silence before
      → Outcome max_step p e x before s r
  silent-Step max_step p e x before s q st = record {
    report = silence;
    after = before;
    returns = q;
    step = st;
    kept = inl (refl, refl);
  }

  repeat_problem_lem :
      (history : List (HistoryData V)) (max_step p : ℤ) (last e : Event V) (x : Sample)
      (s : Alerts V) (oldest : HistoryData V)
      → priority e ≡ some p
      → x.is_triggered ≡ true
      → x.time ≡ e.event_time
      → get_elem? history (length history - 1) ≡ some oldest
      → x.oldest ≡ oldest.timestamp
      → Outcome max_step p e x
          (alarming last.current_step last.event_time)
          s
          (repeat_problem env history x.now max_step last (record e { status = codes "PROBLEM" }) s)
  unfolding repeat_problem
  repeat_problem_lem history max_step p last e x s oldest h t q g o =
      elim (Bool-cases (leb_ℤ max_step last.current_step)) [
        | inl a ↦
            silent-Step max_step p e x _ s (rw a)
              (hold x last.current_step last.event_time t (inl (ground arith)))
        | inr a ↦ elim (Bool-cases (leb_ℤ oldest.timestamp last.event_time)) [
          | inl b ↦
              silent-Step max_step p e x _ s (rw (a, g, b))
                (hold x last.current_step last.event_time t (inr (inl (rw o (ground arith)))))
          | inr b ↦ elim (Bool-cases (ltb_ℤ (sub64 x.now last.event_time) env.min_interval)) [
            | inl c ↦
                silent-Step max_step p e x _ s (rw (a, g, b, c))
                  (hold x last.current_step last.event_time t (inr (inr (ground arith))))
            | inr c ↦
                let step = add64 last.current_step (pos 1) in
                record {
                  report = problem step;
                  after = alarming step x.time;
                  returns =
                      rw (a, g, b, c)
                        (send_event_lem p
                          (record e { status = codes "PROBLEM"; current_step = step }) s
                          (unfold priority in h));
                  step =
                      again x last.current_step last.event_time t (ground arith)
                        (rw o (ground arith)) (ground arith);
                  kept = inr (unfold text_eq in ap (alarming step) (sym q), λ c. cc);
                }
          ]
        ]
      ]

  pub problem_case :
      (history : List (HistoryData V)) (max_step p : ℤ) (o : Option (Event V)) (e : Event V)
      (x : Sample) (s : Alerts V) (oldest : HistoryData V)
      → IsKnown o
      → priority e ≡ some p
      → x.is_triggered ≡ true
      → x.time ≡ e.event_time
      → get_elem? history (length history - 1) ≡ some oldest
      → x.oldest ≡ oldest.timestamp
      → Outcome max_step p e x
          (phase_of o)
          s
          (on_problem env history x.now max_step o (record e { status = codes "PROBLEM" }) s)
  unfolding on_problem
  problem_case history max_step p none e x s oldest k h t q g o =
      first_problem_lem max_step p e x s h t q
  problem_case history max_step p (some last) e x s oldest (inl k) h t q g o =
      rw (ap (λ w. get_elem? w 0) k, (text_eq_iff _ _).1 k)
        (repeat_problem_lem history max_step p last e x s oldest h t q g o)
  problem_case history max_step p (some last) e x s oldest (inr k) h t q g o =
      rw (ap (λ w. get_elem? w 0) k, ok_quiet last k) (first_problem_lem max_step p e x s h t q)

  pub ok_case :
      (max_step p : ℤ) (o : Option (Event V)) (e : Event V) (x : Sample) (s : Alerts V)
      → IsKnown o
      → priority e ≡ some p
      → x.is_triggered ≡ false
      → Outcome max_step p e x (phase_of o) s (on_ok env o e s)
  unfolding on_ok
  ok_case max_step p none e x s k h t = silent-Step max_step p e x quiet s refl (idle x t)
  ok_case max_step p (some last) e x s (inl k) h t =
      rw (ap (λ w. get_elem? w 0) k, (text_eq_iff _ _).1 k)
        (record {
          report = ok;
          after = quiet;
          returns =
              send_event_lem p (record e { status = codes "OK"; current_step = pos 1 }) s
                (unfold priority in h);
          step = recover x last.current_step last.event_time t;
          kept = inr (unfold text_eq in refl, λ c. cc);
        })
  ok_case max_step p (some last) e x s (inr k) h t =
      rw (ap (λ w. get_elem? w 0) k, ok_quiet last k)
        (silent-Step max_step p e x quiet s refl (idle x t))
