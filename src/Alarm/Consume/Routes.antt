-- ===== src/Alarm/Consume/Routes.antt =====
-- modules/alarm/cron/event_consumer.go: which queues an event goes to.
use falcon_plus_learn.Base.{
  Text, ◌≡◌, refl, ◌∙◌, Bool, true, false, Option, none, some, List, if◌then◌else◌, arith,
  Bool-cases, Option-cases, inl, inr,
}
use falcon_plus_learn.Base.Int.{ℤ, pos, leb_ℤ, ltb_ℤ, eqb_ℤ}
use falcon_plus_learn.Base.IntMap.{IntMap}
use falcon_plus_learn.Common.Model.{
  Event, Strategy, Template, priority, note, func, metric, operator, right_value, max_step, tpl_id,
  action_id,
}
use falcon_plus_learn.Alarm.Outbox.{Outbox, write_sms, write_im, write_mail}
use falcon_plus_learn.Alarm.Users.{Action, parse_teams, get_action}
use falcon_plus_learn.Alarm.Content.{build_common_sms_content, link, build_common_mail_content}
use falcon_plus_learn.Alarm.Consume.{
  Answers, AlarmState, is_blank, consume_high_events, parse_user_sms, parse_user_im,
  parse_user_mail, consume_low_events, consume,
}
use falcon_plus_learn.Alarm.Consume.Queues.{
  KeepsUserQueues-trans, write_sms-Keeps, write_im-Keeps, write_mail-Keeps, KeepsUserQueues,
  KeepsSent,
}

module _ {V S : Type 0} (env : Answers V S) (e : Event V) (st : Strategy V) (t : Template)
    (has : e.strategy ≡ some st) (tpl : st.tpl ≡ some t) where
  pub sms_text : (x : Text) × (build_common_sms_content env.formats e ≡ some x)
  unfolding build_common_sms_content priority note func metric operator right_value
  sms_text = elim (Option-cases (build_common_sms_content env.formats e)) [
    | inl n ↦ absurd (ground (arith, has, n))
    | inr y ↦ y
  ]

  pub mail_text : (x : Text) × (build_common_mail_content env.formats e ≡ some x)
  unfolding build_common_mail_content link tpl_id priority note func metric operator right_value
      max_step
  mail_text = elim (Option-cases (build_common_mail_content env.formats e)) [
    | inl n ↦ absurd (ground (arith, has, tpl, n))
    | inr y ↦ y
  ]

  pub has_priority : priority e ≡ some st.priority
  unfolding priority
  has_priority = rw has refl

  pub has_metric : metric e ≡ some st.metric
  unfolding metric
  has_metric = rw has refl

  -- The queues that the event does not belong to are as before, and so is the one of the user's SMS
  -- for a priority from 3 on.
  abbrev pub Routes : Bool → Outbox → Outbox → Type 0
  Routes is_high o o' =
      (if is_high then KeepsUserQueues o o' else KeepsSent o o')
      × (ltb_ℤ st.priority (pos 3) ≡ false → (o'.sms ≡ o.sms) × (o'.user_sms ≡ o.user_sms))

  abbrev Ends : Bool → AlarmState → Option AlarmState → Type 0
  Ends is_high s o = (s' : AlarmState) × (o ≡ some s') × Routes is_high s.outbox s'.outbox

  same-Routes : (is_high : Bool) (o : Outbox) → Routes is_high o o
  same-Routes true o =
      (record { user_sms = refl; user_im = refl; user_mail = refl }, λ h. (refl, refl))
  same-Routes false o = (record { sms = refl; im = refl; mail = refl }, λ h. (refl, refl))

  sent-Routes :
      (phones mails ims : List Text) (text mail : Text) (o : Outbox) (b : Bool)
      → ltb_ℤ st.priority (pos 3) ≡ b
      → Routes true o (
          write_mail mails text mail (write_im ims text (if b then write_sms phones text o else o)))
  sent-Routes phones mails ims text mail o true p =
      let a = write_sms phones text o in
      let b = write_im ims text a in
      (
        KeepsUserQueues-trans o a (write_mail mails text mail b) (write_sms-Keeps phones text o) (
            KeepsUserQueues-trans a b (write_mail mails text mail b) (write_im-Keeps ims text a).0
              (write_mail-Keeps mails text mail b).0),
        λ h. absurd (cc (p, h)),
      )
  sent-Routes phones mails ims text mail o false p =
      let b = write_im ims text o in
      let k = write_mail-Keeps mails text mail b in
      let i = write_im-Keeps ims text o in
      let both = KeepsUserQueues-trans o b (write_mail mails text mail b) i.0 k.0 in
      (both, λ h. (k.1 ∙ i.1, both.user_sms))

  consume_high_events-Ends :
      (action : Action) (s : AlarmState) → Ends true s (consume_high_events env e action s)
  unfolding consume_high_events
  consume_high_events-Ends action s = elim (Bool-cases (is_blank action.uic)) [
    | inl b ↦ (s, rw (b, consume_high_events) refl, same-Routes true s.outbox)
    | inr n ↦
        let (to, users) = parse_teams env.string_set env.curl_uic action.uic s.users in
        let (text, x) = sms_text in
        let (mail, y) = mail_text in
        let low = ltb_ℤ st.priority (pos 3) in
        let o =
          write_mail to.1 text mail
            (write_im to.2 text (if low then write_sms to.0 text s.outbox else s.outbox)) in
        (
          record s { outbox = o; users = users },
          rw (n, x, y, has_priority, consume_high_events) refl,
          sent-Routes to.0 to.1 to.2 text mail s.outbox low refl,
        )
  ]

  -- What leaves both the queues that are sent and the one of the users' SMS.
  abbrev KeepsSms : AlarmState → AlarmState → Type 0
  KeepsSms s s' = KeepsSent s.outbox s'.outbox × (s'.outbox.user_sms ≡ s.outbox.user_sms)

  -- A call returns, in a state that satisfies `P`.
  abbrev pub Returns : (AlarmState → Type 0) → Option AlarmState → Type 0
  Returns P none = ⊥
  Returns P (some s) = P s

  pub returned :
      (P : AlarmState → Type 0) (o : Option AlarmState)
      → Returns P o
      → (s : AlarmState) × (o ≡ some s) × P s
  returned P none h = absurd h
  returned P (some s) h = (s, refl, h)

  parse_user_sms-Returns :
      (action : Action) (s : AlarmState)
      → Returns (λ r. KeepsSent s.outbox r.outbox) (parse_user_sms env e action s)
  unfolding parse_user_sms
  parse_user_sms-Returns action s =
      let (text, x) = sms_text in
      rw (x, has_metric, has_priority, Returns, parse_user_sms)
        (record { sms = refl; im = refl; mail = refl })

  parse_user_im-Returns :
      (action : Action) (s : AlarmState) → Returns (KeepsSms s) (parse_user_im env e action s)
  unfolding parse_user_im
  parse_user_im-Returns action s =
      let (text, x) = sms_text in
      rw (x, has_metric, has_priority, Returns, parse_user_im)
        (record { sms = refl; im = refl; mail = refl }, refl)

  parse_user_mail-Returns :
      (action : Action) (s : AlarmState) → Returns (KeepsSms s) (parse_user_mail env e action s)
  unfolding parse_user_mail
  parse_user_mail-Returns action s =
      let (text, x) = sms_text in
      let (mail, y) = mail_text in
      rw (x, y, has_metric, has_priority, Returns, parse_user_mail)
        (record { sms = refl; im = refl; mail = refl }, refl)

  KeepsSent-trans : (a b c : Outbox) → KeepsSent a b → KeepsSent b c → KeepsSent a c
  KeepsSent-trans a b c h k = record {
    sms = k.sms ∙ h.sms;
    im = k.im ∙ h.im;
    mail = k.mail ∙ h.mail;
  }

  -- The first step of a low event: its SMS, if its priority is below 3.
  sms_step :
      (action : Action) (s : AlarmState) (b : Bool)
      → ltb_ℤ st.priority (pos 3) ≡ b
      → (s' : AlarmState) × ((if b then parse_user_sms env e action s else some s) ≡ some s')
        × Routes false s.outbox s'.outbox
  sms_step action s true p =
      let (s', q, k) =
        returned (λ r. KeepsSent s.outbox r.outbox) (parse_user_sms env e action s)
          (parse_user_sms-Returns action s) in
      (s', q, (k, λ h. absurd (cc (p, h))))
  sms_step action s false p = (s, refl, same-Routes false s.outbox)

  Routes-KeepsSms :
      (s r u : AlarmState)
      → Routes false s.outbox r.outbox
      → KeepsSms r u
      → Routes false s.outbox u.outbox
  Routes-KeepsSms s r u (k, f) (l, g) =
      (KeepsSent-trans s.outbox r.outbox u.outbox k l, λ h. (l.sms ∙ (f h).0, g ∙ (f h).1))

  consume_low_events-Ends :
      (action : Action) (s : AlarmState) → Ends false s (consume_low_events env e action s)
  unfolding consume_low_events
  consume_low_events-Ends action s = elim (Bool-cases (is_blank action.uic)) [
    | inl b ↦ (s, rw (b, consume_low_events) refl, same-Routes false s.outbox)
    | inr n ↦
        let (r, q, h) = sms_step action s (ltb_ℤ st.priority (pos 3)) refl in
        let (u, q', k) =
          returned (KeepsSms r) (parse_user_im env e action r) (parse_user_im-Returns action r) in
        let (v, q'', l) =
          returned (KeepsSms u) (parse_user_mail env e action u)
            (parse_user_mail-Returns action u) in
        (
          v,
          rw (n, has_priority, q, q', q'', consume_low_events) refl,
          Routes-KeepsSms s u v (Routes-KeepsSms s r u h k) l,
        )
  ]

  -- An event of a strategy with a template, whose action is found and has no callback, is consumed
  -- without a panic; an event of high priority leaves the queues of the users as they are, one of
  -- low priority those that are sent, and an SMS is written only for a priority below 3.
  pub consume-Routes :
      (id : ℤ) (action : Action) (actions : IntMap Action) (is_high : Bool) (s : AlarmState)
      → action_id e ≡ some id
      → leb_ℤ id (pos 0) ≡ false
      → get_action env.curl_action id s.actions ≡ (some action, actions)
      → eqb_ℤ action.callback (pos 1) ≡ false
      → (s' : AlarmState) × (consume env e is_high s ≡ some s') × Routes is_high s.outbox s'.outbox
  unfolding consume
  consume-Routes id action actions true s a p g c =
      let (s', q, h) = consume_high_events-Ends action (record s { actions = actions }) in
      (s', rw (a, p, g, g, c, consume) q, h)
  consume-Routes id action actions false s a p g c =
      let (s', q, h) = consume_low_events-Ends action (record s { actions = actions }) in
      (s', rw (a, p, g, g, c, consume) q, h)
