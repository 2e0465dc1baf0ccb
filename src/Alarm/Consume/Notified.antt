-- ===== src/Alarm/Consume/Notified.antt =====
-- modules/alarm/cron/event_consumer.go: whom an event of low priority is written to.
use falcon_plus_learn.Base.{
  Text, ◌≡◌, refl, sym, ap, ◌∙◌, Bool, true, false, some, List, [], ◌∷◌, if◌then◌else◌, inl, inr,
  Has,
}
use mathlib.Core.Path.{subst}
use falcon_plus_learn.Base.Int.{pos, ltb_ℤ}
use falcon_plus_learn.Base.Map.{Map}
use falcon_plus_learn.Common.Model.{Event, Strategy, Template}
use falcon_plus_learn.Alarm.Outbox.{Outbox, ImDto, MailDto}
use falcon_plus_learn.Alarm.Users.{User, Action, get_users}
use falcon_plus_learn.Alarm.Consume.{
  Answers, AlarmState, is_blank, add_im, add_mail, parse_user_sms, parse_user_im, parse_user_mail,
  consume_low_events,
}
use falcon_plus_learn.Alarm.Consume.Members.{
  Agree, listed, last_named, get_users-Has, get_users-Agree, get_users_same,
}
use falcon_plus_learn.Base.Decimal.{split}
use falcon_plus_learn.Alarm.Consume.Routes.{
  sms_text, mail_text, has_priority, has_metric, Returns, returned,
}

module _ {V S : Type 0} (env : Answers V S) where
  add_im-keeps : (m : Map User) (d x : ImDto) (l : List ImDto) → Has x l → Has x (add_im env m d l)
  add_im-keeps [] d x l h = h
  add_im-keeps ((k, u) ∷ m) d x l h = add_im-keeps m d x (record d { im = u.im } ∷ l) (inr h)

  add_im-Has :
      (m : Map User) (d : ImDto) (l : List ImDto) (k : Text) (u : User)
      → Has (k, u) m
      → Has (record d { im = u.im }) (add_im env m d l)
  add_im-Has [] d l k u h = absurd h
  add_im-Has ((j, w) ∷ m) d l k u (inl e) =
      add_im-keeps m d (record d { im = u.im }) (record d { im = w.im } ∷ l)
        (inl (ap (λ (p : Text × User). record d { im = p.1.im }) e))
  add_im-Has ((j, w) ∷ m) d l k u (inr h) = add_im-Has m d (record d { im = w.im } ∷ l) k u h

  add_mail-keeps :
      (m : Map User) (d x : MailDto) (l : List MailDto) → Has x l → Has x (add_mail env m d l)
  add_mail-keeps [] d x l h = h
  add_mail-keeps ((k, u) ∷ m) d x l h =
      add_mail-keeps m d x (record d { email = u.email } ∷ l) (inr h)

  add_mail-Has :
      (m : Map User) (d : MailDto) (l : List MailDto) (k : Text) (u : User)
      → Has (k, u) m
      → Has (record d { email = u.email }) (add_mail env m d l)
  add_mail-Has [] d l k u h = absurd h
  add_mail-Has ((j, w) ∷ m) d l k u (inl e) =
      add_mail-keeps m d (record d { email = u.email }) (record d { email = w.email } ∷ l)
        (inl (ap (λ (p : Text × User). record d { email = p.1.email }) e))
  add_mail-Has ((j, w) ∷ m) d l k u (inr h) =
      add_mail-Has m d (record d { email = w.email } ∷ l) k u h

  module _ (e : Event V) (st : Strategy V) (t : Template) (has : e.strategy ≡ some st)
      (tpl : st.tpl ≡ some t) (action : Action) where
    -- The members of the teams, as they are known in a state.
    abbrev members : AlarmState → Map User
    members s = (get_users env.curl_uic action.uic s.users).0

    -- The user is the last of that name whom the teams list: the teams of the action, asked for at
    -- the API or, where it does not answer, taken from the cache.
    abbrev pub Listed : AlarmState → Text → User → Type 0
    Listed s k u = last_named k (listed env.curl_uic s.users (split b',' action.uic)) ≡ some u

    abbrev IsMember : AlarmState → Text → User → Type 0
    IsMember s k u = Has (k, u) (members s)

    -- Each of them has an IM, and a mail, with the priority, metric and status of the event.
    abbrev pub HaveIm : (Text → User → Type 0) → Outbox → Type 0
    HaveIm who o =
        (k : Text) (u : User)
        → who k u
        → (text : Text) × Has
            (record {
              priority = st.priority;
              metric = st.metric;
              content = text;
              im = u.im;
              status = e.status;
            })
            o.user_im

    abbrev pub HaveMail : (Text → User → Type 0) → Outbox → Type 0
    HaveMail who o =
        (k : Text) (u : User)
        → who k u
        → (subject : Text) × (text : Text) × Has
            (record {
              priority = st.priority;
              metric = st.metric;
              subject = subject;
              content = text;
              email = u.email;
              status = e.status;
            })
            o.user_mail

    abbrev Next : AlarmState → AlarmState → Type 0
    Next s r = Agree env.curl_uic s.users r.users

    sms-Next :
        (s : AlarmState) → Returns env e st t has tpl (Next s) (parse_user_sms env e action s)
    unfolding parse_user_sms
    sms-Next s =
        let (text, x) = sms_text env e st t has tpl in
        rw
          (
            x,
            has_metric env e st t has tpl,
            has_priority env e st t has tpl,
            Returns,
            parse_user_sms,
          )
          (get_users-Agree env.curl_uic action.uic s.users)

    im-Next :
        (s : AlarmState)
        → Returns env e st t has tpl
            (λ r. Next s r × HaveIm (IsMember s) r.outbox)
            (parse_user_im env e action s)
    unfolding parse_user_im
    im-Next s =
        let (text, x) = sms_text env e st t has tpl in
        rw
          (
            x,
            has_metric env e st t has tpl,
            has_priority env e st t has tpl,
            Returns,
            parse_user_im,
          )
          (
            get_users-Agree env.curl_uic action.uic s.users,
            λ k u h. (text, add_im-Has (members s) _ s.outbox.user_im k u h),
          )

    mail-Next :
        (s : AlarmState)
        → Returns env e st t has tpl
            (λ r. (r.outbox.user_im ≡ s.outbox.user_im) × HaveMail (IsMember s) r.outbox)
            (parse_user_mail env e action s)
    unfolding parse_user_mail
    mail-Next s =
        let (text, x) = sms_text env e st t has tpl in
        let (mail, y) = mail_text env e st t has tpl in
        rw
          (
            x,
            y,
            has_metric env e st t has tpl,
            has_priority env e st t has tpl,
            Returns,
            parse_user_mail,
          )
          (refl, λ k u h. (text, mail, add_mail-Has (members s) _ s.outbox.user_mail k u h))

    sms_step :
        (s : AlarmState) (b : Bool)
        → (r : AlarmState) × ((if b then parse_user_sms env e action s else some s) ≡ some r)
          × Next s r
    sms_step s true =
        returned env e st t has tpl (Next s) (parse_user_sms env e action s) (sms-Next s)
    sms_step s false = (s, refl, λ j n. refl)

    low_events-HaveMail :
        (s : AlarmState)
        → is_blank action.uic ≡ false
        → (r : AlarmState) × (consume_low_events env e action s ≡ some r)
          × HaveIm (IsMember s) r.outbox
          × HaveMail (IsMember s) r.outbox
    unfolding consume_low_events
    low_events-HaveMail s n =
        let (s1, q, a) = sms_step s (ltb_ℤ st.priority (pos 3)) in
        let (s2, q', (b, im)) =
          returned env e st t has tpl (λ r. Next s1 r × HaveIm (IsMember s1) r.outbox)
            (parse_user_im env e action s1) (im-Next s1) in
        let (s3, q'', (kept, mail)) =
          returned env e st t has tpl
            (λ r. (r.outbox.user_im ≡ s2.outbox.user_im) × HaveMail (IsMember s2) r.outbox)
            (parse_user_mail env e action s2) (mail-Next s2) in
        let m1 : members s1 ≡ members s =
          get_users_same env.curl_uic action.uic s.users s1.users a in
        let m2 : members s2 ≡ members s =
          get_users_same env.curl_uic action.uic s.users s2.users (λ j z. b j z ∙ a j z) in
        (
          s3,
          rw (n, has_priority env e st t has tpl, q, q', q'', consume_low_events) refl,
          λ k u h.
              let (text, x) = im k u (subst (Has (k, u)) (sym m1) h) in
              (text, subst (Has _) (sym kept) x),
          λ k u h. mail k u (subst (Has (k, u)) (sym m2) h),
        )

    -- For an event of a strategy with a template and an action with teams, consumeLowEvents
    -- returns, and each user whom the API lists for a team of the action, or the cache before if
    -- the API does not answer, the last one listed of each name, then has an IM and a mail, with
    -- the priority, metric and status of the event, in the queues that are combined.
    pub consume_low_events-HaveMail :
        (s : AlarmState)
        → is_blank action.uic ≡ false
        → (r : AlarmState) × (consume_low_events env e action s ≡ some r)
          × HaveIm (Listed s) r.outbox
          × HaveMail (Listed s) r.outbox
    consume_low_events-HaveMail s n =
        let (r, q, im, mail) = low_events-HaveMail s n in
        (
          r,
          q,
          λ k u h. im k u (get_users-Has env.curl_uic action.uic k u s.users h),
          λ k u h. mail k u (get_users-Has env.curl_uic action.uic k u s.users h),
        )
