-- ===== src/Alarm/Consume.antt =====
-- modules/alarm/cron/event_consumer.go and callback.go: what an event makes of its action. A call that
-- fails to get an answer is in the arguments; `none` is the panic of a nil pointer.
pub mod Queues
pub mod Members
pub mod Notified
pub mod Routes
use falcon_plus_learn.Base.{
  Text, codes, ℕ, Bool, true, false, ◌||◌, Option, none, some, List, [], ◌∷◌, ◌++◌, if◌then◌else◌,
  ◌>>=◌,
}
use falcon_plus_learn.Base.Int.{ℤ, pos, leb_ℤ, ltb_ℤ, eqb_ℤ}
use falcon_plus_learn.Base.Map.{Map}
use falcon_plus_learn.Base.IntMap.{IntMap}
use falcon_plus_learn.Common.Model.{Event, priority, metric, tpl_id, action_id}
use falcon_plus_learn.Alarm.Outbox.{SmsDto, ImDto, MailDto, Outbox, write_sms, write_im, write_mail}
use falcon_plus_learn.Alarm.Users.{User, Action, StringSet, get_users, parse_teams, get_action}
use falcon_plus_learn.Alarm.Content.{Formats, build_common_sms_content, build_common_mail_content}

pub record Answers (V S : Type 0) : Type 0 where
  pub curl_uic : Text → Option (List User)
  pub curl_action : ℤ → Option Action
  pub call : Event V → Action → Text  -- `Callback` of a URL
  pub formats : Formats V
  pub string_set : StringSet S

pub record AlarmState : Type 0 where
  pub outbox : Outbox
  pub users : Map (List User)
  pub actions : IntMap Action

abbrev pub is_blank : Text → Bool
is_blank [] = true
is_blank (c ∷ t) = false

abbrev pub if_one : ℤ → (Outbox → Outbox) → Outbox → Outbox
if_one flag f o = if eqb_ℤ flag (pos 1) then f o else o

module _ {V S : Type 0} (env : Answers V S) where
  -- The request has the metric, the priority and the id of the template.
  abbrev pub callback : Event V → Action → Option Text
  callback e action =
      if is_blank action.url
      then some (codes "callback url is blank")
      else do m ← metric e; p ← priority e; t ← tpl_id e; some (env.call e action)

  -- Before the call the contents of the event are sent, after it its result.
  unfoldable pub handle_callback : Event V → Action → AlarmState → Option AlarmState
  unfolding parse_teams build_common_sms_content build_common_mail_content write_sms write_im
      write_mail metric priority tpl_id
  handle_callback e action s = elim (is_blank action.uic) [
    | true ↦ do message ← callback e action; some s
    | false ↦ do
      let (to, users) = parse_teams env.string_set env.curl_uic action.uic s.users
      text ← build_common_sms_content env.formats e
      mail ← build_common_mail_content env.formats e
      message ← callback e action
      let before = if_one action.before_callback_mail (write_mail to.1 text mail) (
          if_one action.before_callback_sms (λ o. write_im to.2 text (write_sms to.0 text o))
            s.outbox)
      let after = if_one action.after_callback_mail (write_mail to.1 message message) (
          if_one action.after_callback_sms (λ o. write_im to.2 message (write_sms to.0 message o))
            before)
      some (record s { outbox = after; users = users })
  ]

  -- An SMS is sent for the priorities below 3 only.
  unfoldable pub consume_high_events : Event V → Action → AlarmState → Option AlarmState
  unfolding parse_teams build_common_sms_content build_common_mail_content priority write_sms
      write_im write_mail
  consume_high_events e action s = if is_blank action.uic then some s else do
    let (to, users) = parse_teams env.string_set env.curl_uic action.uic s.users
    text ← build_common_sms_content env.formats e
    mail ← build_common_mail_content env.formats e
    p ← priority e
    let with_sms = if ltb_ℤ p (pos 3) then write_sms to.0 text s.outbox else s.outbox
    some (record s {
      outbox = write_mail to.1 text mail (write_im to.2 text with_sms);
      users = users;
    })

  abbrev pub add_sms : Map User → SmsDto → List SmsDto → List SmsDto
  add_sms [] d l = l
  add_sms ((k, u) ∷ m) d l = add_sms m d (record d { phone = u.phone } ∷ l)

  abbrev pub add_im : Map User → ImDto → List ImDto → List ImDto
  add_im [] d l = l
  add_im ((k, u) ∷ m) d l = add_im m d (record d { im = u.im } ∷ l)

  abbrev pub add_mail : Map User → MailDto → List MailDto → List MailDto
  add_mail [] d l = l
  add_mail ((k, u) ∷ m) d l = add_mail m d (record d { email = u.email } ∷ l)

  unfoldable pub parse_user_sms : Event V → Action → AlarmState → Option AlarmState
  unfolding get_users build_common_sms_content metric priority
  parse_user_sms e action s = do
    let (m, users) = get_users env.curl_uic action.uic s.users
    text ← build_common_sms_content env.formats e
    name ← metric e
    p ← priority e
    let d : SmsDto = record {
      priority = p;
      metric = name;
      content = text;
      phone = [];
      status = e.status;
    }
    some (record s {
      outbox = record s.outbox { user_sms = add_sms m d s.outbox.user_sms };
      users = users;
    })

  unfoldable pub parse_user_im : Event V → Action → AlarmState → Option AlarmState
  unfolding get_users build_common_sms_content metric priority
  parse_user_im e action s = do
    let (m, users) = get_users env.curl_uic action.uic s.users
    text ← build_common_sms_content env.formats e
    name ← metric e
    p ← priority e
    let d : ImDto = record {
      priority = p;
      metric = name;
      content = text;
      im = [];
      status = e.status;
    }
    some (record s {
      outbox = record s.outbox { user_im = add_im m d s.outbox.user_im };
      users = users;
    })

  unfoldable pub parse_user_mail : Event V → Action → AlarmState → Option AlarmState
  unfolding get_users build_common_sms_content build_common_mail_content metric priority
  parse_user_mail e action s = do
    let (m, users) = get_users env.curl_uic action.uic s.users
    name ← metric e
    subject ← build_common_sms_content env.formats e
    text ← build_common_mail_content env.formats e
    p ← priority e
    let d : MailDto = record {
      priority = p;
      metric = name;
      subject = subject;
      content = text;
      email = [];
      status = e.status;
    }
    some (record s {
      outbox = record s.outbox { user_mail = add_mail m d s.outbox.user_mail };
      users = users;
    })

  unfoldable pub consume_low_events : Event V → Action → AlarmState → Option AlarmState
  unfolding priority
  consume_low_events e action s = if is_blank action.uic then some s else do
    p ← priority e
    s' ← if ltb_ℤ p (pos 3) then parse_user_sms e action s else some s
    s'' ← parse_user_im e action s'
    parse_user_mail e action s''

  abbrev pub act : Event V → Bool → Action → AlarmState → Option AlarmState
  act e is_high action s = do
    s' ← if eqb_ℤ action.callback (pos 1) then handle_callback e action s else some s
    if is_high then consume_high_events e action s' else consume_low_events e action s'

  unfoldable pub consume : Event V → Bool → AlarmState → Option AlarmState
  unfolding action_id
  consume e is_high s = do
    id ← action_id e
    let (found, actions) = get_action env.curl_action id s.actions
    if leb_ℤ id (pos 0) then some s else elim found [
      | none ↦ some (record s { actions = actions })
      | some action ↦ act e is_high action (record s { actions = actions })
    ]
