-- ===== src/Alarm/Tests.antt =====
-- Runs of modules/alarm on an event, its action and two mails.
use falcon_plus_learn.Base.{Text, codes, ◌≡◌, refl, false, none, some, List, [], ◌∷◌, ◌++◌, length}
use falcon_plus_learn.Base.Int.{ℤ, pos}
use falcon_plus_learn.Base.Decimal.{fmt_int, fmt_digits}
use falcon_plus_learn.Base.Map.{Map}
use falcon_plus_learn.Base.IntMap.{insert_int}
use falcon_plus_learn.Common.Model.{Event, Strategy, Template, action_id}
use falcon_plus_learn.Common.Tags.{insert_sorted}
use falcon_plus_learn.Alarm.Outbox.{Outbox, MailDto}
use falcon_plus_learn.Alarm.Users.{User, Action, get_action}
use falcon_plus_learn.Alarm.Combine.{mail_key, combine_mail}
use falcon_plus_learn.Alarm.Combine.Groups.{
  AreGroups, mails_of, combined, combine_mail_lem, combine_mail-one_address,
}
use falcon_plus_learn.Alarm.Consume.{Answers, AlarmState, consume_low_events, consume}
use falcon_plus_learn.Alarm.Consume.Notified.{Listed, HaveIm, HaveMail, consume_low_events-HaveMail}
use falcon_plus_learn.Alarm.Consume.Routes.{Routes, consume-Routes}

abbrev mail_to : Text → Text → MailDto
mail_to email metric = record {
  priority = pos 1;
  metric = metric;
  subject = codes "[P1]";
  content = codes "PROBLEM";
  email = email;
  status = codes "PROBLEM";
}

abbrev nothing_sent : Outbox
nothing_sent = record { sms = []; im = []; mail = []; user_sms = []; user_im = []; user_mail = [] }

abbrev three_mails : List MailDto
three_mails =
    mail_to (codes "a@x.org") (codes "cpu")
    ∷ mail_to (codes "b@x.org") (codes "cpu")
    ∷ mail_to (codes "a@x.org") (codes "cpu")
    ∷ []

combine_mail_run : length (combine_mail three_mails nothing_sent).mail ≡ 2
unfolding combine_mail fmt_digits
combine_mail_run = refl

combine_mail_lem_example :
    (groups : Map (List MailDto)) × AreGroups mail_key three_mails groups
    × (combine_mail three_mails nothing_sent
        ≡ record nothing_sent { mail = mails_of groups ++ nothing_sent.mail })
    × (length (mails_of groups) ≡ length groups)
combine_mail_lem_example = combine_mail_lem three_mails nothing_sent

-- The addresses a@x.cn and a@x.cnnet, and the metrics net.in and .in.
combine_mail-one_address_example :
    (combine_mail
      (mail_to (codes "a@x.cn") (codes "net.in") ∷ mail_to (codes "a@x.cnnet") (codes ".in") ∷ [])
      nothing_sent).mail
    ≡ combined
        (mail_to (codes "a@x.cn") (codes "net.in"))
        (mail_to (codes "a@x.cnnet") (codes ".in") ∷ [])
      ∷ nothing_sent.mail
combine_mail-one_address_example =
    combine_mail-one_address (mail_to (codes "a@x.cn") (codes "net.in"))
      (mail_to (codes "a@x.cnnet") (codes ".in")) nothing_sent refl refl refl

abbrev template : Template
template = record {
  id = pos 1;
  name = codes "t";
  parent_id = pos 0;
  action_id = pos 4;
  creator = codes "root";
}

abbrev strategy : Strategy ℤ
strategy = record {
  id = pos 10;
  metric = codes "cpu";
  tags = [];
  func = codes "all(#3)";
  operator = codes ">";
  right_value = pos 80;
  max_step = pos 3;
  priority = pos 2;
  note = codes "busy";
  tpl = some template;
}

abbrev event : Event ℤ
event = record {
  id = codes "s_10_a7";
  strategy = some strategy;
  expression = none;
  status = codes "PROBLEM";
  endpoint = codes "h1";
  left_value = pos 90;
  current_step = pos 1;
  event_time = pos 1000;
  pushed_tags = [];
}

abbrev action : Action
action = record {
  id = pos 4;
  uic = codes "ops";
  url = [];
  callback = pos 0;
  before_callback_sms = pos 0;
  before_callback_mail = pos 0;
  after_callback_sms = pos 0;
  after_callback_mail = pos 0;
}

abbrev ann : User
ann = record { name = codes "ann"; email = codes "ann@x.org"; phone = codes "1"; im = codes "ann" }

abbrev answers : Answers ℤ (List Text)
answers = record {
  curl_uic = λ team. some (ann ∷ []);
  curl_action = λ id. some action;
  call = λ e a. codes "ok";
  formats = record {
    readable_float = fmt_int;
    formatted_time = fmt_int;
    dashboard = codes "http://d";
  };
  string_set = record { new_string_set = []; add = insert_sorted; to_slice = λ s. s };
}

abbrev start : AlarmState
start = record { outbox = nothing_sent; users = []; actions = [] }

consume-Routes_example :
    (s' : AlarmState) × (consume answers event false start ≡ some s')
    × Routes answers event strategy template refl refl false start.outbox s'.outbox
unfolding action_id get_action insert_int
consume-Routes_example =
    consume-Routes answers event strategy template refl refl (pos 4) action ((pos 4, action) ∷ [])
      false start refl refl refl refl

consume_low_events-HaveMail_example :
    (r : AlarmState) × (consume_low_events answers event action start ≡ some r)
    × HaveIm answers event strategy template refl refl action
        (Listed answers event strategy template refl refl action start)
        r.outbox
    × HaveMail answers event strategy template refl refl action
        (Listed answers event strategy template refl refl action start)
        r.outbox
consume_low_events-HaveMail_example =
    consume_low_events-HaveMail answers event strategy template refl refl action start refl
