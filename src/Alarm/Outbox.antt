-- ===== src/Alarm/Outbox.antt =====
-- modules/alarm/redi/msg_writer.go, model and cron/model.go: the messages and the queues that they are
-- pushed to. The JSON text of a message is not modelled, and a failed `LPUSH` changes nothing.
use falcon_plus_learn.Base.{Text, List, [], ◌∷◌}
use falcon_plus_learn.Base.Int.{ℤ}
use falcon_plus_learn.Common.Tags.{join}

pub record Sms : Type 0 where
  pub tos : Text
  pub content : Text

pub record Im : Type 0 where
  pub tos : Text
  pub content : Text

pub record Mail : Type 0 where
  pub tos : Text
  pub subject : Text
  pub content : Text

pub record SmsDto : Type 0 where
  pub priority : ℤ
  pub metric : Text
  pub content : Text
  pub phone : Text
  pub status : Text

pub record ImDto : Type 0 where
  pub priority : ℤ
  pub metric : Text
  pub content : Text
  pub im : Text
  pub status : Text

pub record MailDto : Type 0 where
  pub priority : ℤ
  pub metric : Text
  pub subject : Text
  pub content : Text
  pub email : Text
  pub status : Text

-- What was pushed to the queues, the latest first: those that are sent, and those of the users,
-- that are combined before.
pub record Outbox : Type 0 where
  pub sms : List Sms
  pub im : List Im
  pub mail : List Mail
  pub user_sms : List SmsDto
  pub user_im : List ImDto
  pub user_mail : List MailDto

-- No message is written to nobody.
unfoldable pub write_sms : List Text → Text → Outbox → Outbox
unfolding join
write_sms [] content o = o
write_sms (t ∷ tos) content o = record o {
  sms = record { tos = join (t ∷ tos); content = content } ∷ o.sms;
}

unfoldable pub write_im : List Text → Text → Outbox → Outbox
unfolding join
write_im [] content o = o
write_im (t ∷ tos) content o = record o {
  im = record { tos = join (t ∷ tos); content = content } ∷ o.im;
}

unfoldable pub write_mail : List Text → Text → Text → Outbox → Outbox
unfolding join
write_mail [] subject content o = o
write_mail (t ∷ tos) subject content o = record o {
  mail = record { tos = join (t ∷ tos); subject = subject; content = content } ∷ o.mail;
}
