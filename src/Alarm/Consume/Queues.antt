-- ===== src/Alarm/Consume/Queues.antt =====
-- modules/alarm/redi/msg_writer.go: which queues a message leaves as they are.
use falcon_plus_learn.Base.{Text, ◌≡◌, refl, ◌∙◌, List, [], ◌∷◌}
use falcon_plus_learn.Alarm.Outbox.{Outbox, write_sms, write_im, write_mail}

-- The queues that are combined are as before.
pub record KeepsUserQueues (o o' : Outbox) : Type 0 where
  pub user_sms : o'.user_sms ≡ o.user_sms
  pub user_im : o'.user_im ≡ o.user_im
  pub user_mail : o'.user_mail ≡ o.user_mail

-- The queues that are sent are as before.
pub record KeepsSent (o o' : Outbox) : Type 0 where
  pub sms : o'.sms ≡ o.sms
  pub im : o'.im ≡ o.im
  pub mail : o'.mail ≡ o.mail

pub KeepsUserQueues-trans :
    (a b c : Outbox) → KeepsUserQueues a b → KeepsUserQueues b c → KeepsUserQueues a c
KeepsUserQueues-trans a b c h k = record {
  user_sms = k.user_sms ∙ h.user_sms;
  user_im = k.user_im ∙ h.user_im;
  user_mail = k.user_mail ∙ h.user_mail;
}

pub write_sms-Keeps :
    (tos : List Text) (c : Text) (o : Outbox) → KeepsUserQueues o (write_sms tos c o)
unfolding write_sms
write_sms-Keeps [] c o = record { user_sms = refl; user_im = refl; user_mail = refl }
write_sms-Keeps (t ∷ tos) c o = record { user_sms = refl; user_im = refl; user_mail = refl }

pub write_im-Keeps :
    (tos : List Text) (c : Text) (o : Outbox)
    → KeepsUserQueues o (write_im tos c o) × ((write_im tos c o).sms ≡ o.sms)
unfolding write_im
write_im-Keeps [] c o = (record { user_sms = refl; user_im = refl; user_mail = refl }, refl)
write_im-Keeps (t ∷ tos) c o = (record { user_sms = refl; user_im = refl; user_mail = refl }, refl)

pub write_mail-Keeps :
    (tos : List Text) (s c : Text) (o : Outbox)
    → KeepsUserQueues o (write_mail tos s c o) × ((write_mail tos s c o).sms ≡ o.sms)
unfolding write_mail
write_mail-Keeps [] s c o = (record { user_sms = refl; user_im = refl; user_mail = refl }, refl)
write_mail-Keeps (t ∷ tos) s c o =
    (record { user_sms = refl; user_im = refl; user_mail = refl }, refl)
