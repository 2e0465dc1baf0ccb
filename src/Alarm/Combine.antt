-- ===== src/Alarm/Combine.antt =====
-- modules/alarm/cron/combiner.go: the messages of the users' queues are combined. `unmarshal` reads a
-- message from its JSON text, `link_to_sms` stores a text and gives the path of its page.
pub mod Groups
use falcon_plus_learn.Base.{
  Text, codes, text_eq, ℕ, ◌==◌, Bool, true, false, ◌&&◌, ◌||◌, Option, none, some, List, [], ◌∷◌,
  ◌++◌, map, length, get_elem?, if◌then◌else◌,
}
use falcon_plus_learn.Base.Int.{ℤ, pos}
use falcon_plus_learn.Base.Decimal.{fmt_int, prepend}
use falcon_plus_learn.Base.Map.{Map}
use falcon_plus_learn.Judge.Sync.{append_at}
use falcon_plus_learn.Alarm.Outbox.{SmsDto, ImDto, MailDto, Outbox, write_sms, write_im, write_mail}
use falcon_plus_learn.Alarm.Content.{concat}

-- The replies of `RPOP`, the last of which is an error or says that the queue is empty.
module _ {D : Type 0} (unmarshal : Text → Option D) where
  abbrev pub is_blank : Text → Bool
  is_blank reply = text_eq reply [] || text_eq reply (codes "nil")

  abbrev pub cons_read : Option D → List D → List D
  cons_read none l = l
  cons_read (some d) l = d ∷ l

  -- `popAllSmsDto`, `popAllMailDto`, `popAllImDto`: a blank or unreadable text is passed over.
  unfoldable pub pop_all_dto : List Text → List D
  unfolding text_eq
  pop_all_dto [] = []
  pop_all_dto (reply ∷ replies) =
      let rest = pop_all_dto replies in
      if is_blank reply then rest else cons_read (unmarshal reply) rest

-- `dtoMap`, by the key of each message.
unfoldable pub add_dtos : {D : Type 0} → (D → Text) → List D → Map (List D) → Map (List D)
unfolding append_at
add_dtos key_of [] m = m
add_dtos key_of (d ∷ ds) m = add_dtos key_of ds (append_at (key_of d) d m)

abbrev pub dto_map : {D : Type 0} → (D → Text) → List D → Map (List D)
dto_map key_of ds = add_dtos key_of ds []

-- `fmt.Sprintf("%d%s%s%s", Priority, Status, Email, Metric)`
unfoldable pub mail_key : MailDto → Text
unfolding fmt_int
mail_key d = fmt_int d.priority ++ (d.status ++ (d.email ++ d.metric))

unfoldable pub sms_key : SmsDto → Text
unfolding fmt_int
sms_key d = fmt_int d.priority ++ (d.status ++ (d.phone ++ d.metric))

unfoldable pub im_key : ImDto → Text
unfolding fmt_int
im_key d = fmt_int d.priority ++ (d.status ++ (d.im ++ d.metric))

-- `strings.Join(texts, sep)`
unfoldable pub join_by : Text → List Text → Text
join_by sep [] = []
join_by sep (t ∷ []) = t
join_by sep (t ∷ u ∷ ts) = t ++ (sep ++ join_by sep (u ∷ ts))

-- `strings.Split` at a separator of the two bytes `a` and `b`.
unfoldable pub split_at : ℕ → ℕ → Text → List Text
split_at a b [] = [] ∷ []
split_at a b (x ∷ []) = (x ∷ []) ∷ []
split_at a b (x ∷ y ∷ s) =
    let at = [] ∷ split_at a b s in
    let past = prepend x (split_at a b (y ∷ s)) in if (x == a) && (y == b) then at else past

-- The third part of a text between `][`, which is the endpoint.
unfoldable pub example_of : Text → Text
unfolding split_at
example_of content = elim (get_elem? (split_at b']' b'[' content) 2) [ none ↦ [] | some t ↦ t ]

-- `[P%d][%s] %d %s`
abbrev pub headline : ℤ → Text → ℕ → Text → Text
headline priority status size metric = concat (
    codes "[P"
    ∷ fmt_int priority
    ∷ codes "]["
    ∷ status
    ∷ codes "] "
    ∷ fmt_int (pos size)
    ∷ codes " "
    ∷ metric
    ∷ [])

-- One group of mails; there is no empty one.
unfoldable pub write_mails : List MailDto → Outbox → Outbox
unfolding write_mail join_by fmt_int
write_mails [] o = o
write_mails (d ∷ []) o = write_mail (d.email ∷ []) d.subject d.content o
write_mails (d ∷ e ∷ ds) o =
    write_mail (d.email ∷ []) (headline d.priority d.status (length (d ∷ e ∷ ds)) d.metric)
      (join_by (13 ∷ 10 ∷ []) (map (λ (x : MailDto). x.content) (d ∷ e ∷ ds))) o

unfoldable pub write_mail_groups : Map (List MailDto) → Outbox → Outbox
unfolding write_mails
write_mail_groups [] o = o
write_mail_groups ((k, ds) ∷ m) o = write_mail_groups m (write_mails ds o)

unfoldable pub combine_mail : List MailDto → Outbox → Outbox
unfolding add_dtos mail_key write_mail_groups
combine_mail dtos o = write_mail_groups (dto_map mail_key dtos) o

module _ (link_to_sms : Text → Option Text) (dashboard : Text) where
  abbrev pub with_link : Option Text → Text → Text → Text
  with_link none head eg = concat (head ∷ codes ".  e.g. " ∷ eg ∷ codes ". detail in email" ∷ [])
  with_link (some []) head eg =
      concat (head ∷ codes ".  e.g. " ∷ eg ∷ codes ". detail in email" ∷ [])
  with_link (some (c ∷ path)) head eg = concat (
      head
      ∷ codes " e.g. "
      ∷ eg
      ∷ codes " "
      ∷ dashboard
      ∷ codes "/portal/links/"
      ∷ (c ∷ path)
      ∷ codes " "
      ∷ [])

  -- One group of SMS: two or more are put on a page, and its link is sent.
  unfoldable pub write_sms_group : List SmsDto → Outbox → Outbox
  unfolding write_sms join_by example_of fmt_int
  write_sms_group [] o = o
  write_sms_group (d ∷ []) o = write_sms (d.phone ∷ []) d.content o
  write_sms_group (d ∷ e ∷ ds) o =
      let content = join_by (codes ",,") (map (λ (x : SmsDto). x.content) (d ∷ e ∷ ds)) in
      write_sms (d.phone ∷ [])
        (with_link (link_to_sms content)
          (headline d.priority d.status (length (d ∷ e ∷ ds)) d.metric) (example_of d.content))
        o

  unfoldable pub write_sms_groups : Map (List SmsDto) → Outbox → Outbox
  unfolding write_sms_group
  write_sms_groups [] o = o
  write_sms_groups ((k, ds) ∷ m) o = write_sms_groups m (write_sms_group ds o)

  unfoldable pub combine_sms : List SmsDto → Outbox → Outbox
  unfolding add_dtos sms_key write_sms_groups
  combine_sms dtos o = write_sms_groups (dto_map sms_key dtos) o

  unfoldable pub write_im_group : List ImDto → Outbox → Outbox
  unfolding write_im join_by example_of fmt_int
  write_im_group [] o = o
  write_im_group (d ∷ []) o = write_im (d.im ∷ []) d.content o
  write_im_group (d ∷ e ∷ ds) o =
      let content = join_by (codes ",,") (map (λ (x : ImDto). x.content) (d ∷ e ∷ ds)) in
      write_im (d.im ∷ [])
        (with_link (link_to_sms content)
          (headline d.priority d.status (length (d ∷ e ∷ ds)) d.metric) (example_of d.content))
        o

  unfoldable pub write_im_groups : Map (List ImDto) → Outbox → Outbox
  unfolding write_im_group
  write_im_groups [] o = o
  write_im_groups ((k, ds) ∷ m) o = write_im_groups m (write_im_group ds o)

  unfoldable pub combine_im : List ImDto → Outbox → Outbox
  unfolding add_dtos im_key write_im_groups
  combine_im dtos o = write_im_groups (dto_map im_key dtos) o
