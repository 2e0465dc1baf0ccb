-- ===== src/Alarm/Combine/Groups.antt =====
-- modules/alarm/cron/combiner.go: every message is combined into one mail, that of its key.
use mathlib.Core.List.{append-nil, append_assoc}
use falcon_plus_learn.Base.{
  Text, text_eq, text_eq_iff, ℕ, suc, ◌+◌, ◌≡◌, refl, sym, ap, ◌∙◌, true, none, some, List, [], ◌∷◌,
  ◌++◌, ◌≢◌, map, length, length-append, if◌then◌else◌, arith, Bool-cases, Option-cases, inl, inr,
  All,
}
use falcon_plus_learn.Base.Decimal.{fmt_int}
use falcon_plus_learn.Base.Map.{Map, lookup, insert}
use falcon_plus_learn.Judge.Sync.{append_at}
use falcon_plus_learn.Judge.Sync.Strategies.{entries, entries-append_at}
use falcon_plus_learn.Judge.Store.Maps.{IsDistinct, insert-IsDistinct}
use falcon_plus_learn.Alarm.Outbox.{MailDto, Mail, Outbox, write_mail}
use falcon_plus_learn.Common.Tags.{join}
use falcon_plus_learn.Alarm.Combine.{
  headline, join_by, add_dtos, dto_map, mail_key, write_mails, write_mail_groups, combine_mail,
}

module _ {D : Type 0} (key_of : D → Text) where
  -- The messages of one key, in order.
  abbrev pub with_key : Text → List D → List D
  with_key k [] = []
  with_key k (d ∷ ds) = let rest = with_key k ds in if text_eq (key_of d) k then d ∷ rest else rest

  entries-add_dtos :
      (k : Text) (ds : List D) (m : Map (List D))
      → entries k (add_dtos key_of ds m) ≡ entries k m ++ with_key k ds
  unfolding add_dtos
  entries-add_dtos k [] m = sym (append-nil (entries k m))
  entries-add_dtos k (d ∷ ds) m =
      entries-add_dtos k ds (append_at (key_of d) d m)
      ∙ ap (λ l. l ++ with_key k ds) (entries-append_at (key_of d) k d m)
      ∙ elim (Bool-cases (text_eq (key_of d) k)) [
        | inl t ↦ rw t (append_assoc (entries k m) (d ∷ []) (with_key k ds))
        | inr f ↦ rw f refl
      ]

  append_at-IsDistinct :
      (k : Text) (d : D) (m : Map (List D)) → IsDistinct m → IsDistinct (append_at k d m)
  unfolding append_at
  append_at-IsDistinct k d m h = elim (Option-cases (lookup k m)) [
    | inl n ↦ rw (n, append_at) (insert-IsDistinct k (d ∷ []) m h)
    | inr (xs, y) ↦ rw (y, append_at) (insert-IsDistinct k (xs ++ (d ∷ [])) m h)
  ]

  add_dtos-IsDistinct :
      (ds : List D) (m : Map (List D)) → IsDistinct m → IsDistinct (add_dtos key_of ds m)
  unfolding add_dtos
  add_dtos-IsDistinct [] m h = h
  add_dtos-IsDistinct (d ∷ ds) m h =
      add_dtos-IsDistinct ds (append_at (key_of d) d m) (append_at-IsDistinct (key_of d) d m h)

  -- How many messages the groups have together.
  abbrev pub total : Map (List D) → ℕ
  total [] = 0
  total ((k, ds) ∷ m) = length ds + total m

  -- No group is empty.
  abbrev pub AreFull : Map (List D) → Type 0
  AreFull m = All (λ g. length g.1 ≢ 0) m

  insert-AreFull :
      (k : Text) (ds : List D) (m : Map (List D))
      → length ds ≢ 0
      → AreFull m
      → AreFull (insert k ds m)
  unfolding insert
  insert-AreFull k ds [] n h = (n, tt)
  insert-AreFull k ds ((j, es) ∷ m) n h = elim (Bool-cases (text_eq j k)) [
    | inl t ↦ rw (t, All) (n, h.1)
    | inr f ↦ rw (f, All) (h.0, insert-AreFull k ds m n h.1)
  ]

  total-insert_new :
      (k : Text) (ds : List D) (m : Map (List D))
      → lookup k m ≡ none
      → total (insert k ds m) ≡ length ds + total m
  unfolding insert lookup
  total-insert_new k ds [] n = refl
  total-insert_new k ds ((j, es) ∷ m) n = elim (Bool-cases (text_eq j k)) [
    | inl t ↦ absurd (ground (arith, n, t))
    | inr f ↦ rw f (omega (arith, total-insert_new k ds m (ground (arith, n, f))))
  ]

  total-insert_old :
      (k : Text) (ds xs : List D) (m : Map (List D))
      → lookup k m ≡ some xs
      → total (insert k ds m) + length xs ≡ length ds + total m
  unfolding insert lookup
  total-insert_old k ds xs [] y = absurd (cc)
  total-insert_old k ds xs ((j, es) ∷ m) y = elim (Bool-cases (text_eq j k)) [
    | inl t ↦ let e : es ≡ xs = ground (arith, y, t) in rw t (omega (arith, ap length e))
    | inr f ↦ rw f (omega (arith, total-insert_old k ds xs m (ground (arith, y, f))))
  ]

  append_at_lem :
      (k : Text) (d : D) (m : Map (List D))
      → AreFull m
      → AreFull (append_at k d m) × (total (append_at k d m) ≡ suc (total m))
  unfolding append_at
  append_at_lem k d m h = elim (Option-cases (lookup k m)) [
    | inl n ↦
        rw (n, append_at)
          (
            insert-AreFull k (d ∷ []) m (λ e. absurd (omega arith)) h,
            omega (arith, total-insert_new k (d ∷ []) m n),
          )
    | inr (xs, y) ↦
        rw (y, append_at)
          (
            insert-AreFull k (xs ++ (d ∷ [])) m
                (λ e. absurd (omega (arith, length-append xs (d ∷ [])))) h,
            omega (arith, total-insert_old k (xs ++ (d ∷ [])) xs m y, length-append xs (d ∷ [])),
          )
  ]

  add_dtos_lem :
      (ds : List D) (m : Map (List D))
      → AreFull m
      → AreFull (add_dtos key_of ds m) × (total (add_dtos key_of ds m) ≡ length ds + total m)
  unfolding add_dtos
  add_dtos_lem [] m h = (h, omega arith)
  add_dtos_lem (d ∷ ds) m h =
      let (f, e) = append_at_lem (key_of d) d m h in
      let (g, q) = add_dtos_lem ds (append_at (key_of d) d m) f in (g, omega (arith, e, q))

  -- The groups: each key once, with its messages in order, at least one, and all together.
  pub record AreGroups (ds : List D) (groups : Map (List D)) : Type 0 where
    pub distinct : IsDistinct groups
    pub each : (k : Text) → entries k groups ≡ with_key k ds
    pub full : AreFull groups
    pub all : total groups ≡ length ds

  pub dto_map-AreGroups : (ds : List D) → AreGroups ds (dto_map key_of ds)
  unfolding lookup
  dto_map-AreGroups ds =
      let (f, e) = add_dtos_lem ds [] tt in
      record {
        distinct = add_dtos-IsDistinct ds [] tt;
        each = λ k. entries-add_dtos k ds [];
        full = f;
        all = omega (arith, e);
      }

-- The mail to the first address, with the texts of all.
abbrev pub combined : MailDto → List MailDto → Mail
combined d [] = record { tos = join (d.email ∷ []); subject = d.subject; content = d.content }
combined d (e ∷ ds) = record {
  tos = join (d.email ∷ []);
  subject = headline d.priority d.status (length (d ∷ e ∷ ds)) d.metric;
  content = join_by (13 ∷ 10 ∷ []) (map (λ (x : MailDto). x.content) (d ∷ e ∷ ds));
}

-- One mail for each group, the last first.
abbrev pub mails_of : Map (List MailDto) → List Mail
mails_of [] = []
mails_of ((k, []) ∷ m) = mails_of m
mails_of ((k, d ∷ ds) ∷ m) = mails_of m ++ (combined d ds ∷ [])

write_mail_groups_lem :
    (m : Map (List MailDto)) (o : Outbox)
    → write_mail_groups m o ≡ record o { mail = mails_of m ++ o.mail }
unfolding write_mail_groups write_mails write_mail
write_mail_groups_lem [] o = refl
write_mail_groups_lem ((k, []) ∷ m) o = write_mail_groups_lem m o
write_mail_groups_lem ((k, d ∷ []) ∷ m) o =
    write_mail_groups_lem m (record o { mail = combined d [] ∷ o.mail })
    ∙ ap (λ l. record o { mail = l }) (sym (append_assoc (mails_of m) (combined d [] ∷ []) o.mail))
write_mail_groups_lem ((k, d ∷ e ∷ ds) ∷ m) o =
    write_mail_groups_lem m (record o { mail = combined d (e ∷ ds) ∷ o.mail })
    ∙ ap (λ l. record o { mail = l })
        (sym (append_assoc (mails_of m) (combined d (e ∷ ds) ∷ []) o.mail))

length-mails_of : (m : Map (List MailDto)) → AreFull mail_key m → length (mails_of m) ≡ length m
length-mails_of [] h = refl
length-mails_of ((k, []) ∷ m) h = absurd (h.0 refl)
length-mails_of ((k, d ∷ ds) ∷ m) h =
    omega (arith, length-mails_of m h.1, length-append (mails_of m) (combined d ds ∷ []))

-- combineMail groups the messages by their keys: each key is there once, with its messages in
-- order, at least one, and the groups have all messages together; it writes one mail for each
-- group, with the text of the message or with the texts of all of them, to the address of the
-- first.
pub combine_mail_lem :
    (dtos : List MailDto) (o : Outbox)
    → (groups : Map (List MailDto)) × AreGroups mail_key dtos groups
      × (combine_mail dtos o ≡ record o { mail = mails_of groups ++ o.mail })
      × (length (mails_of groups) ≡ length groups)
unfolding combine_mail
combine_mail_lem dtos o =
    let groups = dto_map mail_key dtos in
    let g = dto_map-AreGroups mail_key dtos in
    (groups, g, write_mail_groups_lem groups o, length-mails_of groups g.full)

two_with_key :
    {D : Type 0} (key_of : D → Text) (d e : D)
    → text_eq (key_of d) (key_of e) ≡ true
    → dto_map key_of (d ∷ e ∷ []) ≡ (key_of e, d ∷ e ∷ []) ∷ []
unfolding add_dtos append_at lookup insert
two_with_key key_of d e t = ground (arith, t)

same_key :
    (d e : MailDto)
    → d.priority ≡ e.priority
    → d.status ≡ e.status
    → d.email ++ d.metric ≡ e.email ++ e.metric
    → mail_key d ≡ mail_key e
unfolding mail_key
same_key d e p s m =
    ap (λ x. fmt_int x ++ (d.status ++ (d.email ++ d.metric))) p
    ∙ ap (λ x. fmt_int e.priority ++ (x ++ (d.email ++ d.metric))) s
    ∙ ap (λ x. fmt_int e.priority ++ (e.status ++ x)) m

-- Two mails of one priority and status, whose address and metric are the same text when written
-- one after the other, are combined into one mail to the address of the first.
pub combine_mail-one_address :
    (d e : MailDto) (o : Outbox)
    → d.priority ≡ e.priority
    → d.status ≡ e.status
    → d.email ++ d.metric ≡ e.email ++ e.metric
    → (combine_mail (d ∷ e ∷ []) o).mail ≡ combined d (e ∷ []) ∷ o.mail
unfolding combine_mail
combine_mail-one_address d e o p s m =
    ap (λ m. (write_mail_groups m o).mail)
      (two_with_key mail_key d e ((text_eq_iff (mail_key d) (mail_key e)).1 (same_key d e p s m)))
    ∙ ap (λ (r : Outbox). r.mail) (write_mail_groups_lem ((mail_key e, d ∷ e ∷ []) ∷ []) o)
