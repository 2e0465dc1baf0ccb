-- ===== src/Judge/Store/Handler.antt =====
-- modules/judge/rpc/receiver.go: `Send` returns, and keeps what the judge process relies on.
use mathlib.Core.Path.{subst}
use falcon_plus_learn.Base.{
  Text, text_eq, text_eq_iff, text_eq_refl, ℕ, suc, ◌≡◌, refl, sym, ap, ◌∙◌, some, List, [], ◌∷◌,
  ◌++◌, if◌then◌else◌, Bool-cases, Option-cases, inl, inr, All,
}
use falcon_plus_learn.Base.Int.{ℤ, pos}
use falcon_plus_learn.Base.Float.{Float}
use falcon_plus_learn.Base.Map.{lookup, insert, lookup-insert}
use falcon_plus_learn.Common.Model.{JudgeItem}
use falcon_plus_learn.Common.Tags
use falcon_plus_learn.Judge.LinkedList.Insert.{IsHistory}
use falcon_plus_learn.Judge.Alarm.{Env, Alerts}
use falcon_plus_learn.Judge.Alarm.Refine.{IsWellFormed}
use falcon_plus_learn.Judge.Match.{Rules, primary_key}
use falcon_plus_learn.Judge.Match.Judged.{IsSaneRules}
use falcon_plus_learn.Judge.Store.{JudgeItemMap, State, bucket_of, push_item, receive, send}
use falcon_plus_learn.Judge.Store.Maps.{IsDistinct, insert-IsDistinct}
use falcon_plus_learn.Judge.Store.Histories.{
  filed_list, AreKept, HasType, IsGood, stored, IsDigest, IsKeptAt, kept_at, file_and_judge-total,
}

module _ {V : Type 0} where
  insert-AreKept :
      (n : ℕ) (k : Text) (l : List (JudgeItem V)) (m : JudgeItemMap V)
      → AreKept n m
      → IsHistory n l
      → AreKept n (insert k l m)
  insert-AreKept n k l m h p j l' e = elim (Bool-cases (text_eq k j)) [
    | inl t ↦ let q : some l ≡ some l' = rw (lookup-insert, t) at e in subst (λ o. IsKeptAt n o) q p
    | inr f ↦ h j l' (rw (lookup-insert, f) at e)
  ]

  stored_after :
      (n : ℕ) (pk b : Text) (m : JudgeItemMap V) (l : List (JudgeItem V)) (s : State V)
      (t : Alerts V)
      → bucket_of pk ≡ some b
      → lookup b s.history ≡ some m
      → (k : Text)
      → stored k (record { history = insert b (insert pk l m) s.history; alerts = t })
        ≡ (if text_eq pk k then some l else stored k s)
  stored_after n pk b m l s t g e k = elim (Bool-cases (text_eq pk k)) [
    | inl y ↦
        let same : bucket_of k ≡ some b = ap bucket_of (sym ((text_eq_iff pk k).0 y)) ∙ g in
        rw (same, lookup-insert, text_eq_refl) (rw (lookup-insert, y) refl)
    | inr y ↦ elim (Option-cases (bucket_of k)) [
      | inl none_k ↦ rw (none_k, y) refl
      | inr (c, some_c) ↦
          rw (some_c, lookup-insert, y)
            (elim (Bool-cases (text_eq b c)) [
              | inl z ↦
                  let there : lookup c s.history ≡ some m =
                    ap (λ i. lookup i s.history) (sym ((text_eq_iff b c).0 z)) ∙ e in
                  rw (z, there) (rw (lookup-insert, y) refl)
              | inr z ↦ rw z refl
            ])
    ]
  ]

  insert-buckets :
      (n : ℕ) (b : Text) (m : JudgeItemMap V) (s : State V) (t : Alerts V)
      → IsGood n s
      → IsDistinct m
      → AreKept n m
      → IsWellFormed t
      → IsGood n (record { history = insert b m s.history; alerts = t })
  insert-buckets n b m s t h u v w = record {
    buckets = λ x y dx dy. elim (Bool-cases (text_eq b (x ++ y))) [
      | inl e ↦ (m, rw (lookup-insert, e) refl, u, v)
      | inr e ↦ let (m', q, u', v') = h.buckets x y dx dy in (m', rw (lookup-insert, e) q, u', v')
    ];
    alerts = w;
  }

  stored_here :
      (pk b : Text) (m : JudgeItemMap V) (s : State V)
      → bucket_of pk ≡ some b
      → lookup b s.history ≡ some m
      → stored pk s ≡ lookup pk m
  stored_here pk b m s g e = rw (g, e) refl

module _ {V : Type 0} (F : Float V) (env : Env V) where
  -- Under the conditions of Send (an MD5 digest in hexadecimal, function texts that the parser
  -- takes or refuses with limits from -2^63 to below 2^63 - 2, an item with a judge type, a
  -- positive limit and a good state) one turn of its loop returns in a good state; the stored list
  -- of the item's primary key is the old one with the value filed (unchanged if the value is
  -- stale, a list of its own if there was none), and every other key keeps its list.
  pub receive-total :
      (rules : Rules V) (item : JudgeItem V) (n : ℕ) (now : ℤ) (s : State V)
      → IsDigest env
      → IsSaneRules rules
      → HasType item
      → IsGood (suc n) s
      → (s' : State V) × (receive F env rules (pos (suc n)) now item s ≡ some s')
        × IsGood (suc n) s'
        × ((k : Text)
            → stored k s' ≡ (
                if text_eq (primary_key env item) k
                then some (filed_list (suc n) item (stored k s))
                else stored k s))
  unfolding receive push_item
  receive-total rules item n now s d sane typed h =
      let pk = primary_key env item in
      let t = Tags.pk item.endpoint item.metric item.tags in
      let b = d.first t ++ d.second t in
      let g : bucket_of pk ≡ some b = unfold primary_key in d.bucket t in
      let (m, e, u, v) = h.buckets (d.first t) (d.second t) (d.first_digit t) (d.second_digit t) in
      let (s', q, kept, w) =
        file_and_judge-total F env rules (lookup pk m) item n now s.alerts sane typed
          (kept_at (suc n) pk m v) h.alerts in
      let l = filed_list (suc n) item (lookup pk m) in
      (
        record { history = insert b (insert pk l m) s.history; alerts = s' },
        rw (g, e) (rw q refl),
        insert-buckets (suc n) b (insert pk l m) s s' h (insert-IsDistinct pk l m u)
            (insert-AreKept (suc n) pk l m v kept) w,
        λ k. stored_after n pk b m l s s' g e k ∙ elim (Bool-cases (text_eq pk k)) [
          | inl y ↦
              let here : stored k s ≡ lookup pk m =
                ap (λ i. stored i s) (sym ((text_eq_iff pk k).0 y)) ∙ stored_here pk b m s g e in
              rw (y, here) refl
          | inr y ↦ rw y refl
        ],
      )

  -- The handler Send returns for any list of items with a judge type, under rules whose function
  -- texts the parser takes or refuses (limits from -2^63 to below 2^63 - 2) and an MD5 digest in
  -- hexadecimal; from a good state (the 256 maps, without duplicate keys, of histories in strictly
  -- decreasing time order and within the limit, which is positive) it leads to a good state.
  pub send-total :
      (rules : Rules V) (items : List (JudgeItem V)) (n : ℕ) (now : ℤ) (s : State V)
      → IsDigest env
      → IsSaneRules rules
      → All (λ x. HasType x) items
      → IsGood (suc n) s
      → (s' : State V) × (send F env rules (pos (suc n)) now items s ≡ some s') × IsGood (suc n) s'
  unfolding send
  send-total rules [] n now s d sane typed h = (s, refl, h)
  send-total rules (item ∷ items) n now s d sane typed h =
      let (s₁, q, h₁, _) = receive-total rules item n now s d sane typed.0 h in
      let (s₂, q₂, h₂) = send-total rules items n now s₁ d sane typed.1 h₁ in
      (s₂, rw (q, send) q₂, h₂)
