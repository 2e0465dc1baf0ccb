-- ===== src/Hbs/Inherit/Buckets.antt =====
-- modules/hbs/rpc/hbs.go: the strategies of a host, from all buckets of its templates.
use falcon_plus_learn.Base.{
  Text, ℕ, suc, ◌≡◌, refl, sym, ap, ◌∙◌, true, Option, some, List, [], ◌∷◌, Bool-cases, inl, inr,
  Has, All,
}
use falcon_plus_learn.Base.Int.{ℤ}
use falcon_plus_learn.Base.IntMap.{IntMap}
use falcon_plus_learn.Common.Model.{Template, Strategy}
use falcon_plus_learn.Hbs.Templates.{parent_ids}
use falcon_plus_learn.Hbs.Inherit.{
  last, values, tpl_buckets, is_valid, valid_buckets, uniq_tpl_buckets, hand_out_bucket,
  hand_out_buckets, bucket_strategies, own_strategies, tpl2_strategies, calc_inherit_strategies,
}
use falcon_plus_learn.Hbs.Inherit.Override.{youngest}
use falcon_plus_learn.Hbs.Inherit.Longest.{IsLongest, longest-InBuckets}
use falcon_plus_learn.Hbs.Inherit.Values.{
  HasTpl, bucket-youngest, youngest-bucket, bucket-HasTpl, tpl2_strategies-HasTpl,
}
use falcon_plus_learn.Hbs.Inherit.Handed.{
  Acc, IsAcc, HasLastTemplate, HandsOut, HandsOut-trans, hand_out_all_lem, has_id, AreDistinct,
}

abbrev IsFull : List ℤ → Type 0
IsFull b = (tid : ℤ) × (last b ≡ some tid)

cons-IsFull : (id : ℤ) (ids : List ℤ) → IsFull (id ∷ ids)
cons-IsFull id [] = (id, refl)
cons-IsFull id (i ∷ ids) = cons-IsFull i ids

if_any-IsFull :
    (ids : List ℤ) (l : List (List ℤ))
    → All IsFull l
    → All IsFull (elim ids [ [] ↦ l | i ∷ is ↦ (i ∷ is) ∷ l ])
if_any-IsFull [] l h = h
if_any-IsFull (i ∷ is) l h = (cons-IsFull i is, h)

tpl_buckets-IsFull : (tpls : IntMap Template) (tids : List ℤ) → All IsFull (tpl_buckets tpls tids)
unfolding tpl_buckets
tpl_buckets-IsFull tpls [] = tt
tpl_buckets-IsFull tpls (tid ∷ tids) =
    if_any-IsFull (parent_ids tpls tid) (tpl_buckets tpls tids) (tpl_buckets-IsFull tpls tids)

valid_buckets-All :
    (P : List ℤ → Type 0) (i : ℕ) (all bs : List (List ℤ))
    → All P bs
    → All P (valid_buckets i all bs)
unfolding valid_buckets
valid_buckets-All P i all [] h = tt
valid_buckets-All P i all (b ∷ bs) h = elim (Bool-cases (is_valid i b 0 all)) [
  | inl t ↦ rw (t, All) (h.0, valid_buckets-All P (suc i) all bs h.1)
  | inr f ↦ rw f (valid_buckets-All P (suc i) all bs h.1)
]

module _ {V : Type 0} (tpls : IntMap Template) (tpl2 : IntMap (List (Strategy V))) where
  -- `s` is one of the youngest strategies of a bucket for a metric with its tags.
  abbrev pub InBucket : List (List ℤ) → Strategy V → Type 0
  InBucket buckets s =
      (bucket : List ℤ) × (u : Text) × (ss : List (Strategy V)) × Has bucket buckets
      × (youngest tpl2 u bucket ≡ some ss)
      × Has s ss

  -- `s'` is the copy of one with the last template of its bucket.
  abbrev pub Inherited : List (List ℤ) → Strategy V → Type 0
  Inherited buckets s' =
      (bucket : List ℤ) × (tid : ℤ) × (u : Text) × (ss : List (Strategy V)) × (s : Strategy V) × Has
        bucket buckets
      × (last bucket ≡ some tid)
      × (youngest tpl2 u bucket ≡ some ss)
      × Has s ss
      × HasLastTemplate tpls tid s s'

  module _ (t : (k : ℤ) → All HasTpl (own_strategies tpl2 k)) where
    hand_out_bucket_lem :
        (bucket : List ℤ) (acc : Acc V)
        → IsFull bucket
        → IsAcc acc
        → (acc' : Acc V) × (hand_out_bucket tpls tpl2 bucket acc ≡ some acc')
          × HandsOut (InBucket (bucket ∷ [])) (Inherited (bucket ∷ [])) acc acc'
    unfolding hand_out_bucket
    hand_out_bucket_lem bucket acc (tid, l) v =
        let ss = values (bucket_strategies tpl2 bucket []) in
        let (b, e, f) =
          hand_out_all_lem tpls tid ss acc (λ s h. bucket-HasTpl tpl2 bucket s t h) v in
        (
          b,
          rw l e,
          record {
            valid = f.valid;
            keeps = f.keeps;
            covers = λ s (c, u, xs, h, y, k). f.covers s (in_values s c u xs h y k);
            comes = λ s' h. elim (f.comes s' h) [
              | inl o ↦ inl o
              | inr (s, k, w) ↦
                  let (u, xs, y, m) = bucket-youngest tpl2 bucket s k in
                  inr (bucket, tid, u, xs, s, inl refl, l, y, m, w)
            ];
          },
        )
      where
        in_values :
            (s : Strategy V) (c : List ℤ) (u : Text) (xs : List (Strategy V))
            → Has c (bucket ∷ [])
            → youngest tpl2 u c ≡ some xs
            → Has s xs
            → Has s (values (bucket_strategies tpl2 bucket []))
        in_values s c u xs (inl q) y k =
            youngest-bucket tpl2 bucket s u xs (ap (youngest tpl2 u) (sym q) ∙ y) k
        in_values s c u xs (inr n) y k = absurd n

    hand_out_buckets_lem :
        (bs : List (List ℤ)) (acc : Acc V)
        → All IsFull bs
        → IsAcc acc
        → (acc' : Acc V) × (hand_out_buckets tpls tpl2 bs acc ≡ some acc')
          × HandsOut (InBucket bs) (Inherited bs) acc acc'
    unfolding hand_out_buckets
    hand_out_buckets_lem [] acc h v = (
      acc,
      refl,
      record { valid = v; keeps = λ i k. k; covers = λ s n. absurd n.3; comes = λ s k. inl k },
    )
    hand_out_buckets_lem (c ∷ bs) acc h v =
        let (b, e, f) = hand_out_bucket_lem c acc h.0 v in
        let (d, e', g) = hand_out_buckets_lem bs b h.1 f.valid in
        (
          d,
          rw e e',
          HandsOut-trans (InBucket (c ∷ [])) (InBucket bs) (Inherited (c ∷ [])) (Inherited bs)
              (InBucket (c ∷ bs)) (Inherited (c ∷ bs)) acc b d f g
              (λ s (x, u, xs, k, y, m). elim k [
                | inl q ↦ inl (x, u, xs, inl q, y, m)
                | inr r ↦ inr (x, u, xs, r, y, m)
              ])
              (λ s (x, i, u, xs, r, k, a, b', c', d').
                (x, i, u, xs, r, elim k [ inl q ↦ inl q | inr n ↦ absurd n ], a, b', c', d'))
              (λ s (x, i, u, xs, r, k, a, b', c', d'). (x, i, u, xs, r, inr k, a, b', c', d')),
        )

-- CalcInheritStrategies, with the map that Tpl2Strategies makes of the strategies, returns; no two
-- of its strategies have one id; each strategy that the youngest template of a kept bucket with
-- any for its metric and tags has is there by its id, and so is each one that the youngest
-- template of a line of the host with any has, for a line whose templates are not all in another
-- line of the host; and each one is such a strategy of a kept bucket, as it is if its template has
-- the last id of the bucket, or else with the template of that id in place of its own.
pub calc_inherit_strategies_lem :
    {V : Type 0} (tpls : IntMap Template) (strategies : IntMap (Option (Strategy V)))
    (tids : List ℤ)
    → (out : List (Strategy V)) × (calc_inherit_strategies tpls (tpl2_strategies strategies) tids
        ≡ some out)
      × AreDistinct out
      × ((s : Strategy V)
          → InBucket tpls (tpl2_strategies strategies) (uniq_tpl_buckets (tpl_buckets tpls tids)) s
          → has_id s.id out ≡ true)
      × ((tid : ℤ) (u : Text) (ss : List (Strategy V)) (s : Strategy V)
          → Has tid tids
          → IsLongest tpls tids tid
          → youngest (tpl2_strategies strategies) u (parent_ids tpls tid) ≡ some ss
          → Has s ss
          → has_id s.id out ≡ true)
      × ((s : Strategy V)
          → Has s out
          → Inherited tpls
              (tpl2_strategies strategies)
              (uniq_tpl_buckets (tpl_buckets tpls tids))
              s)
unfolding calc_inherit_strategies
calc_inherit_strategies_lem tpls strategies tids =
    let bs = tpl_buckets tpls tids in
    let (acc, e, f) =
      hand_out_buckets_lem tpls (tpl2_strategies strategies) (tpl2_strategies-HasTpl strategies)
        (uniq_tpl_buckets bs) ([], [])
        (valid_buckets-All IsFull 0 bs bs (tpl_buckets-IsFull tpls tids))
        (record { same = λ i. refl; distinct = tt }) in
    (
      acc.1,
      rw e refl,
      f.valid.distinct,
      f.covers,
      λ tid u ss s h m y k.
          let b = longest-InBuckets tpls (tpl2_strategies strategies) tids tid u ss h m y in
          f.covers s (parent_ids tpls tid, u, ss, b, y, k),
      λ s h. elim (f.comes s h) [ inl n ↦ absurd n | inr i ↦ i ],
    )
