-- ===== src/Hbs/Inherit/Handed.antt =====
-- modules/hbs/rpc/hbs.go: which strategies `CalcInheritStrategies` hands out.
use mathlib.Core.Path.{subst}
use mathlib.Core.Logic.{◌⊎◌}
use falcon_plus_learn.Base.{
  ◌≡◌, ◌≢◌, refl, sym, ap, ◌∙◌, Bool, true, false, ◌||◌, some, List, [], ◌∷◌, ◌++◌, arith,
  Bool-cases, inl, inr, Has, any,
}
use falcon_plus_learn.Base.Int.{ℤ, eqb_ℤ, eqb_ℤ_iff}
use falcon_plus_learn.Base.IntMap.{IntMap, lookup_int}
use falcon_plus_learn.Common.Model.{Template, Strategy}
use falcon_plus_learn.Hbs.Inherit.{slice_int_contains, with_last_template, hand_out, hand_out_all}
use falcon_plus_learn.Hbs.Inherit.Values.{Has-cases, HasTpl}

abbrev pub Acc : Type 0 → Type 0
Acc V = List ℤ × List (Strategy V)

module _ {V : Type 0} where
  abbrev pub has_id : ℤ → List (Strategy V) → Bool
  has_id i ss = any (λ s. eqb_ℤ s.id i) ss

  -- No two strategies of the list have one id.
  abbrev pub AreDistinct : List (Strategy V) → Type 0
  AreDistinct [] = Unit
  AreDistinct (s ∷ ss) = (has_id s.id ss ≡ false) × AreDistinct ss

  -- The ids that are kept are those of the strategies handed out.
  pub record IsAcc (acc : Acc V) : Type 0 where
    pub same : (i : ℤ) → has_id i acc.1 ≡ slice_int_contains acc.0 i
    pub distinct : AreDistinct acc.1

  -- What handing out leads to: each strategy of `Need` is there by its id, and what is new comes
  -- from `Source`.
  pub record HandsOut (Need Source : Strategy V → Type 0) (acc acc' : Acc V) : Type 0 where
    pub valid : IsAcc acc'
    pub keeps : (i : ℤ) → has_id i acc.1 ≡ true → has_id i acc'.1 ≡ true
    pub covers : (s : Strategy V) → Need s → has_id s.id acc'.1 ≡ true
    pub comes : (s : Strategy V) → Has s acc'.1 → Has s acc.1 ⊎ Source s

  has_id-append :
      (i : ℤ) (s : Strategy V) (ss : List (Strategy V))
      → has_id i (ss ++ (s ∷ [])) ≡ (eqb_ℤ s.id i || has_id i ss)
  has_id-append i s [] = refl
  has_id-append i s (x ∷ ss) = ground (arith, has_id-append i s ss)

  AreDistinct-append :
      (s : Strategy V) (ss : List (Strategy V))
      → AreDistinct ss
      → has_id s.id ss ≡ false
      → AreDistinct (ss ++ (s ∷ []))
  AreDistinct-append s [] d h = (refl, tt)
  AreDistinct-append s (x ∷ ss) d h = (
    ground (arith, has_id-append x.id s ss, eqb_ℤ_iff x.id s.id, eqb_ℤ_iff s.id x.id),
    AreDistinct-append s ss d.1 (ground arith),
  )

  pub HandsOut-trans :
      (N M S R N' S' : Strategy V → Type 0) (a b c : Acc V)
      → HandsOut N S a b
      → HandsOut M R b c
      → ((s : Strategy V) → N' s → N s ⊎ M s)
      → ((s : Strategy V) → S s → S' s)
      → ((s : Strategy V) → R s → S' s)
      → HandsOut N' S' a c
  HandsOut-trans N M S R N' S' a b c f g need src src' = record {
    valid = g.valid;
    keeps = λ i h. g.keeps i (f.keeps i h);
    covers = λ s h. elim (need s h) [ inl n ↦ g.keeps s.id (f.covers s n) | inr m ↦ g.covers s m ];
    comes = λ s h. elim (g.comes s h) [
      | inr r ↦ inr (src' s r)
      | inl o ↦ elim (f.comes s o) [ inl k ↦ inl k | inr r ↦ inr (src s r) ]
    ];
  }

module _ {V : Type 0} (tpls : IntMap Template) (last_tid : ℤ) where
  -- The strategy itself, if its template has the last id of the bucket, or else all of it with the
  -- template of that id in place of its own.
  abbrev pub HasLastTemplate : Strategy V → Strategy V → Type 0
  HasLastTemplate s s' =
      (t : Template) × (s.tpl ≡ some t)
      × ((t.id ≡ last_tid) × (s' ≡ s)
          ⊎ (t.id ≢ last_tid) × (s' ≡ record s { tpl = lookup_int last_tid tpls }))

  -- The copies of the strategies of a list.
  abbrev pub CopyOf : List (Strategy V) → Strategy V → Type 0
  CopyOf ss s' = (s : Strategy V) × Has s ss × HasLastTemplate s s'

  with_last_template_lem :
      (s : Strategy V)
      → HasTpl s
      → (s' : Strategy V) × (with_last_template tpls last_tid s ≡ some s')
        × (s'.id ≡ s.id)
        × HasLastTemplate s s'
  unfolding with_last_template
  with_last_template_lem s (t, y) = elim (Bool-cases (eqb_ℤ t.id last_tid)) [
    | inl e ↦ (s, rw (y, e) refl, refl, (t, y, inl ((eqb_ℤ_iff t.id last_tid).0 e, refl)))
    | inr e ↦ (
      record s { tpl = lookup_int last_tid tpls },
      rw (y, e) refl,
      refl,
      (t, y, inr (ground (arith, eqb_ℤ_iff t.id last_tid), refl)),
    )
  ]

  hand_out_lem :
      (s : Strategy V) (acc : Acc V)
      → HasTpl s
      → IsAcc acc
      → (acc' : Acc V) × (hand_out tpls last_tid s acc ≡ some acc')
        × HandsOut (λ r. r ≡ s) (CopyOf (s ∷ [])) acc acc'
  unfolding hand_out
  hand_out_lem s (ids, out) t v = elim (Bool-cases (slice_int_contains ids s.id)) [
    | inl y ↦ (
      (ids, out),
      rw y refl,
      record {
        valid = v;
        keeps = λ i h. h;
        covers =
            λ r e. subst (λ (x : Strategy V). has_id x.id out ≡ true) (sym e) (v.same s.id ∙ y);
        comes = λ r h. inl h;
      },
    )
    | inr n ↦
        let (s', e, i, copied) = with_last_template_lem s t in
        let new : has_id s'.id out ≡ false = ap (λ j. has_id j out) i ∙ v.same s.id ∙ n in
        (
          (s.id ∷ ids, out ++ (s' ∷ [])),
          rw (n, e) refl,
          record {
            valid = record {
              same = λ j.
                  has_id-append j s' out
                  ∙ ap (λ k. eqb_ℤ k j || has_id j out) i
                  ∙ ap (λ b. eqb_ℤ s.id j || b) (v.same j);
              distinct = AreDistinct-append s' out v.distinct new;
            };
            keeps = λ j h. has_id-append j s' out ∙ ground (arith, h);
            covers = λ r q.
                has_id-append r.id s' out
                ∙ ground (arith, ap (λ (x : Strategy V). x.id) q, eqb_ℤ_iff s'.id r.id);
            comes = λ r h. elim (Has-cases r out (s' ∷ []) h) [
              | inl o ↦ inl o
              | inr (inl q) ↦ inr (s, inl refl, subst (HasLastTemplate s) (sym q) copied)
              | inr (inr k) ↦ absurd k
            ];
          },
        )
  ]

  pub hand_out_all_lem :
      (ss : List (Strategy V)) (acc : Acc V)
      → ((s : Strategy V) → Has s ss → HasTpl s)
      → IsAcc acc
      → (acc' : Acc V) × (hand_out_all tpls last_tid ss acc ≡ some acc')
        × HandsOut (λ r. Has r ss) (CopyOf ss) acc acc'
  unfolding hand_out_all
  hand_out_all_lem [] acc t v = (
    acc,
    refl,
    record { valid = v; keeps = λ i h. h; covers = λ s h. absurd h; comes = λ s h. inl h },
  )
  hand_out_all_lem (s ∷ ss) acc t v =
      let (b, e, f) = hand_out_lem s acc (t s (inl refl)) v in
      let (c, e', g) = hand_out_all_lem ss b (λ r h. t r (inr h)) f.valid in
      (
        c,
        rw e e',
        HandsOut-trans (λ r. r ≡ s) (λ r. Has r ss) (CopyOf (s ∷ [])) (CopyOf ss)
            (λ r. Has r (s ∷ ss)) (CopyOf (s ∷ ss)) acc b c f g (λ r h. h)
            (λ r h. (h.0, elim h.1 [ inl q ↦ inl q | inr k ↦ absurd k ], h.2))
            (λ r h. (h.0, inr h.1, h.2)),
      )
