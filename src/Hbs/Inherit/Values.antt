-- ===== src/Hbs/Inherit/Values.antt =====
-- modules/hbs/rpc/hbs.go: what a pass over the values of a bucket's map meets.
use mathlib.Core.Path.{subst}
use mathlib.Core.Logic.{◌⊎◌}
use falcon_plus_learn.Base.{
  Text, text_eq, text_eq_iff, text_eq_refl, ◌≡◌, refl, sym, ap, ◌∙◌, Option, none, some, List, [],
  ◌∷◌, ◌++◌, arith, Bool-cases, Option-cases, inl, inr, Has, All,
}
use falcon_plus_learn.Base.Int.{ℤ, eqb_ℤ}
use falcon_plus_learn.Base.Map.{Map, lookup}
use falcon_plus_learn.Base.IntMap.{
  IntMap, lookup_int, append_int, entries_int, entries_int-append_int,
}
use falcon_plus_learn.Common.Model.{Template, Strategy}
use falcon_plus_learn.Judge.Sync.Expressions.{Has-left, Has-right}
use falcon_plus_learn.Judge.Store.Maps.{IsDistinct}
use falcon_plus_learn.Hbs.Inherit.{
  override, values, strategy_uuid, tid_strategies, own_strategies, bucket_strategies,
  add_tpl_strategies, tpl2_strategies,
}
use falcon_plus_learn.Hbs.Inherit.Override.{
  or_else, with_uuid, if_any, youngest, override-IsDistinct, bucket_strategies_lem,
}

pub Has-cases : {A : Type 0} (x : A) (l k : List A) → Has x (l ++ k) → Has x l ⊎ Has x k
Has-cases x [] k h = inr h
Has-cases x (y ∷ l) k (inl e) = inl (inl e)
Has-cases x (y ∷ l) k (inr h) = elim (Has-cases x l k h) [ inl a ↦ inl (inr a) | inr b ↦ inr b ]

pub All-Has : {A : Type 0} (P : A → Type 0) (x : A) (l : List A) → All P l → Has x l → P x
All-Has P x [] a h = absurd h
All-Has P x (y ∷ l) a (inl e) = subst P (sym e) a.0
All-Has P x (y ∷ l) a (inr h) = All-Has P x l a.1 h

module _ {A : Type 0} where
  pub Has-values_at :
      (x : A) (k : Text) (xs : List A) (m : Map (List A))
      → lookup k m ≡ some xs
      → Has x xs
      → Has x (values m)
  unfolding lookup
  Has-values_at x k xs [] e h = absurd (cc)
  Has-values_at x k xs ((j, ys) ∷ m) e h = elim (Bool-cases (text_eq j k)) [
    | inl t ↦
        let q : ys ≡ xs = ground (arith, e, t) in
        Has-left x ys (values m) (subst (λ (l : List A). Has x l) (sym q) h)
    | inr f ↦ Has-right x ys (values m) (Has-values_at x k xs m (ground (arith, e, f)) h)
  ]

  -- The list of values of which key it comes from.
  pub values-Has :
      (x : A) (m : Map (List A))
      → IsDistinct m
      → Has x (values m)
      → (k : Text) × (xs : List A) × (lookup k m ≡ some xs) × Has x xs
  unfolding lookup
  values-Has x [] d h = absurd h
  values-Has x ((j, ys) ∷ m) d h = elim (Has-cases x ys (values m) h) [
    | inl a ↦ (j, ys, rw (text_eq_refl j) refl, a)
    | inr b ↦
        let (k, xs, e, a) = values-Has x m d.1 b in
        elim (Bool-cases (text_eq j k)) [
          | inl t ↦
              let q : j ≡ k = (text_eq_iff j k).0 t in
              let n : lookup k m ≡ none = ap (λ i. lookup i m) (sym q) ∙ d.0 in absurd (cc (n, e))
          | inr f ↦ (k, xs, rw f e, a)
        ]
  ]

module _ {V : Type 0} where
  pub bucket_strategies-IsDistinct :
      (tpl2 : IntMap (List (Strategy V))) (tids : List ℤ) (m : Map (List (Strategy V)))
      → IsDistinct m
      → IsDistinct (bucket_strategies tpl2 tids m)
  unfolding bucket_strategies
  bucket_strategies-IsDistinct tpl2 [] m h = h
  bucket_strategies-IsDistinct tpl2 (tid ∷ tids) m h =
      let own = tid_strategies (own_strategies tpl2 tid) [] in
      bucket_strategies-IsDistinct tpl2 tids (override own m) (override-IsDistinct own m h)

  -- The strategy has a template.
  abbrev pub HasTpl : Strategy V → Type 0
  HasTpl s = (t : Template) × (s.tpl ≡ some t)

  abbrev AllHaveTpl : IntMap (List (Strategy V)) → Type 0
  AllHaveTpl m = (k : ℤ) → All HasTpl (entries_int k m)

  All-snoc :
      (P : Strategy V → Type 0) (xs : List (Strategy V)) (x : Strategy V)
      → All P xs
      → P x
      → All P (xs ++ (x ∷ []))
  All-snoc P [] x a p = (p, tt)
  All-snoc P (y ∷ xs) x a p = (a.0, All-snoc P xs x a.1 p)

  append_int-AllHaveTpl :
      (k : ℤ) (s : Strategy V) (m : IntMap (List (Strategy V)))
      → HasTpl s
      → AllHaveTpl m
      → AllHaveTpl (append_int k s m)
  append_int-AllHaveTpl k s m p h = λ j. elim (Bool-cases (eqb_ℤ k j)) [
    | inl t ↦
        let q : entries_int j (append_int k s m) ≡ entries_int j m ++ (s ∷ []) =
          entries_int-append_int k j s m ∙ rw t refl in
        subst (All HasTpl) (sym q) (All-snoc HasTpl (entries_int j m) s (h j) p)
    | inr f ↦
        let q : entries_int j (append_int k s m) ≡ entries_int j m =
          entries_int-append_int k j s m ∙ rw f refl in
        subst (All HasTpl) (sym q) (h j)
  ]

  add_tpl_strategies-AllHaveTpl :
      (l : List (ℤ × Option (Strategy V))) (m : IntMap (List (Strategy V)))
      → AllHaveTpl m
      → AllHaveTpl (add_tpl_strategies l m)
  unfolding add_tpl_strategies
  add_tpl_strategies-AllHaveTpl [] m h = h
  add_tpl_strategies-AllHaveTpl ((k, none) ∷ l) m h = add_tpl_strategies-AllHaveTpl l m h
  add_tpl_strategies-AllHaveTpl ((k, some s) ∷ l) m h = elim (Option-cases s.tpl) [
    | inl n ↦ rw n (add_tpl_strategies-AllHaveTpl l m h)
    | inr (t, y) ↦ rw y (
        add_tpl_strategies-AllHaveTpl l (append_int t.id s m)
          (append_int-AllHaveTpl t.id s m (t, y) h))
  ]

  pub tpl2_strategies-HasTpl :
      (strategies : IntMap (Option (Strategy V))) (k : ℤ)
      → All HasTpl (own_strategies (tpl2_strategies strategies) k)
  unfolding tpl2_strategies lookup_int
  tpl2_strategies-HasTpl strategies k = add_tpl_strategies-AllHaveTpl strategies [] (λ j. tt) k

  All-with_uuid :
      (P : Strategy V → Type 0) (u : Text) (ss : List (Strategy V))
      → All P ss
      → All P (with_uuid u ss)
  All-with_uuid P u [] h = tt
  All-with_uuid P u (s ∷ ss) h = elim (Bool-cases (text_eq (strategy_uuid s) u)) [
    | inl t ↦ rw (t, All) (h.0, All-with_uuid P u ss h.1)
    | inr f ↦ rw f (All-with_uuid P u ss h.1)
  ]

  abbrev AllOf : (Strategy V → Type 0) → Option (List (Strategy V)) → Type 0
  AllOf P none = Unit
  AllOf P (some ss) = All P ss

  All-if_any : (P : Strategy V → Type 0) (ss : List (Strategy V)) → All P ss → AllOf P (if_any ss)
  All-if_any P [] h = tt
  All-if_any P (s ∷ ss) h = h

  All-or_else :
      (P : Strategy V → Type 0) (a b : Option (List (Strategy V)))
      → AllOf P a
      → AllOf P b
      → AllOf P (or_else a b)
  All-or_else P none b h k = k
  All-or_else P (some x) b h k = h

  All-youngest :
      (P : Strategy V → Type 0) (tpl2 : IntMap (List (Strategy V))) (u : Text) (tids : List ℤ)
      → ((k : ℤ) → All P (own_strategies tpl2 k))
      → AllOf P (youngest tpl2 u tids)
  All-youngest P tpl2 u [] h = tt
  All-youngest P tpl2 u (tid ∷ tids) h =
      All-or_else P (youngest tpl2 u tids) (if_any (with_uuid u (own_strategies tpl2 tid)))
        (All-youngest P tpl2 u tids h)
        (All-if_any P (with_uuid u (own_strategies tpl2 tid))
          (All-with_uuid P u (own_strategies tpl2 tid) (h tid)))

  -- A strategy of the bucket's map is one of the youngest for some metric with its tags, and the
  -- other way round.
  pub bucket-youngest :
      (tpl2 : IntMap (List (Strategy V))) (tids : List ℤ) (s : Strategy V)
      → Has s (values (bucket_strategies tpl2 tids []))
      → (u : Text) × (ss : List (Strategy V)) × (youngest tpl2 u tids ≡ some ss) × Has s ss
  bucket-youngest tpl2 tids s h =
      let (u, ss, e, a) =
        values-Has s (bucket_strategies tpl2 tids []) (bucket_strategies-IsDistinct tpl2 tids [] tt)
          h in
      (u, ss, sym (bucket_strategies_lem tpl2 u tids) ∙ e, a)

  pub youngest-bucket :
      (tpl2 : IntMap (List (Strategy V))) (tids : List ℤ) (s : Strategy V) (u : Text)
      (ss : List (Strategy V))
      → youngest tpl2 u tids ≡ some ss
      → Has s ss
      → Has s (values (bucket_strategies tpl2 tids []))
  youngest-bucket tpl2 tids s u ss e h =
      Has-values_at s u ss (bucket_strategies tpl2 tids []) (bucket_strategies_lem tpl2 u tids ∙ e)
        h

  -- Each strategy of the bucket's map has a template, if those by template have.
  pub bucket-HasTpl :
      (tpl2 : IntMap (List (Strategy V))) (tids : List ℤ) (s : Strategy V)
      → ((k : ℤ) → All HasTpl (own_strategies tpl2 k))
      → Has s (values (bucket_strategies tpl2 tids []))
      → HasTpl s
  bucket-HasTpl tpl2 tids s h a =
      let (u, ss, e, b) = bucket-youngest tpl2 tids s a in
      All-Has HasTpl s ss (subst (AllOf HasTpl) e (All-youngest HasTpl tpl2 u tids h)) b
