-- ===== src/Hbs/Inherit/Override.antt =====
-- modules/hbs/rpc/hbs.go: in a bucket, the strategies of a template replace those of its ancestors for
-- the same metric and tags.
use mathlib.Core.List.{append-nil, append_assoc}
use falcon_plus_learn.Base.{
  Text, text_eq, text_eq_iff, ◌≡◌, refl, sym, ap, ◌∙◌, Option, none, some, List, [], ◌∷◌, ◌++◌,
  if◌then◌else◌, arith, Bool-cases, Option-cases, inl, inr,
}
use falcon_plus_learn.Base.Int.{ℤ}
use falcon_plus_learn.Base.Map.{Map, lookup, insert, lookup-insert}
use falcon_plus_learn.Base.IntMap.{IntMap}
use falcon_plus_learn.Common.Model.{Strategy}
use falcon_plus_learn.Judge.Sync.{append_at}
use falcon_plus_learn.Judge.Store.Maps.{IsDistinct, insert-IsDistinct}
use falcon_plus_learn.Hbs.Inherit.{
  override, strategy_uuid, tid_strategies, own_strategies, bucket_strategies,
}

abbrev pub or_else : {A : Type 0} → Option A → Option A → Option A
or_else none d = d
or_else (some x) d = some x

module _ {A : Type 0} where
  append_at-IsDistinct :
      (k : Text) (x : A) (m : Map (List A)) → IsDistinct m → IsDistinct (append_at k x m)
  unfolding append_at
  append_at-IsDistinct k x m h = elim (Option-cases (lookup k m)) [
    | inl n ↦ rw (n, append_at) (insert-IsDistinct k (x ∷ []) m h)
    | inr (xs, y) ↦ rw (y, append_at) (insert-IsDistinct k (xs ++ (x ∷ [])) m h)
  ]

  -- Of a map without duplicate keys, each entry ends up in the other map.
  lookup-override :
      (u : Text) (own m : Map A)
      → IsDistinct own
      → lookup u (override own m) ≡ or_else (lookup u own) (lookup u m)
  unfolding override lookup
  lookup-override u [] m h = refl
  lookup-override u ((k, v) ∷ own) m h = elim (Bool-cases (text_eq k u)) [
    | inl t ↦
        let e : k ≡ u = (text_eq_iff k u).0 t in
        let n : lookup u own ≡ none = ap (λ i. lookup i own) (sym e) ∙ h.0 in
        rw (lookup-override u own (insert k v m) h.1, n, lookup-insert k u v m, t) refl
    | inr f ↦ rw (lookup-override u own (insert k v m) h.1, lookup-insert k u v m, f) refl
  ]

  pub override-IsDistinct : (own m : Map A) → IsDistinct m → IsDistinct (override own m)
  unfolding override
  override-IsDistinct [] m h = h
  override-IsDistinct ((k, v) ∷ own) m h =
      override-IsDistinct own (insert k v m) (insert-IsDistinct k v m h)

module _ {V : Type 0} where
  -- The strategies of a list for one metric and one set of tags.
  abbrev pub with_uuid : Text → List (Strategy V) → List (Strategy V)
  with_uuid u [] = []
  with_uuid u (s ∷ ss) =
      let rest = with_uuid u ss in if text_eq (strategy_uuid s) u then s ∷ rest else rest

  abbrev pub if_any : List (Strategy V) → Option (List (Strategy V))
  if_any [] = none
  if_any (s ∷ ss) = some (s ∷ ss)

  -- Those of the last template of the bucket that has any.
  abbrev pub youngest : IntMap (List (Strategy V)) → Text → List ℤ → Option (List (Strategy V))
  youngest tpl2 u [] = none
  youngest tpl2 u (tid ∷ tids) =
      or_else (youngest tpl2 u tids) (if_any (with_uuid u (own_strategies tpl2 tid)))

  tid_strategies-IsDistinct :
      (ss : List (Strategy V)) (m : Map (List (Strategy V)))
      → IsDistinct m
      → IsDistinct (tid_strategies ss m)
  unfolding tid_strategies
  tid_strategies-IsDistinct [] m h = h
  tid_strategies-IsDistinct (s ∷ ss) m h =
      tid_strategies-IsDistinct ss (append_at (strategy_uuid s) s m)
        (append_at-IsDistinct (strategy_uuid s) s m h)

  -- What is there, followed by what comes.
  abbrev more : Option (List (Strategy V)) → List (Strategy V) → Option (List (Strategy V))
  more none ss = if_any ss
  more (some xs) ss = some (xs ++ ss)

  lookup-append_at :
      (k u : Text) (s : Strategy V) (m : Map (List (Strategy V)))
      → lookup u (append_at k s m)
        ≡ (if text_eq k u then more (lookup u m) (s ∷ []) else lookup u m)
  unfolding append_at
  lookup-append_at k u s m = elim (Option-cases (lookup k m)) [
    | inl n ↦ ground (arith, n, lookup-insert k u (s ∷ []) m, text_eq_iff k u)
    | inr (xs, y) ↦ ground (arith, y, lookup-insert k u (xs ++ (s ∷ [])) m, text_eq_iff k u)
  ]

  more-more :
      (o : Option (List (Strategy V))) (s : Strategy V) (ss : List (Strategy V))
      → more (more o (s ∷ [])) ss ≡ more o (s ∷ ss)
  more-more none s ss = refl
  more-more (some xs) s ss = ap (λ l. some l) (append_assoc xs (s ∷ []) ss)

  more-nil : (o : Option (List (Strategy V))) → more o [] ≡ o
  more-nil none = refl
  more-nil (some xs) = ap (λ l. some l) (append-nil xs)

  lookup-tid_strategies :
      (u : Text) (ss : List (Strategy V)) (m : Map (List (Strategy V)))
      → lookup u (tid_strategies ss m) ≡ more (lookup u m) (with_uuid u ss)
  unfolding tid_strategies
  lookup-tid_strategies u [] m = sym (more-nil (lookup u m))
  lookup-tid_strategies u (s ∷ ss) m =
      lookup-tid_strategies u ss (append_at (strategy_uuid s) s m)
      ∙ ap (λ o. more o (with_uuid u ss)) (lookup-append_at (strategy_uuid s) u s m)
      ∙ elim (Bool-cases (text_eq (strategy_uuid s) u)) [
        | inl t ↦ rw t (more-more (lookup u m) s (with_uuid u ss))
        | inr f ↦ rw f refl
      ]

  or_else_assoc :
      (a b c : Option (List (Strategy V))) → or_else a (or_else b c) ≡ or_else (or_else a b) c
  or_else_assoc none b c = refl
  or_else_assoc (some x) b c = refl

  lookup-own :
      (u : Text) (ss : List (Strategy V)) (m : Map (List (Strategy V)))
      → lookup u (override (tid_strategies ss []) m)
        ≡ or_else (if_any (with_uuid u ss)) (lookup u m)
  unfolding lookup
  lookup-own u ss m =
      lookup-override u (tid_strategies ss []) m (tid_strategies-IsDistinct ss [] tt)
      ∙ ap (λ o. or_else o (lookup u m)) (lookup-tid_strategies u ss [])

  lookup-bucket_strategies :
      (tpl2 : IntMap (List (Strategy V))) (u : Text) (tids : List ℤ) (m : Map (List (Strategy V)))
      → lookup u (bucket_strategies tpl2 tids m) ≡ or_else (youngest tpl2 u tids) (lookup u m)
  unfolding bucket_strategies
  lookup-bucket_strategies tpl2 u [] m = refl
  lookup-bucket_strategies tpl2 u (tid ∷ tids) m =
      lookup-bucket_strategies tpl2 u tids
        (override (tid_strategies (own_strategies tpl2 tid) []) m)
      ∙ ap (or_else (youngest tpl2 u tids)) (lookup-own u (own_strategies tpl2 tid) m)
      ∙ or_else_assoc (youngest tpl2 u tids) (if_any (with_uuid u (own_strategies tpl2 tid)))
          (lookup u m)

  pub bucket_strategies_lem :
      (tpl2 : IntMap (List (Strategy V))) (u : Text) (tids : List ℤ)
      → lookup u (bucket_strategies tpl2 tids []) ≡ youngest tpl2 u tids
  unfolding lookup
  bucket_strategies_lem tpl2 u tids =
      lookup-bucket_strategies tpl2 u tids [] ∙ or_else-none (youngest tpl2 u tids)
    where
      or_else-none : (o : Option (List (Strategy V))) → or_else o none ≡ o
      or_else-none none = refl
      or_else-none (some x) = refl
