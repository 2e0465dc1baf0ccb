-- ===== src/Judge/Sync/Candidates.antt =====
-- modules/judge/cron/strategy.go with store/judge.go: no related expression is missed.
use mathlib.Core.Path.{subst}
use falcon_plus_learn.Base.{
  Has, Text, codes, text_eq, text_eq_iff, true, ◌≡◌, refl, sym, ap, ◌∙◌, Option, none, some, List,
  [], ◌∷◌, ◌++◌, arith, Bool-cases, Option-cases, inl, inr, ◌⊎◌,
}
use falcon_plus_learn.Base.Int.{ℤ, eqb_ℤ, eqb_ℤ_iff}
use falcon_plus_learn.Base.Map.{Map, lookup, insert, lookup-insert}
use falcon_plus_learn.Common.Model.{JudgeItem, Strategy, Expression}
use falcon_plus_learn.Judge.Match.{
  Rules, is_related, insert_all, copy_item_tags, tags_for, filter_related_expressions, tag_keys,
  build_keys_from_metric_and_tags, is_handled,
}
use falcon_plus_learn.Judge.Match.Select.{fresh, candidates, candidates_at}
use falcon_plus_learn.Judge.Sync.{add_expressions, rebuild_expression_map}
use falcon_plus_learn.Judge.Sync.Strategies.{entries}
use falcon_plus_learn.Judge.Sync.Expressions.{Has-left, Has-right, tag_key, filed_all}

entry_of : (k v : Text) (tags : Map Text) → lookup k tags ≡ some v → Has (k, v) tags
unfolding lookup
entry_of k v [] h = cc
entry_of k v ((j, w) ∷ tags) h = elim (Bool-cases (text_eq j k)) [
  | inl t ↦ inl (ground (arith, text_eq_iff j k))
  | inr f ↦ inr (entry_of k v tags (ground arith))
]

entry_of_copy :
    (k v : Text) (tags m : Map Text)
    → lookup k (insert_all tags m) ≡ some v
    → Has (k, v) tags ⊎ (lookup k m ≡ some v)
unfolding insert_all
entry_of_copy k v [] m h = inr h
entry_of_copy k v ((j, w) ∷ tags) m h = elim (entry_of_copy k v tags (insert j w m) h) [
  | inl e ↦ inl (inr e)
  | inr q ↦ elim (Bool-cases (text_eq j k)) [
    | inl t ↦
        let p : some w ≡ some v = rw (lookup-insert, t) at q in
        inl (inl (ground (arith, text_eq_iff j k)))
    | inr f ↦ inr (rw (lookup-insert, f) at q)
  ]
]

key_of_entry :
    (metric k v : Text) (tags : Map Text)
    → Has (k, v) tags
    → Has (tag_key metric k v) (tag_keys metric tags)
unfolding tag_keys
key_of_entry metric k v [] h = absurd h
key_of_entry metric k v ((j, w) ∷ tags) (inl q) = inl (ap (λ t. tag_key metric t.0 t.1) q)
key_of_entry metric k v ((j, w) ∷ tags) (inr h) = inr (key_of_entry metric k v tags h)

first_related :
    (k v : Text) (tags item_tags : Map Text)
    → is_related ((k, v) ∷ tags) item_tags ≡ true
    → lookup k item_tags ≡ some v
unfolding is_related
first_related k v tags item_tags h = elim (Option-cases (lookup k item_tags)) [
  | inl n ↦ ground arith
  | inr (w, y) ↦ ground (arith, text_eq_iff w v)
]

module _ {V : Type 0} where
  key_of_tag :
      (e : Expression V) (item : JudgeItem V) (k v : Text)
      → lookup k (tags_for e item) ≡ some v
      → Has (tag_key item.metric k v) (build_keys_from_metric_and_tags item)
  unfolding tags_for build_keys_from_metric_and_tags
  key_of_tag e item k v h = elim (Option-cases (lookup (codes "endpoint") e.tags)) [
    | inl n ↦ from_entry (entry_of k v item.tags (ground arith))
    | inr (x, y) ↦
        elim (entry_of_copy k v item.tags ((codes "endpoint", item.endpoint) ∷ []) (copied x y)) [
          | inl p ↦ from_entry p
          | inr q ↦
              Has-right (tag_key item.metric k v) (tag_keys item.metric item.tags)
                ((item.metric ++ (codes "/endpoint=" ++ item.endpoint)) ∷ [])
                (inl (endpoint_key (entry_of k v ((codes "endpoint", item.endpoint) ∷ []) q)))
        ]
  ]
    where
      from_entry :
          Has {A = Text × Text} (k, v) item.tags
          → Has (tag_key item.metric k v) (
              tag_keys item.metric item.tags
              ++ ((item.metric ++ (codes "/endpoint=" ++ item.endpoint)) ∷ []))
      from_entry p =
          Has-left (tag_key item.metric k v) (tag_keys item.metric item.tags)
            ((item.metric ++ (codes "/endpoint=" ++ item.endpoint)) ∷ [])
            (key_of_entry item.metric k v item.tags p)

      copied :
          (x : Text)
          → lookup (codes "endpoint") e.tags ≡ some x
          → lookup k (insert_all item.tags ((codes "endpoint", item.endpoint) ∷ [])) ≡ some v
      copied x y = unfold copy_item_tags in ground arith

      endpoint_key :
          Has {A = Text × Text} (k, v) ((codes "endpoint", item.endpoint) ∷ [])
          → tag_key item.metric k v ≡ item.metric ++ (codes "/endpoint=" ++ item.endpoint)
      endpoint_key (inl p) = ap (λ t. tag_key item.metric t.0 t.1) p
      endpoint_key (inr p) = absurd p

  kept_by_filter :
      (e : Expression V) (item : JudgeItem V) (es : List (Expression V))
      → is_related e.tags (tags_for e item) ≡ true
      → Has e es
      → Has e (filter_related_expressions es item)
  unfolding filter_related_expressions
  kept_by_filter e item [] r h = absurd h
  kept_by_filter e item (x ∷ es) r (inl q) =
      rw (ap (λ (y : Expression V). is_related y.tags (tags_for y item)) (sym q) ∙ r) (inl q)
  kept_by_filter e item (x ∷ es) r (inr h) =
      elim (Bool-cases (is_related x.tags (tags_for x item))) [
        | inl t ↦ rw t (inr (kept_by_filter e item es r h))
        | inr f ↦ rw f (kept_by_filter e item es r h)
      ]

  at_key :
      (e : Expression V) (item : JudgeItem V) (o : Option (List (Expression V)))
      → is_related e.tags (tags_for e item) ≡ true
      → Has e (elim o [ none ↦ [] | some xs ↦ xs ])
      → Has e (candidates_at o item)
  at_key e item none r h = absurd h
  at_key e item (some es) r h = kept_by_filter e item es r h

  among_candidates :
      (rules : Rules V) (e : Expression V) (item : JudgeItem V) (key : Text) (keys : List Text)
      → is_related e.tags (tags_for e item) ≡ true
      → Has e (entries key rules.expression_map)
      → Has key keys
      → Has e (candidates rules keys item)
  among_candidates rules e item key [] r h k = absurd k
  among_candidates rules e item key (j ∷ keys) r h (inl q) =
      Has-left e (candidates_at (lookup j rules.expression_map) item) (candidates rules keys item) (
        at_key e item (lookup j rules.expression_map) r
          (subst (λ i. Has e (entries i rules.expression_map)) q h))
  among_candidates rules e item key (j ∷ keys) r h (inr k) =
      Has-right e (candidates_at (lookup j rules.expression_map) item) (candidates rules keys item)
        (among_candidates rules e item key keys r h k)

  -- Some expression of the list has the id.
  abbrev pub HasId : ℤ → List (Expression V) → Type 0
  HasId id [] = ⊥
  HasId id (e ∷ es) = (e.id ≡ id) ⊎ HasId id es

  fresh_covers :
      (e : Expression V) (handled : List ℤ) (es : List (Expression V))
      → Has e es
      → (is_handled e.id handled ≡ true) ⊎ HasId e.id (fresh handled es)
  fresh_covers e handled [] h = absurd h
  fresh_covers e handled (x ∷ es) (inl q) = elim (Bool-cases (is_handled x.id handled)) [
    | inl t ↦ inl (ap (λ (y : Expression V). is_handled y.id handled) q ∙ t)
    | inr f ↦ rw f (inr (inl (ap (λ (y : Expression V). y.id) (sym q))))
  ]
  fresh_covers e handled (x ∷ es) (inr h) = elim (Bool-cases (is_handled x.id handled)) [
    | inl t ↦ rw t (fresh_covers e handled es h)
    | inr f ↦ elim (fresh_covers e (x.id ∷ handled) es h) [
      | inl c ↦ elim (Bool-cases (eqb_ℤ x.id e.id)) [
        | inl y ↦ rw f (inr (inl ((eqb_ℤ_iff x.id e.id).0 y)))
        | inr n ↦ inl (rw n at c)
      ]
      | inr c ↦ rw f (inr (inr c))
    ]
  ]

  -- After rebuildExpressionMap, an expression that was sent, has a tag, is of the item's metric
  -- and has all its tags among those that the item is compared by is not missed: an expression of
  -- its id is among those that CheckExpression judges.
  pub rebuild-candidates :
      (es : List (Expression V)) (ss : Map (List (Strategy V))) (e : Expression V)
      (item : JudgeItem V) (k v : Text) (tags : Map Text)
      → Has e es
      → e.tags ≡ (k, v) ∷ tags
      → e.metric ≡ item.metric
      → is_related e.tags (tags_for e item) ≡ true
      → HasId e.id (
          fresh [] (
            candidates
              (record { strategy_map = ss; expression_map = rebuild_expression_map es })
              (build_keys_from_metric_and_tags item)
              item))
  unfolding rebuild_expression_map
  rebuild-candidates es ss e item k v tags h t m r =
      let rules : Rules V = record { strategy_map = ss; expression_map = add_expressions es [] } in
      let keys = build_keys_from_metric_and_tags item in
      let first : Has {A = Text × Text} (k, v) e.tags = rw t (inl refl) in
      let found : Has e (entries (tag_key item.metric k v) (add_expressions es [])) =
        subst (λ j. Has e (entries (tag_key j k v) (add_expressions es []))) m
          (filed_all e es k v [] first h) in
      let here : Has e (candidates rules keys item) =
        among_candidates rules e item (tag_key item.metric k v) keys r found (
          key_of_tag e item k v (
            first_related k v tags (tags_for e item)
              (ap (λ ts. is_related ts (tags_for e item)) (sym t) ∙ r))) in
      elim (fresh_covers e [] (candidates rules keys item) here) [ inl c ↦ cc | inr c ↦ c ]
