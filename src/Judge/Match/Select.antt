-- ===== src/Judge/Match/Select.antt =====
-- modules/judge/store/judge.go: which expressions are judged, and how often.
use falcon_plus_learn.Base.{
  Text, false, ◌≡◌, refl, ap, Option, none, some, List, [], ◌∷◌, ◌++◌, if◌then◌else◌, ◌>>=◌,
  Bool-cases, Option-cases, inl, inr,
}
use falcon_plus_learn.Base.Int.{ℤ}
use falcon_plus_learn.Base.Float.{Float}
use falcon_plus_learn.Base.Map.{lookup}
use falcon_plus_learn.Common.Model.{JudgeItem, Expression}
use falcon_plus_learn.Judge.Alarm.{Env, Alerts}
use falcon_plus_learn.Judge.Match.{
  Rules, filter_related_expressions, build_keys_from_metric_and_tags, judge_item_with_expression,
  is_handled, judge_expressions, judge_key, judge_keys, check_expression,
}

module _ {V : Type 0} where
  -- The expressions of a list that were not handled before, each id once.
  abbrev pub fresh : List ℤ → List (Expression V) → List (Expression V)
  fresh handled [] = []
  fresh handled (e ∷ es) =
      let old = fresh handled es in
      let new = e ∷ fresh (e.id ∷ handled) es in if is_handled e.id handled then old else new

  abbrev pub handled_after : List ℤ → List (Expression V) → List ℤ
  handled_after handled [] = handled
  handled_after handled (e ∷ es) =
      let old = handled_after handled es in
      let new = handled_after (e.id ∷ handled) es in if is_handled e.id handled then old else new

  -- The related expressions of every key, in order.
  abbrev pub candidates_at : Option (List (Expression V)) → JudgeItem V → List (Expression V)
  candidates_at none item = []
  candidates_at (some es) item = filter_related_expressions es item

  abbrev pub candidates : Rules V → List Text → JudgeItem V → List (Expression V)
  candidates rules [] item = []
  candidates rules (key ∷ keys) item =
      candidates_at (lookup key rules.expression_map) item ++ candidates rules keys item

  fresh-append :
      (handled : List ℤ) (xs ys : List (Expression V))
      → fresh handled (xs ++ ys) ≡ fresh handled xs ++ fresh (handled_after handled xs) ys
  fresh-append handled [] ys = refl
  fresh-append handled (e ∷ xs) ys = elim (Bool-cases (is_handled e.id handled)) [
    | inl t ↦ rw t (fresh-append handled xs ys)
    | inr f ↦ rw f (ap (λ r. e ∷ r) (fresh-append (e.id ∷ handled) xs ys))
  ]

  handled_after-append :
      (handled : List ℤ) (xs ys : List (Expression V))
      → handled_after handled (xs ++ ys) ≡ handled_after (handled_after handled xs) ys
  handled_after-append handled [] ys = refl
  handled_after-append handled (e ∷ xs) ys = elim (Bool-cases (is_handled e.id handled)) [
    | inl t ↦ rw t (handled_after-append handled xs ys)
    | inr f ↦ rw f (handled_after-append (e.id ∷ handled) xs ys)
  ]

  -- No two expressions of the list have one id, and none has an id of `handled`.
  abbrev pub AreNew : List ℤ → List (Expression V) → Type 0
  AreNew handled [] = Unit
  AreNew handled (e ∷ es) = (is_handled e.id handled ≡ false) × AreNew (e.id ∷ handled) es

  fresh-AreNew : (handled : List ℤ) (es : List (Expression V)) → AreNew handled (fresh handled es)
  fresh-AreNew handled [] = tt
  fresh-AreNew handled (e ∷ es) = elim (Bool-cases (is_handled e.id handled)) [
    | inl t ↦ rw t (fresh-AreNew handled es)
    | inr f ↦ rw f (f, fresh-AreNew (e.id ∷ handled) es)
  ]

module _ {V : Type 0} (F : Float V) (env : Env V) (l : List (JudgeItem V)) (item : JudgeItem V)
    (now : ℤ) where
  -- Judge each expression of a list, in order.
  abbrev pub judge_all : List (Expression V) → Alerts V → Option (Alerts V)
  judge_all [] s = some s
  judge_all (e ∷ es) s = do s' ← judge_item_with_expression F env l e item now s; judge_all es s'

  with_handled : List ℤ → Option (Alerts V) → Option (List ℤ × Alerts V)
  with_handled handled none = none
  with_handled handled (some s) = some (handled, s)

  judge_expressions_lem :
      (es : List (Expression V)) (handled : List ℤ) (s : Alerts V)
      → judge_expressions F env l es item now (handled, s)
        ≡ with_handled (handled_after handled es) (judge_all (fresh handled es) s)
  unfolding judge_expressions with_handled
  judge_expressions_lem [] handled s = refl
  judge_expressions_lem (e ∷ es) handled s = elim (Bool-cases (is_handled e.id handled)) [
    | inl t ↦ rw (t, judge_expressions) (judge_expressions_lem es handled s)
    | inr f ↦ elim (Option-cases (judge_item_with_expression F env l e item now s)) [
      | inl n ↦ rw (f, n, judge_expressions) refl
      | inr (s', y) ↦ rw (f, y, judge_expressions) (judge_expressions_lem es (e.id ∷ handled) s')
    ]
  ]

  judge_all-append :
      (xs ys : List (Expression V)) (s : Alerts V)
      → judge_all (xs ++ ys) s ≡ (do s' ← judge_all xs s; judge_all ys s')
  judge_all-append [] ys s = refl
  judge_all-append (e ∷ xs) ys s =
      elim (Option-cases (judge_item_with_expression F env l e item now s)) [
        | inl n ↦ rw n
        | inr (s', y) ↦ rw y (judge_all-append xs ys s')
      ]

  judge_key_lem :
      (o : Option (List (Expression V))) (handled : List ℤ) (s : Alerts V)
      → judge_key F env o l item now (handled, s)
        ≡ with_handled
            (handled_after handled (candidates_at o item))
            (judge_all (fresh handled (candidates_at o item)) s)
  unfolding judge_key
  judge_key_lem none handled s = unfold with_handled in refl
  judge_key_lem (some es) handled s =
      judge_expressions_lem (filter_related_expressions es item) handled s

  judge_keys_lem :
      (rules : Rules V) (keys : List Text) (handled : List ℤ) (s : Alerts V)
      → judge_keys F env rules l keys item now (handled, s)
        ≡ with_handled
            (handled_after handled (candidates rules keys item))
            (judge_all (fresh handled (candidates rules keys item)) s)
  unfolding judge_keys with_handled
  judge_keys_lem rules [] handled s = refl
  judge_keys_lem rules (key ∷ keys) handled s =
      let xs = candidates_at (lookup key rules.expression_map) item in
      let ys = candidates rules keys item in
      rw
        (
          judge_key_lem (lookup key rules.expression_map) handled s,
          fresh-append handled xs ys,
          handled_after-append handled xs ys,
          judge_all-append (fresh handled xs) (fresh (handled_after handled xs) ys) s,
        )
        (elim (Option-cases (judge_all (fresh handled xs) s)) [
          | inl n ↦ rw (n, with_handled) refl
          | inr (s', y) ↦
              rw (y, with_handled) (judge_keys_lem rules keys (handled_after handled xs) s')
        ])

  -- CheckExpression judges, one after the other, the related expressions of the map entries for
  -- the item's keys, in order, each id once; so no two that it judges have one id.
  pub check_expression_lem :
      (rules : Rules V) (s : Alerts V)
      → let es = fresh [] (candidates rules (build_keys_from_metric_and_tags item) item) in
        (check_expression F env rules l item now s ≡ judge_all es s) × AreNew [] es
  unfolding check_expression
  check_expression_lem rules s =
      let cs = candidates rules (build_keys_from_metric_and_tags item) item in
      (
        rw (judge_keys_lem rules (build_keys_from_metric_and_tags item) [] s)
            (first_part (handled_after [] cs) (judge_all (fresh [] cs) s)),
        fresh-AreNew [] cs,
      )
    where
      first_part :
          (handled : List ℤ) (o : Option (Alerts V)) → (do r ← with_handled handled o; some r.1) ≡ o
      first_part handled none = unfold with_handled in refl
      first_part handled (some s) = unfold with_handled in refl
