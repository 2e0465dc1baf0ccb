-- ===== src/Judge/Function/Compute.antt =====
-- modules/judge/store/func.go: what each judge function computes from its points.
use falcon_plus_learn.Base.{
  ◌≡◌, refl, ap, Bool, true, Option, none, some, List, [], ◌∷◌, ◌&&◌, inl, inr, length, ◌>>=◌,
  arith, Bool-cases, Option-cases, ◌==◌, not,
}
use falcon_plus_learn.Base.Int.{ℤ, pos, pos_part, add64, ◌≤ℤ◌, neg_part}
use falcon_plus_learn.Base.Float.{Float}
use falcon_plus_learn.Common.Model.{JudgeItem, HistoryData}
use falcon_plus_learn.Judge.LinkedList.{history_data}
use falcon_plus_learn.Judge.LinkedList.History.{history_data-enough}
use falcon_plus_learn.Judge.Function.{Computed, enough, with_points, with_previous}

module _ {V : Type 0} (F : Float V) where
  enough_lem :
      (vs : List (HistoryData V)) (o : Option (V × Bool)) (c : Computed V)
      → (do out ← o; some (enough F vs out)) ≡ some c
      → (c.vs ≡ vs) × (o ≡ some (c.left_value, c.is_triggered))
  enough_lem vs none c h = cc
  enough_lem vs (some (left, triggered)) c h = ground arith

  -- A successful call with enough points ran its body on as many points as were asked for.
  pub with_points-enough :
      (l : List (JudgeItem V)) (limit : ℤ) (body : List (HistoryData V) → Option (V × Bool))
      (c : Computed V)
      → with_points F l limit body ≡ some c
      → c.is_enough ≡ true
      → (pos (length c.vs) ≡ limit)
        × (pos 1 ≤ℤ limit)
        × (body c.vs ≡ some (c.left_value, c.is_triggered))
  unfolding with_points
  with_points-enough l limit body c h e = elim (Option-cases (history_data F l limit)) [
    | inl n ↦ ground arith
    | inr ((vs, b), p) ↦ elim (Bool-cases b) [
      | inl t ↦
          let (same, ran) = enough_lem vs (body vs) c (ground arith) in
          ground (arith, history_data-enough F l limit vs (rw t at p))
      | inr f ↦ ground arith
    ]
  ]

  pub with_previous-enough :
      (l : List (JudgeItem V)) (limit : ℤ) (body : ℤ → List (HistoryData V) → Option (V × Bool))
      (c : Computed V)
      → with_previous F l limit body ≡ some c
      → c.is_enough ≡ true
      → (pos (length c.vs) ≡ add64 limit (pos 1))
        × (pos 1 ≤ℤ add64 limit (pos 1))
        × (body (add64 limit (pos 1)) c.vs ≡ some (c.left_value, c.is_triggered))
  unfolding with_previous
  with_previous-enough l limit body c h e =
      elim (Option-cases (history_data F l (add64 limit (pos 1)))) [
        | inl n ↦ ground arith
        | inr ((vs, b), p) ↦ elim (Bool-cases (b && not (length vs == 0))) [
          | inl t ↦
              let (same, ran) = enough_lem vs (body (add64 limit (pos 1)) vs) c (ground arith) in
              ground (arith, history_data-enough F l (add64 limit (pos 1)) vs (ground arith))
          | inr f ↦ ground arith
        ]
      ]

  pub nonempty :
      (vs : List (HistoryData V)) (limit : ℤ)
      → pos (length vs) ≡ limit
      → pos 1 ≤ℤ limit
      → (v : HistoryData V) × (rest : List (HistoryData V)) × (vs ≡ v ∷ rest)
  nonempty [] limit n p = absurd (omega (arith, ap pos_part n, ap neg_part n))
  nonempty (v ∷ rest) limit n p = (v, rest, refl)
