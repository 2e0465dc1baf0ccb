-- ===== src/Judge/LinkedList/History.antt =====
-- modules/judge/store/linkedlist.go: which points `HistoryData` returns.
use mathlib.Core.Bool.{true}
use falcon_plus_learn.Base.{
  Text, ℕ, zero, suc, ◌+◌, ◌-◌, ◌≤◌, ◌<◌, ◌≡◌, refl, ap, ◌∙◌, some, List, [], ◌∷◌, map, length,
  take, get_elem?, if◌then◌else◌, leb, ◌^◌, arith, take-all, Bool-cases, Option-cases, inl, inr,
}
use falcon_plus_learn.Base.Int.{ltb_ℤ, add64, ℤ, pos, pos_part, ◌≤ℤ◌}
use falcon_plus_learn.Base.Float.{Float}
use falcon_plus_learn.Common.Model.{JudgeItem, HistoryData}
use falcon_plus_learn.Judge.LinkedList.{
  point, raw_points, rate, rate_points, is_gauge, raw_history, rate_history, history_of,
  history_data,
}

module _ {V : Type 0} where
  raw_points_lem :
      (n : ℕ) (l : List (JudgeItem V)) → n ≤ length l → raw_points n l ≡ some (map point (take n l))
  unfolding raw_points
  raw_points_lem zero l h = refl
  raw_points_lem (suc n) [] h = absurd (omega arith)
  raw_points_lem (suc n) (x ∷ l) h = rw (raw_points_lem n l (omega arith))

  length-raw_points :
      (n : ℕ) (l : List (JudgeItem V)) {vs : List (HistoryData V)}
      → raw_points n l ≡ some vs
      → length vs ≡ n
  unfolding raw_points
  length-raw_points zero l h = ground arith
  length-raw_points (suc n) [] h = cc
  length-raw_points (suc n) (x ∷ l) {vs} h = elim (Option-cases (raw_points n l)) [
    | inl e ↦ ground arith
    | inr (r, e) ↦ ground (arith, length-raw_points n l {vs = r} e)
  ]

module _ {V : Type 0} (F : Float V) where
  length-rate_points :
      (n : ℕ) (l : List (JudgeItem V)) {vs : List (HistoryData V)}
      → rate_points F n l ≡ some vs
      → length vs ≡ n
  unfolding rate_points
  length-rate_points zero l h = ground arith
  length-rate_points (suc n) [] h = cc
  length-rate_points (suc n) (x ∷ []) h = cc
  length-rate_points (suc n) (x ∷ y ∷ l) {vs} h = elim (Option-cases (rate_points F n (y ∷ l))) [
    | inl e ↦ ground arith
    | inr (r, e) ↦ ground (arith, length-rate_points n (y ∷ l) {vs = r} e)
  ]

  -- the rates between each of the first `n` entries and the next one
  abbrev pub rates : ℕ → List (JudgeItem V) → List (HistoryData V)
  rates (suc n) (x ∷ y ∷ l) = rate F x y ∷ rates n (y ∷ l)
  rates _ _ = []

  rate_points_lem :
      (n : ℕ) (l : List (JudgeItem V)) → n < length l → rate_points F n l ≡ some (rates n l)
  unfolding rate_points
  rate_points_lem zero [] h = refl
  rate_points_lem zero (x ∷ l) h = refl
  rate_points_lem (suc n) [] h = absurd (omega arith)
  rate_points_lem (suc n) (x ∷ []) h = absurd (omega arith)
  rate_points_lem (suc n) (x ∷ y ∷ l) h = rw (rate_points_lem n (y ∷ l) (omega arith))

  enough_of_raw :
      (l : List (JudgeItem V)) (limit : ℤ) {vs : List (HistoryData V)}
      → pos 1 ≤ℤ limit
      → raw_history F l limit ≡ some (vs, true)
      → pos (length vs) ≡ limit
  unfolding raw_history
  enough_of_raw l limit {vs} p h = elim (Option-cases (raw_points (pos_part limit) l)) [
    | inl e ↦ ground arith
    | inr (r, e) ↦ ground (arith, length-raw_points (pos_part limit) l {vs = r} e)
  ]

  enough_of_rate :
      (l : List (JudgeItem V)) (limit : ℤ) {vs : List (HistoryData V)}
      → pos 1 ≤ℤ limit
      → rate_history F l limit ≡ some (vs, true)
      → pos (length vs) ≡ limit
  unfolding rate_history
  enough_of_rate l limit {vs} p h = elim (Option-cases (rate_points F (pos_part limit) l)) [
    | inl e ↦ ground arith
    | inr (r, e) ↦ ground (arith, length-rate_points (pos_part limit) l {vs = r} e)
  ]

  enough_of_history :
      (l : List (JudgeItem V)) (limit : ℤ) {vs : List (HistoryData V)}
      → pos 1 ≤ℤ limit
      → history_of F l limit ≡ some (vs, true)
      → pos (length vs) ≡ limit
  unfolding history_of
  enough_of_history [] limit p h = ground arith
  enough_of_history (x ∷ l) limit {vs} p h = elim (Option-cases (get_elem? x.judge_type 0)) [
    | inl e ↦ ground arith
    | inr (c, e) ↦
        ground
          (arith, enough_of_raw (x ∷ l) limit {vs = vs} p, enough_of_rate (x ∷ l) limit {vs = vs} p)
  ]

  -- If HistoryData reports isEnough, it returned exactly as many points as the limit, and the
  -- limit is positive.
  pub history_data-enough :
      (l : List (JudgeItem V)) (limit : ℤ) (vs : List (HistoryData V))
      → history_data F l limit ≡ some (vs, true)
      → (pos (length vs) ≡ limit) × (pos 1 ≤ℤ limit)
  unfolding history_data
  history_data-enough l limit vs h = elim (Bool-cases (ltb_ℤ limit (pos 1))) [
    | inl e ↦ ground arith
    | inr e ↦ (enough_of_history l limit {vs = vs} (ground arith) (ground arith), ground arith)
  ]

  raw_history_lem :
      (l : List (JudgeItem V)) (n : ℕ)
      → raw_history F l (pos n) ≡ some (map point (take n l), leb n (length l))
  unfolding raw_history
  raw_history_lem l n =
      ground (
        arith,
        raw_points_lem n l,
        raw_points_lem (length l) l,
        take-all n l,
        take-all (length l) l,
      )

  next_limit : (n : ℕ) → n < 2 ^ 63 - 1 → add64 (pos n) (pos 1) ≡ pos (n + 1)
  unfolding add64
  next_limit n h = ground arith

  rates-stop :
      (n : ℕ) (l : List (JudgeItem V)) → length l - 1 ≤ n → rates n l ≡ rates (length l - 1) l
  rates-stop zero l h = ground arith
  rates-stop (suc n) [] h = refl
  rates-stop (suc n) (x ∷ []) h = refl
  rates-stop (suc n) (x ∷ y ∷ l) h =
      ap (λ r. rate F x y ∷ r)
        (rates-stop n (y ∷ l) (omega arith) ∙ ap (λ k. rates k (y ∷ l)) (omega arith))
      ∙ ap (λ k. rates k (x ∷ y ∷ l)) {x = suc (length l)} (omega arith)

  rate_history_lem :
      (x : JudgeItem V) (l : List (JudgeItem V)) (n : ℕ)
      → n < 2 ^ 63 - 1
      → rate_history F (x ∷ l) (pos n) ≡ some (rates n (x ∷ l), leb n (length l))
  unfolding rate_history
  rate_history_lem x l n h = rw (next_limit n h) (
      ground (
        arith,
        rate_points_lem n (x ∷ l),
        rate_points_lem (suc (length l) - 1) (x ∷ l),
        rates-stop n (x ∷ l),
      ))

  pub history_data_lem :
      (x : JudgeItem V) (l : List (JudgeItem V)) (c : ℕ) (t : Text) (n : ℕ)
      → x.judge_type ≡ c ∷ t
      → 0 < n
      → n < 2 ^ 63 - 1
      → history_data F (x ∷ l) (pos n)
        ≡ some (
            if is_gauge c
            then (map point (take n (x ∷ l)), leb n (suc (length l)))
            else (rates n (x ∷ l), leb n (length l)))
  unfolding history_data history_of
  history_data_lem x l c t n e p q =
      ground (arith, ap (λ s. get_elem? s 0) e, raw_history_lem (x ∷ l) n, rate_history_lem x l n q)
