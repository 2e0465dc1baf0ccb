-- ===== src/Judge/Function/Loops.antt =====
-- modules/judge/store/func.go: the loops, run over a whole slice of points.
use falcon_plus_learn.Base.{
  ℕ, zero, suc, ◌+◌, ◌≡◌, refl, Bool, true, false, some, List, [], ◌∷◌, ◌&&◌, ◌⊎◌, inl, inr, not,
  length, if◌then◌else◌, arith, Bool-cases, All, every, any, count,
}
use falcon_plus_learn.Base.Int.{ℤ, pos, ltb_ℤ, leb_ℤ}
use falcon_plus_learn.Base.Float.{Float, IsOrdered}
use falcon_plus_learn.Common.Model.{HistoryData}
use falcon_plus_learn.Judge.Function.{
  Threshold, check_is_triggered, max_loop, min_loop, sum_loop, all_loop, lookup_loop, diff_loop,
  percent, pdiff_loop,
}

module _ {V : Type 0} (F : Float V) where
  -- Whether the value of a point triggers.
  abbrev pub triggers : Threshold V → HistoryData V → Bool
  triggers t v = check_is_triggered F v.value t

  -- Whether the difference of the latest value and an earlier point triggers.
  abbrev pub diff_triggers : Threshold V → V → HistoryData V → Bool
  diff_triggers t first v = check_is_triggered F (F.sub first v.value) t

  abbrev pub pdiff_triggers : Threshold V → V → HistoryData V → Bool
  pdiff_triggers t first v =
      not (F.eq v.value (F.of_int (pos 0))) && check_is_triggered F (percent F first v.value) t

  pub all_loop_lem :
      (t : Threshold V) (vs : List (HistoryData V))
      → all_loop F (length vs) t true vs ≡ some (every (triggers t) vs)
  unfolding all_loop
  all_loop_lem t [] = refl
  all_loop_lem t (v ∷ vs) = ground (arith, all_loop_lem t vs)

  pub lookup_loop_lem :
      (t : Threshold V) (num : ℤ) (n : ℕ) (vs : List (HistoryData V))
      → lookup_loop F (length vs) t num n vs
        ≡ some (ltb_ℤ (pos n) num && leb_ℤ num (pos (n + count (triggers t) vs)))
  unfolding lookup_loop
  lookup_loop_lem t num n [] = ground arith
  lookup_loop_lem t num n (v ∷ vs) =
      ground (arith, lookup_loop_lem t num n vs, lookup_loop_lem t num (suc n) vs)

  abbrev pub total : V → List (HistoryData V) → V
  total acc [] = acc
  total acc (v ∷ vs) = total (F.add acc v.value) vs

  pub sum_loop_lem :
      (acc : V) (vs : List (HistoryData V)) → sum_loop F (length vs) acc vs ≡ some (total acc vs)
  unfolding sum_loop
  sum_loop_lem acc [] = refl
  sum_loop_lem acc (v ∷ vs) = sum_loop_lem (F.add acc v.value) vs

  -- The flag of `diff` says whether some difference triggers, and then `leftValue` is one that does.
  pub diff_loop_lem :
      (t : Threshold V) (first left : V) (vs : List (HistoryData V))
      → (r : V) × (diff_loop F (length vs) t first left vs
          ≡ some (r, any (diff_triggers t first) vs))
        × (any (diff_triggers t first) vs ≡ true → check_is_triggered F r t ≡ true)
  unfolding diff_loop
  diff_loop_lem t first left [] = (left, refl, ground arith)
  diff_loop_lem t first left (v ∷ vs) = elim (Bool-cases (diff_triggers t first v)) [
    | inl e ↦ (F.sub first v.value, rw e, λ _. e)
    | inr e ↦
        let (r, same, hit) = diff_loop_lem t first (F.sub first v.value) vs in
        (r, rw e same, rw e hit)
  ]

  pub pdiff_loop_lem :
      (t : Threshold V) (first left : V) (vs : List (HistoryData V))
      → (r : V) × (pdiff_loop F (length vs) t first left vs
          ≡ some (r, any (pdiff_triggers t first) vs))
        × (any (pdiff_triggers t first) vs ≡ true → check_is_triggered F r t ≡ true)
  unfolding pdiff_loop
  pdiff_loop_lem t first left [] = (left, refl, ground arith)
  pdiff_loop_lem t first left (v ∷ vs) = elim (Bool-cases (F.eq v.value (F.of_int (pos 0)))) [
    | inl z ↦ let (r, same, hit) = pdiff_loop_lem t first left vs in (r, rw z same, rw z hit)
    | inr z ↦ elim (Bool-cases (check_is_triggered F (percent F first v.value) t)) [
      | inl e ↦ (percent F first v.value, rw (z, e), λ _. e)
      | inr e ↦
          let (r, same, hit) = pdiff_loop_lem t first (percent F first v.value) vs in
          (r, rw (z, e) same, rw (z, e) hit)
    ]
  ]

module _ {V : Type 0} where
  -- The value of some point.
  abbrev pub Occurs : V → List (HistoryData V) → Type 0
  Occurs m [] = ⊥
  Occurs m (v ∷ vs) = (m ≡ v.value) ⊎ Occurs m vs

  abbrev pub AllNumbers : (V → Type 0) → List (HistoryData V) → Type 0
  AllNumbers N = All (λ v. N v.value)

  -- The same values with the order turned round.
  abbrev pub flip : Float V → Float V
  flip F = record F { lt = λ x y. F.lt y x }

-- `m` is `best` or the value of a point, and none of these lies above it.
pub record IsMax {V : Type 0} (F : Float V) (best : V) (vs : List (HistoryData V)) (m : V)
    : Type 0 where
  pub found : (m ≡ best) ⊎ Occurs m vs
  pub above_best : F.lt m best ≡ false
  pub above : All (λ v. F.lt m v.value ≡ false) vs

module _ {V : Type 0} (F : Float V) (N : V → Type 0) (ordered : IsOrdered F N) where
  pub max_loop_lem :
      (best : V) (vs : List (HistoryData V))
      → N best
      → AllNumbers N vs
      → (m : V) × (max_loop F (length vs) best vs ≡ some m) × N m × IsMax F best vs m
  unfolding max_loop
  max_loop_lem best [] b h =
      (best, refl, b, record { found = inl refl; above_best = ordered.irrefl best b; above = tt })
  max_loop_lem best (v ∷ vs) b h = elim (Bool-cases (F.lt best v.value)) [
    | inl e ↦
        let (m, same, n, x) = max_loop_lem v.value vs h.0 h.1 in
        (
          m,
          rw (e, max_loop) same,
          n,
          record {
            found = inr x.found;
            above_best =
                ordered.not_lt_trans m v.value best n h.0 b x.above_best
                  (ordered.asymm best v.value b h.0 e);
            above = (x.above_best, x.above);
          },
        )
    | inr e ↦
        let (m, same, n, x) = max_loop_lem best vs b h.1 in
        (
          m,
          rw (e, max_loop) same,
          n,
          record {
            found = elim x.found [ inl p ↦ inl p | inr o ↦ inr (inr o) ];
            above_best = x.above_best;
            above = (ordered.not_lt_trans m best v.value n b h.0 x.above_best e, x.above);
          },
        )
  ]

pub min_loop_lem :
    {V : Type 0} (F : Float V) (n : ℕ) (best : V) (vs : List (HistoryData V))
    → min_loop F n best vs ≡ max_loop (flip F) n best vs
unfolding min_loop max_loop
min_loop_lem F zero best vs = refl
min_loop_lem F (suc n) best [] = refl
min_loop_lem F (suc n) best (v ∷ vs) =
    min_loop_lem F n (if F.lt v.value best then v.value else best) vs

pub flip-IsOrdered :
    {V : Type 0} (F : Float V) (N : V → Type 0) → IsOrdered F N → IsOrdered (flip F) N
flip-IsOrdered F N o = record {
  irrefl = o.irrefl;
  asymm = λ x y n m e. o.asymm y x m n e;
  not_lt_trans = λ x y z n m k p q. o.not_lt_trans z y x k m n q p;
}
