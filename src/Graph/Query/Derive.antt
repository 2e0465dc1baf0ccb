-- ===== src/Graph/Query/Derive.antt =====
-- modules/graph/api/graph.go: a gap after the first cached item of a counter hides all its cached rates.
use falcon_plus_learn.Base.{
  Text, codes, text_eq, ℕ, zero, suc, ◌+◌, ◌^◌, ◌≤◌, ◌<◌, ◌≡◌, refl, sym, ap, ◌∙◌, true, false,
  ◌||◌, Option, some, List, [], ◌∷◌, arith, Bool-cases, inl, inr, All,
}
use mathlib.Core.Path.{subst}
use falcon_plus_learn.Base.Int.{ℤ, pos, ltb_ℤ, eqb_ℤ, sub64, add64, add64-pos}
use falcon_plus_learn.Base.Float.{Float}
use falcon_plus_learn.Graph.LinkedList.{GraphItem}
use falcon_plus_learn.Graph.Api.{RrdData}
use falcon_plus_learn.Graph.Query.{
  Special, in_window, is_rate, point, cons_window, rate_loop, rounds, cached_points,
}
use falcon_plus_learn.Graph.Query.Loops.{rounds-pos}
use falcon_plus_learn.Graph.Query.Merged.{HasTime, back-total}

module _ {V : Type 0} (F : Float V) (special : Special V) (k : ℕ) (step_pos : 1 ≤ k)
    (x y : GraphItem V) (rest : List (GraphItem V)) where
  abbrev AreNan : List (RrdData V) → Type 0
  AreNan l = All (λ p. p.value ≡ special.nan) l

  AreNan-cons :
      (s w ts : ℤ) (l : List (RrdData V))
      → AreNan l
      → AreNan (cons_window F special (pos k) s w (point F special (pos k) ts special.nan) l)
  AreNan-cons s w ts l h = elim (Bool-cases (in_window F special (pos k) s w ts)) [
    | inl t ↦ rw (t, All) (refl, h)
    | inr f ↦ rw (f, All) h
  ]

  module _ (s w : ℤ) (e : ℕ) (small : e + k < 2 ^ 63) where
    -- As long as the first item is passed over it stays the first, and nothing is found.
    rate_loop-AreNan :
        (n t : ℕ)
        → 1 ≤ n
        → suc e < n + t
        → ((m : ℕ) → t ≤ m → is_rate F special (pos k) (pos m) (x ∷ y ∷ rest) ≡ false)
        → (l : List (RrdData V)) × (rate_loop F special (pos k) s w (pos e) n (pos t) (x ∷ y ∷ rest)
            ≡ some l)
          × AreNan l
    unfolding rate_loop
    rate_loop-AreNan zero t o h none_here = absurd (omega arith)
    rate_loop-AreNan (suc n) t o h none_here = elim (Bool-cases (ltb_ℤ (pos t) (pos e))) [
      | inr f ↦ ([], rw (f, rate_loop) refl, tt)
      | inl y' ↦
          let next : add64 (pos t) (pos k) ≡ pos (t + k) = add64-pos t k (ground arith) in
          let no = none_here t (omega arith) in
          let (l, q, a) =
            rate_loop-AreNan n (t + k) (ground arith) (omega arith)
              (λ m b. none_here m (omega arith)) in
          (
            cons_window F special (pos k) s w (point F special (pos k) (pos t) special.nan) l,
            rw (y', no, next, q, rate_loop) refl,
            AreNan-cons s w (pos t) l a,
          )
    ]

  abbrev AllNan : Option (List (RrdData V)) → Type 0
  AllNan o = (l : List (RrdData V)) × (o ≡ some l) × AreNan l

  no_rate :
      (u : ℕ)
      → x.timestamp ≡ pos u
      → eqb_ℤ x.timestamp (sub64 y.timestamp (pos k)) ≡ false
      → (m : ℕ) → is_rate F special (pos k) (pos m) (x ∷ y ∷ rest) ≡ false
  no_rate u at gap m = elim (Bool-cases (eqb_ℤ (pos m) x.timestamp)) [
    | inr f ↦ rw f refl
    | inl t ↦
        let same : pos m ≡ x.timestamp = ground (arith, t, at) in
        rw (t, ap (λ z. eqb_ℤ z (sub64 y.timestamp (pos k))) same ∙ gap) refl
  ]

  -- For a counter whose second cached item is not one step after the first, all cached points of
  -- Query are NaN, whatever items follow, for a positive step and times of the items below 2^62.
  pub cached_points-AreNan :
      (s w : ℤ) (ds_type : Text)
      → k < 2 ^ 62
      → (text_eq ds_type (codes "DERIVE") || text_eq ds_type (codes "COUNTER")) ≡ true
      → All HasTime (x ∷ y ∷ rest)
      → eqb_ℤ x.timestamp (sub64 y.timestamp (pos k)) ≡ false
      → (l : List (RrdData V)) × (cached_points F special (pos k) ds_type s w (x ∷ y ∷ rest)
          ≡ some l)
        × All (λ p. p.value ≡ special.nan) l
  unfolding cached_points
  cached_points-AreNan s w ds_type small d h gap =
      let (z, last, (e, ez, eb)) = back-total x (y ∷ rest) h in
      let (u, at, ub) = h.0 in
      let found : AllNan (
          rate_loop F special (pos k) s w (pos e) (rounds F special (pos k) (pos u) (pos e)) (pos u)
            (x ∷ y ∷ rest)) =
        rate_loop-AreNan s w e (omega arith) (rounds F special (pos k) (pos u) (pos e)) u
          (omega arith) (rounds-pos u e) (λ m b. no_rate u at gap m) in
      let (l, q, a) =
        subst
          (λ i. AllNan (
            rate_loop F special (pos k) s w z.timestamp (rounds F special (pos k) i z.timestamp) i
              (x ∷ y ∷ rest)))
          (sym at)
          (subst
            (λ i. AllNan (
              rate_loop F special (pos k) s w i (rounds F special (pos k) (pos u) i) (pos u)
                (x ∷ y ∷ rest)))
            (sym ez) found) in
      (l, rw (last, d, cached_points) q, a)
