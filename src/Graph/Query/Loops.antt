-- ===== src/Graph/Query/Loops.antt =====
-- modules/graph/api/graph.go: the loops of `Query` end, and stay in the window.
use falcon_plus_learn.Base.{
  ℕ, zero, suc, ◌+◌, ◌^◌, ◌≤◌, ◌<◌, ◌≡◌, refl, true, some, List, [], ◌∷◌, arith, Bool-cases, inl,
  inr, All,
}
use falcon_plus_learn.Base.Int.{ℤ, pos, negsuc, pos_part, leb_ℤ, ltb_ℤ, add64, add64-pos, ◌-ℤ◌}
use falcon_plus_learn.Base.Float.{Float}
use falcon_plus_learn.Graph.LinkedList.{GraphItem}
use falcon_plus_learn.Graph.Api.{RrdData}
use falcon_plus_learn.Graph.Query.{
  Special, is_rate, rate_value, tail_if, is_point, point_value, in_window, point, cons_window,
  rate_loop, point_loop, missing_loop, window_points,
}

-- A time that is not before `a` is a natural number.
pub from_nat : (a : ℕ) (z : ℤ) → leb_ℤ (pos a) z ≡ true → (n : ℕ) × (z ≡ pos n) × (a ≤ n)
from_nat a (pos n) h = (n, refl, ground arith)
from_nat a (negsuc n) h = absurd (ground arith)

pub rounds-pos : (t e : ℕ) → suc e < suc (suc (pos_part (pos e -ℤ pos t))) + t
unfolding ◌-ℤ◌
rounds-pos t e = ground arith

module _ {V : Type 0} (F : Float V) (special : Special V) (k : ℕ) (step_pos : 1 ≤ k) where
  abbrev pub InWindow : ℤ → ℤ → RrdData V → Type 0
  InWindow s w p = in_window F special (pos k) s w p.timestamp ≡ true

  All-cons_window :
      (s w : ℤ) (p : RrdData V) (l : List (RrdData V))
      → All (InWindow s w) l
      → All (InWindow s w) (cons_window F special (pos k) s w p l)
  All-cons_window s w p l h = elim (Bool-cases (in_window F special (pos k) s w p.timestamp)) [
    | inl t ↦ rw (t, All) (t, h)
    | inr f ↦ rw (f, All) h
  ]

  module _ (s w : ℤ) (e : ℕ) (small : e + k < 2 ^ 63) where
    pub point_loop-total :
        (n t : ℕ) (items : List (GraphItem V))
        → 1 ≤ n
        → suc e < n + t
        → (l : List (RrdData V)) × (point_loop F special (pos k) s w (pos e) n (pos t) items
            ≡ some l)
          × All (InWindow s w) l
    unfolding point_loop
    point_loop-total zero t items o h = absurd (omega arith)
    point_loop-total (suc n) t items o h = elim (Bool-cases (leb_ℤ (pos t) (pos e))) [
      | inr f ↦ ([], rw (f, point_loop) refl, tt)
      | inl y ↦
          let next : add64 (pos t) (pos k) ≡ pos (t + k) = add64-pos t k (ground arith) in
          let rest = tail_if F special (pos k) (is_point F special (pos k) (pos t) items) items in
          let (l, q, a) = point_loop-total n (t + k) rest (ground arith) (omega arith) in
          (
            cons_window F special (pos k) s w
                (point F special (pos k) (pos t) (point_value F special (pos k) (pos t) items)) l,
            rw (y, next, q, point_loop) refl,
            All-cons_window s w
                (point F special (pos k) (pos t) (point_value F special (pos k) (pos t) items)) l a,
          )
    ]

    pub rate_loop-total :
        (n t : ℕ) (items : List (GraphItem V))
        → 1 ≤ n
        → suc e < n + t
        → (l : List (RrdData V)) × (rate_loop F special (pos k) s w (pos e) n (pos t) items
            ≡ some l)
          × All (InWindow s w) l
    unfolding rate_loop
    rate_loop-total zero t items o h = absurd (omega arith)
    rate_loop-total (suc n) t items o h = elim (Bool-cases (ltb_ℤ (pos t) (pos e))) [
      | inr f ↦ ([], rw (f, rate_loop) refl, tt)
      | inl y ↦
          let next : add64 (pos t) (pos k) ≡ pos (t + k) = add64-pos t k (ground arith) in
          let rest = tail_if F special (pos k) (is_rate F special (pos k) (pos t) items) items in
          let (l, q, a) = rate_loop-total n (t + k) rest (ground arith) (omega arith) in
          (
            cons_window F special (pos k) s w
                (point F special (pos k) (pos t) (rate_value F special (pos k) (pos t) items)) l,
            rw (y, next, q, rate_loop) refl,
            All-cons_window s w
                (point F special (pos k) (pos t) (rate_value F special (pos k) (pos t) items)) l a,
          )
    ]

  pub missing_loop-total :
      (e : ℕ)
      → e + k < 2 ^ 63
      → (n t : ℕ) → 1 ≤ n
      → suc e < n + t
      → (l : List (RrdData V)) × (missing_loop F special (pos k) n (pos t) (pos e) ≡ some l)
        × All (λ p. p.value ≡ special.nan) l
  unfolding missing_loop
  missing_loop-total e small zero t o h = absurd (omega arith)
  missing_loop-total e small (suc n) t o h = elim (Bool-cases (ltb_ℤ (pos t) (pos e))) [
    | inr f ↦ ([], rw (f, missing_loop) refl, tt)
    | inl y ↦
        let next : add64 (pos t) (pos k) ≡ pos (t + k) = add64-pos t k (ground arith) in
        let (l, q, a) = missing_loop-total e small n (t + k) (ground arith) (omega arith) in
        (
          point F special (pos k) (pos t) special.nan ∷ l,
          rw (y, next, q, missing_loop) refl,
          (refl, a),
        )
  ]

  pub window_points-InWindow :
      (s w : ℤ) (datas : List (RrdData V))
      → All (InWindow s w) (window_points F special (pos k) s w datas)
  unfolding window_points
  window_points-InWindow s w [] = tt
  window_points-InWindow s w (p ∷ l) =
      All-cons_window s w p (window_points F special (pos k) s w l) (window_points-InWindow s w l)
