-- ===== src/Graph/Query/Series.antt =====
-- modules/graph/api/graph.go: the merged points are a series, from points that are known.
use mathlib.Core.Path.{subst}
use native.Mathlib.Nat.{div-add-mod}
use falcon_plus_learn.Base.{
  Text, codes, text_eq, ℕ, suc, ◌+◌, ◌*◌, ◌-◌, ◌/◌, ◌^◌, ◌≤◌, ◌<◌, ◌≡◌, refl, sym, ap, ◌∙◌, ◌||◌,
  Option, some, List, [], ◌∷◌, if◌then◌else◌, arith, Bool-cases, inl, inr, All, length,
}
use falcon_plus_learn.Base.Int.{ℤ, pos, add64, add64-pos, sub64, sub64-pos}
use falcon_plus_learn.Base.Float.{Float}
use falcon_plus_learn.Graph.LinkedList.{GraphItem}
use falcon_plus_learn.Graph.Api.{RrdData}
use falcon_plus_learn.Graph.Query.{
  Special, rate_loop, point_loop, cached_points, rounds, window_points, format, ret_size,
  merged_values, quot64,
}
use falcon_plus_learn.Graph.Query.Loops.{
  rounds-pos, InWindow, point_loop-total, rate_loop-total, window_points-InWindow,
}
use falcon_plus_learn.Graph.Query.Merged.{
  IsSeries, HasTime, back-total, format-IsSeries, Known, All-map, Has-window, merge-total,
}

module _ {V : Type 0} (F : Float V) (special : Special V) (k : ℕ) (step_pos : 1 ≤ k) where
  -- A loop over the cached items, from the time of the first to that of the last.
  abbrev Ends : ℤ → ℤ → Option (List (RrdData V)) → Type 0
  Ends s w o = (l : List (RrdData V)) × (o ≡ some l) × All (InWindow F special k step_pos s w) l

  module _ (s w : ℤ) (t e : ℕ) (small : e + k < 2 ^ 63) (first last : ℤ) (at : first ≡ pos t)
      (end : last ≡ pos e) (items : List (GraphItem V)) where
    rate_loop-Ends :
        Ends s w
          (rate_loop F special (pos k) s w last (rounds F special (pos k) first last) first items)
    rate_loop-Ends =
        subst
          (λ z.
            Ends s w
              (rate_loop F special (pos k) s w last (rounds F special (pos k) z last) z items))
          (sym at)
          (subst
            (λ z. Ends s w (
              rate_loop F special (pos k) s w z (rounds F special (pos k) (pos t) z) (pos t) items))
            (sym end)
            (rate_loop-total F special k step_pos s w e small
              (rounds F special (pos k) (pos t) (pos e)) t items (omega arith) (rounds-pos t e)))

    point_loop-Ends :
        Ends s w
          (point_loop F special (pos k) s w last (rounds F special (pos k) first last) first items)
    point_loop-Ends =
        subst
          (λ z.
            Ends s w
              (point_loop F special (pos k) s w last (rounds F special (pos k) z last) z items))
          (sym at)
          (subst
            (λ z. Ends s w (
              point_loop F special (pos k) s w z (rounds F special (pos k) (pos t) z) (pos t)
                items))
            (sym end)
            (point_loop-total F special k step_pos s w e small
              (rounds F special (pos k) (pos t) (pos e)) t items (omega arith) (rounds-pos t e)))

  cached_points-Ends :
      (s w : ℤ) (ds_type : Text) (x : GraphItem V) (items : List (GraphItem V))
      → k < 2 ^ 62
      → All HasTime (x ∷ items)
      → Ends s w (cached_points F special (pos k) ds_type s w (x ∷ items))
  unfolding cached_points
  cached_points-Ends s w ds_type x items small h =
      let (y, last, (e, ey, eb)) = back-total x items h in
      let (t, tx, tb) = h.0 in
      let (r, rq, rw') =
        rate_loop-Ends s w t e (omega arith) x.timestamp y.timestamp tx ey (x ∷ items) in
      let (p, pq, pw) =
        point_loop-Ends s w t e (omega arith) x.timestamp y.timestamp tx ey (x ∷ items) in
      elim (Bool-cases (text_eq ds_type (codes "DERIVE") || text_eq ds_type (codes "COUNTER"))) [
        | inl d ↦ (r, rw (last, d, cached_points) rq, rw')
        | inr n ↦ elim (Bool-cases (text_eq ds_type (codes "GAUGE"))) [
          | inl g ↦ (p, rw (last, n, g, cached_points) pq, pw)
          | inr o ↦ ([], rw (last, n, o, cached_points) refl, tt)
        ]
      ]

  -- The number of points: one for each step of the window, and one more for a gauge.
  abbrev pub size_for : Text → ℕ → ℕ → ℕ
  size_for ds_type a b = if text_eq ds_type (codes "GAUGE") then suc ((b - a) / k) else (b - a) / k

  ret_size-pos :
      (ds_type : Text) (a b : ℕ)
      → a ≤ b
      → b < 2 ^ 62
      → ret_size F special (pos k) ds_type (pos a) (pos b) ≡ some (size_for ds_type a b)
  unfolding ret_size quot64
  ret_size-pos ds_type a b h r =
      let d : sub64 (pos b) (pos a) ≡ pos (b - a) = sub64-pos b a h (omega arith) in
      let zero_l : b - a + 0 ≡ b - a = omega arith in
      let zero_r : k + 0 ≡ k = omega arith in
      let one_more : add64 (pos ((b - a) / k)) (pos 1) ≡ pos (suc ((b - a) / k)) =
        add64-pos ((b - a) / k) 1 (grind (arith, div-add-mod (b - a) k)) ∙ ap pos (omega arith) in
      elim (Bool-cases (text_eq ds_type (codes "GAUGE"))) [
        | inl t ↦ rw (d, zero_l, zero_r, t, ret_size) (rw one_more refl)
        | inr f ↦ rw (d, zero_l, zero_r, f, ret_size) refl
      ]

  size_for-fits :
      (ds_type : Text) (a b : ℕ) → a ≤ b → b + k < 2 ^ 63 → size_for ds_type a b * k + a < 2 ^ 63
  size_for-fits ds_type a b h r = elim (Bool-cases (text_eq ds_type (codes "GAUGE"))) [
    | inl t ↦ rw t (grind (arith, div-add-mod (b - a) k))
    | inr f ↦ rw f (grind (arith, div-add-mod (b - a) k))
  ]

  -- For a positive step below 2^62, a window from a to b with a not above b below 2^62, and cached
  -- items, at least one, with times below 2^62, the merging part of Query returns a series from a
  -- on in whole steps, of (b - a) / step points and one more for a gauge; each point is NaN, or
  -- one of the file, or one of the cached points, which are computed too.
  pub merged_values-IsSeries :
      (a b : ℕ) (ds_type : Text) (datas : List (RrdData V)) (x : GraphItem V)
      (items : List (GraphItem V))
      → k < 2 ^ 62
      → a ≤ b
      → b < 2 ^ 62
      → All HasTime (x ∷ items)
      → (values : List (RrdData V)) × (cache : List (RrdData V)) × (merged_values F special
            (pos k)
            ds_type
            (pos a)
            (pos b)
            datas
            (x ∷ items)
          ≡ some values)
        × (cached_points F special (pos k) ds_type (pos a) (pos b) (x ∷ items) ≡ some cache)
        × IsSeries a k values
        × (length values ≡ size_for ds_type a b)
        × All (Known F special k step_pos datas cache) values
  unfolding merged_values
  merged_values-IsSeries a b ds_type datas x items small ab bb h =
      let (cache, cq, cw) = cached_points-Ends (pos a) (pos b) ds_type x items small h in
      let window = window_points F special (pos k) (pos a) (pos b) datas in
      let (merged, mq, mk) =
        merge-total F special k step_pos a b window cache (omega arith)
          (window_points-InWindow F special k step_pos (pos a) (pos b) datas) cw in
      let n = size_for ds_type a b in
      let (series, len, known) =
        format-IsSeries F special k step_pos (Known F special k step_pos window cache) n a merged
          (λ ts. inl refl) (size_for-fits ds_type a b ab (omega arith)) mk in
      (
        format F special (pos k) n (pos a) merged,
        cache,
        rw (cq, mq, ret_size-pos ds_type a b ab (omega arith), merged_values) refl,
        cq,
        series,
        len,
        All-map F special k step_pos (Known F special k step_pos window cache)
            (Known F special k step_pos datas cache) (format F special (pos k) n (pos a) merged)
            (λ p q. elim q [
              | inl e ↦ inl e
              | inr r ↦ elim r [
                | inl d ↦ inr (inl (Has-window F special k step_pos (pos a) (pos b) p datas d))
                | inr c ↦ inr (inr c)
              ]
            ])
            known,
      )
