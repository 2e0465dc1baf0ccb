-- ===== src/Graph/Query/Gauge.antt =====
-- modules/graph/api/graph.go: the cached items of a gauge are all among the cached points.
use mathlib.Core.Path.{subst}
use falcon_plus_learn.Base.{
  codes, text_eq, ℕ, zero, suc, ◌+◌, ◌*◌, ◌^◌, ◌≤◌, ◌<◌, ◌≡◌, refl, sym, ap, ◌∙◌, true, false,
  Option, some, List, [], ◌∷◌, if◌then◌else◌, arith, Bool-cases, inl, inr, All, Has,
}
use falcon_plus_learn.Base.Int.{ℤ, pos, leb_ℤ, eqb_ℤ, add64, add64-pos}
use falcon_plus_learn.Base.Float.{Float}
use falcon_plus_learn.Graph.LinkedList.{GraphItem, back}
use falcon_plus_learn.Graph.Api.{RrdData}
use falcon_plus_learn.Graph.Query.{
  Special, in_window, is_point, point_value, point, cons_window, point_loop, rounds, cached_points,
}
use falcon_plus_learn.Graph.Query.Loops.{rounds-pos}

module _ {V : Type 0} (k e : ℕ) where
  -- The items go up in whole steps of `k`, from `t` at least and to `e` at most.
  abbrev pub IsGrid : ℕ → List (GraphItem V) → Type 0
  IsGrid t [] = Unit
  IsGrid t (x ∷ l) =
      (q : ℕ) × (x.timestamp ≡ pos (t + q * k)) × (t + q * k ≤ e) × IsGrid (t + q * k + k) l

module _ {V : Type 0} (F : Float V) (special : Special V) (k : ℕ) (step_pos : 1 ≤ k) where
  -- The value of the item of a time, NaN if there is none.
  abbrev pub value_at : ℤ → List (GraphItem V) → V
  value_at ts [] = special.nan
  value_at ts (x ∷ l) = if eqb_ℤ ts x.timestamp then x.value else value_at ts l

  module _ (e : ℕ) where
    value_at-before :
        (t u : ℕ) (l : List (GraphItem V))
        → u < t
        → IsGrid k e t l
        → value_at (pos u) l ≡ special.nan
    value_at-before t u [] b g = refl
    value_at-before t u (x ∷ l) b (q, at, le, g) =
        let away : eqb_ℤ (pos u) x.timestamp ≡ false = ground (arith, at) in
        rw away (value_at-before (t + q * k + k) u l (omega arith) g)

    Has-IsGrid :
        (t : ℕ) (x : GraphItem V) (l : List (GraphItem V))
        → IsGrid k e t l
        → Has x l
        → (n : ℕ) × (x.timestamp ≡ pos n) × (t ≤ n) × (n ≤ e)
    Has-IsGrid t x [] g h = absurd h
    Has-IsGrid t x (y ∷ l) (q, at, le, g) (inl m) =
        (t + q * k, ap (λ (z : GraphItem V). z.timestamp) m ∙ at, omega arith, le)
    Has-IsGrid t x (y ∷ l) (q, at, le, g) (inr h) =
        let (n, an, tn, ne) = Has-IsGrid (t + q * k + k) x l g h in (n, an, omega arith, ne)

  -- The point has a time from `t` on, and the value of the item of that time.
  abbrev pub IsRight : ℕ → List (GraphItem V) → RrdData V → Type 0
  IsRight t items p = (n : ℕ) × (p.timestamp ≡ pos n) × (t ≤ n) × (p.value ≡ value_at (pos n) items)

  abbrev pub Shows : ℤ → ℤ → List (GraphItem V) → List (RrdData V) → Type 0
  Shows s w items l =
      (x : GraphItem V)
      → Has x items
      → in_window F special (pos k) s w x.timestamp ≡ true
      → Has (point F special (pos k) x.timestamp x.value) l

  All-IsRight :
      (P Q : RrdData V → Type 0) (l : List (RrdData V))
      → ((p : RrdData V) → P p → Q p)
      → All P l
      → All Q l
  All-IsRight P Q [] f h = tt
  All-IsRight P Q (p ∷ l) f h = (f p h.0, All-IsRight P Q l f h.1)

  All-cons :
      (P : RrdData V → Type 0) (s w : ℤ) (p : RrdData V) (l : List (RrdData V))
      → P p
      → All P l
      → All P (cons_window F special (pos k) s w p l)
  All-cons P s w p l a h = elim (Bool-cases (in_window F special (pos k) s w p.timestamp)) [
    | inl t ↦ rw (t, All) (a, h)
    | inr f ↦ rw (f, All) h
  ]

  Has-cons :
      (s w : ℤ) (r p : RrdData V) (l : List (RrdData V))
      → Has r l
      → Has r (cons_window F special (pos k) s w p l)
  Has-cons s w r p l h = elim (Bool-cases (in_window F special (pos k) s w p.timestamp)) [
    | inl t ↦ rw (t, Has) (inr h)
    | inr f ↦ rw (f, Has) h
  ]

  module _ (s w : ℤ) (e : ℕ) (small : e + k < 2 ^ 63) where
    abbrev Found : ℕ → List (GraphItem V) → Option (List (RrdData V)) → Type 0
    Found t items o =
        (l : List (RrdData V)) × (o ≡ some l) × All (IsRight t items) l × Shows s w items l

    -- A round at the time of the first item.
    at_item :
        (n t : ℕ) (x : GraphItem V) (items : List (GraphItem V))
        → t ≤ e
        → x.timestamp ≡ pos t
        → Found (t + k) items (point_loop F special (pos k) s w (pos e) n (pos (t + k)) items)
        → Found t (x ∷ items) (point_loop F special (pos k) s w (pos e) (suc n) (pos t) (x ∷ items))
    unfolding point_loop
    at_item n t x items te at (l, q, a, b) =
        let le : leb_ℤ (pos t) (pos e) ≡ true = ground arith in
        let next : add64 (pos t) (pos k) ≡ pos (t + k) = add64-pos t k (omega arith) in
        let here : eqb_ℤ (pos t) x.timestamp ≡ true = ground (arith, at) in
        let p = point F special (pos k) (pos t) x.value in
        (
          cons_window F special (pos k) s w p l,
          rw (le, here, next, q, point_loop) refl,
          All-cons (IsRight t (x ∷ items)) s w p l (t, refl, omega arith, rw here refl)
              (All-IsRight (IsRight (t + k) items) (IsRight t (x ∷ items)) l
                (λ r (m, am, tm, vm).
                  let other : eqb_ℤ (pos m) x.timestamp ≡ false = ground (arith, at) in
                  (m, am, omega arith, rw other vm))
                a),
          λ z h v. elim h [
            | inr old ↦ Has-cons s w (point F special (pos k) z.timestamp z.value) p l (b z old v)
            | inl same ↦
                let zt : z.timestamp ≡ pos t = ap (λ (i : GraphItem V). i.timestamp) same ∙ at in
                let inside : in_window F special (pos k) s w (pos t) ≡ true =
                  ap (in_window F special (pos k) s w) (sym zt) ∙ v in
                rw (inside, Has) (inl (cc (zt, ap (λ (i : GraphItem V). i.value) same)))
          ],
        )

    -- A round at a time before the first item.
    before_item :
        (n t : ℕ) (items : List (GraphItem V))
        → t ≤ e
        → IsGrid k e (t + k) items
        → Found (t + k) items (point_loop F special (pos k) s w (pos e) n (pos (t + k)) items)
        → Found t items (point_loop F special (pos k) s w (pos e) (suc n) (pos t) items)
    unfolding point_loop
    before_item n t items te g (l, q, a, b) =
        let le : leb_ℤ (pos t) (pos e) ≡ true = ground arith in
        let next : add64 (pos t) (pos k) ≡ pos (t + k) = add64-pos t k (omega arith) in
        let (away, val) = not_here t items g in
        let p = point F special (pos k) (pos t) special.nan in
        (
          cons_window F special (pos k) s w p l,
          rw (le, away, val, next, q, point_loop) refl,
          All-cons (IsRight t items) s w p l
              (t, refl, omega arith, sym (value_at-before e (t + k) t items (omega arith) g))
              (All-IsRight (IsRight (t + k) items) (IsRight t items) l
                (λ r (m, am, tm, vm). (m, am, omega arith, vm)) a),
          λ z h v. Has-cons s w (point F special (pos k) z.timestamp z.value) p l (b z h v),
        )
      where
        not_here :
            (t : ℕ) (items : List (GraphItem V))
            → IsGrid k e (t + k) items
            → (is_point F special (pos k) (pos t) items ≡ false)
              × (point_value F special (pos k) (pos t) items ≡ special.nan)
        not_here t [] g = (refl, refl)
        not_here t (x ∷ items) (i, at, le, g) =
            let away : eqb_ℤ (pos t) x.timestamp ≡ false = grind (arith, at) in (away, rw away refl)

    grid_start :
        (t q : ℕ) (l : List (GraphItem V))
        → q ≡ 0
        → IsGrid k e (t + q * k + k) l
        → IsGrid k e (t + k) l
    grid_start t q l z g = subst (λ i. IsGrid k e i l) (grind (arith, z)) g

    later :
        (t q : ℕ) (x : GraphItem V) (l : List (GraphItem V))
        → x.timestamp ≡ pos (t + suc q * k)
        → t + suc q * k ≤ e
        → IsGrid k e (t + suc q * k + k) l
        → IsGrid k e (t + k) (x ∷ l)
    later t q x l at le g =
        let same : t + suc q * k ≡ t + k + q * k = grind arith in
        (q, at ∙ ap pos same, omega arith, subst (λ i. IsGrid k e (i + k) l) same g)

    point_loop-Found :
        (n t : ℕ) (items : List (GraphItem V))
        → 1 ≤ n
        → suc e < n + t
        → IsGrid k e t items
        → Found t items (point_loop F special (pos k) s w (pos e) n (pos t) items)
    unfolding point_loop
    point_loop-Found zero t items o h g = absurd (omega arith)
    point_loop-Found (suc n) t items o h g = elim (Bool-cases (leb_ℤ (pos t) (pos e))) [
      | inr f ↦ (
        [],
        rw (f, point_loop) refl,
        tt,
        λ x m v. let (i, at, ti, ie) = Has-IsGrid e t x items g m in absurd (ground (arith, f)),
      )
      | inl y ↦
          round n t items (ground arith) g
            (λ l gl. point_loop-Found n (t + k) l (ground arith) (omega arith) gl)
    ]
      where
        round :
            (n t : ℕ) (items : List (GraphItem V))
            → t ≤ e
            → IsGrid k e t items
            → ((l : List (GraphItem V))
                → IsGrid k e (t + k) l
                → Found (t + k) l (point_loop F special (pos k) s w (pos e) n (pos (t + k)) l))
            → Found t items (point_loop F special (pos k) s w (pos e) (suc n) (pos t) items)
        round n t [] te g rest = before_item n t [] te tt (rest [] tt)
        round n t (x ∷ l) te (zero, at, le, g) rest =
            let g' = grid_start t 0 l refl g in
            at_item n t x l te (at ∙ ap pos (omega arith)) (rest l g')
        round n t (x ∷ l) te (suc q, at, le, g) rest =
            let g' = later t q x l at le g in before_item n t (x ∷ l) te g' (rest (x ∷ l) g')

    -- For a gauge whose cached items go up in whole steps, the last of them at a time that is a
    -- step below 2^63, the cached points of Query are those of the items: each has the value of
    -- the item of its time, or NaN, and each item in the window has its point.
    pub cached_points-gauge :
        (t : ℕ) (x y : GraphItem V) (items : List (GraphItem V))
        → x.timestamp ≡ pos t
        → back (x ∷ items) ≡ some y
        → y.timestamp ≡ pos e
        → IsGrid k e t (x ∷ items)
        → (l : List (RrdData V)) × (cached_points F special (pos k) (codes "GAUGE") s w (x ∷ items)
            ≡ some l)
          × All (IsRight t (x ∷ items)) l
          × Shows s w (x ∷ items) l
    unfolding cached_points text_eq
    cached_points-gauge t x y items at last end g =
        let found =
          point_loop-Found (rounds F special (pos k) (pos t) (pos e)) t (x ∷ items) (omega arith)
            (rounds-pos t e) g in
        let (l, q, a, b) =
          subst
            (λ i. Found t (x ∷ items) (
              point_loop F special (pos k) s w y.timestamp (rounds F special (pos k) i y.timestamp)
                i (x ∷ items)))
            (sym at)
            (subst
              (λ i. Found t (x ∷ items) (
                point_loop F special (pos k) s w i (rounds F special (pos k) (pos t) i) (pos t)
                  (x ∷ items)))
              (sym end) found) in
        (l, rw (last, cached_points) q, a, b)
