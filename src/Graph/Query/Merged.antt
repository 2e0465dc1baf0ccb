-- ===== src/Graph/Query/Merged.antt =====
-- modules/graph/api/graph.go: the values of a response are a series in steps.
use mathlib.Core.Path.{subst}
use mathlib.Core.Logic.{◌⊎◌}
use falcon_plus_learn.Base.{
  ℕ, zero, suc, ◌+◌, ◌*◌, ◌^◌, ◌≤◌, ◌<◌, ◌==◌, ltb, ◌≡◌, refl, sym, ap, ◌∙◌, some, List, [], ◌∷◌,
  ◌++◌, if◌then◌else◌, arith, Bool-cases, inl, inr, All, Has, length, All-append,
}
use falcon_plus_learn.Base.Int.{ℤ, pos, ltb_ℤ, eqb_ℤ, eqb_ℤ_iff, add64, add64-pos}
use falcon_plus_learn.Base.Float.{Float}
use falcon_plus_learn.Graph.LinkedList.{GraphItem, back}
use falcon_plus_learn.Graph.Store.{set_elem}
use falcon_plus_learn.Graph.Api.{RrdData}
use falcon_plus_learn.Graph.Query.{
  Special, in_window, point, rounds, window_points, junction, junction_ts, missing_loop, place,
  merge, format,
}
use falcon_plus_learn.Graph.Query.Loops.{from_nat, rounds-pos, InWindow, missing_loop-total}

-- The points are a step of `k` apart, from `t` on.
abbrev pub IsSeries : {V : Type 0} → ℕ → ℕ → List (RrdData V) → Type 0
IsSeries t k [] = Unit
IsSeries t k (p ∷ l) = (p.timestamp ≡ pos t) × IsSeries (t + k) k l

-- The times of the items are from 0 to below 2^62.
abbrev pub HasTime : {V : Type 0} → GraphItem V → Type 0
HasTime x = (n : ℕ) × (x.timestamp ≡ pos n) × (n < 2 ^ 62)

pub back-total :
    {V : Type 0} (x : GraphItem V) (l : List (GraphItem V))
    → All HasTime (x ∷ l)
    → (y : GraphItem V) × (back (x ∷ l) ≡ some y) × HasTime y
unfolding back
back-total x [] h = (x, refl, h.0)
back-total x (z ∷ l) h = back-total z l h.1

All-set_elem :
    {A : Type 0} (P : A → Type 0) (i : ℕ) (x : A) (l : List A)
    → P x
    → All P l
    → All P (set_elem i x l)
unfolding set_elem
All-set_elem P i x [] p h = tt
All-set_elem P zero x (y ∷ l) p h = (p, h.1)
All-set_elem P (suc i) x (y ∷ l) p h = (h.0, All-set_elem P i x l p h.1)

module _ {V : Type 0} (F : Float V) (special : Special V) (k : ℕ) (step_pos : 1 ≤ k) where
  All-place :
      (P : RrdData V → Type 0) (size idx : ℕ) (cache merged : List (RrdData V))
      → All P cache
      → All P merged
      → All P (place F special (pos k) size idx cache merged)
  unfolding place
  All-place P size idx [] merged c m = m
  All-place P size idx (p ∷ cache) merged c m = elim (Bool-cases (ltb idx size)) [
    | inr f ↦ rw f (
        All-place P size (suc idx) cache (merged ++ (p ∷ [])) c.1
          (All-append P merged (p ∷ []) m (c.0, tt)))
    | inl t ↦ elim (Bool-cases (special.is_nan p.value)) [
      | inl n ↦ rw (t, n) (All-place P size (suc idx) cache merged c.1 m)
      | inr n ↦
          rw (t, n)
            (All-place P size (suc idx) cache (set_elem idx p merged) c.1
              (All-set_elem P idx p merged c.0 m))
    ]
  ]

  -- The loop that makes the result goes from step to step, and takes points only at their time.
  pub format-IsSeries :
      (P : RrdData V → Type 0) (n t : ℕ) (merged : List (RrdData V))
      → ((ts : ℤ) → P (point F special (pos k) ts special.nan))
      → n * k + t < 2 ^ 63
      → All P merged
      → IsSeries t k (format F special (pos k) n (pos t) merged)
        × (length (format F special (pos k) n (pos t) merged) ≡ n)
        × All P (format F special (pos k) n (pos t) merged)
  unfolding format
  format-IsSeries P zero t merged nan b h = (tt, refl, tt)
  format-IsSeries P (suc n) t [] nan b h =
      let next : add64 (pos t) (pos k) ≡ pos (t + k) = add64-pos t k (grind arith) in
      let (a, l, q) = format-IsSeries P n (t + k) [] nan (grind arith) tt in
      rw (next, format, IsSeries, All) ((refl, a), ap suc l, (nan (pos t), q))
  format-IsSeries P (suc n) t (p ∷ merged) nan b h =
      let next : add64 (pos t) (pos k) ≡ pos (t + k) = add64-pos t k (grind arith) in
      elim (Bool-cases (eqb_ℤ (pos t) p.timestamp)) [
        | inl e ↦
            let (a, l, q) = format-IsSeries P n (t + k) merged nan (grind arith) h.1 in
            rw (e, next, format, IsSeries, All)
              ((sym ((eqb_ℤ_iff (pos t) p.timestamp).0 e), a), ap suc l, (h.0, q))
        | inr e ↦
            let (a, l, q) = format-IsSeries P n (t + k) (p ∷ merged) nan (grind arith) h in
            rw (e, next, format, IsSeries, All) ((refl, a), ap suc l, (nan (pos t), q))
      ]

  abbrev FromTo : ℕ → ℕ → RrdData V → Type 0
  FromTo a b p = InWindow F special k step_pos (pos a) (pos b) p

  -- The time of the junction is in the window, and not after the first cached point.
  junction_ts-le :
      (a b t : ℕ) (datas : List (RrdData V))
      → a ≤ t
      → All (FromTo a b) datas
      → (j : ℕ) × (junction_ts F special (pos k) (pos t) datas ≡ pos j) × (j ≤ t)
  unfolding junction_ts
  junction_ts-le a b t [] h w = (t, refl, omega arith)
  junction_ts-le a b t (p ∷ l) h w =
      let (j, e, q) = junction_ts-le a b t l h w.1 in
      elim (Bool-cases (junction F special (pos k) (pos t) l == 0)) [
        | inr f ↦ (j, rw f e, q)
        | inl y ↦ elim (Bool-cases (ltb_ℤ p.timestamp (pos t))) [
          | inr f ↦ (t, rw (y, f) refl, omega arith)
          | inl z ↦
              let (n, same, _) = from_nat a p.timestamp (ground (arith, w.0)) in
              (n, rw (y, z) same, ground (arith, z, same))
        ]
      ]

  -- Where a point of the result comes from: it says that nothing is known, or it is one of the
  -- file or of the cached ones.
  abbrev pub Known : List (RrdData V) → List (RrdData V) → RrdData V → Type 0
  Known datas cache p = (p.value ≡ special.nan) ⊎ (Has p datas ⊎ Has p cache)

  All-Known :
      (P : RrdData V → Type 0) (l : List (RrdData V)) → ((p : RrdData V) → Has p l → P p) → All P l
  All-Known P [] f = tt
  All-Known P (p ∷ l) f = (f p (inl refl), All-Known P l (λ q h. f q (inr h)))

  pub All-map :
      (P Q : RrdData V → Type 0) (l : List (RrdData V))
      → ((p : RrdData V) → P p → Q p)
      → All P l
      → All Q l
  All-map P Q [] f h = tt
  All-map P Q (p ∷ l) f h = (f p h.0, All-map P Q l f h.1)

  pub Has-window :
      (s w : ℤ) (p : RrdData V) (l : List (RrdData V))
      → Has p (window_points F special (pos k) s w l)
      → Has p l
  unfolding window_points
  Has-window s w p [] h = h
  Has-window s w p (q ∷ l) h = elim (Bool-cases (in_window F special (pos k) s w q.timestamp)) [
    | inl t ↦
        elim (subst
          (λ b. Has p (
            if b
            then q ∷ window_points F special (pos k) s w l
            else window_points F special (pos k) s w l))
          t h) [ inl e ↦ inl e | inr m ↦ inr (Has-window s w p l m) ]
    | inr f ↦ inr (
        Has-window s w p l (
          subst
            (λ b. Has p (
              if b
              then q ∷ window_points F special (pos k) s w l
              else window_points F special (pos k) s w l))
            f h))
  ]

  pub merge-total :
      (a b : ℕ) (datas cache : List (RrdData V))
      → b + k < 2 ^ 63
      → All (FromTo a b) datas
      → All (FromTo a b) cache
      → (merged : List (RrdData V)) × (merge F special (pos k) datas cache ≡ some merged)
        × All (Known datas cache) merged
  unfolding merge
  merge-total a b datas [] small w c =
      (datas, refl, All-Known (Known datas []) datas (λ p h. inr (inl h)))
  merge-total a b datas (x ∷ cache) small w c =
      let (t, same, at) = from_nat a x.timestamp (ground (arith, c.0)) in
      let tb : t ≤ b = ground (arith, c.0, same) in
      let (j, e, jt) = junction_ts-le a b t datas at w in
      let je : junction_ts F special (pos k) x.timestamp datas ≡ pos j =
        ap (λ z. junction_ts F special (pos k) z datas) same ∙ e in
      let next : add64 (pos j) (pos k) ≡ pos (j + k) = add64-pos j k (omega arith) in
      let (fixed, q, nans) =
        missing_loop-total F special k step_pos t (omega arith)
          (rounds F special (pos k) (pos (j + k)) (pos t)) (j + k) (omega arith)
          (rounds-pos (j + k) t) in
      let fq : missing_loop F special (pos k) (rounds F special (pos k) (pos (j + k)) x.timestamp)
            (pos (j + k)) x.timestamp
          ≡ some fixed =
        ap
          (λ z.
            missing_loop F special (pos k) (rounds F special (pos k) (pos (j + k)) z) (pos (j + k))
              z)
          same
        ∙ q in
      (
        place F special (pos k) (length datas) (junction F special (pos k) x.timestamp datas)
            (x ∷ cache) (datas ++ fixed),
        rw (je, next, fq, merge) refl,
        All-place (Known datas (x ∷ cache)) (length datas)
            (junction F special (pos k) x.timestamp datas) (x ∷ cache) (datas ++ fixed)
            (All-Known (Known datas (x ∷ cache)) (x ∷ cache) (λ p h. inr (inr h)))
            (All-append (Known datas (x ∷ cache)) datas fixed
              (All-Known (Known datas (x ∷ cache)) datas (λ p h. inr (inl h)))
              (All-map (λ p. p.value ≡ special.nan) (Known datas (x ∷ cache)) fixed (λ p n. inl n)
                nans)),
      )
