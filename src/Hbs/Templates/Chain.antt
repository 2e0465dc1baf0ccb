-- ===== src/Hbs/Templates/Chain.antt =====
-- modules/hbs/cache/strategies.go: `ParentIds` finds the whole line of ancestors, the oldest first, if
-- it has at most nine templates.
use mathlib.Core.Path.{subst}
use falcon_plus_learn.Base.{
  ℕ, zero, suc, ◌≤◌, ◌<◌, ◌≡◌, refl, sym, ap, ◌∙◌, true, false, Option, none, some, List, [], ◌∷◌,
  length, arith, Bool-cases, Option-cases, ◌⊎◌, inl, inr,
}
use falcon_plus_learn.Base.Int.{ℤ, pos, leb_ℤ}
use falcon_plus_learn.Base.IntMap.{IntMap, lookup_int}
use falcon_plus_learn.Common.Model.{Template}
use falcon_plus_learn.Hbs.Templates.{cons_some, climb, reversed, parent_ids}

-- `ids` are the template `tid`, its parent, the parent of that, and so on until an id that is not
-- positive or has no template.
pub data Line (tpls : IntMap Template) : ℤ → List ℤ → Type 0 where
  no_parent : (tid : ℤ) → leb_ℤ tid (pos 0) ≡ true → Line tpls tid []
  unknown : (tid : ℤ) → leb_ℤ tid (pos 0) ≡ false → lookup_int tid tpls ≡ none → Line tpls tid []
  up :
      (tid : ℤ) (t : Template) (ids : List ℤ)
      → leb_ℤ tid (pos 0) ≡ false
      → lookup_int tid tpls ≡ some t
      → Line tpls t.parent_id ids
      → Line tpls tid (tid ∷ ids)

module _ (tpls : IntMap Template) where
  -- What `n` rounds find of the line from `tid`.
  abbrev Found : ℤ → ℕ → Option (List ℤ) → Type 0
  Found tid n none = (ids : List ℤ) → Line tpls tid ids → n ≤ length ids
  Found tid n (some ids) = Line tpls tid ids × (length ids < n)

  same_parent :
      (t u : Template) (rest : List ℤ)
      → some t ≡ some u
      → Line tpls u.parent_id rest
      → Line tpls t.parent_id rest
  same_parent t u rest e l =
      let q : u ≡ t = cc in subst (λ (x : Template). Line tpls x.parent_id rest) q l

  -- A line that starts at a template goes up to its parent.
  up-Line :
      {tid : ℤ} {ids : List ℤ} (t : Template)
      → leb_ℤ tid (pos 0) ≡ false
      → lookup_int tid tpls ≡ some t
      → Line tpls tid ids
      → (rest : List ℤ) × (ids ≡ tid ∷ rest) × Line tpls t.parent_id rest
  up-Line t p y (Line.no_parent _ q) = absurd (cc)
  up-Line t p y (Line.unknown _ q n) = absurd (cc)
  up-Line t p y (Line.up _ u rest q z l) = (rest, refl, same_parent t u rest (sym y ∙ z) l)

  climb-Found-up :
      (n : ℕ) (tid : ℤ) (t : Template) (o : Option (List ℤ))
      → leb_ℤ tid (pos 0) ≡ false
      → lookup_int tid tpls ≡ some t
      → Found t.parent_id n o
      → Found tid (suc n) (cons_some tid o)
  climb-Found-up n tid t none p y f =
      λ ids l. let (rest, e, k) = up-Line t p y l in omega (arith, ap length e, f rest k)
  climb-Found-up n tid t (some ids) p y f = (Line.up tid t ids p y f.0, omega arith)

  climb-Found : (n : ℕ) (tid : ℤ) → Found tid n (climb n tpls tid)
  unfolding climb
  climb-Found zero tid = λ ids l. omega arith
  climb-Found (suc n) tid = elim (Bool-cases (leb_ℤ tid (pos 0))) [
    | inl e ↦ rw (e, Found, climb) (Line.no_parent tid e, omega arith)
    | inr e ↦ elim (Option-cases (lookup_int tid tpls)) [
      | inl y ↦ rw (e, y, Found, climb) (Line.unknown tid e y, omega arith)
      | inr (t, y) ↦
          rw (e, y, climb)
            (climb-Found-up n tid t (climb n tpls t.parent_id) e y (climb-Found n t.parent_id))
    ]
  ]

  from_Found :
      (tid : ℤ) (o : Option (List ℤ))
      → Found tid 10 o
      → ((ids : List ℤ) × Line tpls tid ids
          × (length ids ≤ 9)
          × ((elim o [ none ↦ [] | some l ↦ reversed l ]) ≡ reversed ids))
        ⊎ (((elim o [ none ↦ [] | some l ↦ reversed l ]) ≡ [])
            × ((ids : List ℤ) → Line tpls tid ids → 10 ≤ length ids))
  from_Found tid none f = inr (refl, f)
  from_Found tid (some ids) f = inl (ids, f.0, omega arith, refl)

  -- ParentIds gives the whole line of a template and its ancestors, the oldest first, if that line
  -- has at most nine templates; otherwise, as for a cycle, it gives none.
  pub parent_ids_lem :
      (tid : ℤ)
      → ((ids : List ℤ) × Line tpls tid ids
          × (length ids ≤ 9)
          × (parent_ids tpls tid ≡ reversed ids))
        ⊎ ((parent_ids tpls tid ≡ []) × ((ids : List ℤ) → Line tpls tid ids → 10 ≤ length ids))
  unfolding parent_ids
  parent_ids_lem tid = from_Found tid (climb 10 tpls tid) (climb-Found 10 tid)
