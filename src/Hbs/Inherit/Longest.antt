-- ===== src/Hbs/Inherit/Longest.antt =====
-- modules/hbs/rpc/hbs.go: which buckets `CalcInheritStrategies` does not leave out.
use mathlib.Core.Path.{subst}
use falcon_plus_learn.Base.{
  Text, none, some, ℕ, suc, ◌==◌, ◌≡◌, ◌⊎◌, refl, sym, ap, ◌∙◌, true, List, [], ◌∷◌, arith,
  Bool-cases, inl, inr, Has,
}
use falcon_plus_learn.Base.Int.{ℤ, eqb_ℤ, eqb_ℤ_iff}
use falcon_plus_learn.Base.IntMap.{IntMap}
use falcon_plus_learn.Common.Model.{Template, Strategy}
use falcon_plus_learn.Hbs.Inherit.Override.{youngest}
use falcon_plus_learn.Hbs.Templates.{parent_ids}
use falcon_plus_learn.Hbs.Inherit.{
  slice_int_contains, slice_int_eq, slice_int_lt, is_valid, valid_buckets, uniq_tpl_buckets,
  tpl_buckets,
}

contains-Has : (l : List ℤ) (i : ℤ) → slice_int_contains l i ≡ true → Has i l
contains-Has [] i h = absurd (cc (h))
contains-Has (x ∷ l) i h = elim (Bool-cases (eqb_ℤ x i)) [
  | inl t ↦ inl (sym ((eqb_ℤ_iff x i).0 t))
  | inr f ↦ inr (contains-Has l i (ground (arith, h, f)))
]

slice_int_lt-Has : (a b : List ℤ) (i : ℤ) → slice_int_lt a b ≡ true → Has i a → Has i b
unfolding slice_int_lt
slice_int_lt-Has [] b i h k = absurd k
slice_int_lt-Has (x ∷ a) b i h (inl q) =
    subst (λ j. Has j b) (sym q) (contains-Has b x (ground (arith, h)))
slice_int_lt-Has (x ∷ a) b i h (inr k) = slice_int_lt-Has a b i (ground (arith, h)) k

slice_int_eq_same : (a : List ℤ) → slice_int_eq a a ≡ true
unfolding slice_int_eq
slice_int_eq_same [] = refl
slice_int_eq_same (x ∷ a) = ground (arith, eqb_ℤ_iff x x, slice_int_eq_same a)

-- Each bucket that has all the ids of this one is the same.
abbrev IsMaximal : List ℤ → List (List ℤ) → Type 0
IsMaximal bucket bs = (b : List ℤ) → Has b bs → ((i : ℤ) → Has i bucket → Has i b) → b ≡ bucket

is_valid-maximal :
    (i j : ℕ) (bucket : List ℤ) (bs : List (List ℤ))
    → IsMaximal bucket bs
    → is_valid i bucket j bs ≡ true
unfolding is_valid
is_valid-maximal i j bucket [] m = refl
is_valid-maximal i j bucket (b ∷ bs) m =
    let rest = is_valid-maximal i (suc j) bucket bs (λ c h. m c (inr h)) in
    elim (Bool-cases (i == j)) [
      | inl t ↦ rw t rest
      | inr f ↦ elim (Bool-cases (slice_int_eq bucket b)) [
        | inl e ↦ rw (f, e) refl
        | inr e ↦ elim (Bool-cases (slice_int_lt bucket b)) [
          | inl l ↦
              let q = m b (inl refl) (λ k h. slice_int_lt-Has bucket b k l h) in
              absurd (cc (e, slice_int_eq_same bucket, ap (slice_int_eq bucket) q))
          | inr l ↦ rw (f, e, l) rest
        ]
      ]
    ]

valid_buckets-Has :
    (i : ℕ) (bucket : List ℤ) (all bs : List (List ℤ))
    → IsMaximal bucket all
    → Has bucket bs
    → Has bucket (valid_buckets i all bs)
unfolding valid_buckets
valid_buckets-Has i bucket all [] m h = absurd h
valid_buckets-Has i bucket all (b ∷ bs) m (inl q) =
    rw (ap (λ c. is_valid i c 0 all) (sym q) ∙ is_valid-maximal i 0 bucket all m) (inl q)
valid_buckets-Has i bucket all (b ∷ bs) m (inr h) =
    let rest = valid_buckets-Has (suc i) bucket all bs m h in
    elim (Bool-cases (is_valid i b 0 all)) [ inl t ↦ rw t (inr rest) | inr f ↦ rw f rest ]

line-cases : (l : List ℤ) → (l ≡ []) ⊎ ((x : ℤ) × (xs : List ℤ) × (l ≡ x ∷ xs))
line-cases [] = inl refl
line-cases (x ∷ xs) = inr (x, xs, refl)

module _ (tpls : IntMap Template) where
  tpl_buckets-Has :
      (tids : List ℤ) (tid x : ℤ) (xs : List ℤ)
      → Has tid tids
      → parent_ids tpls tid ≡ x ∷ xs
      → Has (x ∷ xs) (tpl_buckets tpls tids)
  unfolding tpl_buckets
  tpl_buckets-Has [] tid x xs h e = absurd h
  tpl_buckets-Has (t ∷ tids) tid x xs (inl q) e =
      rw (ap (parent_ids tpls) (sym q) ∙ e, tpl_buckets) (inl refl)
  tpl_buckets-Has (t ∷ tids) tid x xs (inr h) e =
      let rest = tpl_buckets-Has tids tid x xs h e in
      elim (line-cases (parent_ids tpls t)) [
        | inl n ↦ rw (n, tpl_buckets) rest
        | inr (y, ys, n) ↦ rw (n, tpl_buckets) (inr rest)
      ]

  Has-tpl_buckets :
      (tids : List ℤ) (b : List ℤ)
      → Has b (tpl_buckets tpls tids)
      → (tid : ℤ) × Has tid tids × (parent_ids tpls tid ≡ b)
  unfolding tpl_buckets
  Has-tpl_buckets [] b h = absurd h
  Has-tpl_buckets (t ∷ tids) b h =
      let later : Has b (tpl_buckets tpls tids)
          → (tid : ℤ) × Has tid (t ∷ tids) × (parent_ids tpls tid ≡ b) =
        λ k. let (tid, g, e) = Has-tpl_buckets tids b k in (tid, inr g, e) in
      elim (line-cases (parent_ids tpls t)) [
        | inl n ↦ later (subst (Has b) (rw (n, tpl_buckets) refl) h)
        | inr (y, ys, n) ↦ elim (subst (Has b) (first t tids y ys n) h) [
          | inl q ↦ (t, inl refl, n ∙ sym q)
          | inr k ↦ later k
        ]
      ]
    where
      first :
          (t : ℤ) (tids : List ℤ) (y : ℤ) (ys : List ℤ)
          → parent_ids tpls t ≡ y ∷ ys
          → tpl_buckets tpls (t ∷ tids) ≡ (y ∷ ys) ∷ tpl_buckets tpls tids
      first t tids y ys n = rw (n, tpl_buckets) refl

  -- The line of the template is in no line of a template of the host but the same.
  abbrev pub IsLongest : List ℤ → ℤ → Type 0
  IsLongest tids tid =
      (j : ℤ)
      → Has j tids
      → ((i : ℤ) → Has i (parent_ids tpls tid) → Has i (parent_ids tpls j))
      → parent_ids tpls j ≡ parent_ids tpls tid

  -- Such a line is a bucket that is kept, if it is there.
  longest-Has :
      (tids : List ℤ) (tid x : ℤ) (xs : List ℤ)
      → Has tid tids
      → IsLongest tids tid
      → parent_ids tpls tid ≡ x ∷ xs
      → Has (parent_ids tpls tid) (uniq_tpl_buckets (tpl_buckets tpls tids))
  longest-Has tids tid x xs h m e =
      valid_buckets-Has 0 (parent_ids tpls tid) (tpl_buckets tpls tids) (tpl_buckets tpls tids)
        (λ b k sub.
          let (j, hj, q) = Has-tpl_buckets tids b k in
          sym q ∙ m j hj (λ i n. subst (Has i) (sym q) (sub i n)))
        (subst (λ l. Has l (tpl_buckets tpls tids)) (sym e) (tpl_buckets-Has tids tid x xs h e))

  -- The same of the line that has strategies.
  pub longest-InBuckets :
      {V : Type 0} (tpl2 : IntMap (List (Strategy V))) (tids : List ℤ) (tid : ℤ) (u : Text)
      (ss : List (Strategy V))
      → Has tid tids
      → IsLongest tids tid
      → youngest tpl2 u (parent_ids tpls tid) ≡ some ss
      → Has (parent_ids tpls tid) (uniq_tpl_buckets (tpl_buckets tpls tids))
  longest-InBuckets tpl2 tids tid u ss h m e = elim (line-cases (parent_ids tpls tid)) [
    | inl n ↦ let q : none ≡ some ss = ap (youngest tpl2 u) (sym n) ∙ e in absurd (cc (q))
    | inr (x, xs, n) ↦ longest-Has tids tid x xs h m n
  ]
