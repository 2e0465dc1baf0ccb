-- ===== src/Hbs/Plugins/Rising.antt =====
-- modules/hbs/cache/plugins.go: sorted keys of a set of plugins.
use mathlib.Core.Path.{subst}
use mathlib.Core.Logic.{◌⊎◌}
use falcon_plus_learn.Base.{
  Text, text_eq, text_eq_iff, text_eq_refl, ◌≡◌, ◌↔◌, ◌≢◌, refl, sym, true, some, List, [], ◌∷◌,
  if◌then◌else◌, arith, Bool-cases, inl, inr, Has,
}
use falcon_plus_learn.Base.Map.{lookup, insert, lookup-insert}
use falcon_plus_learn.Common.Tags.{text_leb, insert_sorted, sort_strings}
use falcon_plus_learn.Common.Tags.Order.{text_leb-antisym, text_leb-total, text_leb_trans}
use falcon_plus_learn.Graph.Store.{keys_of}
use falcon_plus_learn.Judge.Store.Maps.{IsDistinct, insert-IsDistinct}
use falcon_plus_learn.Hbs.Plugins.{TextSet, add_all}

-- `x` is below every entry of the list.
abbrev Below : Text → List Text → Type 0
Below x [] = Unit
Below x (y ∷ l) = (text_leb x y ≡ true) × (x ≢ y) × Below x l

-- The list goes strictly up, so no entry is there twice.
abbrev pub IsRising : List Text → Type 0
IsRising [] = Unit
IsRising (x ∷ l) = Below x l × IsRising l

Below-insert :
    (x y : Text) (l : List Text)
    → text_leb x y ≡ true
    → x ≢ y
    → Below x l
    → Below x (insert_sorted y l)
unfolding insert_sorted
Below-insert x y [] h n b = (h, n, tt)
Below-insert x y (z ∷ l) h n b = elim (Bool-cases (text_leb y z)) [
  | inl t ↦ rw (t, Below) (h, n, b)
  | inr f ↦ rw (f, Below) (b.0, b.1, Below-insert x y l h n b.2)
]

Below-trans : (x y : Text) (l : List Text) → text_leb x y ≡ true → x ≢ y → Below y l → Below x l
Below-trans x y [] h n b = tt
Below-trans x y (z ∷ l) h n b = (
  text_leb_trans x y z h b.0,
  λ e. n (text_leb-antisym x y h (subst (λ (u : Text). text_leb y u ≡ true) (sym e) b.0)),
  Below-trans x y l h n b.2,
)

IsRising-insert : (x : Text) (l : List Text) → ¬ Has x l → IsRising l → IsRising (insert_sorted x l)
unfolding insert_sorted
IsRising-insert x [] n r = (tt, tt)
IsRising-insert x (y ∷ l) n r = elim (Bool-cases (text_leb x y)) [
  | inl t ↦ rw (t, IsRising) ((t, λ e. n (inl e), Below-trans x y l t (λ e. n (inl e)) r.0), r)
  | inr f ↦
      rw (f, IsRising)
        (
          Below-insert y x l (text_leb-total x y f) (λ e. n (inl (sym e))) r.0,
          IsRising-insert x l (λ h. n (inr h)) r.1,
        )
]

Has-insert : (z x : Text) (l : List Text) → Has z (insert_sorted x l) ↔ ((z ≡ x) ⊎ Has z l)
unfolding insert_sorted
Has-insert z x [] = (λ h. h, λ h. h)
Has-insert z x (y ∷ l) = elim (Bool-cases (text_leb x y)) [
  | inl t ↦ rw (t, Has) (λ h. h, λ h. h)
  | inr f ↦
      let (a, b) = Has-insert z x l in
      rw (f, Has)
        (
          λ h. elim h [
            | inl e ↦ inr (inl e)
            | inr k ↦ elim (a k) [ inl e ↦ inl e | inr m ↦ inr (inr m) ]
          ],
          λ h. elim h [
            | inl e ↦ inr (b (inl e))
            | inr k ↦ elim k [ inl e ↦ inl e | inr m ↦ inr (b (inr m)) ]
          ],
        )
]

pub Has-sort_strings : (z : Text) (l : List Text) → Has z (sort_strings l) ↔ Has z l
unfolding sort_strings
Has-sort_strings z [] = (λ h. h, λ h. h)
Has-sort_strings z (x ∷ l) =
    let (a, b) = Has-insert z x (sort_strings l) in
    let (c, d) = Has-sort_strings z l in
    (
      λ h. elim (a h) [ inl e ↦ inl e | inr k ↦ inr (c k) ],
      λ h. elim h [ inl e ↦ b (inl e) | inr k ↦ b (inr (d k)) ],
    )

-- A key is in a set exactly when it is among its keys.
pub Has-keys_of : (z : Text) (s : TextSet) → Has z (keys_of s) ↔ (lookup z s ≡ some tt)
unfolding lookup
Has-keys_of z [] = (λ h. absurd h, λ h. absurd (cc))
Has-keys_of z ((k, tt) ∷ s) =
    let (a, b) = Has-keys_of z s in
    elim (Bool-cases (text_eq k z)) [
      | inl t ↦ rw t (λ h. refl, λ h. inl (sym ((text_eq_iff k z).0 t)))
      | inr f ↦ rw f (
        λ h. elim h [ inl e ↦ absurd (ground (arith, e, text_eq_refl z)) | inr m ↦ a m ],
        λ h. inr (b h),
      )
    ]

pub sort-keys_of-IsRising : (s : TextSet) → IsDistinct s → IsRising (sort_strings (keys_of s))
unfolding sort_strings
sort-keys_of-IsRising [] d = tt
sort-keys_of-IsRising ((k, v) ∷ s) d =
    IsRising-insert k (sort_strings (keys_of s))
      (λ h. absurd (cc ((Has-keys_of k s).0 ((Has-sort_strings k (keys_of s)).0 h), d.0)))
      (sort-keys_of-IsRising s d.1)

pub add_all-IsDistinct : (ps : List Text) (s : TextSet) → IsDistinct s → IsDistinct (add_all ps s)
unfolding add_all
add_all-IsDistinct [] s d = d
add_all-IsDistinct (p ∷ ps) s d = add_all-IsDistinct ps (insert p tt s) (insert-IsDistinct p tt s d)

pub lookup-add_all :
    (z : Text) (ps : List Text) (s : TextSet)
    → (lookup z (add_all ps s) ≡ some tt) ↔ (Has z ps ⊎ (lookup z s ≡ some tt))
unfolding add_all
lookup-add_all z [] s = (λ h. inr h, λ h. elim h [ inl n ↦ absurd n | inr e ↦ e ])
lookup-add_all z (p ∷ ps) s =
    let (a, b) = lookup-add_all z ps (insert p tt s) in
    let put : lookup z (insert p tt s) ≡ (if text_eq p z then some tt else lookup z s) =
      lookup-insert p z tt s in
    (
      λ h. elim (a h) [
        | inl m ↦ inl (inr m)
        | inr e ↦ elim (Bool-cases (text_eq p z)) [
          | inl t ↦ inl (inl (sym ((text_eq_iff p z).0 t)))
          | inr f ↦ inr (ground (arith, e, put, f))
        ]
      ],
      λ h. elim h [
        | inl m ↦ elim m [
          | inl e ↦ b (inr (ground (arith, put, e, text_eq_refl p)))
          | inr k ↦ b (inl k)
        ]
        | inr e ↦ b (inr (ground (arith, put, e)))
      ],
    )
