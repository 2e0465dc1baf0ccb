-- ===== src/Judge/Store/Maps.antt =====
-- modules/judge/store/history.go: what `CleanStale` deletes from one map, and what it keeps.
use falcon_plus_learn.Base.{
  Text, text_eq, text_eq_iff, ◌≡◌, refl, sym, ap, ◌∙◌, Bool, false, Option, none, some, List, [],
  ◌∷◌, any, if◌then◌else◌, arith, Bool-cases, inl, inr,
}
use falcon_plus_learn.Base.Int.{ℤ}
use falcon_plus_learn.Base.Map.{Map, lookup, insert, delete, lookup-insert, lookup-delete}
use falcon_plus_learn.Common.Model.{JudgeItem}
use falcon_plus_learn.Judge.Store.{JudgeItemMap, batch_delete, is_outdated, stale_keys, clean_stale}

module _ {A : Type 0} where
  -- No two entries of the list have one key, as in a Go map.
  abbrev pub IsDistinct : Map A → Type 0
  IsDistinct [] = Unit
  IsDistinct ((k, v) ∷ m) = (lookup k m ≡ none) × IsDistinct m

  pub insert-IsDistinct : (k : Text) (v : A) (m : Map A) → IsDistinct m → IsDistinct (insert k v m)
  unfolding insert
  insert-IsDistinct k v [] h = (unfold lookup in refl, tt)
  insert-IsDistinct k v ((j, w) ∷ m) h = elim (Bool-cases (text_eq j k)) [
    | inl t ↦ rw t (ap (λ i. lookup i m) (sym ((text_eq_iff j k).0 t)) ∙ h.0, h.1)
    | inr f ↦ rw f (
      ground (arith, lookup-insert k j v m, text_eq_iff j k, text_eq_iff k j, h),
      insert-IsDistinct k v m h.1,
    )
  ]

  delete-IsDistinct : (k : Text) (m : Map A) → IsDistinct m → IsDistinct (delete k m)
  unfolding delete
  delete-IsDistinct k [] h = tt
  delete-IsDistinct k ((j, w) ∷ m) h = elim (Bool-cases (text_eq j k)) [
    | inl t ↦ rw t (delete-IsDistinct k m h.1)
    | inr f ↦ rw f (ground (arith, lookup-delete k j m, h), delete-IsDistinct k m h.1)
  ]

  batch_delete-IsDistinct :
      (ks : List Text) (m : Map A) → IsDistinct m → IsDistinct (batch_delete ks m)
  unfolding batch_delete
  batch_delete-IsDistinct [] m h = h
  batch_delete-IsDistinct (k ∷ ks) m h =
      batch_delete-IsDistinct ks (delete k m) (delete-IsDistinct k m h)

  lookup-batch_delete :
      (ks : List Text) (j : Text) (m : Map A)
      → lookup j (batch_delete ks m) ≡ (if any (λ k. text_eq k j) ks then none else lookup j m)
  unfolding batch_delete
  lookup-batch_delete [] j m = refl
  lookup-batch_delete (k ∷ ks) j m =
      ground (arith, lookup-batch_delete ks j (delete k m), lookup-delete k j m)

module _ {V : Type 0} (before : ℤ) where
  -- There is a list, it has a latest value, and that is older than `before`.
  abbrev pub is_old : Option (List (JudgeItem V)) → Bool
  is_old none = false
  is_old (some l) = is_outdated before l

  any-stale_keys :
      (j : Text) (m : JudgeItemMap V)
      → IsDistinct m
      → any (λ k. text_eq k j) (stale_keys before m) ≡ is_old (lookup j m)
  unfolding stale_keys lookup
  any-stale_keys j [] h = refl
  any-stale_keys j ((k, l) ∷ m) h =
      let rest = any-stale_keys j m h.1 in
      elim (Bool-cases (text_eq k j)) [
        | inl t ↦
            let gone : lookup j m ≡ none =
              ap (λ i. lookup i m) (sym ((text_eq_iff k j).0 t)) ∙ h.0 in
            elim (Bool-cases (is_outdated before l)) [
              | inl o ↦ rw (o, t) (sym o)
              | inr o ↦ rw (o, t) (rest ∙ ap is_old gone ∙ sym o)
            ]
        | inr f ↦ elim (Bool-cases (is_outdated before l)) [
          | inl o ↦ rw (o, f) rest
          | inr o ↦ rw (o, f) rest
        ]
      ]

  -- CleanStale of a map without duplicate keys deletes exactly the lists whose latest value is
  -- older than the given time, touches no other key, and leaves a map without duplicate keys.
  pub clean_stale_lem :
      (m : JudgeItemMap V)
      → IsDistinct m
      → ((j : Text)
          → lookup j (clean_stale before m) ≡ (if is_old (lookup j m) then none else lookup j m))
        × IsDistinct (clean_stale before m)
  unfolding clean_stale
  clean_stale_lem m h = (
    λ j.
        lookup-batch_delete (stale_keys before m) j m
        ∙ ap (λ b. if b then none else lookup j m) (any-stale_keys j m h),
    batch_delete-IsDistinct (stale_keys before m) m h,
  )
