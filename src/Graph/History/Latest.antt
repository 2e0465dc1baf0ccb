-- ===== src/Graph/History/Latest.antt =====
-- modules/graph/store/history.go: a list of the latest items, in order.
use falcon_plus_learn.Base.{
  ◌≤◌, ◌≡◌, true, List, [], ◌∷◌, length, take, length-take, if◌then◌else◌, arith, Bool-cases, inl,
  inr, ℕ, zero, suc,
}
use falcon_plus_learn.Base.Int.{◌<ℤ◌}
use falcon_plus_learn.Base.Containers.{head_of}
use falcon_plus_learn.Graph.LinkedList.{GraphItem}
use falcon_plus_learn.Graph.History.{is_newer}

module _ {V : Type 0} where
  abbrev pub IsBefore : GraphItem V → List (GraphItem V) → Type 0
  IsBefore x [] = Unit
  IsBefore x (y ∷ l) = y.timestamp <ℤ x.timestamp

  -- The timestamps are strictly decreasing.
  abbrev pub IsOrderedList : List (GraphItem V) → Type 0
  IsOrderedList [] = Unit
  IsOrderedList (x ∷ l) = IsBefore x l × IsOrderedList l

  IsBefore-take :
      (x : GraphItem V) (n : ℕ) (l : List (GraphItem V)) → IsBefore x l → IsBefore x (take n l)
  IsBefore-take x zero l h = tt
  IsBefore-take x (suc n) [] h = tt
  IsBefore-take x (suc n) (y ∷ l) h = h

  IsOrderedList-take : (n : ℕ) (l : List (GraphItem V)) → IsOrderedList l → IsOrderedList (take n l)
  IsOrderedList-take zero l h = tt
  IsOrderedList-take (suc n) [] h = tt
  IsOrderedList-take (suc n) (x ∷ l) h = (IsBefore-take x n l h.0, IsOrderedList-take n l h.1)

  IsOrderedList-cons :
      (x : GraphItem V) (l : List (GraphItem V))
      → is_newer (head_of l) x ≡ true
      → IsOrderedList l
      → IsOrderedList (x ∷ l)
  unfolding is_newer
  IsOrderedList-cons x [] e h = (tt, tt)
  IsOrderedList-cons x (y ∷ l) e h = (ground arith, h)

  -- The items of a key after one was added.
  abbrev pub with_item : GraphItem V → List (GraphItem V) → List (GraphItem V)
  with_item val l = if is_newer (head_of l) val then take 3 (val ∷ l) else l

  pub with_item-IsOrderedList :
      (val : GraphItem V) (l : List (GraphItem V))
      → IsOrderedList l
      → IsOrderedList (with_item val l)
  with_item-IsOrderedList val l h = elim (Bool-cases (is_newer (head_of l) val)) [
    | inl t ↦ rw t (IsOrderedList-take 3 (val ∷ l) (IsOrderedList-cons val l t h))
    | inr f ↦ rw f h
  ]

  pub with_item-le :
      (val : GraphItem V) (l : List (GraphItem V)) → length l ≤ 3 → length (with_item val l) ≤ 3
  with_item-le val l h = elim (Bool-cases (is_newer (head_of l) val)) [
    | inl t ↦ rw t (omega (arith, length-take 3 (val ∷ l)))
    | inr f ↦ rw f h
  ]
