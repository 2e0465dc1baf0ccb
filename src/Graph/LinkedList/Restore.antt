-- ===== src/Graph/LinkedList/Restore.antt =====
-- modules/graph/store/linkedlist.go: items that were popped are put back where they were.
use mathlib.Core.List.{append-nil, append_assoc}
use falcon_plus_learn.Base.{
  ℕ, ◌≡◌, refl, sym, ap, ◌∙◌, Option, none, some, List, [], ◌∷◌, ◌++◌, ◌>>=◌, length, length-append,
  arith, suc,
}
use falcon_plus_learn.Graph.LinkedList.{
  GraphItem, SafeLinkedList, pop_back, pop_times, pop_all, push_back_all, push_all, fetch_from_back,
  fetch_all,
}

module _ {V : Type 0} where
  pop_back-append :
      (l : List (GraphItem V)) (x : GraphItem V) → pop_back (l ++ (x ∷ [])) ≡ (some x, l)
  unfolding pop_back
  pop_back-append [] x = refl
  pop_back-append (y ∷ []) x = refl
  pop_back-append (y ∷ z ∷ l) x = ap (λ r. (r.0, y ∷ r.1)) (pop_back-append (z ∷ l) x)

  pop_step :
      (n : ℕ) (x : GraphItem V) (l k : List (GraphItem V))
      (r : List (GraphItem V) × List (GraphItem V))
      → pop_back l ≡ (some x, k)
      → pop_times n k ≡ some r
      → pop_times (suc n) l ≡ some (x ∷ r.0, r.1)
  unfolding pop_times
  pop_step n x l k r p q = ap after p ∙ rw q refl
    where
      after :
          Option (GraphItem V) × List (GraphItem V)
          → Option (List (GraphItem V) × List (GraphItem V))
      after o = elim o.0 [ none ↦ none | some y ↦ do s ← pop_times n o.1; some (y ∷ s.0, s.1) ]

  pop_times_lem :
      (xs : List (GraphItem V)) → pop_times (length xs) (push_back_all xs []) ≡ some (xs, [])
  unfolding pop_times push_back_all
  pop_times_lem [] = refl
  pop_times_lem (x ∷ xs) =
      pop_step (length xs) x (push_back_all xs [] ++ (x ∷ [])) (push_back_all xs []) (xs, [])
        (pop_back-append (push_back_all xs []) x) (pop_times_lem xs)

  push_back_all-append :
      (xs ys l : List (GraphItem V))
      → push_back_all (xs ++ ys) l ≡ push_back_all xs (push_back_all ys l)
  unfolding push_back_all
  push_back_all-append [] ys l = refl
  push_back_all-append (x ∷ xs) ys l = ap (λ r. r ++ (x ∷ [])) (push_back_all-append xs ys l)

  push_back_all-fetch : (l k : List (GraphItem V)) → push_back_all (fetch_from_back l) k ≡ k ++ l
  unfolding fetch_from_back
  push_back_all-fetch [] k = unfold push_back_all in sym (append-nil k)
  push_back_all-fetch (x ∷ l) k =
      push_back_all-append (fetch_from_back l) (x ∷ []) k
      ∙ push_back_all-fetch l (push_back_all (x ∷ []) k)
      ∙ unfold push_back_all in append_assoc k (x ∷ []) l

  length-fetch : (l : List (GraphItem V)) → length (fetch_from_back l) ≡ length l
  unfolding fetch_from_back
  length-fetch [] = refl
  length-fetch (x ∷ l) = omega (arith, length-append (fetch_from_back l) (x ∷ []), length-fetch l)

  -- PopAll returns the items that FetchAll shows, the oldest first, and empties the list; PushAll
  -- of them, into a list that may have newer items, puts them behind those in their old order.
  pub push_all-pop_all :
      (l : SafeLinkedList V)
      → (pop_all l ≡ some ((fetch_all l).0, record l { items = [] }))
        × ((k : SafeLinkedList V)
            → push_all (fetch_all l).0 k ≡ record k { items = k.items ++ l.items })
  unfolding pop_all fetch_all push_all
  push_all-pop_all l = (
    ap (λ r. r >>= λ s. some (s.0, record l { items = s.1 })) popped,
    λ k. ap (λ r. record k { items = r }) (push_back_all-fetch l.items k.items),
  )
    where
      popped : pop_times (length l.items) l.items ≡ some (fetch_from_back l.items, [])
      popped =
          sym (
            ap (λ n. pop_times n (push_back_all (fetch_from_back l.items) []))
              (length-fetch l.items)
            ∙ ap (λ k. pop_times (length l.items) k) (push_back_all-fetch l.items []))
          ∙ pop_times_lem (fetch_from_back l.items)
