-- ===== src/Graph/Store/Laws.antt =====
-- modules/graph/store/store.go: each operation in terms of one map from keys to lists.
use falcon_plus_learn.Base.{
  Text, text_eq, text_eq_iff, ℕ, ◌≡◌, refl, sym, ap, ◌∙◌, Bool, true, false, Option, none, some,
  List, [], ◌∷◌, if◌then◌else◌, ◌>>=◌, Bool-cases, Option-cases, inl, inr,
}
use mathlib.Core.Option
use falcon_plus_learn.Base.Map.{Map, lookup, insert, delete, lookup-insert, lookup-delete}
use falcon_plus_learn.Graph.LinkedList.{GraphItem, SafeLinkedList, push_front, push_all, fetch_all}
use falcon_plus_learn.Graph.LinkedList.Restore.{push_all-pop_all}
use falcon_plus_learn.Graph.Store.{
  GraphItemMap, Files, store_bucket, set, remove, push_all_at, pop_all_at, push_front_at, new_list,
}
use falcon_plus_learn.Graph.Store.View.{IsSized, view, bucket_at-total, get_lem, store_bucket_lem}

-- Whether there is a list.
abbrev pub is_there : {A : Type 0} → Option A → Bool
is_there none = false
is_there (some l) = true

module _ {V : Type 0} where
  -- The items of a list, the oldest first, and the list after they were popped.
  abbrev pub oldest_first : Option (SafeLinkedList V) → List (GraphItem V)
  oldest_first none = []
  oldest_first (some l) = (fetch_all l).0

  abbrev pub emptied : Option (SafeLinkedList V) → Option (SafeLinkedList V)
  emptied none = none
  emptied (some l) = some (record l { items = [] })

  -- The list of a key after an item was pushed.
  abbrev pub pushed_list :
      Files V → GraphItem V → Text → Option (SafeLinkedList V) → SafeLinkedList V
  pushed_list files item md5 none = new_list files item md5
  pushed_list files item md5 (some l) = record l { items = item ∷ l.items }

module _ {V : Type 0} (hash_key : Text → ℕ) where
  -- The map after a call has `o` for the key, and is as before for every other key.
  pub record Changes (key : Text) (o : Option (SafeLinkedList V)) (s s' : GraphItemMap V)
      : Type 0 where
    pub sized : IsSized s'
    pub seen : (k : Text) → view hash_key k s' ≡ (if text_eq key k then o else view hash_key k s)

  set_lem :
      (key : Text) (l : SafeLinkedList V) (s : GraphItemMap V)
      → IsSized s
      → (s' : GraphItemMap V) × (set hash_key key l s ≡ some s') × Changes key (some l) s s'
  unfolding set
  set_lem key l s h =
      let (m, e, q) = bucket_at-total hash_key key s h in
      let (s', r, h', v) =
        store_bucket_lem hash_key key m (insert key l m) (some l) s h q
          (λ k. lookup-insert key k l m) in
      (s', rw e r, record { sized = h'; seen = v })

  unchanged :
      (key : Text) (s : GraphItemMap V)
      → IsSized s
      → view hash_key key s ≡ none
      → Changes key none s s
  unchanged key s h e = record {
    sized = h;
    seen = λ k. elim (Bool-cases (text_eq key k)) [
      | inl t ↦ rw t (ap (λ i. view hash_key i s) (sym ((text_eq_iff key k).0 t)) ∙ e)
      | inr f ↦ rw f refl
    ];
  }

  -- GraphItemMap.PushFront, on a map with its buckets, returns; the list of the key is a new one
  -- with the item or has the item in front, and no other key is touched.
  pub push_front_at_lem :
      (files : Files V) (key : Text) (item : GraphItem V) (md5 : Text) (s : GraphItemMap V)
      → IsSized s
      → (s' : GraphItemMap V) × (push_front_at hash_key files key item md5 s ≡ some s')
        × Changes key (some (pushed_list files item md5 (view hash_key key s))) s s'
  unfolding push_front_at push_front
  push_front_at_lem files key item md5 s h = elim (Option-cases (view hash_key key s)) [
    | inl n ↦
        let (s', r, c) = set_lem key (new_list files item md5) s h in
        (s', rw (get_lem hash_key key s h, n) r, rw n c)
    | inr (l, y) ↦
        let (s', r, c) = set_lem key (record l { items = item ∷ l.items }) s h in
        (s', rw (get_lem hash_key key s h, y) r, rw y c)
  ]

  after_lookup :
      Text
      → Map (SafeLinkedList V)
      → GraphItemMap V
      → Option (SafeLinkedList V)
      → Option (Bool × GraphItemMap V)
  after_lookup key m s o = elim o [
    | none ↦ some (false, s)
    | some _ ↦ do s' ← store_bucket hash_key key (delete key m) s; some (true, s')
  ]

  -- On a map with its buckets GraphItemMap.Remove returns and reports whether the key was there;
  -- afterwards it is not, and no other key is touched.
  pub remove_lem :
      (key : Text) (s : GraphItemMap V)
      → IsSized s
      → (b : Bool) × (s' : GraphItemMap V) × (remove hash_key key s ≡ some (b, s'))
        × (b ≡ is_there (view hash_key key s))
        × Changes key none s s'
  unfolding remove after_lookup
  remove_lem key s h =
      let (m, e, q) = bucket_at-total hash_key key s h in
      elim (Option-cases (lookup key m)) [
        | inl n ↦
            let gone : view hash_key key s ≡ none = rw q n in
            (false, s, rw e (ap (after_lookup key m s) n), rw gone refl, unchanged key s h gone)
        | inr (l, y) ↦
            let (s', r, h', v) =
              store_bucket_lem hash_key key m (delete key m) none s h q
                (λ k. lookup-delete key k m) in
            let there : view hash_key key s ≡ some l = rw q y in
            (
              true,
              s',
              rw e (ap (after_lookup key m s) y ∙ rw r refl),
              rw there refl,
              record { sized = h'; seen = v },
            )
      ]

  -- On a map with its buckets GraphItemMap.PopAll returns the items of the key, the oldest first,
  -- and leaves an empty list of the same flag for it; no other key is touched.
  pub pop_all_at_lem :
      (key : Text) (s : GraphItemMap V)
      → IsSized s
      → (s' : GraphItemMap V) × (pop_all_at hash_key key s
          ≡ some (oldest_first (view hash_key key s), s'))
        × Changes key (emptied (view hash_key key s)) s s'
  unfolding pop_all_at
  pop_all_at_lem key s h = elim (Option-cases (view hash_key key s)) [
    | inl n ↦ (s, rw (get_lem hash_key key s h, n) refl, rw n (unchanged key s h n))
    | inr (l, y) ↦
        let (s', r, c) = set_lem key (record l { items = [] }) s h in
        (s', rw (get_lem hash_key key s h, y, (push_all-pop_all l).0) (rw r refl), rw y c)
  ]

  -- On a map with its buckets GraphItemMap.PushAll returns and puts the items behind those of the
  -- key, the last of them first; a missing key gives the error and changes nothing; no other key
  -- is touched.
  pub push_all_at_lem :
      (key : Text) (items : List (GraphItem V)) (s : GraphItemMap V)
      → IsSized s
      → (s' : GraphItemMap V) × (push_all_at hash_key key items s
          ≡ some (is_there (view hash_key key s), s'))
        × Changes key (Option.map (push_all items) (view hash_key key s)) s s'
  unfolding push_all_at
  push_all_at_lem key items s h = elim (Option-cases (view hash_key key s)) [
    | inl n ↦ (s, rw (get_lem hash_key key s h, n) refl, rw n (unchanged key s h n))
    | inr (l, y) ↦
        let (s', r, c) = set_lem key (push_all items l) s h in
        (s', rw (get_lem hash_key key s h, y) (rw r refl), rw y c)
  ]
