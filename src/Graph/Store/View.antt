-- ===== src/Graph/Store/View.antt =====
-- modules/graph/store/store.go: the buckets as one map from keys to lists.
use falcon_plus_learn.Base.{
  Text, text_eq, text_eq_iff, ℕ, zero, suc, ◌%◌, ◌<◌, ◌==◌, ◌≡◌, refl, sym, ap, ◌∙◌, false, Option,
  some, List, [], ◌∷◌, length, get_elem?, if◌then◌else◌, ◌>>=◌, arith, Bool-cases, inl, inr,
}
use falcon_plus_learn.Base.Map.{Map, lookup}
use falcon_plus_learn.Graph.LinkedList.{SafeLinkedList}
use falcon_plus_learn.Graph.Store.{GraphItemMap, set_elem, index_of, bucket_at, store_bucket, get}

module _ {A : Type 0} where
  length-set_elem : (i : ℕ) (x : A) (l : List A) → length (set_elem i x l) ≡ length l
  unfolding set_elem
  length-set_elem i x [] = refl
  length-set_elem zero x (y ∷ l) = refl
  length-set_elem (suc i) x (y ∷ l) = omega (arith, length-set_elem i x l)

  pub get_elem?-set_elem :
      (i j : ℕ) (x : A) (l : List A)
      → i < length l
      → get_elem? (set_elem i x l) j ≡ (if i == j then some x else get_elem? l j)
  unfolding set_elem
  get_elem?-set_elem i j x [] h = absurd (omega arith)
  get_elem?-set_elem zero zero x (y ∷ l) h = refl
  get_elem?-set_elem zero (suc j) x (y ∷ l) h = ground arith
  get_elem?-set_elem (suc i) zero x (y ∷ l) h = ground arith
  get_elem?-set_elem (suc i) (suc j) x (y ∷ l) h =
      ground (arith, get_elem?-set_elem i j x l (omega arith))

  get_elem?-total : (i : ℕ) (l : List A) → i < length l → (x : A) × (get_elem? l i ≡ some x)
  get_elem?-total i [] h = absurd (omega arith)
  get_elem?-total zero (x ∷ l) h = (x, refl)
  get_elem?-total (suc i) (x ∷ l) h = get_elem?-total i l (omega arith)

module _ {V : Type 0} where
  -- There are as many buckets as the size says, and at least one.
  pub record IsSized (s : GraphItemMap V) : Type 0 where
    pub buckets : length s.a ≡ s.size
    pub some_bucket : 0 < s.size

module _ {V : Type 0} (hash_key : Text → ℕ) where
  -- The list that the map holds for a key, none if there is no such key.
  abbrev pub view : Text → GraphItemMap V → Option (SafeLinkedList V)
  view key s = do m ← get_elem? s.a (hash_key key % s.size); lookup key m

  index_of-sized :
      (key : Text) (s : GraphItemMap V)
      → IsSized s
      → index_of hash_key key s ≡ some (hash_key key % s.size)
  unfolding index_of
  index_of-sized key s h =
      let no : (s.size == 0) ≡ false = ground (arith, h.some_bucket) in rw no refl

  in_range : (key : Text) (s : GraphItemMap V) → IsSized s → hash_key key % s.size < length s.a
  in_range key s h = omega (arith, h.buckets, h.some_bucket)

  pub bucket_at-total :
      (key : Text) (s : GraphItemMap V)
      → IsSized s
      → (m : Map (SafeLinkedList V)) × (bucket_at hash_key key s ≡ some m)
        × (get_elem? s.a (hash_key key % s.size) ≡ some m)
  unfolding bucket_at
  bucket_at-total key s h =
      let (m, e) = get_elem?-total (hash_key key % s.size) s.a (in_range key s h) in
      (m, rw (index_of-sized key s h) e, e)

  -- A getter sees the view, and does not panic.
  pub get_lem :
      (key : Text) (s : GraphItemMap V) → IsSized s → get hash_key key s ≡ some (view key s)
  unfolding get
  get_lem key s h = let (m, e, q) = bucket_at-total key s h in rw (e, q) refl

  -- A bucket that is replaced by one that differs from it at one key only, of that bucket.
  pub store_bucket_lem :
      (key : Text) (m m' : Map (SafeLinkedList V)) (o : Option (SafeLinkedList V))
      (s : GraphItemMap V)
      → IsSized s
      → get_elem? s.a (hash_key key % s.size) ≡ some m
      → ((k : Text) → lookup k m' ≡ (if text_eq key k then o else lookup k m))
      → (s' : GraphItemMap V) × (store_bucket hash_key key m' s ≡ some s')
        × IsSized s'
        × ((k : Text) → view k s' ≡ (if text_eq key k then o else view k s))
  unfolding store_bucket
  store_bucket_lem key m m' o s h e d = (
    record s { a = set_elem (hash_key key % s.size) m' s.a },
    rw (index_of-sized key s h) refl,
    record {
      buckets = length-set_elem (hash_key key % s.size) m' s.a ∙ h.buckets;
      some_bucket = h.some_bucket;
    },
    λ k.
        rw
          (get_elem?-set_elem (hash_key key % s.size) (hash_key k % s.size) m' s.a
            (in_range key s h))
          (seen k),
  )
    where
      apart :
          (k : Text)
          → ((hash_key key % s.size) == (hash_key k % s.size)) ≡ false
          → text_eq key k ≡ false
      apart k f = elim (Bool-cases (text_eq key k)) [
        | inl t ↦
            let same : hash_key key % s.size ≡ hash_key k % s.size =
              ap (λ i. hash_key i % s.size) ((text_eq_iff key k).0 t) in
            absurd (ground (arith, f))
        | inr n ↦ n
      ]

      seen :
          (k : Text)
          → (do
            n ←
                if (hash_key key % s.size) == (hash_key k % s.size)
                then some m'
                else get_elem? s.a (hash_key k % s.size)
            lookup k n)
            ≡ (if text_eq key k then o else view k s)
      seen k = elim (Bool-cases ((hash_key key % s.size) == (hash_key k % s.size))) [
        | inl t ↦
            let same : hash_key key % s.size ≡ hash_key k % s.size = ground arith in
            let here : get_elem? s.a (hash_key k % s.size) ≡ some m =
              ap (λ i. get_elem? s.a i) (sym same) ∙ e in
            rw (t, here) (d k)
        | inr f ↦ let other : text_eq key k ≡ false = apart k f in rw (f, other) refl
      ]
