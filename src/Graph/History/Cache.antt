-- ===== src/Graph/History/Cache.antt =====
-- modules/graph/store/history.go: `AddItem` keeps the latest three items of each key.
use mathlib.Core.Path.{subst}
use falcon_plus_learn.Base.{
  Text, text_eq, text_eq_iff, text_eq_refl, ◌≤◌, ◌≡◌, refl, sym, ap, ◌∙◌, true, false, Option, none,
  some, List, [], ◌∷◌, length, take, if◌then◌else◌, arith, Bool-cases, Option-cases, inl, inr,
}
use falcon_plus_learn.Base.Containers.{SafeMap, IsSafeMap, ListLimited, IsListLimited, head_of}
use falcon_plus_learn.Graph.LinkedList.{GraphItem}
use falcon_plus_learn.Graph.History.{is_newer, get_all_items, add_to, add_item}
use falcon_plus_learn.Graph.History.Latest.{
  IsOrderedList, with_item, with_item-IsOrderedList, with_item-le,
}

module _ {V M L : Type 0} (S : SafeMap M L) (Q : ListLimited L (GraphItem V))
    (map_laws : IsSafeMap S) (list_laws : IsListLimited Q) where
  -- The list has the limit 3, and no more items than that, the latest first.
  pub record IsLatest (l : L) : Type 0 where
    pub limited : list_laws.limit l ≡ 3
    pub bounded : length (Q.front_all l) ≤ 3
    pub ordered : IsOrderedList (Q.front_all l)

  pub record IsCache (cache : M) : Type 0 where
    pub latest : (k : Text) (l : L) → S.get k cache ≡ some l → IsLatest l

  items_of : Option L → List (GraphItem V)
  items_of o = elim o [ none ↦ [] | some l ↦ Q.front_all l ]

  added : GraphItem V → L → L
  added val l = if is_newer (Q.front l) val then Q.push_front_violently val l else l

  front_all-added :
      (val : GraphItem V) (l : L)
      → IsLatest l
      → Q.front_all (added val l) ≡ with_item val (Q.front_all l)
  unfolding added
  front_all-added val l h =
      ap (λ o. Q.front_all (if is_newer o val then Q.push_front_violently val l else l))
        (list_laws.front_first l)
      ∙ elim (Bool-cases (is_newer (head_of (Q.front_all l)) val)) [
        | inl t ↦ rw t (
            list_laws.all-push val l (omega (arith, h.bounded, h.limited))
            ∙ ap (λ n. take n (val ∷ Q.front_all l)) h.limited)
        | inr f ↦ rw f refl
      ]

  limit-added : (val : GraphItem V) (l : L) → list_laws.limit (added val l) ≡ list_laws.limit l
  unfolding added
  limit-added val l = elim (Bool-cases (is_newer (Q.front l) val)) [
    | inl t ↦ rw t (list_laws.limit-push val l)
    | inr f ↦ rw f refl
  ]

  added-IsLatest : (val : GraphItem V) (l : L) → IsLatest l → IsLatest (added val l)
  added-IsLatest val l h = record {
    limited = limit-added val l ∙ h.limited;
    bounded = rw (front_all-added val l h) (with_item-le val (Q.front_all l) h.bounded);
    ordered = rw (front_all-added val l h) (with_item-IsOrderedList val (Q.front_all l) h.ordered);
  }

  new-IsLatest : IsLatest (Q.new_list 3)
  new-IsLatest = record {
    limited = list_laws.limit-new 3;
    bounded = rw (list_laws.all-new 3) (omega arith);
    ordered = rw (list_laws.all-new 3) tt;
  }

  put-IsCache :
      (k : Text) (l : L) (cache : M) → IsCache cache → IsLatest l → IsCache (S.put k l cache)
  put-IsCache k l cache c h = record {
    latest = λ j l' e. elim (Bool-cases (text_eq k j)) [
      | inl t ↦
          let q : some l ≡ some l' = rw (map_laws.get-put k j l cache, t) at e in
          subst (λ x. IsLatest x) (same q) h
      | inr f ↦ c.latest j l' (rw (map_laws.get-put k j l cache, f) at e)
    ];
  }
    where
      same : {x y : L} → ◌≡◌ {A = Option L} (some x) (some y) → x ≡ y
      same q = ground arith

  get_all_items-put :
      (k j : Text) (l : L) (cache : M)
      → get_all_items S Q j (S.put k l cache)
        ≡ (if text_eq k j then Q.front_all l else get_all_items S Q j cache)
  unfolding get_all_items items_of
  get_all_items-put k j l cache =
      ap items_of (map_laws.get-put k j l cache)
      ∙ elim (Bool-cases (text_eq k j)) [ inl t ↦ rw t refl | inr f ↦ rw f refl ]

  -- Another list under the key that its own list was replaced by, with the value added.
  replaced :
      (key : Text) (val : GraphItem V) (l : L) (cache cache' : M)
      → IsLatest l
      → IsCache cache
      → get_all_items S Q key cache ≡ Q.front_all l
      → cache' ≡ S.put key (added val l) cache
      → IsCache cache'
        × ((j : Text)
            → get_all_items S Q j cache' ≡ (
                if text_eq key j
                then with_item val (get_all_items S Q key cache)
                else get_all_items S Q j cache))
  replaced key val l cache cache' h c e q = (
    subst IsCache (sym q) (put-IsCache key (added val l) cache c (added-IsLatest val l h)),
    λ j.
        ap (get_all_items S Q j) q
        ∙ get_all_items-put key j (added val l) cache
        ∙ ap (λ r. if text_eq key j then r else get_all_items S Q j cache)
            (front_all-added val l h ∙ ap (with_item val) (sym e)),
  )

  -- With containers that keep to their interfaces, AddItem keeps a cache of at most three items
  -- for each key, the latest first: a newer item goes in front and the oldest beyond three is
  -- dropped, an older one changes nothing, no other key is touched.
  pub add_item-IsCache :
      (key : Text) (val : GraphItem V) (cache : M)
      → IsCache cache
      → IsCache (add_item S Q key val cache)
        × ((j : Text)
            → get_all_items S Q j (add_item S Q key val cache) ≡ (
                if text_eq key j
                then with_item val (get_all_items S Q key cache)
                else get_all_items S Q j cache))
  add_item-IsCache key val cache c = elim (Option-cases (S.get key cache)) [
    | inl n ↦
        let l = Q.new_list 3 in
        let cache' = S.put key l cache in
        let newer : is_newer (Q.front l) val ≡ true =
          ap (λ o. is_newer o val) (list_laws.front_first l ∙ ap head_of (list_laws.all-new 3))
          ∙ unfold is_newer in refl in
        let q : add_item S Q key val cache ≡ S.put key (added val l) cache' =
          reached n ∙ unfold add_to added in rw newer refl in
        let e : get_all_items S Q key cache' ≡ Q.front_all l =
          get_all_items-put key key l cache ∙ rw (text_eq_refl key) refl in
        let (g, v) =
          replaced key val l cache' (add_item S Q key val cache) new-IsLatest
            (put-IsCache key l cache c new-IsLatest) e q in
        (
          g,
          λ j. v j ∙ elim (Bool-cases (text_eq key j)) [
            | inl t ↦ rw t (ap (with_item val) (e ∙ list_laws.all-new 3 ∙ sym (nothing n)))
            | inr f ↦ rw f (get_all_items-put key j l cache ∙ rw f refl)
          ],
        )
    | inr (l, y) ↦ elim (Bool-cases (is_newer (Q.front l) val)) [
      | inl t ↦
          replaced key val l cache (add_item S Q key val cache) (c.latest key l y) c (held l y)
            (reached y ∙ unfold add_to added in rw t refl)
      | inr f ↦
          let q : add_item S Q key val cache ≡ cache = reached y ∙ unfold add_to in rw f refl in
          (
            subst IsCache (sym q) c,
            λ j. ap (get_all_items S Q j) q ∙ elim (Bool-cases (text_eq key j)) [
              | inl t ↦
                  rw t
                    (same_key j t ∙ held l y ∙ sym (kept l f) ∙ ap (with_item val) (sym (held l y)))
              | inr g ↦ rw g refl
            ],
          )
    ]
  ]
    where
      after : Option L → M
      after o = elim o [
        | none ↦ add_to S Q key val (Q.new_list 3) (S.put key (Q.new_list 3) cache)
        | some l ↦ add_to S Q key val l cache
      ]

      reached : {o : Option L} → S.get key cache ≡ o → add_item S Q key val cache ≡ after o
      reached e = unfold add_item in ap after e

      nothing : S.get key cache ≡ none → get_all_items S Q key cache ≡ []
      nothing n = unfold get_all_items items_of in ap items_of n

      held : (l : L) → S.get key cache ≡ some l → get_all_items S Q key cache ≡ Q.front_all l
      held l y = unfold get_all_items items_of in ap items_of y

      same_key :
          (j : Text)
          → text_eq key j ≡ true
          → get_all_items S Q j cache ≡ get_all_items S Q key cache
      same_key j t = ap (λ i. get_all_items S Q i cache) (sym ((text_eq_iff key j).0 t))

      kept :
          (l : L) → is_newer (Q.front l) val ≡ false → with_item val (Q.front_all l) ≡ Q.front_all l
      kept l f =
          let old : is_newer (head_of (Q.front_all l)) val ≡ false =
            ap (λ o. is_newer o val) (sym (list_laws.front_first l)) ∙ f in
          rw old refl
