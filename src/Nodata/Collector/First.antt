-- ===== src/Nodata/Collector/First.antt =====
-- modules/nodata/collector/collector.go: the first item is the one that was collected last.
use mathlib.Core.Path.{subst}
use falcon_plus_learn.Base.{
  Text, text_eq, ◌≤◌, ◌≡◌, refl, sym, ap, ◌∙◌, Option, none, some, if◌then◌else◌, Bool-cases,
  Option-cases, inl, inr, arith, length, take, length-take, ◌∷◌,
}
use falcon_plus_learn.Base.Containers.{SafeMap, IsSafeMap, ListLimited, IsListLimited, head_of}
use falcon_plus_learn.Nodata.Collector.{DataItem, get_first_item, collect_item}

module _ {V M L : Type 0} (S : SafeMap M L) (Q : ListLimited L (DataItem V))
    (map_laws : IsSafeMap S) (list_laws : IsListLimited Q) where
  -- Each list has the limit 3, and no more items than that.
  pub record IsShort (l : L) : Type 0 where
    pub limited : list_laws.limit l ≡ 3
    pub bounded : length (Q.front_all l) ≤ 3

  pub record AreShort (m : M) : Type 0 where
    pub short : (k : Text) (l : L) → S.get k m ≡ some l → IsShort l

  new-IsShort : IsShort (Q.new_list 3)
  new-IsShort = record {
    limited = list_laws.limit-new 3;
    bounded = rw (list_laws.all-new 3) (omega arith);
  }

  all_pushed :
      (x : DataItem V) (l : L)
      → IsShort l
      → Q.front_all (Q.push_front_violently x l) ≡ take 3 (x ∷ Q.front_all l)
  all_pushed x l h =
      list_laws.all-push x l (omega (arith, h.bounded, h.limited))
      ∙ ap (λ n. take n (x ∷ Q.front_all l)) h.limited

  push-IsShort : (x : DataItem V) (l : L) → IsShort l → IsShort (Q.push_front_violently x l)
  push-IsShort x l h = record {
    limited = list_laws.limit-push x l ∙ h.limited;
    bounded = rw (all_pushed x l h) (omega (arith, length-take 3 (x ∷ Q.front_all l)));
  }

  first_pushed :
      (x : DataItem V) (l : L) → IsShort l → Q.front (Q.push_front_violently x l) ≡ some x
  first_pushed x l h =
      list_laws.front_first (Q.push_front_violently x l) ∙ ap head_of (all_pushed x l h)

  front_of : Option L → Option (DataItem V)
  front_of o = elim o [ none ↦ none | some l ↦ Q.front l ]

  pushed :
      (key : Text) (val : DataItem V) (l : L) (m m' : M)
      → AreShort m
      → IsShort l
      → m' ≡ S.put key (Q.push_front_violently val l) m
      → AreShort m'
        × ((j : Text)
            → get_first_item S Q j m'
              ≡ (if text_eq key j then some val else get_first_item S Q j m))
  unfolding get_first_item front_of
  pushed key val l m m' h s q = (
    subst AreShort (sym q)
        (record { short = λ j l' e. at_key j l' (map_laws.get-put key j l₁ m) e }),
    λ j.
        ap (get_first_item S Q j) q
        ∙ ap front_of (map_laws.get-put key j l₁ m)
        ∙ elim (Bool-cases (text_eq key j)) [
          | inl t ↦ rw t (first_pushed val l s)
          | inr f ↦ rw f refl
        ],
  )
    where
      l₁ : L
      l₁ = Q.push_front_violently val l

      same : {x y : L} → ◌≡◌ {A = Option L} (some x) (some y) → x ≡ y
      same e = ground arith

      at_key :
          (j : Text) (l' : L)
          → S.get j (S.put key l₁ m) ≡ (if text_eq key j then some l₁ else S.get j m)
          → S.get j (S.put key l₁ m) ≡ some l'
          → IsShort l'
      at_key j l' p e = elim (Bool-cases (text_eq key j)) [
        | inl t ↦ subst IsShort (same (sym (rw t at p) ∙ e)) (push-IsShort val l s)
        | inr f ↦ h.short j l' (sym (rw f at p) ∙ e)
      ]

  -- With containers that keep to their interfaces and lists of at most three items, after AddItem
  -- of the collector GetFirstItem of the key gives the new item and that of another key what it
  -- gave, and each list still has at most three items.
  pub collect_item-AreShort :
      (key : Text) (val : DataItem V) (m : M)
      → AreShort m
      → AreShort (collect_item S Q key val m)
        × ((j : Text)
            → get_first_item S Q j (collect_item S Q key val m)
              ≡ (if text_eq key j then some val else get_first_item S Q j m))
  collect_item-AreShort key val m h = elim (Option-cases (S.get key m)) [
    | inl n ↦ pushed key val (Q.new_list 3) m (collect_item S Q key val m) h new-IsShort (reached n)
    | inr (l, y) ↦ pushed key val l m (collect_item S Q key val m) h (h.short key l y) (reached y)
  ]
    where
      after : Option L → M
      after o = elim o [
        | none ↦ S.put key (Q.push_front_violently val (Q.new_list 3)) m
        | some l ↦ S.put key (Q.push_front_violently val l) m
      ]

      reached : {o : Option L} → S.get key m ≡ o → collect_item S Q key val m ≡ after o
      reached e = unfold collect_item in ap after e
