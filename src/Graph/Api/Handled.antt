-- ===== src/Graph/Api/Handled.antt =====
-- modules/graph/api/graph.go: what `handleItems` keeps.
use mathlib.Core.Path.{subst}
use falcon_plus_learn.Base.{
  Text, text_eq, ◌≡◌, refl, sym, ap, ◌∙◌, Bool, true, false, not, ◌&&◌, Option, none, some, List,
  [], ◌∷◌, take, if◌then◌else◌, arith, Bool-cases, Option-cases, inl, inr,
}
use falcon_plus_learn.Base.Int.{◌<ℤ◌, ltb_ℤ}
use falcon_plus_learn.Base.Containers.{IsSafeMap, IsListLimited}
use falcon_plus_learn.Graph.LinkedList.{GraphItem, SafeLinkedList, front, graph_checksum}
use falcon_plus_learn.Graph.Store.{GraphItemMap, first}
use falcon_plus_learn.Graph.Store.View.{IsSized, view, get_lem}
use falcon_plus_learn.Graph.Store.Laws.{Changes, pushed_list, push_front_at_lem}
use falcon_plus_learn.Graph.History.{get_all_items, add_item}
use falcon_plus_learn.Graph.History.Latest.{with_item}
use falcon_plus_learn.Graph.History.{is_newer}
use falcon_plus_learn.Graph.History.Cache.{IsCache, add_item-IsCache}
use falcon_plus_learn.Graph.Index.{receive_item}
use falcon_plus_learn.Graph.Api.Indexed.{Indexes, receive_item-Indexes}
use falcon_plus_learn.Graph.Api.{
  Outside, GraphState, is_accepted, is_not_newer, key_of, handle_item, handle_items,
}

module _ {V : Type 0} where
  -- The items of a list are in strictly decreasing order of time.
  abbrev pub IsFalling : List (GraphItem V) → Type 0
  IsFalling [] = Unit
  IsFalling (x ∷ []) = Unit
  IsFalling (x ∷ y ∷ l) = (y.timestamp <ℤ x.timestamp) × IsFalling (y ∷ l)

  abbrev pub IsFallingList : Option (SafeLinkedList V) → Type 0
  IsFallingList none = Unit
  IsFallingList (some l) = IsFalling l.items

  abbrev pub newest : Option (SafeLinkedList V) → Option (GraphItem V)
  newest none = none
  newest (some l) = front l.items

module _ {V M L : Type 0} (out : Outside V M L) (map_laws : IsSafeMap out.history_map)
    (list_laws : IsListLimited out.history_list) where
  -- The buckets are there, each cached list goes back in time, and so do the latest three items.
  pub record IsGraph (s : GraphState V M) : Type 0 where
    pub sized : IsSized s.store
    pub falling : (k : Text) → IsFallingList (view out.hash_key k s.store)
    pub cached : IsCache out.history_map out.history_list map_laws list_laws s.history

  -- The item has a valid name and is newer than those of its key.
  abbrev pub is_taken : GraphItem V → GraphState V M → Bool
  is_taken item s =
      is_accepted out item
      && not (is_not_newer out (newest (view out.hash_key (key_of out item) s.store)) item)

  -- The latest three items of a digest after an item that is newer than them; another is dropped.
  abbrev pub latest_after : GraphItem V → List (GraphItem V) → List (GraphItem V)
  latest_after item [] = item ∷ []
  latest_after item (x ∷ l) =
      if ltb_ℤ x.timestamp item.timestamp then take 3 (item ∷ x ∷ l) else x ∷ l

  -- The lists and the latest items after: those of the item's key and digest, if it is taken, have
  -- it in front, and no others change.
  pub record Receives (item : GraphItem V) (s s' : GraphState V M) : Type 0 where
    pub lists :
        (k : Text)
        → view out.hash_key k s'.store ≡ (
            if is_taken item s && text_eq (key_of out item) k
            then some (
                pushed_list out.files item
                  (graph_checksum out.md5 item)
                  (view out.hash_key (key_of out item) s.store))
            else view out.hash_key k s.store)
    pub latest :
        (j : Text)
        → get_all_items out.history_map out.history_list j s'.history ≡ (
            if is_taken item s && text_eq (graph_checksum out.md5 item) j
            then latest_after item (
                get_all_items out.history_map out.history_list
                  (graph_checksum out.md5 item)
                  s.history)
            else get_all_items out.history_map out.history_list j s.history)
    pub index : Indexes out (is_taken item s) item s.index s'.index

  with_item_lem :
      (item : GraphItem V) (l : List (GraphItem V)) → with_item item l ≡ latest_after item l
  unfolding is_newer
  with_item_lem item [] = refl
  with_item_lem item (x ∷ l) = refl

  first_lem :
      (key : Text) (s : GraphItemMap V)
      → IsSized s
      → first out.hash_key key s ≡ some (newest (view out.hash_key key s))
  unfolding first
  first_lem key s h = elim (Option-cases (view out.hash_key key s)) [
    | inl n ↦ rw (get_lem out.hash_key key s h, n) refl
    | inr (l, y) ↦ rw (get_lem out.hash_key key s h, y) refl
  ]

  pushed-IsFalling :
      (item : GraphItem V) (md5 : Text) (o : Option (SafeLinkedList V))
      → is_not_newer out (newest o) item ≡ false
      → IsFallingList o
      → IsFalling (pushed_list out.files item md5 o).items
  unfolding front
  pushed-IsFalling item md5 none n h = tt
  pushed-IsFalling item md5 (some l) n h = on_top item l.items n h
    where
      on_top :
          (item : GraphItem V) (l : List (GraphItem V))
          → is_not_newer out (front l) item ≡ false
          → IsFalling l
          → IsFalling (item ∷ l)
      on_top item [] n h = tt
      on_top item (x ∷ l) n h = (ground (arith, n), h)

  kept : (item : GraphItem V) (s : GraphState V M) → is_taken item s ≡ false → Receives item s s
  kept item s n = record {
    lists = λ k. rw n refl;
    latest = λ j. rw n refl;
    index = record { known = λ j. rw n refl; waiting = λ j. rw n refl };
  }

  falling-Changes :
      (item : GraphItem V) (s : GraphState V M) (store : GraphItemMap V)
      → IsGraph s
      → is_not_newer out (newest (view out.hash_key (key_of out item) s.store)) item ≡ false
      → Changes out.hash_key
          (key_of out item)
          (some (
            pushed_list out.files item
              (graph_checksum out.md5 item)
              (view out.hash_key (key_of out item) s.store)))
          s.store
          store
      → (k : Text) → IsFallingList (view out.hash_key k store)
  falling-Changes item s store g n c k =
      let o = view out.hash_key (key_of out item) s.store in
      elim (Bool-cases (text_eq (key_of out item) k)) [
        | inl t ↦
            let e : view out.hash_key k store
                ≡ some (pushed_list out.files item (graph_checksum out.md5 item) o) =
              c.seen k ∙ rw t refl in
            subst IsFallingList (sym e) (
              pushed-IsFalling item (graph_checksum out.md5 item) o n (g.falling (key_of out item)))
        | inr f ↦
            let e : view out.hash_key k store ≡ view out.hash_key k s.store =
              c.seen k ∙ rw f refl in
            subst IsFallingList (sym e) (g.falling k)
      ]

  pub handle_item_lem :
      (item : GraphItem V) (s : GraphState V M)
      → IsGraph s
      → (s' : GraphState V M) × (handle_item out item s ≡ some s') × IsGraph s' × Receives item s s'
  unfolding handle_item
  handle_item_lem item s g = elim (Bool-cases (is_accepted out item)) [
    | inr r ↦ (s, rw (r, handle_item) refl, g, kept item s (rw r refl))
    | inl a ↦
        let key = key_of out item in
        let o = view out.hash_key key s.store in
        let f = first_lem key s.store g.sized in
        elim (Bool-cases (is_not_newer out (newest o) item)) [
          | inl old ↦ (s, rw (a, f, old, handle_item) refl, g, kept item s (rw (a, old) refl))
          | inr new ↦
              let md5 = graph_checksum out.md5 item in
              let (store, e, c) =
                push_front_at_lem out.hash_key out.files key item md5 s.store g.sized in
              let (h, l) =
                add_item-IsCache out.history_map out.history_list map_laws list_laws md5 item
                  s.history g.cached in
              let taken : is_taken item s ≡ true = rw (a, new) refl in
              (
                record {
                  store = store;
                  index = receive_item out.files item md5 s.index;
                  history = add_item out.history_map out.history_list md5 item s.history;
                },
                rw (a, f, new, e, handle_item) refl,
                record {
                  sized = c.sized;
                  falling = falling-Changes item s store g new c;
                  cached = h;
                },
                record {
                  lists = λ k. c.seen k ∙ rw taken refl;
                  latest = λ j.
                      l j
                      ∙ rw taken (
                          ap
                            (λ o.
                              if text_eq md5 j
                              then o
                              else get_all_items out.history_map out.history_list j s.history)
                            (with_item_lem item
                              (get_all_items out.history_map out.history_list md5 s.history)));
                  index = rw taken (receive_item-Indexes out item s.index);
                },
              )
        ]
  ]

  -- A run of handleItems over any items, nil ones among them, leads from a good state to a good state.
  pub handle_items-IsGraph :
      (items : List (Option (GraphItem V))) (s : GraphState V M)
      → IsGraph s
      → (s' : GraphState V M) × (handle_items out items s ≡ some s') × IsGraph s'
  unfolding handle_items
  handle_items-IsGraph [] s g = (s, refl, g)
  handle_items-IsGraph (none ∷ items) s g = handle_items-IsGraph items s g
  handle_items-IsGraph (some item ∷ items) s g =
      let (t, e, g', _) = handle_item_lem item s g in
      let (u, e', g'') = handle_items-IsGraph items t g' in (u, rw e e', g'')
