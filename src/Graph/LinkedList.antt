-- ===== src/Graph/LinkedList.antt =====
-- modules/graph/store/linkedlist.go and common/model/graph.go: the cached items of one counter, the
-- latest in front.
pub mod Restore
use falcon_plus_learn.Base.{
  Text, ℕ, zero, suc, ◌≡◌, refl, sym, ap, ◌∙◌, Option, none, some, List, [], ◌∷◌, ◌++◌, ◌>>=◌,
  length,
}
use mathlib.Core.List.{append-nil, append_assoc}
use falcon_plus_learn.Base.Int.{ℤ}
use falcon_plus_learn.Base.Map.{Map}
use falcon_plus_learn.Common.Tags.{pk, checksum, uuid}

pub record GraphItem (V : Type 0) : Type 0 where
  pub endpoint : Text
  pub metric : Text
  pub tags : Map Text
  pub value : V
  pub timestamp : ℤ
  pub ds_type : Text
  pub step : ℤ
  pub heartbeat : ℤ
  pub min : Text
  pub max : Text

module _ {V : Type 0} where
  unfoldable pub graph_primary_key : GraphItem V → Text
  unfolding pk
  graph_primary_key item = pk item.endpoint item.metric item.tags

  unfoldable pub graph_checksum : (Text → Text) → GraphItem V → Text
  unfolding checksum
  graph_checksum md5 item = checksum md5 item.endpoint item.metric item.tags

  unfoldable pub graph_uuid : GraphItem V → Text
  unfolding uuid
  graph_uuid item = uuid item.endpoint item.metric item.tags item.ds_type item.step

-- `Flag` and the list, front first.
pub record SafeLinkedList (V : Type 0) : Type 0 where
  pub flag : ℕ
  pub items : List (GraphItem V)

module _ {V : Type 0} where
  abbrev pub new_safe_linked_list : SafeLinkedList V
  new_safe_linked_list = record { flag = 0; items = [] }

  unfoldable pub push_front : GraphItem V → SafeLinkedList V → SafeLinkedList V
  push_front v l = record l { items = v ∷ l.items }

  unfoldable pub front : List (GraphItem V) → Option (GraphItem V)
  front [] = none
  front (x ∷ l) = some x

  -- The element at the back, and the list without it.
  unfoldable pub pop_back : List (GraphItem V) → Option (GraphItem V) × List (GraphItem V)
  pop_back [] = (none, [])
  pop_back (x ∷ []) = (some x, [])
  pop_back (x ∷ y ∷ l) = let r = pop_back (y ∷ l) in (r.0, x ∷ r.1)

  unfoldable pub back : List (GraphItem V) → Option (GraphItem V)
  back [] = none
  back (x ∷ []) = some x
  back (x ∷ y ∷ l) = back (y ∷ l)

  -- The loop of `PopAll`, for a number of rounds; reading the value of a missing element panics.
  unfoldable pub pop_times :
      ℕ → List (GraphItem V) → Option (List (GraphItem V) × List (GraphItem V))
  unfolding pop_back
  pop_times zero l = some ([], l)
  pop_times (suc n) l =
      let r = pop_back l in
      elim r.0 [ none ↦ none | some x ↦ do s ← pop_times n r.1; some (x ∷ s.0, s.1) ]

  -- The items that are returned, and the list that is left.
  unfoldable pub pop_all : SafeLinkedList V → Option (List (GraphItem V) × SafeLinkedList V)
  unfolding pop_times
  pop_all l = do r ← pop_times (length l.items) l.items; some (r.0, record l { items = r.1 })

  -- The loop of `PushAll`, from the last item to the first; each is put at the back.
  unfoldable pub push_back_all : List (GraphItem V) → List (GraphItem V) → List (GraphItem V)
  push_back_all [] l = l
  push_back_all (x ∷ xs) l = push_back_all xs l ++ (x ∷ [])

  unfoldable pub push_all : List (GraphItem V) → SafeLinkedList V → SafeLinkedList V
  unfolding push_back_all
  push_all xs l = record l { items = push_back_all xs l.items }

  -- From the back to the front.
  unfoldable pub fetch_from_back : List (GraphItem V) → List (GraphItem V)
  fetch_from_back [] = []
  fetch_from_back (x ∷ l) = fetch_from_back l ++ (x ∷ [])

  unfoldable pub fetch_all : SafeLinkedList V → List (GraphItem V) × ℕ
  unfolding fetch_from_back
  fetch_all l = (fetch_from_back l.items, l.flag)
