-- ===== src/Graph/History.antt =====
-- modules/graph/store/history.go: the latest three items of each counter.
pub mod Latest
pub mod Cache
use falcon_plus_learn.Base.{Text, Bool, true, Option, none, some, List, [], if◌then◌else◌}
use falcon_plus_learn.Base.Int.{ℤ, pos, ltb_ℤ}
use falcon_plus_learn.Base.Containers.{SafeMap, ListLimited}
use falcon_plus_learn.Graph.LinkedList.{GraphItem}

module _ {V : Type 0} where
  -- `&cmodel.GraphItem{}`, with `zero` for 0.0
  abbrev pub empty_item : V → GraphItem V
  empty_item zero = record {
    endpoint = [];
    metric = [];
    tags = [];
    value = zero;
    timestamp = pos 0;
    ds_type = [];
    step = pos 0;
    heartbeat = pos 0;
    min = [];
    max = [];
  }

  -- Whether the item is the first one, or newer than the front.
  unfoldable pub is_newer : Option (GraphItem V) → GraphItem V → Bool
  is_newer none val = true
  is_newer (some x) val = ltb_ℤ x.timestamp val.timestamp

module _ {V M L : Type 0} (S : SafeMap M L) (Q : ListLimited L (GraphItem V)) where
  unfoldable pub get_last_item : V → Text → M → GraphItem V
  get_last_item zero key cache = elim (S.get key cache) [
    | none ↦ empty_item zero
    | some l ↦ elim (Q.front l) [ none ↦ empty_item zero | some x ↦ x ]
  ]

  unfoldable pub get_all_items : Text → M → List (GraphItem V)
  get_all_items key cache = elim (S.get key cache) [ none ↦ [] | some l ↦ Q.front_all l ]

  -- The list is shared by pointer, so what is pushed is stored under the key; an item that is not
  -- newer than the front is dropped.
  unfoldable pub add_to : Text → GraphItem V → L → M → M
  unfolding is_newer
  add_to key val l cache =
      if is_newer (Q.front l) val then S.put key (Q.push_front_violently val l) cache else cache

  -- A list of the limit 3 is made and put into the cache if the key is missing.
  unfoldable pub add_item : Text → GraphItem V → M → M
  add_item key val cache = elim (S.get key cache) [
    | none ↦ add_to key val (Q.new_list 3) (S.put key (Q.new_list 3) cache)
    | some l ↦ add_to key val l cache
  ]
