-- ===== src/Graph/Tests.antt =====
-- Runs of modules/graph/store on concrete items.
pub mod Query
use falcon_plus_learn.Base.{
  Text, codes, text_eq, ℕ, ◌≡◌, refl, Bool, true, false, none, some, List, [], ◌∷◌, ◌++◌, length,
  take, arith, if◌then◌else◌,
}
use falcon_plus_learn.Base.Int.{ℤ, pos}
use falcon_plus_learn.Base.Map.{Map, lookup, insert, lookup-insert}
use falcon_plus_learn.Base.Containers.{SafeMap, IsSafeMap, ListLimited, IsListLimited, head_of}
use falcon_plus_learn.Graph.LinkedList.{GraphItem, SafeLinkedList, pop_all, push_all, fetch_all}
use falcon_plus_learn.Graph.LinkedList.Restore.{push_all-pop_all}
use falcon_plus_learn.Graph.Store.{
  GraphItemMap, Files, push_front_at, pop_all_at, push_all_at, remove,
}
use falcon_plus_learn.Graph.Store.View.{IsSized, view}
use falcon_plus_learn.Graph.Store.Laws.{
  Changes, pushed_list, is_there, oldest_first, emptied, push_front_at_lem, pop_all_at_lem,
  push_all_at_lem, remove_lem,
}
use falcon_plus_learn.Graph.History.{get_all_items, add_item}
use falcon_plus_learn.Graph.History.Latest.{with_item}
use falcon_plus_learn.Graph.History.Cache.{IsCache, add_item-IsCache}
use mathlib.Core.Option

abbrev pub item_at : ℤ → ℤ → GraphItem ℤ
item_at time value = record {
  endpoint = codes "h1";
  metric = codes "cpu";
  tags = [];
  value = value;
  timestamp = time;
  ds_type = codes "GAUGE";
  step = pos 60;
  heartbeat = pos 120;
  min = codes "U";
  max = codes "U";
}

abbrev two_cached : SafeLinkedList ℤ
two_cached = record { flag = 1; items = item_at (pos 120) (pos 4) ∷ item_at (pos 60) (pos 3) ∷ [] }

push_all-pop_all_example :
    (pop_all two_cached ≡ some ((fetch_all two_cached).0, record two_cached { items = [] }))
    × ((k : SafeLinkedList ℤ)
        → push_all (fetch_all two_cached).0 k ≡ record k { items = k.items ++ two_cached.items })
push_all-pop_all_example = push_all-pop_all two_cached

abbrev by_length : Text → ℕ
by_length key = length key

abbrev two_swapped : GraphItemMap ℤ
two_swapped = record { a = [] ∷ ((codes "k", two_cached) ∷ []) ∷ []; size = 2 }

two_swapped-IsSized : IsSized two_swapped
two_swapped-IsSized = record { buckets = refl; some_bucket = omega arith }

abbrev pub no_files : Files ℤ
no_files = record { migrate_enabled = true; is_rrd_file_exist = λ md5 item. false }

-- The containers as lists.
abbrev pub list_map : SafeMap (Map (ℕ × List (GraphItem ℤ))) (ℕ × List (GraphItem ℤ))
list_map = record { get = lookup; put = insert }

pub list_map-IsSafeMap : IsSafeMap list_map
list_map-IsSafeMap = record { get-put = λ k j x m. lookup-insert k j x m }

abbrev pub cut_list : ListLimited (ℕ × List (GraphItem ℤ)) (GraphItem ℤ)
cut_list = record {
  new_list = λ n. (n, []);
  front = λ l. head_of l.1;
  front_all = λ l. l.1;
  push_front_violently = λ x l. (l.0, take l.0 (x ∷ l.1));
}

pub cut_list-IsListLimited : IsListLimited cut_list
cut_list-IsListLimited = record {
  limit = λ l. l.0;
  limit-new = λ n. refl;
  limit-push = λ x l. refl;
  all-new = λ n. refl;
  front_first = λ l. refl;
  all-push = λ x l h. refl;
}

pub empty-IsCache : IsCache list_map cut_list list_map-IsSafeMap cut_list-IsListLimited []
empty-IsCache = record { latest = λ k l e. absurd (nothing k l e) }
  where
    nothing : (k : Text) (l : ℕ × List (GraphItem ℤ)) → lookup k [] ≡ some l → ⊥
    nothing k l e = unfold lookup in cc
