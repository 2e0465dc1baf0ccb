-- ===== src/Graph/Index.antt =====
-- modules/graph/index/{cache,index}.go: which items are in the index, and the type and step of a counter.
-- The answers of the database are arguments; the timed caches are maps of toolkits/cache.
pub mod Cached
use falcon_plus_learn.Base.{
  Text, text_eq, ℕ, Bool, true, false, Option, none, some, List, [], ◌∷◌, ◌++◌, get_elem?,
  if◌then◌else◌, ◌>>=◌,
}
use falcon_plus_learn.Base.Int.{ℤ, pos, ltb_ℤ}
use falcon_plus_learn.Base.Decimal.{split, fmt_int, atoi}
use falcon_plus_learn.Base.Map.{Map, lookup, insert, delete}
use falcon_plus_learn.Base.Containers.{SafeMap}
use falcon_plus_learn.Graph.LinkedList.{GraphItem, graph_uuid, graph_checksum}
use falcon_plus_learn.Graph.Store.{Files, GraphItemMap, pop_all_at}
use falcon_plus_learn.Graph.Keys.{form_rrd_cache_key}

pub record IndexCacheItem (V : Type 0) : Type 0 where
  pub uuid : Text
  pub item : GraphItem V

-- `IndexedItemCache` and `unIndexedItemCache`
pub record IndexCaches (V : Type 0) : Type 0 where
  pub indexed : Map (IndexCacheItem V)
  pub unindexed : Map (IndexCacheItem V)

-- The answer of a query for one row.
pub data Row (A : Type 0) : Type 0 where
  row : A → Row A
  no_row : Row A
  failed : Row A

module _ {V : Type 0} where
  unfoldable pub receive_item : Files V → GraphItem V → Text → IndexCaches V → IndexCaches V
  unfolding graph_uuid lookup insert text_eq
  receive_item files item md5 c =
      let entry : IndexCacheItem V = record { uuid = graph_uuid item; item = item } in
      let as_indexed = record c { indexed = insert md5 entry c.indexed } in
      let as_unindexed = record c { unindexed = insert md5 entry c.unindexed } in
      elim (lookup md5 c.indexed) [
        | some old ↦ if text_eq (graph_uuid item) old.uuid then as_indexed else as_unindexed
        | none ↦ if files.is_rrd_file_exist md5 item then as_indexed else as_unindexed
      ]

  -- `RemoveItem`, but for the file on the disk.
  unfoldable pub remove_item :
      (Text → ℕ)
      → (Text → Text)
      → GraphItem V
      → IndexCaches V
      → GraphItemMap V
      → Option (IndexCaches V × GraphItemMap V)
  unfolding graph_checksum form_rrd_cache_key delete pop_all_at
  remove_item hash_key md5_of item c s = do
    let md5 = graph_checksum md5_of item
    r ← pop_all_at hash_key (form_rrd_cache_key md5 item.ds_type item.step) s
    some (record { indexed = delete md5 c.indexed; unindexed = delete md5 c.unindexed }, r.1)

  -- One key of `updateIndexIncr`; `update` says whether the database took the item.
  unfoldable pub update_one : (GraphItem V → Bool) → Text → IndexCaches V → IndexCaches V
  unfolding lookup insert delete
  update_one update key c = elim (lookup key c.unindexed) [
    | none ↦ record c { unindexed = delete key c.unindexed }
    | some e ↦
        if update e.item
        then record { indexed = insert key e c.indexed; unindexed = delete key c.unindexed }
        else record c { unindexed = delete key c.unindexed }
  ]

  unfoldable pub update_keys : (GraphItem V → Bool) → List Text → IndexCaches V → IndexCaches V
  unfolding update_one
  update_keys update [] c = c
  update_keys update (k ∷ ks) c = update_keys update ks (update_one update k c)

module _ {M : Type 0} (S : SafeMap M ℤ) (query : Text → Row ℤ) where
  -- The id, if it is found, and the cache of ids after.
  unfoldable pub get_endpoint_from_cache : Text → M → Option ℤ × M
  get_endpoint_from_cache endpoint cache = elim (S.get endpoint cache) [
    | some id ↦ (some id, cache)
    | none ↦ elim (query endpoint) [
      | failed ↦ (none, cache)
      | no_row ↦ (none, cache)
      | row id ↦ if ltb_ℤ id (pos 0) then (none, cache) else (some id, S.put endpoint id cache)
    ]
  ]

abbrev pub type_and_step : List Text → Option (Option (Text × ℤ))
type_and_step arr = do
  ds_type ← get_elem? arr 0
  step ← get_elem? arr 1
  some (do n ← atoi step; some (ds_type, n))

abbrev pub counter_key : ℤ → Text → Text
counter_key endpoint_id counter = fmt_int endpoint_id ++ (b'-' ∷ counter)

module _ {N : Type 0} (S : SafeMap N Text) (query : ℤ → Text → Row (Text × ℤ)) where
  -- The type and the step, if they are found, and the cache after; a cached text without `_` is an
  -- index out of range.
  unfoldable pub get_counter_from_cache : ℤ → Text → N → Option (Option (Text × ℤ) × N)
  unfolding split atoi fmt_int
  get_counter_from_cache endpoint_id counter cache =
      let key = counter_key endpoint_id counter in
      elim (S.get key cache) [
        | some t ↦ do o ← type_and_step (split b'_' t); some (o, cache)
        | none ↦ elim (query endpoint_id counter) [
          | failed ↦ some (none, cache)
          | no_row ↦ some (none, cache)
          | row r ↦ some (some r, S.put key (r.0 ++ (b'_' ∷ fmt_int r.1)) cache)
        ]
      ]

-- `dbEndpointCache` and `dbEndpointCounterCache` with the queries behind them.
pub record Database (M N : Type 0) : Type 0 where
  pub endpoint_map : SafeMap M ℤ
  pub counter_map : SafeMap N Text
  pub query_endpoint : Text → Row ℤ
  pub query_counter : ℤ → Text → Row (Text × ℤ)

module _ {V M N : Type 0} (db : Database M N) (md5 : Text → Text) where
  unfoldable pub get_type_and_step :
      Text → Text → Map (IndexCacheItem V) → M × N → Option (Option (Text × ℤ) × (M × N))
  unfolding lookup get_endpoint_from_cache get_counter_from_cache
  get_type_and_step endpoint counter indexed (ids, counters) =
      elim (lookup (md5 (endpoint ++ (b'/' ∷ counter))) indexed) [
        | some e ↦ some (some (e.item.ds_type, e.item.step), (ids, counters))
        | none ↦
            let (found, ids') =
              get_endpoint_from_cache db.endpoint_map db.query_endpoint endpoint ids in
            elim found [
              | none ↦ some (none, (ids', counters))
              | some id ↦ do
                r ← get_counter_from_cache db.counter_map db.query_counter id counter counters
                some (r.0, (ids', r.1))
            ]
      ]
