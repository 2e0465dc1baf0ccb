-- ===== src/Graph/Api.antt =====
-- modules/graph/api/graph.go: the items that arrive, and the latest value of a counter.
pub mod Indexed
pub mod Handled
use falcon_plus_learn.Base.{
  Text, codes, text_eq, ℕ, Bool, true, false, not, ◌&&◌, ◌||◌, Option, none, some, List, [], ◌∷◌,
  ◌++◌, length, if◌then◌else◌, ◌>>=◌,
}
use falcon_plus_learn.Base.Int.{ℤ, pos, leb_ℤ, eqb_ℤ, sub64}
use falcon_plus_learn.Base.Float.{Float}
use falcon_plus_learn.Base.Map.{Map}
use falcon_plus_learn.Base.Containers.{SafeMap, ListLimited}
use falcon_plus_learn.Common.Tags.{counter, split_tags_string}
use falcon_plus_learn.Graph.LinkedList.{GraphItem, graph_checksum}
use falcon_plus_learn.Graph.Store.{Files, GraphItemMap, first, push_front_at}
use falcon_plus_learn.Graph.History.{get_last_item, get_all_items, add_item}
use falcon_plus_learn.Graph.Keys.{form_rrd_cache_key, is_valid_string}
use falcon_plus_learn.Graph.Index.{IndexCaches, receive_item, remove_item}

-- What the handler takes from elsewhere.
pub record Outside (V M L : Type 0) : Type 0 where
  pub hash_key : Text → ℕ  -- CRC32
  pub md5 : Text → Text
  pub runes : Text → List ℕ
  pub is_print : ℕ → Bool
  pub files : Files V
  pub history_map : SafeMap M L
  pub history_list : ListLimited L (GraphItem V)

pub record GraphState (V M : Type 0) : Type 0 where
  pub store : GraphItemMap V
  pub index : IndexCaches V
  pub history : M

pub record RrdData (V : Type 0) : Type 0 where
  pub timestamp : ℤ
  pub value : V

pub record GraphDeleteParam : Type 0 where
  pub endpoint : Text
  pub metric : Text
  pub step : ℤ
  pub ds_type : Text
  pub tags : Text

module _ {V M L : Type 0} (out : Outside V M L) where
  abbrev pub is_accepted : GraphItem V → Bool
  is_accepted item =
      is_valid_string out.runes out.is_print item.endpoint
      && is_valid_string out.runes out.is_print (counter item.metric item.tags)

  -- `first != nil && item.Timestamp <= first.Timestamp`
  abbrev pub is_not_newer : Option (GraphItem V) → GraphItem V → Bool
  is_not_newer none item = false
  is_not_newer (some x) item = leb_ℤ item.timestamp x.timestamp

  abbrev pub key_of : GraphItem V → Text
  key_of item = form_rrd_cache_key (graph_checksum out.md5 item) item.ds_type item.step

  -- One turn of the loop of `handleItems`.
  unfoldable pub handle_item : GraphItem V → GraphState V M → Option (GraphState V M)
  unfolding is_valid_string counter form_rrd_cache_key graph_checksum first push_front_at
      receive_item add_item
  handle_item item s = if not (is_accepted item) then some s else do
    f ← first out.hash_key (key_of item) s.store
    if is_not_newer f item then some s else do
      store ←
          push_front_at out.hash_key out.files (key_of item) item (graph_checksum out.md5 item)
            s.store
      some (record {
        store = store;
        index = receive_item out.files item (graph_checksum out.md5 item) s.index;
        history =
            add_item out.history_map out.history_list (graph_checksum out.md5 item) item s.history;
      })

  -- An item that is nil is passed over.
  unfoldable pub handle_items :
      List (Option (GraphItem V)) → GraphState V M → Option (GraphState V M)
  unfolding handle_item
  handle_items [] s = some s
  handle_items (none ∷ items) s = handle_items items s
  handle_items (some item ∷ items) s = do s' ← handle_item item s; handle_items items s'

  -- The item that `Delete` makes of a parameter; what it does not set is never read.
  abbrev pub deleted_item : V → GraphDeleteParam → Map Text → GraphItem V
  deleted_item zero p tags = record {
    endpoint = p.endpoint;
    metric = p.metric;
    tags = tags;
    value = zero;
    timestamp = pos 0;
    ds_type = p.ds_type;
    step = p.step;
    heartbeat = pos 0;
    min = [];
    max = [];
  }

  -- A parameter whose tags cannot be read is passed over.
  unfoldable pub delete_all : V → List GraphDeleteParam → GraphState V M → Option (GraphState V M)
  unfolding split_tags_string remove_item
  delete_all zero [] s = some s
  delete_all zero (p ∷ ps) s =
      let (is_read, tags) = split_tags_string p.tags in
      elim is_read [
        | false ↦ delete_all zero ps s
        | true ↦ do
          r ← remove_item out.hash_key out.md5 (deleted_item zero p tags) s.index s.store
          delete_all zero ps (record s { index = r.0; store = r.1 })
      ]

  unfoldable pub get_last_raw : V → Text → Text → M → RrdData V
  unfolding get_last_item
  get_last_raw zero endpoint counter history =
      let item =
        get_last_item out.history_map out.history_list zero (out.md5 (endpoint ++ (b'/' ∷ counter)))
          history in
      record { timestamp = item.timestamp; value = item.value }

  abbrev pub no_data : V → RrdData V
  no_data zero = record { timestamp = pos 0; value = zero }

  -- The rate between the two latest items, if they are a step apart; a counter that went down has
  -- the rate 0.
  unfoldable pub last_rate : Float V → V → ℤ → List (GraphItem V) → RrdData V
  unfolding sub64
  last_rate F zero step [] = no_data zero
  last_rate F zero step (f0 ∷ []) = no_data zero
  last_rate F zero step (f0 ∷ f1 ∷ l) =
      let delta_ts = sub64 f0.timestamp f1.timestamp in
      let delta_v = F.sub f0.value f1.value in
      if not (eqb_ℤ delta_ts step) || leb_ℤ delta_ts (pos 0) then no_data zero else record {
        timestamp = f0.timestamp;
        value = F.div (if F.lt delta_v zero then zero else delta_v) (F.of_int delta_ts);
      }

  -- `GetLast`, after the type and step of the counter were looked up.
  unfoldable pub get_last : Float V → V → Option (Text × ℤ) → Text → Text → M → RrdData V
  unfolding get_last_raw last_rate get_all_items text_eq
  get_last F zero none endpoint counter history = no_data zero
  get_last F zero (some (ds_type, step)) endpoint counter history =
      if text_eq ds_type (codes "GAUGE")
      then get_last_raw zero endpoint counter history
      else if text_eq ds_type (codes "COUNTER") || text_eq ds_type (codes "DERIVE")
      then last_rate F zero step (
          get_all_items out.history_map out.history_list (out.md5 (endpoint ++ (b'/' ∷ counter)))
            history)
      else no_data zero
