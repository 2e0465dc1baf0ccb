-- ===== src/Graph/Store.antt =====
-- modules/graph/store/store.go: the cached lists of all counters, in buckets by the hash of the key.
-- `hash_key` is `crc32.ChecksumIEEE` of the bytes of the key.
pub mod View
pub mod Laws
use falcon_plus_learn.Base.{
  Text, ℕ, zero, suc, ◌+◌, ◌-◌, ◌%◌, ◌==◌, Bool, true, false, Option, none, some, List, [], ◌∷◌,
  length, get_elem?, if◌then◌else◌, ◌>>=◌,
}
use falcon_plus_learn.Base.Int.{ℤ, pos, ◌+ℤ◌, add64, sub64}
use falcon_plus_learn.Base.Map.{Map, lookup, insert, delete}
use falcon_plus_learn.Graph.LinkedList.{
  GraphItem, SafeLinkedList, push_front, front, back, pop_all, push_all, fetch_all,
}

pub record GraphItemMap (V : Type 0) : Type 0 where
  pub a : List (Map (SafeLinkedList V))
  pub size : ℕ

-- What `PushFront` takes from the configuration and from the disk.
pub record Files (V : Type 0) : Type 0 where
  pub migrate_enabled : Bool
  pub is_rrd_file_exist : Text → GraphItem V → Bool  -- `IsRrdFileExist(RrdFileName(...))`

abbrev pub graph_f_miss : ℕ
graph_f_miss = 1

-- `a[i] = x`; out of range nothing is stored, and the callers have panicked before.
unfoldable pub set_elem : {A : Type 0} → ℕ → A → List A → List A
set_elem i x [] = []
set_elem zero x (y ∷ l) = x ∷ l
set_elem (suc i) x (y ∷ l) = y ∷ set_elem i x l

abbrev pub count_keys : {A : Type 0} → List (Map A) → ℕ → Option ℕ
count_keys l zero = some 0
count_keys [] (suc n) = none
count_keys (m ∷ l) (suc n) = do k ← count_keys l n; some (length m + k)

abbrev pub keys_of : {A : Type 0} → Map A → List Text
keys_of [] = []
keys_of ((k, v) ∷ m) = k ∷ keys_of m

abbrev pub empty_maps : {A : Type 0} → ℕ → List (Map A)
empty_maps zero = []
empty_maps (suc n) = [] ∷ empty_maps n

module _ {V : Type 0} where
  -- `store.init`: as many buckets as `CACHE_TIME / FLUSH_DISK_STEP`.
  unfoldable pub init_graph_items : GraphItemMap V
  init_graph_items = record { a = empty_maps 1800; size = 1800 }

  unfoldable pub getitems : ℕ → GraphItemMap V → Option (Map (SafeLinkedList V) × GraphItemMap V)
  unfolding set_elem
  getitems idx s = do m ← get_elem? s.a idx; some (m, record s { a = set_elem idx [] s.a })

  unfoldable pub len : GraphItemMap V → Option ℕ
  len s = count_keys s.a s.size

  unfoldable pub keys_by_index : ℕ → GraphItemMap V → Option (List Text)
  keys_by_index idx s = do m ← get_elem? s.a idx; some (keys_of m)

module _ {V : Type 0} where
  -- The list of a new key; its flag says that the file of the counter lies on another node.
  abbrev pub new_list : Files V → GraphItem V → Text → SafeLinkedList V
  new_list files item md5 =
      let missing = if files.is_rrd_file_exist md5 item then 0 else graph_f_miss in
      record { flag = if files.migrate_enabled then missing else 0; items = item ∷ [] }

module _ {V : Type 0} (hash_key : Text → ℕ) where
  -- `hashKey(key) % uint32(this.Size)`: a size of 0 is a division by zero, and a panic.
  unfoldable pub index_of : Text → GraphItemMap V → Option ℕ
  index_of key s = if s.size == 0 then none else some (hash_key key % s.size)

  -- `this.A[idx]`
  unfoldable pub bucket_at : Text → GraphItemMap V → Option (Map (SafeLinkedList V))
  unfolding index_of
  bucket_at key s = do idx ← index_of key s; get_elem? s.a idx

  unfoldable pub store_bucket :
      Text → Map (SafeLinkedList V) → GraphItemMap V → Option (GraphItemMap V)
  unfolding index_of set_elem
  store_bucket key m s = do idx ← index_of key s; some (record s { a = set_elem idx m s.a })

  -- The list of the key and whether it is there.
  unfoldable pub get : Text → GraphItemMap V → Option (Option (SafeLinkedList V))
  unfolding bucket_at lookup
  get key s = do m ← bucket_at key s; some (lookup key m)

  unfoldable pub set : Text → SafeLinkedList V → GraphItemMap V → Option (GraphItemMap V)
  unfolding bucket_at store_bucket insert
  set key l s = do m ← bucket_at key s; store_bucket key (insert key l m) s

  -- Whether the key was there, and the map after.
  unfoldable pub remove : Text → GraphItemMap V → Option (Bool × GraphItemMap V)
  unfolding bucket_at store_bucket lookup delete
  remove key s = do
    m ← bucket_at key s
    elim (lookup key m) [
      | none ↦ some (false, s)
      | some _ ↦ do s' ← store_bucket key (delete key m) s; some (true, s')
    ]

  unfoldable pub first : Text → GraphItemMap V → Option (Option (GraphItem V))
  unfolding get front
  first key s = do o ← get key s; some (elim o [ none ↦ none | some l ↦ front l.items ])

  unfoldable pub last : Text → GraphItemMap V → Option (Option (GraphItem V))
  unfolding get back
  last key s = do o ← get key s; some (elim o [ none ↦ none | some l ↦ back l.items ])

  unfoldable pub item_cnt : Text → GraphItemMap V → Option ℕ
  unfolding get
  item_cnt key s = do o ← get key s; some (elim o [ none ↦ 0 | some l ↦ length l.items ])

  -- The error `not exist` is the inner `none`.
  unfoldable pub get_flag : Text → GraphItemMap V → Option (Option ℕ)
  unfolding get
  get_flag key s = do o ← get key s; some (elim o [ none ↦ none | some l ↦ some l.flag ])

  -- The list of a key is shared by pointer, so a change of it is a change of the map's entry; a
  -- missing key gives the error `not exist` and changes nothing.
  unfoldable pub set_flag : Text → ℕ → GraphItemMap V → Option (Bool × GraphItemMap V)
  unfolding get set
  set_flag key flag s = do
    o ← get key s
    elim o [
      | none ↦ some (false, s)
      | some l ↦ do s' ← set key (record l { flag = flag }) s; some (true, s')
    ]

  unfoldable pub push_all_at :
      Text → List (GraphItem V) → GraphItemMap V → Option (Bool × GraphItemMap V)
  unfolding get set push_all
  push_all_at key items s = do
    o ← get key s
    elim o [
      | none ↦ some (false, s)
      | some l ↦ do s' ← set key (push_all items l) s; some (true, s')
    ]

  unfoldable pub pop_all_at : Text → GraphItemMap V → Option (List (GraphItem V) × GraphItemMap V)
  unfolding get set pop_all
  pop_all_at key s = do
    o ← get key s
    elim o [ none ↦ some ([], s) | some l ↦ do r ← pop_all l; s' ← set key r.1 s; some (r.0, s') ]

  unfoldable pub fetch_all_at : Text → GraphItemMap V → Option (List (GraphItem V) × ℕ)
  unfolding get fetch_all
  fetch_all_at key s = do o ← get key s; some (elim o [ none ↦ ([], 0) | some l ↦ fetch_all l ])

  -- `PushFront`
  unfoldable pub push_front_at :
      Files V → Text → GraphItem V → Text → GraphItemMap V → Option (GraphItemMap V)
  unfolding get set push_front
  push_front_at files key item md5 s = do
    o ← get key s
    elim o [ none ↦ set key (new_list files item md5) s | some l ↦ set key (push_front item l) s ]

-- `getWts`, with `CACHE_TIME` as the interval.
unfoldable pub get_wts : (Text → ℕ) → Text → ℤ → ℤ
unfolding add64 sub64
get_wts hash_key key now = sub64 (add64 now (pos 1800000)) (pos (hash_key key % 1800000))
