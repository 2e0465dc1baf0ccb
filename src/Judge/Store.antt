-- ===== src/Judge/Store.antt =====
-- modules/judge/store/history.go, rpc/receiver.go, cron/cleaner.go: the histories of all counters,
-- in 256 maps, and the handler that files an item and judges it.
pub mod Maps
pub mod Buckets
pub mod Clean
pub mod Sweep
pub mod Histories
pub mod Handler
use falcon_plus_learn.Base.{
  Text, codes, ℕ, ◌++◌, zero, suc, Bool, true, false, Option, none, some, List, [], ◌∷◌, length,
  take, ltb, if◌then◌else◌, ◌>>=◌,
}
use falcon_plus_learn.Base.Int.{ℤ, pos, ltb_ℤ, sub64}
use falcon_plus_learn.Base.Float.{Float}
use falcon_plus_learn.Base.Map.{Map, lookup, insert, delete}
use falcon_plus_learn.Common.Model.{JudgeItem}
use falcon_plus_learn.Judge.LinkedList.{push_front_and_maintain}
use falcon_plus_learn.Judge.Alarm.{Env, Alerts}
use falcon_plus_learn.Judge.Match.{Rules, judge, primary_key}

-- `JudgeItemMap`: the list of each counter's primary key.
abbrev pub JudgeItemMap : Type 0 → Type 0
JudgeItemMap V = Map (List (JudgeItem V))

-- What the judge process keeps: `HistoryBigMap`, and the events.
pub record State (V : Type 0) : Type 0 where
  pub history : Map (JudgeItemMap V)
  pub alerts : Alerts V

unfoldable pub batch_delete {ℓ} : {A : Type ℓ} → List Text → Map A → Map A
unfolding delete
batch_delete [] m = m
batch_delete (k ∷ ks) m = batch_delete ks (delete k m)

abbrev pub hex_digits : List Text
hex_digits =
    codes "0"
    ∷ codes "1"
    ∷ codes "2"
    ∷ codes "3"
    ∷ codes "4"
    ∷ codes "5"
    ∷ codes "6"
    ∷ codes "7"
    ∷ codes "8"
    ∷ codes "9"
    ∷ codes "a"
    ∷ codes "b"
    ∷ codes "c"
    ∷ codes "d"
    ∷ codes "e"
    ∷ codes "f"
    ∷ []

module _ {V : Type 0} where
  unfoldable pub get_list : Text → JudgeItemMap V → Option (List (JudgeItem V))
  unfolding lookup
  get_list key m = lookup key m

  unfoldable pub set_list : Text → List (JudgeItem V) → JudgeItemMap V → JudgeItemMap V
  unfolding insert
  set_list key l m = insert key l m

  unfoldable pub len_of_map : JudgeItemMap V → ℕ
  len_of_map m = length m

  unfoldable pub delete_list : Text → JudgeItemMap V → JudgeItemMap V
  unfolding delete
  delete_list key m = delete key m

  -- The latest value is older than `before`; a list without a front is passed over.
  unfoldable pub is_outdated : ℤ → List (JudgeItem V) → Bool
  is_outdated before [] = false
  is_outdated before (x ∷ l) = ltb_ℤ x.timestamp before

  unfoldable pub stale_keys : ℤ → JudgeItemMap V → List Text
  unfolding is_outdated
  stale_keys before [] = []
  stale_keys before ((k, l) ∷ m) =
      let rest = stale_keys before m in if is_outdated before l then k ∷ rest else rest

  -- `CleanStale`
  unfoldable pub clean_stale : ℤ → JudgeItemMap V → JudgeItemMap V
  unfolding stale_keys batch_delete
  clean_stale before m = batch_delete (stale_keys before m) m

  -- The inner and the outer loop of `InitHistoryBigMap`.
  unfoldable pub init_row : Text → List Text → Map (JudgeItemMap V) → Map (JudgeItemMap V)
  unfolding insert
  init_row a [] h = h
  init_row a (b ∷ bs) h = init_row a bs (insert (a ++ b) [] h)

  unfoldable pub init_rows : List Text → Map (JudgeItemMap V) → Map (JudgeItemMap V)
  unfolding init_row
  init_rows [] h = h
  init_rows (a ∷ rest) h = init_rows rest (init_row a hex_digits h)

  unfoldable pub init_history_big_map : Map (JudgeItemMap V)
  unfolding init_rows
  init_history_big_map = init_rows hex_digits []

  -- The loops of `cleanStale`; a bucket that is missing is a nil pointer, and a panic.
  unfoldable pub clean_bucket : ℤ → Text → Map (JudgeItemMap V) → Option (Map (JudgeItemMap V))
  unfolding lookup insert clean_stale
  clean_bucket before key h = do m ← lookup key h; some (insert key (clean_stale before m) h)

  unfoldable pub clean_row :
      ℤ → Text → List Text → Map (JudgeItemMap V) → Option (Map (JudgeItemMap V))
  unfolding clean_bucket
  clean_row before a [] h = some h
  clean_row before a (b ∷ bs) h = do h' ← clean_bucket before (a ++ b) h; clean_row before a bs h'

  unfoldable pub clean_rows : ℤ → List Text → Map (JudgeItemMap V) → Option (Map (JudgeItemMap V))
  unfolding clean_row
  clean_rows before [] h = some h
  clean_rows before (a ∷ rest) h = do
    h' ← clean_row before a hex_digits h
    clean_rows before rest h'

  unfoldable pub clean_history : ℤ → Map (JudgeItemMap V) → Option (Map (JudgeItemMap V))
  unfolding clean_rows sub64
  clean_history now h = clean_rows (sub64 now (pos 604800)) hex_digits h

-- `pk[0:2]`
unfoldable pub bucket_of : Text → Option Text
bucket_of pk = if ltb (length pk) 2 then none else some (take 2 pk)

module _ {V : Type 0} (F : Float V) (env : Env V) where
  -- `JudgeItemMap.PushFrontAndMaintain`, on the list that the map has for the key. A first value
  -- goes into a list of its own, whatever its timestamp and the limit, and is judged.
  unfoldable pub file_and_judge :
      Rules V
      → Option (List (JudgeItem V))
      → JudgeItem V
      → ℤ
      → ℤ
      → Alerts V
      → Option (List (JudgeItem V) × Alerts V)
  file_and_judge rules (some l) item max_count now s = do
    r ← push_front_and_maintain l item max_count
    if r.1 then (do s' ← judge F env rules r.0 item now s; some (r.0, s')) else some (r.0, s)
  file_and_judge rules none item max_count now s = do
    s' ← judge F env rules (item ∷ []) item now s
    some (item ∷ [], s')

  -- The key stands for the list that it is filed under, so the list after the call is stored.
  unfoldable pub push_item :
      Rules V
      → Text
      → JudgeItem V
      → ℤ
      → ℤ
      → JudgeItemMap V × Alerts V
      → Option (JudgeItemMap V × Alerts V)
  unfolding lookup insert file_and_judge
  push_item rules key item max_count now (m, s) = do
    r ← file_and_judge rules (lookup key m) item max_count now s
    some (insert key r.0 m, r.1)

  -- One turn of the loop of `Send`.
  unfoldable pub receive : Rules V → ℤ → ℤ → JudgeItem V → State V → Option (State V)
  receive rules remain now item s = do
    bucket ← bucket_of (primary_key env item)
    m ← lookup bucket s.history
    r ← push_item rules (primary_key env item) item remain now (m, s.alerts)
    some (record { history = insert bucket r.0 s.history; alerts = r.1 })

  -- The handler: all items are judged by one reading of the clock.
  unfoldable pub send : Rules V → ℤ → ℤ → List (JudgeItem V) → State V → Option (State V)
  unfolding receive bucket_of push_item primary_key
  send rules remain now [] s = some s
  send rules remain now (item ∷ items) s = do
    s' ← receive rules remain now item s
    send rules remain now items s'
