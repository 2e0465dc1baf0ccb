-- ===== src/Aggregator/Workers.antt =====
-- modules/aggregator/cron/worker.go and updater.go: which clusters are computed. A worker is its cluster; what
-- it computes on each tick is `worker_run`.
pub mod Updated
use falcon_plus_learn.Base.{
  Text, text_eq, ◌≡◌, refl, Bool, true, false, Option, none, some, List, [], ◌∷◌, if◌then◌else◌,
}
use falcon_plus_learn.Base.Int.{ℤ, pos, leb_ℤ}
use falcon_plus_learn.Base.Map.{Map, lookup, insert, delete}
use falcon_plus_learn.Aggregator.Compute.{Cluster}

abbrev pub Workers : Type 0
Workers = Map Cluster

abbrev pub cons_unless : {A : Type 0} → Option A → Text → List Text → List Text
cons_unless none key l = key ∷ l
cons_unless (some x) key l = l

-- The keys of the workers that have no cluster any more; they are stopped.
unfoldable pub unused_keys : Map Cluster → Workers → List Text
unfolding lookup
unused_keys m [] = []
unused_keys m ((key, worker) ∷ workers) = cons_unless (lookup key m) key (unused_keys m workers)

unfoldable pub delete_keys : List Text → Workers → Workers
unfolding delete
delete_keys [] workers = workers
delete_keys (key ∷ keys) workers = delete_keys keys (delete key workers)

unfoldable pub delete_no_use_worker : Map Cluster → Workers → Workers
unfolding unused_keys delete_keys
delete_no_use_worker m workers = delete_keys (unused_keys m workers) workers

-- A cluster with a step that is not positive gets no worker, and one that has a worker keeps it.
abbrev pub create_one : Option Cluster → Text → Cluster → Workers → Workers
create_one (some worker) key item workers = workers
create_one none key item workers =
    if leb_ℤ item.step (pos 0) then workers else insert key item workers

unfoldable pub create_worker_if_need : Map Cluster → Workers → Workers
unfolding lookup insert
create_worker_if_need [] workers = workers
create_worker_if_need ((key, item) ∷ m) workers =
    create_worker_if_need m (create_one (lookup key workers) key item workers)

-- The items that were read; at an error nothing changes.
unfoldable pub update_items : Option (Map Cluster) → Workers → Workers
unfolding delete_no_use_worker create_worker_if_need
update_items none workers = workers
update_items (some m) workers = create_worker_if_need m (delete_no_use_worker m workers)
