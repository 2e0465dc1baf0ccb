-- ===== src/Aggregator/Workers/Updated.antt =====
-- modules/aggregator/cron/worker.go and updater.go: which workers there are after an update.
use falcon_plus_learn.Base.{
  Text, text_eq, text_eq_iff, ◌≡◌, refl, sym, ap, ◌∙◌, Bool, true, false, not, ◌&&◌, Option, none,
  some, List, [], ◌∷◌, any, if◌then◌else◌, arith, Bool-cases, Option-cases, inl, inr,
}
use falcon_plus_learn.Base.Int.{pos, leb_ℤ}
use falcon_plus_learn.Base.Map.{Map, lookup, delete, lookup-insert, lookup-delete}
use falcon_plus_learn.Judge.Store.Maps.{IsDistinct}
use falcon_plus_learn.Aggregator.Compute.{Cluster}
use falcon_plus_learn.Aggregator.Workers.{
  Workers, unused_keys, delete_keys, delete_no_use_worker, create_one, create_worker_if_need,
  update_items,
}

abbrev is_there : Option Cluster → Bool
is_there none = false
is_there (some c) = true

-- The cluster, if its step is positive.
abbrev pub if_positive : Option Cluster → Option Cluster
if_positive none = none
if_positive (some c) = if leb_ℤ c.step (pos 0) then none else some c

-- The worker that is there for a cluster of the items: the old one, or a new one.
abbrev pub worker_for : Option Cluster → Option Cluster → Option Cluster
worker_for none old = none
worker_for (some item) (some worker) = some worker
worker_for (some item) none = if_positive (some item)

abbrev old_or_new : Option Cluster → Option Cluster → Option Cluster
old_or_new (some worker) item = some worker
old_or_new none item = if_positive item

lookup-delete_keys :
    (j : Text) (keys : List Text) (ws : Workers)
    → lookup j (delete_keys keys ws) ≡ (if any (λ k. text_eq k j) keys then none else lookup j ws)
unfolding delete_keys
lookup-delete_keys j [] ws = refl
lookup-delete_keys j (k ∷ keys) ws =
    lookup-delete_keys j keys (delete k ws) ∙ ground (arith, lookup-delete k j ws)

any-unused_keys :
    (j : Text) (m : Map Cluster) (ws : Workers)
    → any (λ k. text_eq k j) (unused_keys m ws)
      ≡ (is_there (lookup j ws) && not (is_there (lookup j m)))
unfolding unused_keys lookup
any-unused_keys j m [] = refl
any-unused_keys j m ((k, w) ∷ ws) = elim (Bool-cases (text_eq k j)) [
  | inl t ↦
      let e : k ≡ j = (text_eq_iff k j).0 t in
      let here : lookup k m ≡ lookup j m = ap (λ i. lookup i m) e in
      elim (Option-cases (lookup k m)) [
        | inl n ↦ rw (n, t, sym here ∙ n) refl
        | inr (c, y) ↦
            let there : lookup j m ≡ some c = sym here ∙ y in
            rw (y, t, there) (ground (arith, any-unused_keys j m ws, there))
      ]
  | inr f ↦ elim (Option-cases (lookup k m)) [
    | inl n ↦ rw (n, f) (any-unused_keys j m ws)
    | inr (c, y) ↦ rw (y, f) (any-unused_keys j m ws)
  ]
]

lookup-delete_no_use_worker :
    (j : Text) (m : Map Cluster) (ws : Workers)
    → lookup j (delete_no_use_worker m ws) ≡ (if is_there (lookup j m) then lookup j ws else none)
unfolding delete_no_use_worker
lookup-delete_no_use_worker j m ws =
    lookup-delete_keys j (unused_keys m ws) ws
    ∙ rw (any-unused_keys j m ws) (by_case (lookup j m) (lookup j ws))
  where
    by_case :
        (a b : Option Cluster)
        → (if is_there b && not (is_there a) then none else b) ≡ (if is_there a then b else none)
    by_case none none = refl
    by_case none (some w) = refl
    by_case (some c) none = refl
    by_case (some c) (some w) = refl

lookup-create_worker_if_need :
    (j : Text) (m : Map Cluster) (ws : Workers)
    → IsDistinct m
    → lookup j (create_worker_if_need m ws) ≡ old_or_new (lookup j ws) (lookup j m)
unfolding create_worker_if_need lookup
lookup-create_worker_if_need j [] ws d = nothing (lookup j ws)
  where
    nothing : (o : Option Cluster) → o ≡ old_or_new o none
    nothing none = refl
    nothing (some w) = refl
lookup-create_worker_if_need j ((k, item) ∷ m) ws d =
    lookup-create_worker_if_need j m (create_one (lookup k ws) k item ws) d.1
    ∙ elim (Bool-cases (text_eq k j)) [
      | inl t ↦
          let e : k ≡ j = (text_eq_iff k j).0 t in
          let here : lookup k ws ≡ lookup j ws = ap (λ i. lookup i ws) e in
          let gone : lookup j m ≡ none = sym (ap (λ i. lookup i m) e) ∙ d.0 in
          elim (Option-cases (lookup k ws)) [
            | inr (w, y) ↦ rw (y, sym here ∙ y) refl
            | inl n ↦ elim (Bool-cases (leb_ℤ item.step (pos 0))) [
              | inl z ↦ rw (n, z, sym here ∙ n, gone, t, z) refl
              | inr z ↦ rw (n, z, lookup-insert k j item ws, sym here ∙ n, gone, t, z) refl
            ]
          ]
      | inr f ↦ elim (Option-cases (lookup k ws)) [
        | inr (w, y) ↦ rw (y, f) refl
        | inl n ↦ elim (Bool-cases (leb_ℤ item.step (pos 0))) [
          | inl z ↦ rw (n, z, f) refl
          | inr z ↦ rw (n, z, lookup-insert k j item ws, f) refl
        ]
      ]
    ]

-- After an update with items that have each key once there is a worker for a key exactly if it is
-- one of an item: the worker that was there, or a new one if there was none and the step is
-- positive.
pub update_items_lem :
    (j : Text) (m : Map Cluster) (ws : Workers)
    → IsDistinct m
    → lookup j (update_items (some m) ws) ≡ worker_for (lookup j m) (lookup j ws)
unfolding update_items
update_items_lem j m ws d =
    lookup-create_worker_if_need j m (delete_no_use_worker m ws) d
    ∙ ap (λ o. old_or_new o (lookup j m)) (lookup-delete_no_use_worker j m ws)
    ∙ by_case (lookup j m) (lookup j ws)
  where
    by_case :
        (a b : Option Cluster) → old_or_new (if is_there a then b else none) a ≡ worker_for a b
    by_case none none = refl
    by_case none (some w) = refl
    by_case (some c) none = refl
    by_case (some c) (some w) = refl
