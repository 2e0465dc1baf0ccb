-- ===== src/Judge/Store/Buckets.antt =====
-- modules/judge/store/history.go, cron/cleaner.go: the 256 maps are there after the start, and each
-- of them is cleaned by one run of `cleanStale`.
use mathlib.Core.Path.{subst}
use falcon_plus_learn.Base.{
  Text, text_eq_refl, ℕ, ◌≡◌, refl, some, List, [], ◌∷◌, ◌++◌, arith, inl, inr, Has,
}
use falcon_plus_learn.Base.Map.{Map, lookup, insert, lookup-insert}
use falcon_plus_learn.Common.Model.{JudgeItem}
use falcon_plus_learn.Judge.Alarm.{Alerts}
use falcon_plus_learn.Judge.Alarm.Refine.{IsWellFormed}
use falcon_plus_learn.Judge.Store.{
  JudgeItemMap, hex_digits, init_row, init_rows, init_history_big_map,
}
use falcon_plus_learn.Judge.Store.Histories.{IsGood}

module _ {V : Type 0} where
  -- The map of a key, which is there and empty.
  IsFresh : Text → Map (JudgeItemMap V) → Type 0
  IsFresh key h = lookup key h ≡ some []

  insert-IsFresh :
      (key k : Text) (h : Map (JudgeItemMap V)) → IsFresh key h → IsFresh key (insert k [] h)
  unfolding IsFresh
  insert-IsFresh key k h f = ground (arith, lookup-insert k key [] h)

  row_keeps :
      (key a : Text) (bs : List Text) (h : Map (JudgeItemMap V))
      → IsFresh key h
      → IsFresh key (init_row a bs h)
  unfolding init_row
  row_keeps key a [] h f = f
  row_keeps key a (b ∷ bs) h f =
      row_keeps key a bs (insert (a ++ b) [] h) (insert-IsFresh key (a ++ b) h f)

  row_adds :
      (a b : Text) (bs : List Text) (h : Map (JudgeItemMap V))
      → Has b bs
      → IsFresh (a ++ b) (init_row a bs h)
  unfolding init_row
  row_adds a b [] h p = absurd p
  row_adds a b (c ∷ bs) h (inl e) = row_keeps (a ++ b) a bs (insert (a ++ c) [] h) (
      subst (λ x. IsFresh (a ++ b) (insert (a ++ x) [] h)) e
        (unfold IsFresh in rw (lookup-insert, text_eq_refl) refl))
  row_adds a b (c ∷ bs) h (inr p) = row_adds a b bs (insert (a ++ c) [] h) p

  rows_keep :
      (key : Text) (rows : List Text) (h : Map (JudgeItemMap V))
      → IsFresh key h
      → IsFresh key (init_rows rows h)
  unfolding init_rows
  rows_keep key [] h f = f
  rows_keep key (a ∷ rows) h f =
      rows_keep key rows (init_row a hex_digits h) (row_keeps key a hex_digits h f)

  rows_add :
      (a b : Text) (rows : List Text) (h : Map (JudgeItemMap V))
      → Has a rows
      → Has b hex_digits
      → IsFresh (a ++ b) (init_rows rows h)
  unfolding init_rows
  rows_add a b [] h p q = absurd p
  rows_add a b (c ∷ rows) h (inl e) q =
      rows_keep (a ++ b) rows (init_row c hex_digits h)
        (subst (λ x. IsFresh (a ++ b) (init_row x hex_digits h)) e (row_adds a b hex_digits h q))
  rows_add a b (c ∷ rows) h (inr p) q = rows_add a b rows (init_row c hex_digits h) p q

  -- After InitHistoryBigMap, with known statuses, the state is good for every limit: the 256 maps
  -- are there and empty.
  pub init_history_big_map-IsGood :
      (n : ℕ) (s : Alerts V)
      → IsWellFormed s
      → IsGood n (record { history = init_history_big_map; alerts = s })
  unfolding init_history_big_map
  init_history_big_map-IsGood n s w = record {
    buckets = λ a b p q.
        ([], unfold IsFresh in rows_add a b hex_digits [] p q, tt, λ k l e. absurd (nothing k l e));
    alerts = w;
  }
    where
      nothing : (k : Text) (l : List (JudgeItem V)) → lookup k [] ≡ some l → ⊥
      nothing k l e = unfold lookup in cc
