-- ===== src/Nodata/Sender.antt =====
-- modules/nodata/sender/sender.go: the mock items are sent in batches.
pub mod Batches
use falcon_plus_learn.Base.{
  ℕ, zero, suc, ◌+◌, ◌==◌, Bool, true, Option, none, some, List, [], ◌∷◌, length, take, drop,
  if◌then◌else◌,
}
use falcon_plus_learn.Base.Int.{ℤ, pos, negsuc, ltb_ℤ}

-- How the loop ends: with the batches that it sent and its count, with a panic at a slice, or not
-- within the rounds that are given.
pub data Ending (A : Type 0) : Type 0 where
  finished : List (List A) → ℕ → Ending A
  panicked : Ending A
  unfinished : Ending A

abbrev pub counted : Option ℕ → ℕ
counted none = 0
counted (some n) = n

module _ {A : Type 0} where
  -- A value that is nil is passed over.
  unfoldable pub keep_values : List (Option A) → List A
  keep_values [] = []
  keep_values (none ∷ l) = keep_values l
  keep_values (some x ∷ l) = x ∷ keep_values l

  -- `sendItemsToTransfer`: `none` is the error; `post` says whether transfer accepts the request.
  unfoldable pub send_items_to_transfer : (List A → Bool) → List A → Option ℕ
  send_items_to_transfer post items =
      if length items == 0 then some 0 else if post items then some (length items) else none

  abbrev pub after_batch : List A → ℕ → Ending A → Ending A
  after_batch items n (finished sent cnt) = finished (items ∷ sent) (n + cnt)
  after_batch items n panicked = panicked
  after_batch items n unfinished = unfinished

  -- The loop of `sendMock` from an index on, for a number of rounds; a failed batch is not counted
  -- and not sent again.
  unfoldable pub send_loop : ℕ → ℤ → (List A → Bool) → List (Option A) → Ending A
  unfolding keep_values send_items_to_transfer
  send_loop fuel batch post [] = finished [] 0
  send_loop zero batch post (x ∷ l) = unfinished
  send_loop (suc fuel) (negsuc n) post (x ∷ l) = panicked
  send_loop (suc fuel) (pos n) post (x ∷ l) =
      let send_size = if ltb_ℤ (pos (length (x ∷ l))) (pos n) then length (x ∷ l) else n in
      let items = keep_values (take send_size (x ∷ l)) in
      after_batch items (counted (send_items_to_transfer post items))
        (send_loop fuel (pos n) post (drop send_size (x ∷ l)))
