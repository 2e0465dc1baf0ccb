-- ===== src/Judge/LinkedList.antt =====
-- modules/judge/store/linkedlist.go: the recent values of one counter, the latest in front.
pub mod Insert
pub mod History
use falcon_plus_learn.Base.{
  Text, ℕ, zero, suc, ◌+◌, ◌-◌, Bool, true, false, Option, none, some, List, [], ◌∷◌, ◌||◌, length,
  get_elem?, ltb, ◌==◌, if◌then◌else◌, ◌>>=◌,
}
use falcon_plus_learn.Base.Int.{ℤ, pos, pos_part, ltb_ℤ, leb_ℤ, add64, sub64, ◌-ℤ◌}
use falcon_plus_learn.Base.Float.{Float}
use falcon_plus_learn.Common.Model.{JudgeItem, HistoryData}

-- `judgeType == 'G' || judgeType == 'g'`
unfoldable pub is_gauge : ℕ → Bool
is_gauge c = c == b'G' || c == b'g'

module _ {V : Type 0} where
  -- `L.Remove(L.Back())`: on an empty list the code passes a nil element, and panics.
  unfoldable pub remove_back : List (JudgeItem V) → Option (List (JudgeItem V))
  remove_back [] = none
  remove_back (x ∷ []) = some []
  remove_back (x ∷ y ∷ l) = do rest ← remove_back (y ∷ l); some (x ∷ rest)

  unfoldable pub remove_times : ℕ → List (JudgeItem V) → Option (List (JudgeItem V))
  remove_times zero l = some l
  remove_times (suc n) l = elim (remove_back l) [ none ↦ none | some l' ↦ remove_times n l' ]

  -- A duplicate, or a timestamp that is not after the latest one, is dropped; nothing is checked
  -- when the list is empty.
  unfoldable pub is_stale : JudgeItem V → List (JudgeItem V) → Bool
  is_stale v [] = false
  is_stale v (x ∷ l) = leb_ℤ v.timestamp x.timestamp || leb_ℤ v.timestamp (pos 0)

  -- The list after the call, and `needJudge`.
  unfoldable pub push_front_and_maintain :
      List (JudgeItem V) → JudgeItem V → ℤ → Option (List (JudgeItem V) × Bool)
  unfolding is_stale remove_back remove_times ◌-ℤ◌
  push_front_and_maintain l v max_count =
      let sz = suc (length l) in
      if is_stale v l
      then some (l, false)
      else if leb_ℤ (pos sz) max_count
      then some (v ∷ l, true)
      else do l' ← remove_times (pos_part (pos sz -ℤ max_count)) (v ∷ l); some (l', true)

  abbrev pub point : JudgeItem V → HistoryData V
  point x = record { timestamp = x.timestamp; value = x.value }

  -- `limit` raw values from the front; `none` if the walk runs off the list.
  unfoldable pub raw_points : ℕ → List (JudgeItem V) → Option (List (HistoryData V))
  raw_points zero l = some []
  raw_points (suc n) [] = none
  raw_points (suc n) (x ∷ l) = do rest ← raw_points n l; some (point x ∷ rest)

module _ {V : Type 0} (F : Float V) where
  -- The rate between two neighbours, at the time of the later one.
  unfoldable pub rate : JudgeItem V → JudgeItem V → HistoryData V
  rate x y = record {
    timestamp = x.timestamp;
    value = F.div (F.sub x.value y.value) (F.of_int (sub64 x.timestamp y.timestamp));
  }

  unfoldable pub rate_points : ℕ → List (JudgeItem V) → Option (List (HistoryData V))
  rate_points zero l = some []
  rate_points (suc n) (x ∷ y ∷ l) = do rest ← rate_points n (y ∷ l); some (rate x y ∷ rest)
  rate_points (suc n) _ = none

  unfoldable pub raw_history : List (JudgeItem V) → ℤ → Option (List (HistoryData V) × Bool)
  unfolding raw_points
  raw_history l limit =
      if ltb_ℤ (pos (length l)) limit
      then (do vs ← raw_points (length l) l; some (vs, false))
      else (do vs ← raw_points (pos_part limit) l; some (vs, true))

  unfoldable pub rate_history : List (JudgeItem V) → ℤ → Option (List (HistoryData V) × Bool)
  unfolding rate_points rate
  rate_history l limit =
      if ltb_ℤ (pos (length l)) (add64 limit (pos 1))
      then (do vs ← rate_points (length l - 1) l; some (vs, false))
      else (do vs ← rate_points (pos_part limit) l; some (vs, true))

  unfoldable pub history_of : List (JudgeItem V) → ℤ → Option (List (HistoryData V) × Bool)
  unfolding is_gauge raw_history rate_history
  history_of [] limit = some ([], false)
  history_of (x ∷ l) limit = do
    judge_type ← get_elem? x.judge_type 0
    if is_gauge judge_type then raw_history (x ∷ l) limit else rate_history (x ∷ l) limit

  -- The points that a judge function reads, and `isEnough`.
  unfoldable pub history_data : List (JudgeItem V) → ℤ → Option (List (HistoryData V) × Bool)
  unfolding history_of
  history_data l limit = if ltb_ℤ limit (pos 1) then some ([], false) else history_of l limit
