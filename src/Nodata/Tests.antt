-- ===== src/Nodata/Tests.antt =====
-- Runs of modules/nodata on one counter.
use falcon_plus_learn.Base.{
  Text, codes, ℕ, ◌+◌, ◌*◌, ◌/◌, ◌≡◌, refl, Bool, true, Option, some, List, [], ◌∷◌, take, arith,
}
use falcon_plus_learn.Base.Int.{
  ℤ, pos, negsuc, pos_part, neg_part, ltb_ℤ, leb_ℤ, eqb_ℤ, add64, sub64,
}
use falcon_plus_learn.Base.Float.{Float}
use falcon_plus_learn.Base.Map.{Map, lookup, insert, lookup-insert}
use falcon_plus_learn.Base.Containers.{SafeMap, IsSafeMap, ListLimited, IsListLimited, head_of}
use falcon_plus_learn.Nodata.Collector.{DataItem}
use falcon_plus_learn.Nodata.Collector.First.{AreShort}
use falcon_plus_learn.Nodata.Status.{NodataStatus}
use falcon_plus_learn.Nodata.Judge.{NodataConfig, JsonMetaData, Board, Bounds, judge_item_of}
use falcon_plus_learn.Nodata.Judge.Turns.{Outcome, judge_item_of-Outcome}
use falcon_plus_learn.Nodata.Sender.{send_loop}
use falcon_plus_learn.Nodata.Sender.Batches.{IsComplete, send_loop-IsComplete}

abbrev five_mocks : List (Option ℕ)
five_mocks = some 1 ∷ some 2 ∷ some 3 ∷ some 4 ∷ some 5 ∷ []

abbrev accept_all : List ℕ → Bool
accept_all items = true

send_loop-IsComplete_example :
    IsComplete 2 accept_all five_mocks (send_loop 5 (pos 2) accept_all five_mocks)
send_loop-IsComplete_example =
    send_loop-IsComplete 5 2 accept_all five_mocks (omega arith) (omega arith)

-- The containers as lists.
abbrev items_map : SafeMap (Map (ℕ × List (DataItem ℤ))) (ℕ × List (DataItem ℤ))
items_map = record { get = lookup; put = insert }

items_map-IsSafeMap : IsSafeMap items_map
items_map-IsSafeMap = record { get-put = λ k j x m. lookup-insert k j x m }

abbrev items_list : ListLimited (ℕ × List (DataItem ℤ)) (DataItem ℤ)
items_list = record {
  new_list = λ n. (n, []);
  front = λ l. head_of l.1;
  front_all = λ l. l.1;
  push_front_violently = λ x l. (l.0, take l.0 (x ∷ l.1));
}

items_list-IsListLimited : IsListLimited items_list
items_list-IsListLimited = record {
  limit = λ l. l.0;
  limit-new = λ n. refl;
  limit-push = λ x l. refl;
  all-new = λ n. refl;
  front_first = λ l. refl;
  all-push = λ x l h. refl;
}

no_items-AreShort : AreShort items_map items_list items_map-IsSafeMap items_list-IsListLimited []
no_items-AreShort = record { short = λ k l e. absurd (nothing k l e) }
  where
    nothing : (k : Text) (l : ℕ × List (DataItem ℤ)) → lookup k [] ≡ some l → ⊥
    nothing k l e = unfold lookup in cc

abbrev late_item : DataItem ℤ
late_item = record { ts = pos 100; value = pos 5; f_status = codes "OK"; f_ts = pos 990 }

-- Whole numbers in the place of floats.
abbrev whole_numbers : Float ℤ
whole_numbers = record {
  add = add64;
  sub = sub64;
  mul = λ a b. pos (pos_part a * pos_part b);
  div = λ a b. pos (pos_part a / pos_part b);
  abs = λ a. pos (pos_part a + neg_part a);
  lt = ltb_ℤ;
  le = leb_ℤ;
  eq = eqb_ℤ;
  of_int = λ n. n;
  epsilon = pos 1;
}

abbrev around_zero : Bounds ℤ
around_zero = record { min_float = pos 1; neg_min_float = negsuc 0 }

abbrev status_map : SafeMap (Map NodataStatus) NodataStatus
status_map = record { get = lookup; put = insert }

status_map-IsSafeMap : IsSafeMap status_map
status_map-IsSafeMap = record { get-put = λ k j x m. lookup-insert k j x m }

abbrev mock_map : SafeMap (Map (JsonMetaData ℤ)) (JsonMetaData ℤ)
mock_map = record { get = lookup; put = insert }

mock_map-IsSafeMap : IsSafeMap mock_map
mock_map-IsSafeMap = record { get-put = λ k j x m. lookup-insert k j x m }

abbrev alive_config : NodataConfig ℤ
alive_config = record {
  id = pos 1;
  name = codes "alive";
  obj_type = codes "host";
  endpoint = codes "h1";
  metric = codes "agent.alive";
  tags = [];
  ds_type = codes "GAUGE";
  step = pos 60;
  mock = negsuc 0;
}

abbrev empty_board : Board (Map NodataStatus) (Map (JsonMetaData ℤ))
empty_board = record { statuses = []; mocks = [] }

judge_item_of-Outcome_example :
    Outcome whole_numbers around_zero status_map mock_map status_map-IsSafeMap mock_map-IsSafeMap
      (pos 1000)
      (codes "k")
      alive_config
      late_item
      empty_board
      (judge_item_of whole_numbers around_zero status_map mock_map
        (pos 1000)
        (codes "k")
        alive_config
        late_item
        empty_board)
judge_item_of-Outcome_example =
    judge_item_of-Outcome whole_numbers around_zero status_map mock_map status_map-IsSafeMap
      mock_map-IsSafeMap (pos 1000) (codes "k") alive_config late_item empty_board
