-- ===== src/Graph/Tests/Query.antt =====
-- Runs of modules/graph/api, g/utils.go and index/cache.go on concrete items.
use falcon_plus_learn.Base.{
  Text, codes, text_eq, ℕ, ◌+◌, ◌*◌, ◌≡◌, refl, true, Option, none, some, List, [], ◌∷◌, length,
  arith, All,
}
use falcon_plus_learn.Base.Int.{
  ℤ, pos, negsuc, add64, sub64, ltb_ℤ, leb_ℤ, eqb_ℤ, pos_part, neg_part,
}
use falcon_plus_learn.Base.Float.{Float}
use falcon_plus_learn.Base.Map.{Map, lookup, insert, lookup-insert}
use falcon_plus_learn.Base.Containers.{SafeMap, IsSafeMap}
use falcon_plus_learn.Graph.LinkedList.{GraphItem, back}
use falcon_plus_learn.Graph.Index.{Row, row, counter_key}
use falcon_plus_learn.Graph.Api.{Outside, GraphState, RrdData}
use falcon_plus_learn.Graph.Query.{Special, cached_points, merged_values}
use falcon_plus_learn.Graph.Query.Merged.{IsSeries, HasTime, Known}
use falcon_plus_learn.Graph.Query.Series.{size_for, merged_values-IsSeries}
use falcon_plus_learn.Graph.Query.Derive.{cached_points-AreNan}
use falcon_plus_learn.Graph.Query.Gauge.{IsGrid, IsRight, Shows, cached_points-gauge}
use falcon_plus_learn.Graph.Tests.{item_at, no_files, list_map, cut_list}

abbrev text_map : SafeMap (Map Text) Text
text_map = record { get = lookup; put = insert }

text_map-IsSafeMap : IsSafeMap text_map
text_map-IsSafeMap = record { get-put = λ k j x m. lookup-insert k j x m }

abbrev one_row : ℤ → Text → Row (Text × ℤ)
one_row endpoint_id counter = row (codes "G", pos 60)

abbrev no_texts : Map Text
no_texts = []

nothing_cached : lookup (counter_key (pos 3) (codes "cpu")) no_texts ≡ none
nothing_cached = unfold lookup in refl

abbrev outside : Outside ℤ (Map (ℕ × List (GraphItem ℤ))) (ℕ × List (GraphItem ℤ))
outside = record {
  hash_key = λ key. 0;
  md5 = λ t. t;
  runes = λ t. t;
  is_print = λ c. true;
  files = no_files;
  history_map = list_map;
  history_list = cut_list;
}

abbrev empty_graph : GraphState ℤ (Map (ℕ × List (GraphItem ℤ)))
empty_graph = record {
  store = record { a = [] ∷ []; size = 1 };
  index = record { indexed = []; unindexed = [] };
  history = [];
}

abbrev three_received : List (Option (GraphItem ℤ))
three_received =
    some (item_at (pos 60) (pos 3))
    ∷ none
    ∷ some (item_at (pos 120) (pos 4))
    ∷ some (item_at (pos 60) (pos 9))
    ∷ []

-- Whole numbers in the place of floats, with -1 for NaN.
abbrev whole_values : Float ℤ
whole_values = record {
  add = add64;
  sub = sub64;
  mul = λ a b. pos (pos_part a * pos_part b);
  div = λ a b. a;
  abs = λ a. pos (pos_part a + neg_part a);
  lt = ltb_ℤ;
  le = leb_ℤ;
  eq = eqb_ℤ;
  of_int = λ n. n;
  epsilon = pos 1;
}

abbrev minus_one : Special ℤ
minus_one = record { nan = negsuc 0; is_nan = λ v. eqb_ℤ v (negsuc 0); zero_value = pos 0 }

abbrev on_disk : List (RrdData ℤ)
on_disk =
    record { timestamp = pos 60; value = pos 1 }
    ∷ record { timestamp = pos 120; value = pos 2 }
    ∷ []

abbrev two_items : List (GraphItem ℤ)
two_items = item_at (pos 180) (pos 3) ∷ item_at (pos 300) (pos 5) ∷ []

two_items-HaveTime : All HasTime two_items
two_items-HaveTime = ((180, refl, omega arith), ((300, refl, omega arith), tt))

merged_values-IsSeries_example :
    (values : List (RrdData ℤ)) × (cache : List (RrdData ℤ)) × (merged_values whole_values minus_one
        (pos 60)
        (codes "GAUGE")
        (pos 60)
        (pos 300)
        on_disk
        two_items
      ≡ some values)
    × (cached_points whole_values minus_one (pos 60) (codes "GAUGE") (pos 60) (pos 300) two_items
        ≡ some cache)
    × IsSeries 60 60 values
    × (length values ≡ size_for whole_values minus_one 60 (omega arith) (codes "GAUGE") 60 300)
    × All (Known whole_values minus_one 60 (omega arith) on_disk cache) values
merged_values-IsSeries_example =
    merged_values-IsSeries whole_values minus_one 60 (omega arith) 60 300 (codes "GAUGE") on_disk
      (item_at (pos 180) (pos 3)) (item_at (pos 300) (pos 5) ∷ []) (omega arith) (omega arith)
      (omega arith) two_items-HaveTime

-- The file, a gap, and the cached items.
merged_values_run :
    merged_values whole_values minus_one
      (pos 60)
      (codes "GAUGE")
      (pos 60)
      (pos 300)
      on_disk
      two_items
    ≡ some (
        record { timestamp = pos 60; value = pos 1 }
        ∷ record { timestamp = pos 120; value = pos 2 }
        ∷ record { timestamp = pos 180; value = pos 3 }
        ∷ record { timestamp = pos 240; value = negsuc 0 }
        ∷ record { timestamp = pos 300; value = pos 5 }
        ∷ [])
unfolding merged_values
merged_values_run = refl

cached_points-AreNan_example :
    (l : List (RrdData ℤ)) × (cached_points whole_values minus_one
        (pos 60)
        (codes "COUNTER")
        (pos 60)
        (pos 900)
        (item_at (pos 180) (pos 3) ∷ item_at (pos 300) (pos 5) ∷ item_at (pos 360) (pos 7) ∷ [])
      ≡ some l)
    × All (λ p. p.value ≡ negsuc 0) l
unfolding text_eq sub64
cached_points-AreNan_example =
    cached_points-AreNan whole_values minus_one 60 (omega arith) (item_at (pos 180) (pos 3))
      (item_at (pos 300) (pos 5)) (item_at (pos 360) (pos 7) ∷ []) (pos 60) (pos 900)
      (codes "COUNTER") (omega arith) refl
      ((180, refl, omega arith), ((300, refl, omega arith), ((360, refl, omega arith), tt))) refl

two_items-IsGrid : IsGrid 60 300 180 two_items
two_items-IsGrid = (0, refl, omega arith, (1, refl, omega arith, tt))

cached_points-gauge_example :
    (l : List (RrdData ℤ)) × (cached_points whole_values minus_one
        (pos 60)
        (codes "GAUGE")
        (pos 60)
        (pos 900)
        two_items
      ≡ some l)
    × All (IsRight whole_values minus_one 60 (omega arith) 180 two_items) l
    × Shows whole_values minus_one 60 (omega arith) (pos 60) (pos 900) two_items l
unfolding back
cached_points-gauge_example =
    cached_points-gauge whole_values minus_one 60 (omega arith) (pos 60) (pos 900) 300 (omega arith)
      180 (item_at (pos 180) (pos 3)) (item_at (pos 300) (pos 5)) (item_at (pos 300) (pos 5) ∷ [])
      refl refl refl two_items-IsGrid
