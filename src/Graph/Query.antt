-- ===== src/Graph/Query.antt =====
-- modules/graph/api/graph.go: `Query` merges the points of the file on the disk with the cached items.
-- What `rrdtool.Fetch` or the other node gives is an argument.
pub mod Loops
pub mod Merged
pub mod Series
pub mod Gauge
pub mod Derive
use falcon_plus_learn.Base.{
  Text, codes, text_eq, ℕ, zero, suc, ◌+◌, ◌-◌, ◌%◌, ◌/◌, ◌==◌, ltb, Bool, true, false, not, ◌&&◌,
  ◌||◌, Option, none, some, List, [], ◌∷◌, ◌++◌, length, if◌then◌else◌, ◌>>=◌,
}
use falcon_plus_learn.Base.Int.{
  ℤ, pos, negsuc, pos_part, neg_part, sub_ℕ, ltb_ℤ, leb_ℤ, eqb_ℤ, ◌-ℤ◌, add64, sub64, mul64, rem64,
}
use falcon_plus_learn.Base.Float.{Float}
use falcon_plus_learn.Graph.LinkedList.{GraphItem, back}
use falcon_plus_learn.Graph.Store.{GraphItemMap, set_elem, fetch_all_at}
use falcon_plus_learn.Graph.Keys.{form_rrd_cache_key, rrd_file_name}
use falcon_plus_learn.Graph.Api.{RrdData}

pub record GraphQueryParam : Type 0 where
  pub start : ℤ
  pub end : ℤ
  pub consol_fun : Text
  pub endpoint : Text
  pub counter : Text
  pub step : ℤ

pub record GraphQueryResponse (V : Type 0) : Type 0 where
  pub endpoint : Text
  pub counter : Text
  pub ds_type : Text
  pub step : ℤ
  pub values : List (RrdData V)

-- `math.NaN()`, the test for it, and 0.
pub record Special (V : Type 0) : Type 0 where
  pub nan : V
  pub is_nan : V → Bool
  pub zero_value : V

abbrev pub same_sign : ℤ → ℤ → Bool
same_sign (pos a) (pos b) = true
same_sign (negsuc a) (negsuc b) = true
same_sign _ _ = false

-- Go's `/`, towards 0; the divisor is not 0.
unfoldable pub quot64 : ℤ → ℤ → ℤ
quot64 a b =
    let q = (pos_part a + neg_part a) / (pos_part b + neg_part b) in
    if same_sign a b then pos q else sub_ℕ 0 q

-- The size of a slice; a negative one is a panic.
abbrev pub size_of : ℤ → Option ℕ
size_of (pos n) = some n
size_of (negsuc n) = none

module _ {V : Type 0} (F : Float V) (special : Special V) (step : ℤ) where
  -- The rest of the items, from `itemIdx` on, begins with two that are a step apart.
  abbrev pub is_rate : ℤ → List (GraphItem V) → Bool
  is_rate ts [] = false
  is_rate ts (x ∷ []) = false
  is_rate ts (x ∷ y ∷ l) = eqb_ℤ ts x.timestamp && eqb_ℤ ts (sub64 y.timestamp step)

  abbrev pub rate_of : GraphItem V → GraphItem V → V
  rate_of x y =
      let val = F.div (F.sub y.value x.value) (F.of_int step) in
      if F.lt val special.zero_value then special.nan else val

  abbrev pub rate_value : ℤ → List (GraphItem V) → V
  rate_value ts [] = special.nan
  rate_value ts (x ∷ []) = special.nan
  rate_value ts (x ∷ y ∷ l) = if is_rate ts (x ∷ y ∷ l) then rate_of x y else special.nan

  abbrev pub tail_if : Bool → List (GraphItem V) → List (GraphItem V)
  tail_if true (x ∷ l) = l
  tail_if _ l = l

  abbrev pub is_point : ℤ → List (GraphItem V) → Bool
  is_point ts [] = false
  is_point ts (x ∷ l) = eqb_ℤ ts x.timestamp

  abbrev pub point_value : ℤ → List (GraphItem V) → V
  point_value ts [] = special.nan
  point_value ts (x ∷ l) = if eqb_ℤ ts x.timestamp then x.value else special.nan

  abbrev pub in_window : ℤ → ℤ → ℤ → Bool
  in_window start_ts end_ts ts = leb_ℤ start_ts ts && leb_ℤ ts end_ts

  abbrev pub point : ℤ → V → RrdData V
  point ts val = record { timestamp = ts; value = val }

  abbrev pub cons_window : ℤ → ℤ → RrdData V → List (RrdData V) → List (RrdData V)
  cons_window start_ts end_ts p l = if in_window start_ts end_ts p.timestamp then p ∷ l else l

  module _ (start_ts end_ts item_end_ts : ℤ) where
    -- The two loops over the cached items, for a number of rounds; `none` is that they do not end
    -- within these.
    unfoldable pub rate_loop : ℕ → ℤ → List (GraphItem V) → Option (List (RrdData V))
    unfolding add64 sub64
    rate_loop zero ts items = none
    rate_loop (suc n) ts items = elim (ltb_ℤ ts item_end_ts) [
      | false ↦ some []
      | true ↦ do
        l ← rate_loop n (add64 ts step) (tail_if (is_rate ts items) items)
        some (cons_window start_ts end_ts (point ts (rate_value ts items)) l)
    ]

    unfoldable pub point_loop : ℕ → ℤ → List (GraphItem V) → Option (List (RrdData V))
    unfolding add64
    point_loop zero ts items = none
    point_loop (suc n) ts items = elim (leb_ℤ ts item_end_ts) [
      | false ↦ some []
      | true ↦ do
        l ← point_loop n (add64 ts step) (tail_if (is_point ts items) items)
        some (cons_window start_ts end_ts (point ts (point_value ts items)) l)
    ]

  -- Rounds that are enough for a loop in positive steps from `ts` to `end`.
  abbrev pub rounds : ℤ → ℤ → ℕ
  rounds ts end = suc (suc (pos_part (end -ℤ ts)))

  -- `cache`
  unfoldable pub cached_points : Text → ℤ → ℤ → List (GraphItem V) → Option (List (RrdData V))
  unfolding rate_loop point_loop back text_eq ◌-ℤ◌
  cached_points ds_type start_ts end_ts [] = none
  cached_points ds_type start_ts end_ts (x ∷ items) = do
    last ← back (x ∷ items)
    if text_eq ds_type (codes "DERIVE") || text_eq ds_type (codes "COUNTER")
        then rate_loop start_ts end_ts last.timestamp (rounds x.timestamp last.timestamp)
            x.timestamp (x ∷ items)
        else if text_eq ds_type (codes "GAUGE")
        then point_loop start_ts end_ts last.timestamp (rounds x.timestamp last.timestamp)
            x.timestamp (x ∷ items)
        else some []

  -- The points of the file that are in the window.
  unfoldable pub window_points : ℤ → ℤ → List (RrdData V) → List (RrdData V)
  window_points start_ts end_ts [] = []
  window_points start_ts end_ts (p ∷ l) =
      cons_window start_ts end_ts p (window_points start_ts end_ts l)

  -- One more than the index of the last point before `t`, or 0; and the time of that point.
  unfoldable pub junction : ℤ → List (RrdData V) → ℕ
  junction t [] = 0
  junction t (p ∷ l) =
      let j = junction t l in if j == 0 then (if ltb_ℤ p.timestamp t then 1 else 0) else suc j

  unfoldable pub junction_ts : ℤ → List (RrdData V) → ℤ
  unfolding junction
  junction_ts t [] = t
  junction_ts t (p ∷ l) =
      let later = junction_ts t l in
      if junction t l == 0 then (if ltb_ℤ p.timestamp t then p.timestamp else t) else later

  -- The loop `fix missing`, for a number of rounds.
  unfoldable pub missing_loop : ℕ → ℤ → ℤ → Option (List (RrdData V))
  unfolding add64
  missing_loop zero ts t = none
  missing_loop (suc n) ts t = elim (ltb_ℤ ts t) [
    | false ↦ some []
    | true ↦ do l ← missing_loop n (add64 ts step) t; some (point ts special.nan ∷ l)
  ]

  -- The loop `merge cached items to result`; `size` is the number of points of the file.
  unfoldable pub place : ℕ → ℕ → List (RrdData V) → List (RrdData V) → List (RrdData V)
  unfolding set_elem
  place size idx [] merged = merged
  place size idx (c ∷ cache) merged = place size (suc idx) cache (
      if ltb idx size
      then (if special.is_nan c.value then merged else set_elem idx c merged)
      else merged ++ (c ∷ []))

  unfoldable pub merge : List (RrdData V) → List (RrdData V) → Option (List (RrdData V))
  unfolding junction junction_ts missing_loop place add64 ◌-ℤ◌
  merge datas [] = some datas
  merge datas (c ∷ cache) = do
    let next = add64 (junction_ts c.timestamp datas) step
    fixed ← missing_loop (rounds next c.timestamp) next c.timestamp
    some (place (length datas) (junction c.timestamp datas) (c ∷ cache) (datas ++ fixed))

  -- The loop `fmt result`: a point for each step from `ts` on.
  unfoldable pub format : ℕ → ℤ → List (RrdData V) → List (RrdData V)
  unfolding add64
  format zero ts merged = []
  format (suc n) ts [] = point ts special.nan ∷ format n (add64 ts step) []
  format (suc n) ts (p ∷ merged) = elim (eqb_ℤ ts p.timestamp) [
    | true ↦ p ∷ format n (add64 ts step) merged
    | false ↦ point ts special.nan ∷ format n (add64 ts step) (p ∷ merged)
  ]

  unfoldable pub ret_size : Text → ℤ → ℤ → Option ℕ
  unfolding quot64 sub64 text_eq
  ret_size ds_type start_ts end_ts =
      let n = quot64 (sub64 end_ts start_ts) step in
      size_of (if text_eq ds_type (codes "GAUGE") then add64 n (pos 1) else n)

  -- The values of the response, from the points of the file and the cached items.
  unfoldable pub merged_values :
      Text → ℤ → ℤ → List (RrdData V) → List (GraphItem V) → Option (List (RrdData V))
  unfolding cached_points window_points merge format ret_size
  merged_values ds_type start_ts end_ts datas items = do
    cache ← cached_points ds_type start_ts end_ts items
    merged ← merge (window_points start_ts end_ts datas) cache
    n ← ret_size ds_type start_ts end_ts
    some (format n start_ts merged)

-- What `Query` takes from elsewhere: the directory, the file and the node that had the counter.
pub record Points (V : Type 0) : Type 0 where
  pub storage : Text
  pub migrate_enabled : Bool
  pub fetch : Text → Text → ℤ → ℤ → ℤ → List (RrdData V)
  pub fetch_remote : GraphQueryParam → List (RrdData V)

module _ {V : Type 0} (F : Float V) (special : Special V) (points : Points V) (hash_key : Text → ℕ)
    (md5_of : Text → Text) where
  abbrev pub is_empty : List (GraphItem V) → Bool
  is_empty [] = true
  is_empty (x ∷ l) = false

  abbrev pub values_at :
      ℤ → GraphQueryParam → Text → ℤ → ℤ → ℤ → GraphItemMap V → Option (List (RrdData V))
  values_at now param ds_type step start_ts end_ts store = do
    let md5 = md5_of (param.endpoint ++ (b'/' ∷ param.counter))
    filename ← rrd_file_name points.storage md5 ds_type step
    fetched ← fetch_all_at hash_key (form_rrd_cache_key md5 ds_type step) store
    let local = points.fetch filename param.consol_fun (sub64 start_ts step) end_ts step
    let datas =
        if points.migrate_enabled && (fetched.1 % 2 == 1) then points.fetch_remote param else local
    let rra1_start_ts = sub64 (sub64 now (rem64 now step)) (mul64 step 720)
    if ltb_ℤ start_ts rra1_start_ts || is_empty fetched.0
        then some datas
        else merged_values F special step ds_type start_ts end_ts datas fetched.0

  -- `Query`, after the type and step of the counter were looked up; a step of 0 is a division by
  -- zero.
  unfoldable pub query :
      ℤ → GraphQueryParam → Option (Text × ℤ) → GraphItemMap V → Option (GraphQueryResponse V)
  unfolding merged_values rrd_file_name form_rrd_cache_key fetch_all_at add64 sub64 mul64 rem64
  query now param none store = some (record {
    endpoint = param.endpoint;
    counter = param.counter;
    ds_type = [];
    step = pos 0;
    values = [];
  })
  query now param (some (ds_type, step)) store = if eqb_ℤ step (pos 0) then none else do
    let start_ts = sub64 param.start (rem64 param.start step)
    let end_ts = add64 (sub64 param.end (rem64 param.end step)) step
    values ←
        if ltb_ℤ (sub64 (sub64 end_ts start_ts) step) (pos 1)
        then some []
        else values_at now param ds_type step start_ts end_ts store
    some (record {
      endpoint = param.endpoint;
      counter = param.counter;
      ds_type = ds_type;
      step = step;
      values = values;
    })
